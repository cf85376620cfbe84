-- ===== src/Tests/SignIn.antt =====
-- Logins: a lockout, a replayed state, and a policy with three lists.
use kotoji.Prelude.{◌+◌, ◌≤◌, ◌≡◌, refl, ◌↔◌, true, false, none, List, [], ◌∷◌, arith}
use kotoji.Auth.Access.{new_access_policy, decide}
use kotoji.Auth.Access.Policy.{Names, IsPermitted, decide_iff}
use kotoji.Auth.Lockout.{
  check, maybe_sweep, run, locked, failure_delay, failure, LoginLockout, apply, new_login_lockout,
  record_failure,
}
use kotoji.Auth.Lockout.Counting.{failing, IsStandard}
use kotoji.Auth.Lockout.Holding.{lockout_holds}
use kotoji.Auth.SingleUse.{
  MemSingleUseStore, expiry, consume, consume_all, new_mem_single_use_store,
}
use kotoji.Auth.SingleUse.Bounds.{IsWellFormed}
use kotoji.Auth.SingleUse.Replay.{replay_rejected}
use kotoji.Tests.{plain, blog, draft}
use kotoji.Text.{last_index_byte, bytes_eq, Bytes, lower_trim, codes, mem}

abbrev locked_out : LoginLockout
locked_out = run (new_login_lockout 0) (failing blog (1 ∷ 2 ∷ 3 ∷ 4 ∷ []))

fifth_failure : (record_failure locked_out blog 5).1 ≡ 1_000_000_000
unfolding record_failure maybe_sweep run apply new_login_lockout bytes_eq failure_delay
fifth_failure = refl

lockout_holds_example :
    ((locked
        (run (record_failure locked_out blog 5).0 ((7, failure draft) ∷ (8, check blog) ∷ []))
        blog
        9).1
      ≡ true)
    × (5 + (record_failure locked_out blog 5).1
        ≤ 9
          + (locked
              (run (record_failure locked_out blog 5).0 ((7, failure draft) ∷ (8, check blog) ∷ []))
              blog
              9).2)
lockout_holds_example =
    lockout_holds locked_out blog 5 9 ((7, failure draft) ∷ (8, check blog) ∷ [])
      (omega (arith, fifth_failure)) (ground (arith, fifth_failure)) (omega (arith, fifth_failure))

new-IsStandard : IsStandard (new_login_lockout 0)
unfolding new_login_lockout
new-IsStandard = record { threshold = refl; base = refl; max = refl; ttl = refl }

no_entry : (new_login_lockout 0).entries blog ≡ none
unfolding new_login_lockout
no_entry = refl

abbrev guard : MemSingleUseStore
guard = new_mem_single_use_store 0

first_use : (consume guard blog 600 10).1 ≡ true
unfolding consume expiry new_mem_single_use_store
first_use = refl

replay_rejected_example :
    (consume
      (consume_all (consume guard blog 600 10).0 (record { key = draft; ttl = 600; now = 20 } ∷ []))
      blog
      600
      30).1
    ≡ false
replay_rejected_example =
    replay_rejected guard blog 600 10 600 30 (record { key = draft; ttl = 600; now = 20 } ∷ [])
      first_use (ground arith) (omega arith)

guard-IsWellFormed : IsWellFormed guard
guard-IsWellFormed =
    unfold new_mem_single_use_store in record { unique = tt; bounded = omega arith }

abbrev domains : List Bytes
domains = codes " Ko.to " ∷ []

abbrev admins : List Bytes
admins = codes "Ann@ko.to" ∷ []

admin_signs_in :
    decide plain (new_access_policy plain [] domains admins) (codes "ann@ko.to") []
    ≡ record { allow = true; admin = true }
unfolding decide new_access_policy lower_trim mem bytes_eq last_index_byte
admin_signs_in = refl

decide_iff_example :
    (((decide plain (new_access_policy plain [] domains admins) (codes "ann@ko.to") []).allow
        ≡ true)
      ↔ IsPermitted plain [] domains (codes "ann@ko.to") [])
    × (((decide plain (new_access_policy plain [] domains admins) (codes "ann@ko.to") []).admin
          ≡ true)
        ↔ (IsPermitted plain [] domains (codes "ann@ko.to") []
            × Names plain admins (lower_trim plain (codes "ann@ko.to"))))
decide_iff_example = decide_iff plain [] domains admins (codes "ann@ko.to") []
