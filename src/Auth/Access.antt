-- ===== src/Auth/Access.antt =====
-- backend/internal/auth/access.go: who may sign in. A Go set of strings is the list of its members,
-- where a repetition changes nothing that the policy reads.
pub mod Policy
use kotoji.Prelude.{
  ◌==◌, if◌then◌else◌, length, drop, ℕ, ◌+◌, ◌-◌, Bool, true, false, ◌&&◌, ◌||◌, not, Option, none,
  some, List, [], ◌∷◌,
}
use kotoji.Text.{mem, last_index_byte, Bytes, to_lower, Unicode, is_empty, lower_trim}

pub record AccessDecision : Type 0 where
  pub allow : Bool
  pub admin : Bool

pub record AccessPolicy : Type 0 where
  pub emails : List Bytes
  pub domains : List Bytes
  pub admins : List Bytes

-- `toLowerSet`.
unfoldable pub to_lower_set : Unicode → List Bytes → List Bytes
to_lower_set u [] = []
to_lower_set u (v ∷ vs) =
    let w = lower_trim u v in let rest = to_lower_set u vs in if is_empty w then rest else w ∷ rest

unfoldable pub new_access_policy : Unicode → List Bytes → List Bytes → List Bytes → AccessPolicy
unfolding to_lower_set
new_access_policy u allowed_emails allowed_domains admin_emails = record {
  emails = to_lower_set u allowed_emails;
  domains = to_lower_set u allowed_domains;
  admins = to_lower_set u admin_emails;
}

abbrev domain_after : Unicode → Bytes → Option ℕ → Bytes
domain_after u email none = []
domain_after u email (some at) =
    if at == length email - 1 then [] else to_lower u (drop (at + 1) email)

-- `emailDomain`: "" for a malformed address.
unfoldable pub email_domain : Unicode → Bytes → Bytes
email_domain u email = domain_after u email (last_index_byte email b'@')

abbrev pub no_members : List Bytes → Bool
no_members [] = true
no_members (_ ∷ _) = false

abbrev email_allows : AccessPolicy → Bytes → Bool
email_allows p email = not (no_members p.emails) && mem email p.emails

abbrev domain_allows : Unicode → AccessPolicy → Bytes → Bytes → Bool
domain_allows u p email hd =
    not (no_members p.domains)
    && (mem (email_domain u email) p.domains || not (is_empty hd) && mem hd p.domains)

abbrev denied : AccessDecision
denied = record { allow = false; admin = false }

-- `decide`, with the address and the claim normalised.
unfoldable pub decide_normal : Unicode → AccessPolicy → Bytes → Bytes → AccessDecision
unfolding email_domain
decide_normal u p email hd =
    if no_members p.emails && no_members p.domains
    then denied
    else if not (email_allows p email || domain_allows u p email hd)
    then denied
    else record { allow = true; admin = mem email p.admins }

unfoldable pub decide : Unicode → AccessPolicy → Bytes → Bytes → AccessDecision
unfolding decide_normal
decide u p email hd = decide_normal u p (lower_trim u email) (lower_trim u hd)
