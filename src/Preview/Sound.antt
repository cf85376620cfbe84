-- ===== src/Preview/Sound.antt =====
-- What an accepted token and an admitted request have.
use kotoji.Prelude.{
  ltb, ltb→lt, take, drop, ok, then-ok, ok-injective, ℕ, suc, ◌*◌, ◌<◌, ◌≡◌, refl, sym, ap, ◌∙◌,
  subst, Bool, true, false, Option, none, some, List, [], ◌∷◌, ◌++◌, arith,
}
use kotoji.Preview.{
  three, parse_payload, Codec, Grant, or_unauthorized, verify_grant, require, second,
}
use kotoji.Preview.Splitting.{last_index_byte_sound, join_with-split}
use kotoji.Text.{last_index_byte, join_with, bytes_eq, Bytes, split}
use kotoji.Text.Laws.{bytes_eq_iff}

-- A text that spells a grant: the id, the branch and the second of its expiry, between colons.
abbrev pub Spells : Codec → Bytes → Grant → Type 0
Spells k p g =
    (a : Bytes) × (c : Bytes) × (n : ℕ) × (p ≡ a ++ b':' ∷ (g.branch ++ b':' ∷ c))
    × (k.parse_id a ≡ some g.site_id)
    × (k.parse_int c ≡ some n)
    × (g.exp ≡ n * second)

-- A token with a signature of what spells the grant, which has not expired.
abbrev pub IsSigned : Codec → ℕ → Bytes → Grant → Type 0
IsSigned k now token g =
    (p : Bytes) × (sig : Bytes) × (token ≡ p ++ b':' ∷ sig)
    × (k.decode sig ≡ some (k.mac p))
    × Spells k p g
    × (now < g.exp)

or_unauthorized-ok : {A : Type 0} (o : Option A) (a : A) → or_unauthorized o ≡ ok a → o ≡ some a
or_unauthorized-ok none a h = ground arith
or_unauthorized-ok (some x) a h = ground arith

require-ok : (c : Bool) (a : Unit {0}) → require c ≡ ok a → c ≡ true
require-ok true a h = refl
require-ok false a h = ground arith

three-some : (ts : List Bytes) (a b c : Bytes) → three ts ≡ some (a, b, c) → ts ≡ a ∷ b ∷ c ∷ []
three-some [] a b c h = ground arith
three-some (x ∷ []) a b c h = ground arith
three-some (x ∷ y ∷ []) a b c h = ground arith
three-some (x ∷ y ∷ z ∷ []) a b c h = ground arith
three-some (x ∷ y ∷ z ∷ t ∷ ts) a b c h = ground arith

module _ (k : Codec) (now : ℕ) where
  abbrev Accepts : Bytes → Grant → Type 0
  Accepts p g = Spells k p g × (now < g.exp)

  spelled :
      (p a b c id : Bytes) (n : ℕ)
      → split b':' p ≡ a ∷ b ∷ c ∷ []
      → k.parse_id a ≡ some id
      → k.parse_int c ≡ some n
      → now < n * second
      → Accepts p (record { site_id = id; branch = b; exp = n * second })
  spelled p a b c id n e parsed unix fresh =
      let whole : p ≡ a ++ b':' ∷ (b ++ b':' ∷ c) =
        sym (join_with-split b':' p) ∙ ap (join_with b':') e ∙ (unfold join_with in refl) in
      ((a, c, n, whole, parsed, unix, refl), fresh)

  parse_payload-Spells : (p : Bytes) (g : Grant) → parse_payload k now p ≡ ok g → Accepts p g
  unfolding parse_payload
  parse_payload-Spells p g h =
      let ((a, b, c), split3, h) = then-ok (or_unauthorized (three (split b':' p))) _ g h in
      let (id, parsed, h) = then-ok (or_unauthorized (k.parse_id a)) _ g h in
      let (n, unix, h) = then-ok (or_unauthorized (k.parse_int c)) _ g h in
      let (u, fresh, h) = then-ok (require (ltb now (n * second))) _ g h in
      subst (Accepts p) (ok-injective _ _ h) (
        spelled p a b c id n (three-some (split b':' p) a b c (or_unauthorized-ok _ _ split3))
          (or_unauthorized-ok _ id parsed) (or_unauthorized-ok _ n unix)
          (ltb→lt now (n * second) (require-ok _ u fresh)))

  -- A token is accepted only if it is a text and the signature of that text, the text spells the grant
  -- that is given back, and the grant has not expired.
  pub verify_grant_sound :
      (token : Bytes) (g : Grant) → verify_grant k now token ≡ ok g → IsSigned k now token g
  unfolding verify_grant
  verify_grant_sound token g h =
      let (i, found, h) = then-ok (or_unauthorized (last_index_byte token b':')) _ g h in
      let (sig, decoded, h) = then-ok (or_unauthorized (k.decode (drop (suc i) token))) _ g h in
      let (u, same, h) = then-ok (require (bytes_eq sig (k.mac (take i token)))) _ g h in
      let (spelled, fresh) = parse_payload-Spells (take i token) g h in
      (
        take i token,
        drop (suc i) token,
        last_index_byte_sound token b':' i (or_unauthorized-ok _ i found),
        or_unauthorized-ok _ sig decoded
            ∙ ap some ((bytes_eq_iff sig (k.mac (take i token))).0 (require-ok _ u same)),
        spelled,
        fresh,
      )
