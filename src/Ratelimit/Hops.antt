-- ===== src/Ratelimit/Hops.antt =====
-- The key cannot be forged: what a client puts in front of the proxies' tokens changes nothing.
use native.Mathlib.Nat.{le_refl}
use kotoji.Prelude.{
  ◌==◌, if◌then◌else◌, Bool-cases, Option-cases, length, take, drop, length-append, All,
  take-length, drop-length, drop-add, ℕ, zero, suc, ◌+◌, ◌≤◌, ◌<◌, ◌≡◌, refl, sym, ap, ◌∙◌, subst,
  ◌≢◌, ◌↔◌, ◌⊎◌, inl, inr, true, none, some, List, [], ◌∷◌, ◌++◌, append_assoc, append-nil, arith,
}
use kotoji.Ratelimit.ClientIp.{
  trim_blanks, nth_before, last_index_comma, is_comma_at, Origin, nth_from_right, remote_host,
  client_ip_hops,
}
use kotoji.Text.{last_index_byte, is_empty, Bytes}
use kotoji.Text.Laws.{last_index_byte-none, last_index_byte-append}

last_index_byte-snoc :
    (s : Bytes) (c b : ℕ)
    → last_index_byte (s ++ c ∷ []) b ≡ (if c == b then some (length s) else last_index_byte s b)
unfolding last_index_byte
last_index_byte-snoc [] c b = ground arith
last_index_byte-snoc (d ∷ s) c b = ground (arith, last_index_byte-snoc s c b)

take-suc-comma :
    (s : Bytes) (i : ℕ)
    → i < length s
    → (c : ℕ) × (take (suc i) s ≡ take i s ++ c ∷ []) × (is_comma_at s i ≡ (c == b','))
take-suc-comma [] i h = absurd (omega arith)
take-suc-comma (c ∷ s) zero h = (c, refl, refl)
take-suc-comma (c ∷ s) (suc i) h =
    let (d, cut, test) = take-suc-comma s i (omega arith) in (d, ap (λ t. c ∷ t) cut, test)

length-take : (s : Bytes) (i : ℕ) → i ≤ length s → length (take i s) ≡ i
length-take s zero h = refl
length-take [] (suc i) h = absurd (omega arith)
length-take (c ∷ s) (suc i) h = ap suc (length-take s i (omega arith))

-- The scan finds the last comma before `end`.
last_index_comma_lem :
    (s : Bytes) (end : ℕ)
    → end ≤ length s
    → last_index_comma s end ≡ last_index_byte (take end s) b','
unfolding last_index_comma
last_index_comma_lem s zero h = unfold last_index_byte in refl
last_index_comma_lem s (suc i) h =
    let (c, cut, test) = take-suc-comma s i (omega arith) in
    rw (cut, last_index_byte-snoc (take i s) c b',', test, length-take s i (omega arith))
      (ground (arith, last_index_comma_lem s i (omega arith)))

abbrev pub NoComma : Bytes → Type 0
NoComma s = All (λ c. c ≢ b',') s

-- What is left of the header after the client, when each proxy has appended its token: the nearest
-- proxy's token first.
abbrev pub appended : Bytes → List Bytes → Bytes
appended s [] = s
appended s (v ∷ vs) = appended s vs ++ b',' ∷ v

-- What is cut off behind `end` does not count.
last_index_comma-append :
    (p t rest : Bytes)
    → NoComma t
    → last_index_comma ((p ++ b',' ∷ t) ++ rest) (length (p ++ b',' ∷ t)) ≡ some (length p)
last_index_comma-append p t rest h =
    last_index_comma_lem ((p ++ b',' ∷ t) ++ rest) (length (p ++ b',' ∷ t))
      (omega (arith, length-append (p ++ b',' ∷ t) rest))
    ∙ rw (take-length (p ++ b',' ∷ t) rest) (last_index_byte-append p b',' t h)

last_index_comma-none :
    (t rest : Bytes) → NoComma t → last_index_comma (t ++ rest) (length t) ≡ none
last_index_comma-none t rest h =
    last_index_comma_lem (t ++ rest) (length t) (omega (arith, length-append t rest))
    ∙ rw (take-length t rest) (last_index_byte-none t b',' h)

drop-comma : (p t : Bytes) → drop (length p + 1) (p ++ b',' ∷ t) ≡ t
drop-comma p t = drop-add (length p) 1 (p ++ b',' ∷ t) ∙ ap (drop 1) (drop-length p (b',' ∷ t))

-- The token `t` ends the text: alone, or behind a comma.
abbrev pub EndsIn : Bytes → Bytes → Type 0
EndsIn s t = (s ≡ t) ⊎ ((p : Bytes) × (s ≡ p ++ b',' ∷ t))

nth_before-last :
    (s t rest : Bytes)
    → NoComma t
    → EndsIn s t
    → nth_before 1 (s ++ rest) (length s) ≡ trim_blanks t
unfolding nth_before
nth_before-last s t rest h (inl e) = rw (e, last_index_comma-none t rest h, take-length t rest) refl
nth_before-last s t rest h (inr (p, e)) =
    rw (e, last_index_comma-append p t rest h, take-length (p ++ b',' ∷ t) rest, drop-comma p t)
      refl

nth_before-appended :
    (s t : Bytes) (vs : List Bytes) (rest : Bytes)
    → NoComma t
    → All NoComma vs
    → EndsIn s t
    → nth_before (suc (length vs)) (appended s vs ++ rest) (length (appended s vs)) ≡ trim_blanks t
unfolding nth_before
nth_before-appended s t [] rest h hs e = nth_before-last s t rest h e
nth_before-appended s t (v ∷ vs) rest h (k, hs) e =
    rw (last_index_comma-append (appended s vs) v rest k, nth_before)
      (rw (append_assoc (appended s vs) (b',' ∷ v) rest)
        (nth_before-appended s t vs (b',' ∷ v ++ rest) h hs e))

-- Counting from the right passes the tokens of the inner proxies and stops at the outermost one's,
-- whatever stands in front of it.
pub nth_from_right-appended :
    (s t : Bytes) (vs : List Bytes)
    → NoComma t
    → All NoComma vs
    → EndsIn s t
    → nth_from_right (appended s vs) (suc (length vs)) ≡ trim_blanks t
unfolding nth_from_right
nth_from_right-appended s t vs h hs e =
    subst (λ x. nth_before (suc (length vs)) x (length (appended s vs)) ≡ trim_blanks t)
      (append-nil (appended s vs)) (nth_before-appended s t vs [] h hs e)

nth_from_right-nil : (n : ℕ) → nth_from_right [] n ≡ []
unfolding nth_from_right
nth_from_right-nil zero = refl
nth_from_right-nil (suc zero) = refl
nth_from_right-nil (suc (suc n)) = refl

is_empty_iff : (s : Bytes) → (is_empty s ≡ true) ↔ (s ≡ [])
is_empty_iff [] = ground arith
is_empty_iff (c ∷ s) = ground arith

hop_taken :
    (r : Origin) (n : ℕ) (x t : Bytes)
    → r.forwarded_for ≡ x
    → nth_from_right x (suc n) ≡ t
    → t ≢ []
    → client_ip_hops r true (suc n) ≡ t
unfolding client_ip_hops
hop_taken r n x t same e full = elim (Bool-cases (is_empty x)) [
  | inl z ↦ absurd (
      full (
        sym e
        ∙ ap (λ y. nth_from_right y (suc n)) ((is_empty_iff x).0 z)
        ∙ nth_from_right-nil (suc n)))
  | inr z ↦ ground (arith, is_empty_iff t)
]

-- With `n` trusted proxies the key is the address that the outermost one saw, whatever the client
-- itself has put in front of it, if that token is not blank.
pub client_ip_hops_unforgeable :
    (r : Origin) (claimed t : Bytes) (vs : List Bytes)
    → NoComma t
    → All NoComma vs
    → trim_blanks t ≢ []
    → (client_ip_hops (record r { forwarded_for = appended t vs }) true (suc (length vs))
        ≡ trim_blanks t)
      × (client_ip_hops
            (record r { forwarded_for = appended (claimed ++ b',' ∷ t) vs })
            true
            (suc (length vs))
          ≡ trim_blanks t)
client_ip_hops_unforgeable r claimed t vs h hs full = (
  hop_taken (record r { forwarded_for = appended t vs }) (length vs) (appended t vs) (trim_blanks t)
      refl (nth_from_right-appended t t vs h hs (inl refl)) full,
  hop_taken (record r { forwarded_for = appended (claimed ++ b',' ∷ t) vs }) (length vs)
      (appended (claimed ++ b',' ∷ t) vs) (trim_blanks t) refl
      (nth_from_right-appended (claimed ++ b',' ∷ t) t vs h hs (inr (claimed, refl))) full,
)

-- Fewer commas than hops: the scan runs out of tokens.
unfoldable pub commas : Bytes → ℕ
commas [] = 0
commas (c ∷ s) = if c == b',' then suc (commas s) else commas s

commas-snoc :
    (t : Bytes) (c : ℕ) → commas (t ++ c ∷ []) ≡ (if c == b',' then suc (commas t) else commas t)
unfolding commas
commas-snoc [] c = ground arith
commas-snoc (d ∷ t) c = ground (arith, commas-snoc t c)

commas-last :
    (s : Bytes) (end i : ℕ)
    → end ≤ length s
    → last_index_comma s end ≡ some i
    → (i ≤ end) × (commas (take end s) ≡ suc (commas (take i s)))
unfolding last_index_comma
commas-last s zero i l e = ground arith
commas-last s (suc n) i l e =
    let (c, cut, test) = take-suc-comma s n (omega arith) in
    rw cut (ground (arith, commas-snoc (take n s) c, commas-last s n i (omega arith)))

nth_before_short :
    (n : ℕ) (s : Bytes) (end : ℕ)
    → end ≤ length s
    → commas (take end s) < n
    → nth_before (suc n) s end ≡ []
unfolding nth_before
nth_before_short zero s end l h = elim h [ ]
nth_before_short (suc n) s end l h = elim (Option-cases (last_index_comma s end)) [
  | inl e ↦ rw (e, nth_before) refl
  | inr (i, e) ↦
      let (low, count) = commas-last s end i l e in
      rw (e, nth_before) (nth_before_short n s i (omega arith) (omega arith))
]

take-all : (s : Bytes) → take (length s) s ≡ s
take-all [] = refl
take-all (c ∷ s) = ap (λ t. c ∷ t) (take-all s)

-- A chain with fewer tokens than trusted proxies is not trusted at all: the key is the peer's
-- address.
pub client_ip_hops_short :
    (r : Origin) (n : ℕ)
    → r.forwarded_for ≢ []
    → commas r.forwarded_for < n
    → client_ip_hops r true (suc n) ≡ remote_host r
unfolding client_ip_hops nth_from_right
client_ip_hops_short r n full h =
    let s = r.forwarded_for in
    let counted : commas (take (length s) s) < n = rw (take-all s) h in
    rw (nth_before_short n s (length s) (le_refl (length s)) counted)
      (ground (arith, is_empty_iff s))
