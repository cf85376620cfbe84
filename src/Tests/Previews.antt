-- ===== src/Tests/Previews.antt =====
-- A codec that shifts bytes past the colon, and a grant that is handed over.
use kotoji.Prelude.{
  if◌then◌else◌, take, ok, err, ℕ, ◌+◌, ◌-◌, ◌*◌, ◌≡◌, refl, ap, ◌≢◌, ◌⊎◌, true, Option, none, some,
  [], ◌∷◌, map, arith,
}
use kotoji.Preview.{
  authorize, forbidden, no_effect, sign_grant, strip_grant_param, Codec, unauthorized, GrantConfig,
  verify_grant, bearer_token, PreviewRequest, second,
}
use kotoji.Preview.Cookies.{grant_handed_over}
use kotoji.Preview.Handoff.{authorize_sound, fresh_cookie, Allowed}
use kotoji.Preview.Signing.{verify_grant-sign_grant, IsCodec}
use kotoji.Preview.Splitting.{Without}
use kotoji.Tests.{draft, plain}
use kotoji.Tests.Writes.{draft-IsBranch}
use kotoji.Text.{Folding, trim_space, codes, split, index_byte, Bytes, bytes_eq, join_with}

abbrev shift : Bytes → Bytes
shift s = map (λ c. c + 59) s

abbrev unshift : Bytes → Bytes
unshift s = map (λ c. c - 59) s

abbrev one_number : Bytes → Option ℕ
one_number (c ∷ []) = some (c - 59)
one_number _ = none

abbrev shifting : Codec
shifting = record {
  mac = λ s. take 3 s;
  encode = shift;
  decode = λ s. some (unshift s);
  id_string = shift;
  parse_id = λ s. some (unshift s);
  format_int = λ n. (n + 59) ∷ [];
  parse_int = one_number;
}

unshift-shift : (s : Bytes) → unshift (shift s) ≡ s
unshift-shift [] = refl
unshift-shift (c ∷ s) = let e : c + 59 - 59 ≡ c = omega arith in cc (e, unshift-shift s)

shift-Without : (s : Bytes) → Without b':' (shift s)
shift-Without [] = tt
shift-Without (c ∷ s) = (λ e. omega (arith, e), shift-Without s)

shifting-IsCodec : IsCodec shifting
shifting-IsCodec = record {
  decode-encode = λ s. ap some (unshift-shift s);
  parse_id-id_string = λ id h. ap some (unshift-shift id);
  parse_int-format_int = λ n h. ap some (let e : n + 59 - 59 ≡ n = omega arith in e);
  encode_plain = shift-Without;
  id_string_plain = shift-Without;
  format_int_plain = λ n. (λ e. omega (arith, e), tt);
}

abbrev pub our_site : Bytes
our_site = 1 ∷ 2 ∷ 3 ∷ 4 ∷ 5 ∷ 6 ∷ 7 ∷ 8 ∷ 9 ∷ 10 ∷ 11 ∷ 12 ∷ 13 ∷ 14 ∷ 15 ∷ 16 ∷ []

abbrev pub folding : Folding
folding = record { tables = plain; equal_fold = bytes_eq }

-- Cookies for an hour.
abbrev setup : GrantConfig
setup = record { codec = shifting; cookie_secure = true; cookie_ttl = 3600 * second; bearer = none }

abbrev pub noon : ℕ
noon = 1000 * second

abbrev until : ℕ
until = 1030 * second + 5

abbrev address : Bytes
address = codes "/a?x=1&kpt=g&&y"

-- A request with nothing.
abbrev pub bare : PreviewRequest
bare = record { kpt = []; cookie = none; authorization = []; request_uri = address }

abbrev clicked : PreviewRequest
clicked = record bare { kpt = sign_grant shifting our_site draft until }

abbrev followed : PreviewRequest
followed = record bare { cookie = some (fresh_cookie folding setup noon our_site draft).value }

verify_grant-sign_grant_example :
    verify_grant shifting noon (sign_grant shifting our_site draft until)
    ≡ ok (record { site_id = our_site; branch = draft; exp = 1030 * second })
verify_grant-sign_grant_example =
    verify_grant-sign_grant shifting shifting-IsCodec noon our_site draft until refl (ground arith)
      (omega arith) (omega arith)

grant_handed_over_example :
    (authorize folding setup noon our_site draft clicked
      ≡ ok (record {
        set_cookie = some (fresh_cookie folding setup noon our_site draft);
        redirect_to = strip_grant_param address;
      }))
    × (authorize folding setup (2000 * second) our_site draft followed ≡ ok no_effect)
    × ((s b : Bytes)
        → (s ≢ our_site) ⊎ (b ≢ draft)
        → authorize folding setup (2000 * second) s b followed ≡ err forbidden)
grant_handed_over_example =
    grant_handed_over folding setup shifting-IsCodec our_site draft refl draft-IsBranch noon
      (2000 * second) until clicked followed refl (omega arith) (omega arith) refl refl
      (omega arith) (omega arith)

-- A site that takes one bearer token.
abbrev pub with_token : GrantConfig
with_token = record setup {
  bearer = some (λ token site. if bytes_eq token (codes "t") then none else some unauthorized);
}

abbrev pub bearing : PreviewRequest
bearing = record bare { authorization = codes "bearer  t" }

bearing_admitted : authorize folding with_token noon our_site draft bearing ≡ ok no_effect
unfolding authorize bearer_token bytes_eq trim_space
bearing_admitted = refl

authorize_sound_example : Allowed folding with_token noon our_site draft bearing no_effect
authorize_sound_example =
    authorize_sound folding with_token noon our_site draft bearing no_effect bearing_admitted

stripped_address : strip_grant_param address ≡ codes "/a?x=1&y"
unfolding strip_grant_param index_byte split bytes_eq join_with
stripped_address = refl
