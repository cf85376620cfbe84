-- ===== src/Preview/Signing.antt =====
-- A grant that is signed is a grant that is verified.
use kotoji.Prelude.{
  lt→ltb, length, take-length, ok, ℕ, ◌*◌, ◌/◌, ◌^◌, ◌<◌, ◌≡◌, refl, ap, ◌∙◌, some, [], ◌∷◌, ◌++◌,
}
use kotoji.Preview.{verify_grant, sign_grant, Codec, second, payload, parse_payload}
use kotoji.Preview.Splitting.{drop_past, Without, split-one, split-append}
use kotoji.Text.{split, Bytes}
use kotoji.Text.Laws.{last_index_byte-append, bytes_eq_refl}

-- The documentation of the packages, for ids of 16 bytes and times of 63 bits.
pub record IsCodec (k : Codec) : Type 0 where
  pub decode-encode : (s : Bytes) → k.decode (k.encode s) ≡ some s
  pub parse_id-id_string : (id : Bytes) → length id ≡ 16 → k.parse_id (k.id_string id) ≡ some id
  pub parse_int-format_int : (n : ℕ) → n < 2 ^ 63 → k.parse_int (k.format_int n) ≡ some n
  pub encode_plain : (s : Bytes) → Without b':' (k.encode s)
  pub id_string_plain : (id : Bytes) → Without b':' (k.id_string id)
  pub format_int_plain : (n : ℕ) → Without b':' (k.format_int n)

-- The second that a grant expires in begins with it.
abbrev pub whole_second : ℕ → ℕ
whole_second exp = exp / second * second

module _ (k : Codec) (K : IsCodec k) where
  split-payload :
      (id branch : Bytes) (exp : ℕ)
      → Without b':' branch
      → split b':' (payload k id branch exp)
        ≡ k.id_string id ∷ branch ∷ k.format_int (exp / second) ∷ []
  split-payload id branch exp plain =
      split-append b':' (k.id_string id) (branch ++ b':' ∷ k.format_int (exp / second))
        (K.id_string_plain id)
      ∙ ap (λ t. k.id_string id ∷ t)
          (split-append b':' branch (k.format_int (exp / second)) plain
            ∙ ap (λ t. branch ∷ t)
                (split-one b':' (k.format_int (exp / second)) (K.format_int_plain (exp / second))))

  parse_payload-payload :
      (now : ℕ) (id branch : Bytes) (exp : ℕ)
      → length id ≡ 16
      → Without b':' branch
      → exp / second < 2 ^ 63
      → now < whole_second exp
      → parse_payload k now (payload k id branch exp)
        ≡ ok (record { site_id = id; branch = branch; exp = whole_second exp })
  unfolding parse_payload
  parse_payload-payload now id branch exp sized plain small fresh =
      rw
        (
          split-payload id branch exp plain,
          K.parse_id-id_string id sized,
          K.parse_int-format_int (exp / second) small,
          lt→ltb now (whole_second exp) fresh,
        )
        refl

  -- What is signed is verified, until the second in which it expires begins, and gives back the site,
  -- the branch and the expiry, cut to the second.
  pub verify_grant-sign_grant :
      (now : ℕ) (id branch : Bytes) (exp : ℕ)
      → length id ≡ 16
      → Without b':' branch
      → exp / second < 2 ^ 63
      → now < whole_second exp
      → verify_grant k now (sign_grant k id branch exp)
        ≡ ok (record { site_id = id; branch = branch; exp = whole_second exp })
  unfolding verify_grant sign_grant
  verify_grant-sign_grant now id branch exp sized plain small fresh =
      let p = payload k id branch exp in
      let s = k.encode (k.mac p) in
      rw
        (
          last_index_byte-append p b':' s (K.encode_plain (k.mac p)),
          drop_past p b':' s,
          take-length p (b':' ∷ s),
          K.decode-encode (k.mac p),
          bytes_eq_refl (k.mac p),
        )
        (parse_payload-payload now id branch exp sized plain small fresh)
