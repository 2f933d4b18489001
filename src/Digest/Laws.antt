-- ===== src/Digest/Laws.antt =====
-- What `Validate`, `FromBytes`, `IsEmpty` and `Key` promise.
use aws_build_farm.Prelude.{
  length, All, pos, ltb_ℤ, IsInt64, Bytes, bytes_eq_iff, ◌≡◌, refl, sym, ap, ◌↔◌, true, false, none,
  some, [], ◌∷◌, arith,
}
use mathlib.Core.Path.{subst}
use aws_build_farm.GoText.Hex.{
  encode, decode-encode, length-encode, IsByte, IsHexDigit, decode-IsHexDigit, IsHexDigit-decode,
}
use aws_build_farm.GoText.Decimal.{show_int, show_int-HasNoSlash, parse_int-show_int}
use aws_build_farm.GoText.Split.{split, split-join, HasNoSlash, join_on}
use aws_build_farm.Digest.{Digest, DigestRef, Sha256, from_bytes, is_empty, key, validate}

-- The SHA-256 digests of the protocol: 64 hexadecimal digits and a size that is not negative.
pub record IsSha256Digest (d : Digest) : Type 0 where
  pub hash_length : length d.hash ≡ 64
  pub hash_digits : All IsHexDigit d.hash
  pub size_nonneg : ltb_ℤ d.size_bytes (pos 0) ≡ false

-- `Validate` accepts a digest exactly if it is present, with 64 hexadecimal digits and a size that
-- is not negative.
pub validate_iff :
    (d : DigestRef) → (validate d ≡ none) ↔ ((e : Digest) × (d ≡ some e) × IsSha256Digest e)
unfolding validate
validate_iff none = ((λ h. cc), λ h. cc (h.1))
validate_iff (some d) = (
  (λ h. (
    d,
    refl,
    record {
      hash_length = ground arith;
      hash_digits = decode-IsHexDigit d.hash (ground arith);
      size_nonneg = ground arith;
    },
  )),
  λ (e, p, v). ground (arith, IsHexDigit-decode 32 d.hash),
)

pub encode-IsHexDigit : (bs : Bytes) → All IsByte bs → All IsHexDigit (encode bs)
encode-IsHexDigit bs h = decode-IsHexDigit (encode bs) (rw (decode-encode bs h))

module _ (sha : Sha256) where
  -- The digest of any content is accepted by `Validate`.
  pub validate-from_bytes : (b : Bytes) → validate (some (from_bytes sha b)) ≡ none
  validate-from_bytes b = (validate_iff (some (from_bytes sha b))).1 (
    from_bytes sha b,
    refl,
    unfold from_bytes in
        record {
          hash_length = omega (arith, length-encode (sha.sum b), sha.length_sum b);
          hash_digits = encode-IsHexDigit (sha.sum b) (sha.sum_bytes b);
          size_nonneg = ground arith;
        },
  )

  -- `IsEmpty` holds of the digest of a content exactly if the content is empty.
  is_empty-from_bytes : (b : Bytes) → (is_empty (some (from_bytes sha b)) ≡ true) ↔ (b ≡ [])
  unfolding is_empty from_bytes
  is_empty-from_bytes [] = ((λ h. refl), λ h. (bytes_eq_iff _ _).1 sha.sum_empty)
  is_empty-from_bytes (x ∷ b) = ((λ h. ground arith), λ h. cc)

HexDigit_no_slash : (s : Bytes) → All IsHexDigit s → HasNoSlash s
HexDigit_no_slash [] h = tt
HexDigit_no_slash (c ∷ s) (h, hs) = (ground arith, HexDigit_no_slash s hs)

pub split-key :
    (d : Digest) → HasNoSlash d.hash → split (key (some d)) ≡ d.hash ∷ show_int d.size_bytes ∷ []
split-key d h =
    unfold key in
    unfold join_on in
    split-join b'/' d.hash (show_int d.size_bytes ∷ []) h (show_int-HasNoSlash d.size_bytes, tt)

valid_digits : (d : Digest) → validate (some d) ≡ none → All IsHexDigit d.hash
valid_digits d h =
    let (e, p, v) = (validate_iff (some d)).0 h in
    let q : d ≡ e = cc in subst (λ x. All IsHexDigit x.hash) (sym q) v.hash_digits

pub valid-HasNoSlash : (d : Digest) → validate (some d) ≡ none → HasNoSlash d.hash
valid-HasNoSlash d h = HexDigit_no_slash d.hash (valid_digits d h)

-- `Key` tells any two valid digests apart whose sizes are `int64` values.
key_injective :
    (d e : Digest)
    → validate (some d) ≡ none
    → validate (some e) ≡ none
    → IsInt64 d.size_bytes
    → IsInt64 e.size_bytes
    → key (some d) ≡ key (some e)
    → d ≡ e
key_injective d e vd ve id ie h =
    let hd = valid-HasNoSlash d vd in
    let he = valid-HasNoSlash e ve in
    cc (
      ap split h,
      split-key d hd,
      split-key e he,
      parse_int-show_int d.size_bytes id,
      parse_int-show_int e.size_bytes ie,
    )
