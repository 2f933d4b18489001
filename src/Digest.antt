-- ===== src/Digest.antt =====
-- internal/digest/digest.go: the digests of the content-addressable store, and their checks.
-- `crypto/sha256` is a parameter, the record `Sha256`.
pub mod Laws
mod Tests
use aws_build_farm.Prelude.{
  ℕ, ◌*◌, ◌++◌, ◌∷◌, [], ◌≡◌, Bool, ◌&&◌, not, Option, none, some, Bytes, bytes_eq, codes, is_some,
  ℤ, pos, eq_ℤ, ltb_ℤ, ◌==◌, if◌then◌else◌, length, All,
}
use aws_build_farm.GoText.Hex.{encode, decode, IsByte}
use aws_build_farm.GoText.Decimal.{show_int}

-- The message `repb.Digest`.
pub record Digest : Type 0 where
  pub hash : Bytes
  pub size_bytes : ℤ

-- The type `*repb.Digest`, whose getters give zero values at `nil`.
abbrev pub DigestRef : Type 0
DigestRef = Option Digest

abbrev pub get_hash : DigestRef → Bytes
get_hash none = []
get_hash (some d) = d.hash

abbrev pub get_size_bytes : DigestRef → ℤ
get_size_bytes none = pos 0
get_size_bytes (some d) = d.size_bytes

unfoldable pub empty_hash : Bytes
empty_hash = codes "e3b0c44298fc1c149afbf4c8996fb92427ae41e4649b934ca495991b7852b855"

abbrev pub empty : Digest
empty = record { hash = empty_hash; size_bytes = pos 0 }

-- What the program relies on of `sha256.Sum256`: an array of 32 bytes, which at no input is the one
-- that the constant `EmptyHash` spells.
pub record Sha256 : Type 0 where
  pub sum : Bytes → Bytes
  pub length_sum : (b : Bytes) → length (sum b) ≡ 32
  pub sum_bytes : (b : Bytes) → All IsByte (sum b)
  pub sum_empty : encode (sum []) ≡ empty_hash

unfoldable pub from_bytes : Sha256 → Bytes → Digest
from_bytes sha b = record { hash = encode (sha.sum b); size_bytes = pos (length b) }

unfoldable pub is_empty : DigestRef → Bool
is_empty d = eq_ℤ (get_size_bytes d) (pos 0) && bytes_eq (get_hash d) empty_hash

unfoldable pub key : DigestRef → Bytes
key d = get_hash d ++ b'/' ∷ show_int (get_size_bytes d)

pub data DigestError : Type 0 where
  nil_digest : DigestError
  bad_length : ℕ → Bytes → DigestError
  not_hex : DigestError
  negative_size : ℤ → DigestError

-- `none` is a nil error.
unfoldable pub validate : DigestRef → Option DigestError
validate none = some nil_digest
validate (some d) =
    if not (length d.hash == 32 * 2)
    then some (bad_length (length d.hash) d.hash)
    else if not (is_some (decode d.hash))
    then some not_hex
    else if ltb_ℤ d.size_bytes (pos 0)
    then some (negative_size d.size_bytes)
    else none
