-- ===== src/Digest/Tests.antt =====
-- The cases of internal/digest/digest_test.go that need no hash function, and a toy hash function.
use aws_build_farm.Prelude.{pos, negsuc, codes, bytes_eq, ◌≡◌, refl, true, none, some}
use aws_build_farm.GoText.Hex.{decode}
use aws_build_farm.Digest.{
  empty, empty_hash, is_empty, validate, key, nil_digest, bad_length, not_hex, negative_size,
}

is_empty-empty : is_empty (some empty) ≡ true
unfolding is_empty empty_hash bytes_eq
is_empty-empty = refl

validate_nil : validate none ≡ some nil_digest
unfolding validate
validate_nil = refl

validate_short :
    validate (some (record { hash = codes "short"; size_bytes = pos 1 }))
    ≡ some (bad_length 5 (codes "short"))
unfolding validate
validate_short = refl

validate_bad_digit :
    validate (
      some (record {
        hash = codes "zzzz24dba5fb0a30e26e83b2ac5b9e29e1b161e5c1fa7425e73043362938b982";
        size_bytes = pos 1;
      }))
    ≡ some not_hex
unfolding validate decode
validate_bad_digit = refl

validate_negative :
    validate (some (record { hash = empty_hash; size_bytes = negsuc 0 }))
    ≡ some (negative_size (negsuc 0))
unfolding validate decode empty_hash
validate_negative = refl

key_empty : key (some (record { hash = codes "ab"; size_bytes = pos 120 })) ≡ codes "ab/120"
unfolding key aws_build_farm.GoText.Decimal.show_int
key_empty = refl
