-- ===== src/Cas/S3Store/Bounds.antt =====
-- The header that asks for a range: where its end stands, and where it wraps around.
use aws_build_farm.Prelude.{
  ltb, ltb→lt, Bool-cases, ℤ, pos, negsuc, wrap_int64, wrap_int64-last, ℕ, suc, ◌+◌, ◌-◌, ◌^◌, ◌≤◌,
  ◌<◌, ◌≡◌, ap, ◌⊎◌, inl, inr, some, arith,
}
use aws_build_farm.Cas.S3.{range_between}
use aws_build_farm.Cas.S3Store.{byte_range, last_offset}

last_offset-overflow :
    (a m : ℕ)
    → a < 2 ^ 63
    → suc m < 2 ^ 63
    → 2 ^ 63 ≤ a + m
    → last_offset (pos a) (pos (suc m)) ≡ negsuc (2 ^ 64 - 1 - (a + m))
unfolding wrap_int64
last_offset-overflow a m ha hm over = ground arith

-- byteRange of an offset and a positive limit, both `int64` values: the range ends with the byte that the
-- limit says if that is an `int64`, and otherwise at a negative number, which is no range of HTTP.
pub byte_range_lem :
    (a m : ℕ)
    → a < 2 ^ 63
    → suc m < 2 ^ 63
    → ((a + m < 2 ^ 63)
        × (byte_range (pos a) (pos (suc m)) ≡ some (range_between (pos a) (pos (a + m)))))
      ⊎ ((2 ^ 63 ≤ a + m)
          × (byte_range (pos a) (pos (suc m))
              ≡ some (range_between (pos a) (negsuc (2 ^ 64 - 1 - (a + m))))))
unfolding byte_range
byte_range_lem a m ha hm = elim (Bool-cases (ltb (a + m) (2 ^ 63))) [
  | inl fits ↦
      let small = ltb→lt (a + m) (2 ^ 63) fits in
      inl (
        small,
        ground (
          arith,
          ap (λ (x : ℤ). some (range_between (pos a) x)) (wrap_int64-last a m (omega arith)),
        ),
      )
  | inr over ↦
      let big : 2 ^ 63 ≤ a + m = ground (arith, over) in
      inr (
        big,
        ground (
          arith,
          ap (λ (x : ℤ). some (range_between (pos a) x)) (last_offset-overflow a m ha hm big),
        ),
      )
]
