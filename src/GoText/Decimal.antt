-- ===== src/GoText/Decimal.antt =====
-- The verb `%d` of `fmt` at an `int64`, and `strconv.ParseInt(s, 10, 64)`.
use aws_build_farm.Prelude.{
  ℕ, zero, suc, ◌+◌, ◌*◌, ◌-◌, ◌/◌, ◌%◌, ◌^◌, ◌<◌, ◌≡◌, [], ◌∷◌, ◌++◌, append_assoc, arith, Bytes,
  ltb, leb, ◌==◌, ◌&&◌, if◌then◌else◌, ℤ, pos, negsuc, IsInt64, Result, ok, err, ◌>>=◌, Bool, true,
  Bool-cases, inl, inr, ltb→lt, append-nil, ◌≢◌, All, All-append,
}

-- The digits of `n`, most significant first, with fuel above `n`.
digits : ℕ → ℕ → Bytes
digits zero n = []
digits (suc f) n =
    let rest = digits f (n / 10) in
    if ltb n 10 then (n + b'0') ∷ [] else rest ++ (n % 10 + b'0') ∷ []

unfoldable pub show_nat : ℕ → Bytes
unfolding digits
show_nat n = digits (suc n) n

unfoldable pub show_int : ℤ → Bytes
unfolding show_nat
show_int (pos n) = show_nat n
show_int (negsuc n) = b'-' ∷ show_nat (suc n)

-- `strconv.ErrSyntax` and `strconv.ErrRange`.
pub data NumError : Type 0 where
  syntax range : NumError

is_digit : ℕ → Bool
is_digit c = leb b'0' c && leb c b'9'

-- The loop of `strconv.ParseUint`, which stops at the first value above `math.MaxUint64`.
parse_digits : ℕ → Bytes → Result NumError ℕ
unfolding is_digit
parse_digits acc [] = ok acc
parse_digits acc (c ∷ s) =
    let acc' = acc * 10 + (c - b'0') in
    let rest = parse_digits acc' s in
    if is_digit c then if ltb acc' (2 ^ 64) then rest else err range else err syntax

parse_uint : Bytes → Result NumError ℕ
unfolding parse_digits
parse_uint [] = err syntax
parse_uint (c ∷ s) = parse_digits 0 (c ∷ s)

abbrev non_negative : ℕ → Result NumError ℤ
non_negative n = if ltb n (2 ^ 63) then ok (pos n) else err range

abbrev negative : ℕ → Result NumError ℤ
negative zero = ok (pos 0)
negative (suc n) = if ltb n (2 ^ 63) then ok (negsuc n) else err range

unfoldable pub parse_int : Bytes → Result NumError ℤ
unfolding parse_uint
parse_int [] = err syntax
parse_int (c ∷ s) =
    if c == b'-'
    then parse_uint s >>= negative
    else if c == b'+'
    then parse_uint s >>= non_negative
    else parse_uint (c ∷ s) >>= non_negative

digit-is_digit : (d : ℕ) → d < 10 → is_digit (d + b'0') ≡ true
unfolding is_digit
digit-is_digit d h = ground arith

-- Reading the digits of `n` and then the rest of the text reaches the rest with `n`.
parse_digits-digits :
    (f n : ℕ) (s : Bytes) → n < f → n < 2 ^ 64 → parse_digits 0 (digits f n ++ s) ≡ parse_digits n s
unfolding digits parse_digits
parse_digits-digits zero n s h k = elim h [ ]
parse_digits-digits (suc f) n s h k = elim (Bool-cases (ltb n 10)) [
  | inl small ↦ rw small (ground (arith))
  | inr big ↦
      rw
        (
          big,
          append_assoc,
          parse_digits-digits f (n / 10) ((n % 10 + b'0') ∷ s) (ground arith) (omega arith),
        )
        (ground arith)
]

digits_head : (f n : ℕ) → n < f → (c : ℕ) × (s : Bytes) × (digits f n ≡ c ∷ s) × (is_digit c ≡ true)
unfolding digits
digits_head zero n h = elim h [ ]
digits_head (suc f) n h = elim (Bool-cases (ltb n 10)) [
  | inl small ↦ (n + b'0', [], rw small, digit-is_digit n (ltb→lt _ _ small))
  | inr big ↦
      let (c, s, e, d) = digits_head f (n / 10) (ground arith) in
      (c, s ++ (n % 10 + b'0') ∷ [], rw (big, e), d)
]

parse_uint-show_nat : (n : ℕ) → n < 2 ^ 64 → parse_uint (show_nat n) ≡ ok n
unfolding parse_uint show_nat parse_digits
parse_uint-show_nat n h =
    let (c, s, e, d) = digits_head (suc n) n (omega arith) in
    ground (arith, e, append-nil (digits (suc n) n), parse_digits-digits (suc n) n [])

-- Every `int64` is read back from its decimal text.
pub parse_int-show_int : (z : ℤ) → IsInt64 z → parse_int (show_int z) ≡ ok z
unfolding parse_int show_int
parse_int-show_int (pos n) h =
    let (c, s, e, d) = digits_head (suc n) n (omega arith) in
    unfold show_nat is_digit in ground (arith, e, d, parse_uint-show_nat n)
parse_int-show_int (negsuc n) h = rw (parse_uint-show_nat (suc n) (omega arith)) (ground arith)

digits-HasNoSlash : (f n : ℕ) → All (λ c. c ≢ b'/') (digits f n)
unfolding digits
digits-HasNoSlash zero n = tt
digits-HasNoSlash (suc f) n = elim (Bool-cases (ltb n 10)) [
  | inl small ↦ rw small (ground arith)
  | inr big ↦
      rw big (All-append _ (digits f (n / 10)) _ (digits-HasNoSlash f (n / 10)) (ground arith))
]

show_nat-HasNoSlash : (n : ℕ) → All (λ c. c ≢ b'/') (show_nat n)
unfolding show_nat
show_nat-HasNoSlash n = digits-HasNoSlash (suc n) n

All-cons : (P : ℕ → Type 0) (x : ℕ) (xs : Bytes) → P x → All P xs → All P (x ∷ xs)
All-cons P x xs h hs = (h, hs)

pub show_int-HasNoSlash : (z : ℤ) → All (λ c. c ≢ b'/') (show_int z)
show_int-HasNoSlash (pos n) = unfold show_int in show_nat-HasNoSlash n
show_int-HasNoSlash (negsuc n) =
    unfold show_int in
    All-cons (λ c. c ≢ b'/') b'-' (show_nat (suc n)) (omega arith) (show_nat-HasNoSlash (suc n))
