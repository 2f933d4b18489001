-- ===== src/GoText/Hex.antt =====
-- `hex.EncodeToString` and `hex.DecodeString`.
use aws_build_farm.Prelude.{
  ℕ, ◌+◌, ◌*◌, ◌-◌, ◌/◌, ◌%◌, ◌<◌, ◌≤◌, is_some, true, ◌↔◌, ◌≡◌, ◌⊎◌, refl, ◌&&◌, Option, none,
  some, [], ◌∷◌, arith, Bytes, ltb, leb, if◌then◌else◌, length, All,
}

hex_char : ℕ → ℕ
hex_char n = if ltb n 10 then n + b'0' else n + 87

unfoldable pub encode : Bytes → Bytes
unfolding hex_char
encode [] = []
encode (b ∷ bs) = hex_char (b / 16) ∷ hex_char (b % 16) ∷ encode bs

-- A hexadecimal digit of either case.
pub unhex : ℕ → Option ℕ
unhex c =
    if leb b'0' c && leb c b'9'
    then some (c - b'0')
    else if leb b'a' c && leb c b'f'
    then some (c - 87)
    else if leb b'A' c && leb c b'F'
    then some (c - 55)
    else none

abbrev join_byte : Option ℕ → Option ℕ → Option Bytes → Option Bytes
join_byte (some x) (some y) (some bs) = some ((x * 16 + y) ∷ bs)
join_byte _ _ _ = none

-- `none` is any of the errors of `DecodeString`: a bad digit, or an odd length.
unfoldable pub decode : Bytes → Option Bytes
unfolding unhex
decode [] = some []
decode (a ∷ []) = none
decode (a ∷ b ∷ s) = join_byte (unhex a) (unhex b) (decode s)

abbrev pub IsByte : ℕ → Type 0
IsByte b = b < 256

unhex-hex_char : (n : ℕ) → n < 16 → unhex (hex_char n) ≡ some n
unfolding unhex hex_char
unhex-hex_char n h = ground arith

-- Decoding gives back the bytes that were encoded.
pub decode-encode : (bs : Bytes) → All IsByte bs → decode (encode bs) ≡ some bs
unfolding encode decode
decode-encode [] h = refl
decode-encode (b ∷ bs) h =
    ground (arith, unhex-hex_char (b / 16), unhex-hex_char (b % 16), decode-encode bs h.1)

pub length-encode : (bs : Bytes) → length (encode bs) ≡ 2 * length bs
unfolding encode
length-encode [] = refl
length-encode (b ∷ bs) = omega (arith, length-encode bs)

abbrev pub IsHexDigit : ℕ → Type 0
IsHexDigit c = ((b'0' ≤ c) × (c ≤ b'9')) ⊎ ((b'a' ≤ c) × (c ≤ b'f')) ⊎ ((b'A' ≤ c) × (c ≤ b'F'))

unhex_iff : (c : ℕ) → (is_some (unhex c) ≡ true) ↔ IsHexDigit c
unfolding unhex
unhex_iff c = ground arith

join_byte_iff :
    (x y : Option ℕ) (z : Option Bytes)
    → (is_some (join_byte x y z) ≡ true)
      ↔ ((is_some x ≡ true) × (is_some y ≡ true) × (is_some z ≡ true))
join_byte_iff x y z = ground arith

-- What decodes is made of hexadecimal digits.
pub decode-IsHexDigit : (s : Bytes) → is_some (decode s) ≡ true → All IsHexDigit s
unfolding decode
decode-IsHexDigit [] h = tt
decode-IsHexDigit (a ∷ []) h = cc
decode-IsHexDigit (a ∷ b ∷ s) h =
    let (ha, hb, hs) = (join_byte_iff (unhex a) (unhex b) (decode s)).0 h in
    ((unhex_iff a).0 ha, ((unhex_iff b).0 hb, decode-IsHexDigit s hs))

-- An even number of hexadecimal digits decodes.
pub IsHexDigit-decode :
    (k : ℕ) (s : Bytes) → length s ≡ 2 * k → All IsHexDigit s → is_some (decode s) ≡ true
unfolding decode
IsHexDigit-decode k [] e h = refl
IsHexDigit-decode k (a ∷ []) e h = absurd (omega arith)
IsHexDigit-decode k (a ∷ b ∷ s) e (ha, (hb, hs)) =
    (join_byte_iff (unhex a) (unhex b) (decode s)).1
      ((unhex_iff a).1 ha, (unhex_iff b).1 hb, IsHexDigit-decode (k - 1) s (omega arith) hs)
