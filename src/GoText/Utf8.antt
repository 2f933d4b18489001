-- ===== src/GoText/Utf8.antt =====
-- `utf8.Valid`: what `encoding/json` writes as it is; of other texts it replaces the bytes that do not fit.
use aws_build_farm.Prelude.{
  ltb, leb, ◌==◌, if◌then◌else◌, Bytes, ℕ, ◌≡◌, refl, zero, suc, Bool, true, false, ◌&&◌, Option,
  none, some, [], ◌∷◌,
}

-- What has to follow a first byte: so many bytes, the next of them between two bounds.
pub record Rest : Type 0 where
  pub count : ℕ
  pub low : ℕ
  pub high : ℕ

abbrev rest : ℕ → ℕ → ℕ → Option Rest
rest n lo hi = some (record { count = n; low = lo; high = hi })

unfoldable pub follows : ℕ → Option Rest
follows x =
    if ltb x 0x80
    then rest 0 0 0
    else if ltb x 0xc2
    then none
    else if ltb x 0xe0
    then rest 1 0x80 0xbf
    else if x == 0xe0
    then rest 2 0xa0 0xbf
    else if x == 0xed
    then rest 2 0x80 0x9f
    else if ltb x 0xf0
    then rest 2 0x80 0xbf
    else if x == 0xf0
    then rest 3 0x90 0xbf
    else if ltb x 0xf4
    then rest 3 0x80 0xbf
    else if x == 0xf4
    then rest 3 0x80 0x8f
    else none

-- A text of which some bytes of the first character are still to come.
unfoldable pub is_valid_after : ℕ → ℕ → ℕ → Bytes → Bool
unfolding follows
is_valid_after zero lo hi [] = true
is_valid_after (suc n) lo hi [] = false
is_valid_after zero lo hi (x ∷ s) = elim (follows x) [
  | none ↦ false
  | some r ↦ is_valid_after r.count r.low r.high s
]
is_valid_after (suc n) lo hi (x ∷ s) = leb lo x && leb x hi && is_valid_after n 0x80 0xbf s

unfoldable pub is_valid : Bytes → Bool
unfolding is_valid_after
is_valid s = is_valid_after 0 0 0 s

two_bytes : is_valid (0xc3 ∷ 0xa9 ∷ 0x21 ∷ []) ≡ true
unfolding is_valid
two_bytes = refl

cut_off : is_valid (0x21 ∷ 0xc3 ∷ []) ≡ false
unfolding is_valid
cut_off = refl

surrogate : is_valid (0xed ∷ 0xa0 ∷ 0x80 ∷ []) ≡ false
unfolding is_valid
surrogate = refl
