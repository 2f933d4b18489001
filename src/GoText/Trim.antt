-- ===== src/GoText/Trim.antt =====
-- `strings.TrimSpace`: the white space of Unicode, in its UTF-8 encoding, is cut off at both ends.
use aws_build_farm.Prelude.{
  ◌==◌, leb, if◌then◌else◌, Bytes, ℕ, zero, suc, ◌≡◌, refl, sym, ap, ◌∙◌, ◌≢◌, Bool, ◌&&◌, ◌||◌, [],
  ◌∷◌, ◌++◌, replicate, append-nil, arith,
}
use mathlib.Core.List.{reverse, reverse-append, reverse-reverse}

abbrev space_1 : ℕ → Bool
space_1 x = leb 9 x && leb x 13 || x == 32

-- U+0085 and U+00A0.
abbrev space_2 : ℕ → ℕ → Bool
space_2 x y = x == 0xc2 && (y == 0x85 || y == 0xa0)

-- U+1680, U+2000 to U+200A, U+2028, U+2029, U+202F, U+205F and U+3000.
abbrev space_3 : ℕ → ℕ → ℕ → Bool
space_3 x y z =
    x == 0xe1 && y == 0x9a && z == 0x80
    || x == 0xe2 && y == 0x80 && (leb 0x80 z && leb z 0x8a || z == 0xa8 || z == 0xa9 || z == 0xaf)
    || x == 0xe2 && y == 0x81 && z == 0x9f
    || x == 0xe3 && y == 0x80 && z == 0x80

-- The bytes of the white space at the front of a text: none if there is none.
unfoldable pub front_space : Bytes → ℕ
front_space [] = 0
front_space (x ∷ []) = if space_1 x then 1 else 0
front_space (x ∷ y ∷ []) = if space_1 x then 1 else if space_2 x y then 2 else 0
front_space (x ∷ y ∷ z ∷ s) =
    if space_1 x then 1 else if space_2 x y then 2 else if space_3 x y z then 3 else 0

-- The same at the end of a text, which is given from its end.
unfoldable pub back_space : Bytes → ℕ
back_space [] = 0
back_space (x ∷ []) = if space_1 x then 1 else 0
back_space (y ∷ x ∷ []) = if space_1 y then 1 else if space_2 x y then 2 else 0
back_space (z ∷ y ∷ x ∷ s) =
    if space_1 z then 1 else if space_2 y z then 2 else if space_3 x y z then 3 else 0

-- A text without `skip` bytes and the white space behind them, whose size at the front is given.
unfoldable pub trim_front : (Bytes → ℕ) → ℕ → Bytes → Bytes
trim_front size skip [] = []
trim_front size (suc skip) (x ∷ s) = trim_front size skip s
trim_front size zero (x ∷ s) = elim (size (x ∷ s)) [
  | zero ↦ x ∷ s
  | suc skip ↦ trim_front size skip s
]

unfoldable pub trim_space : Bytes → Bytes
unfolding trim_front front_space back_space
trim_space s = reverse (trim_front back_space 0 (reverse (trim_front front_space 0 s)))

-- A text that has no white space at its ends.
abbrev pub IsTrimmed : Bytes → Type 0
IsTrimmed s = (front_space s ≡ 0) × (back_space (reverse s) ≡ 0)

abbrev pub blanks : ℕ → Bytes
blanks n = replicate n b' '

front_space-blanks :
    (s : Bytes) (n : ℕ) → s ≢ [] → front_space s ≡ 0 → front_space (s ++ blanks n) ≡ 0
unfolding front_space
front_space-blanks [] n ne h = absurd (ne refl)
front_space-blanks (x ∷ []) zero ne h = h
front_space-blanks (x ∷ []) (suc zero) ne h = ground arith
front_space-blanks (x ∷ []) (suc (suc n)) ne h = ground arith
front_space-blanks (x ∷ y ∷ []) zero ne h = h
front_space-blanks (x ∷ y ∷ []) (suc n) ne h = ground arith
front_space-blanks (x ∷ y ∷ z ∷ s) n ne h = h

trim_front-IsTrimmed : (size : Bytes → ℕ) (s : Bytes) → size s ≡ 0 → trim_front size 0 s ≡ s
unfolding trim_front
trim_front-IsTrimmed size [] h = refl
trim_front-IsTrimmed size (x ∷ s) h = ground (arith, h)

trim_front-blanks :
    (size : Bytes → ℕ) (n : ℕ) (s : Bytes)
    → ((t : Bytes) → size (b' ' ∷ t) ≡ 1)
    → trim_front size 0 (blanks n ++ s) ≡ trim_front size 0 s
unfolding trim_front
trim_front-blanks size zero s h = refl
trim_front-blanks size (suc n) s h = ground (arith, h (blanks n ++ s), trim_front-blanks size n s h)

front_space-blank : (t : Bytes) → front_space (b' ' ∷ t) ≡ 1
unfolding front_space
front_space-blank [] = refl
front_space-blank (x ∷ []) = refl
front_space-blank (x ∷ y ∷ t) = refl

back_space-blank : (t : Bytes) → back_space (b' ' ∷ t) ≡ 1
unfolding back_space
back_space-blank [] = refl
back_space-blank (x ∷ []) = refl
back_space-blank (x ∷ y ∷ t) = refl

blanks-suc : (n : ℕ) → blanks n ++ b' ' ∷ [] ≡ b' ' ∷ blanks n
blanks-suc zero = refl
blanks-suc (suc n) = ap (λ t. b' ' ∷ t) (blanks-suc n)

reverse-blanks : (n : ℕ) → reverse (blanks n) ≡ blanks n
reverse-blanks zero = refl
reverse-blanks (suc n) =
    reverse-append (b' ' ∷ []) (blanks n)
    ∙ ap (λ t. t ++ b' ' ∷ []) (reverse-blanks n)
    ∙ blanks-suc n

trim_front-padded :
    (n m : ℕ) (s : Bytes)
    → s ≢ []
    → front_space s ≡ 0
    → trim_front front_space 0 (blanks n ++ (s ++ blanks m)) ≡ s ++ blanks m
trim_front-padded n m s ne h =
    trim_front-blanks front_space n (s ++ blanks m) front_space-blank
    ∙ trim_front-IsTrimmed front_space (s ++ blanks m) (front_space-blanks s m ne h)

-- TrimSpace gives back a text that was padded with blanks.
pub trim_space-padded :
    (n m : ℕ) (s : Bytes) → IsTrimmed s → trim_space (blanks n ++ (s ++ blanks m)) ≡ s
unfolding trim_space
trim_space-padded n m [] (hf, hb) =
    ap (λ t. reverse (trim_front back_space 0 (reverse t)))
      (trim_front-blanks front_space n (blanks m) front_space-blank
        ∙ ap (trim_front front_space 0) (sym (append-nil (blanks m)))
        ∙ trim_front-blanks front_space m [] front_space-blank
        ∙ trim_front-IsTrimmed front_space [] hf)
    ∙ ap reverse (trim_front-IsTrimmed back_space [] hb)
trim_space-padded n m (x ∷ s) (hf, hb) =
    ap (λ t. reverse (trim_front back_space 0 (reverse t)))
      (trim_front-padded n m (x ∷ s) (λ h. cc) hf)
    ∙ ap (λ t. reverse (trim_front back_space 0 t))
        (reverse-append (x ∷ s) (blanks m) ∙ ap (λ t. t ++ reverse (x ∷ s)) (reverse-blanks m))
    ∙ ap reverse (
        trim_front-blanks back_space m (reverse (x ∷ s)) back_space-blank
        ∙ trim_front-IsTrimmed back_space (reverse (x ∷ s)) hb)
    ∙ reverse-reverse (x ∷ s)
