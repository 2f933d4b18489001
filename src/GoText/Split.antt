-- ===== src/GoText/Split.antt =====
-- `strings.Split` at one byte, and the text that is split; `split` is at the slash.
use aws_build_farm.Prelude.{
  ℕ, ◌≡◌, ◌≢◌, refl, ap, List, [], ◌∷◌, ◌++◌, arith, Bytes, ◌==◌, if◌then◌else◌, All,
}

abbrev cons_head : ℕ → List Bytes → List Bytes
cons_head x [] = (x ∷ []) ∷ []
cons_head x (p ∷ ps) = (x ∷ p) ∷ ps

unfoldable pub split_on : ℕ → Bytes → List Bytes
split_on sep [] = [] ∷ []
split_on sep (x ∷ s) = let rest = split_on sep s in if x == sep then [] ∷ rest else cons_head x rest

abbrev pub split : Bytes → List Bytes
split = split_on b'/'

-- The parts `p ∷ ps`, joined by a byte.
unfoldable pub join_on : ℕ → Bytes → List Bytes → Bytes
join_on sep p [] = p
join_on sep p (q ∷ ps) = p ++ sep ∷ join_on sep q ps

abbrev pub join : Bytes → List Bytes → Bytes
join = join_on b'/'

abbrev pub HasNo : ℕ → Bytes → Type 0
HasNo sep = All (λ c. c ≢ sep)

abbrev pub HasNoSlash : Bytes → Type 0
HasNoSlash = HasNo b'/'

pub split_part : (sep : ℕ) (p : Bytes) → HasNo sep p → split_on sep p ≡ p ∷ []
unfolding split_on
split_part sep [] h = refl
split_part sep (x ∷ p) h = ground (arith, split_part sep p h.1)

split-append :
    (sep : ℕ) (p s : Bytes) → HasNo sep p → split_on sep (p ++ sep ∷ s) ≡ p ∷ split_on sep s
unfolding split_on
split-append sep [] s h = ground arith
split-append sep (x ∷ p) s h = ground (arith, split-append sep p s h.1)

-- Splitting gives back the parts that were joined.
pub split-join :
    (sep : ℕ) (p : Bytes) (ps : List Bytes)
    → HasNo sep p
    → All (HasNo sep) ps
    → split_on sep (join_on sep p ps) ≡ p ∷ ps
unfolding join_on
split-join sep p [] h hs = split_part sep p h
split-join sep p (q ∷ ps) h hs =
    rw (split-append sep p (join_on sep q ps) h) (ap (λ t. p ∷ t) (split-join sep q ps hs.0 hs.1))
