-- ===== src/Prelude/Chunks.antt =====
-- A list cut into pieces of a given size: how `bytes.Reader` fills a buffer, and how a page fills.
use Prim.Native.Nat.{ℕ, zero, suc, ◌≤◌, ◌<◌}
use mathlib.Core.Path.{◌≡◌, refl}
use mathlib.Core.List.{List, [], ◌∷◌, flatten}
use native.Mathlib.Omega.{arith}
use aws_build_farm.Prelude.Lists.{
  length, take, drop, All, take-append-drop, length-take, length-drop,
}

module _ {A : Type 0} where
  -- `b` cut into pieces of `n` items, the last one shorter, with fuel for the number of pieces.
  chunks_from : ℕ → ℕ → List A → List (List A)
  chunks_from zero n b = []
  chunks_from (suc f) n [] = []
  chunks_from (suc f) n (x ∷ b) = take n (x ∷ b) ∷ chunks_from f n (drop n (x ∷ b))

  unfoldable pub chunks_of : ℕ → List A → List (List A)
  unfolding chunks_from
  chunks_of n b = chunks_from (length b) n b

  -- Pieces of at most `n` items, none of them empty.
  abbrev pub IsChunked : ℕ → List (List A) → Type 0
  IsChunked n = All (λ c. (0 < length c) × (length c ≤ n))

  chunks_from_lem :
      (f n : ℕ) (b : List A)
      → 0 < n
      → length b ≤ f
      → (flatten (chunks_from f n b) ≡ b) × IsChunked n (chunks_from f n b)
  unfolding chunks_from flatten
  chunks_from_lem zero n [] h k = (refl, tt)
  chunks_from_lem zero n (x ∷ b) h k = absurd (omega arith)
  chunks_from_lem (suc f) n [] h k = (refl, tt)
  chunks_from_lem (suc f) n (x ∷ b) h k =
      let (same, fits) =
        chunks_from_lem f n (drop n (x ∷ b)) h (omega (arith, length-drop n (x ∷ b))) in
      (
        rw same (take-append-drop n (x ∷ b)),
        ((omega (arith, length-take n (x ∷ b)), omega (arith, length-take n (x ∷ b))), fits),
      )

  -- The pieces make up the list again.
  pub flatten-chunks_of : (n : ℕ) (b : List A) → 0 < n → flatten (chunks_of n b) ≡ b
  unfolding chunks_of
  flatten-chunks_of n b h = (chunks_from_lem (length b) n b h (omega arith)).0

  pub chunks_of-IsChunked : (n : ℕ) (b : List A) → 0 < n → IsChunked n (chunks_of n b)
  unfolding chunks_of
  chunks_of-IsChunked n b h = (chunks_from_lem (length b) n b h (omega arith)).1
