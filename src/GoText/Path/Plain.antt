-- ===== src/GoText/Path/Plain.antt =====
-- Joining a prefix with two elements that are ordinary names.
use aws_build_farm.Prelude.{
  ◌==◌, if◌then◌else◌, Bool-cases, Bytes, bytes_eq, bytes_eq_refl, ℕ, ◌≡◌, refl, sym, ap, ◌∙◌, inl,
  inr, Bool, false, List, [], ◌∷◌, ◌++◌, append_assoc, arith,
}
use mathlib.Core.List.{foldl, foldl-append, reverse, reverse-cons}
use aws_build_farm.GoText.Split.{split, HasNoSlash, split_part, split_on, join_on}
use aws_build_farm.GoText.Path.{
  dot_dot, push, is_rooted, or_dot, cleaned, render, elements, clean, join_with, path_join,
}

-- A name that `path.Clean` leaves alone: not empty, with no slash, and neither of the dots.
pub record IsPlain (p : Bytes) : Type 0 where
  pub no_slash : HasNoSlash p
  pub not_empty : bytes_eq p [] ≡ false
  pub not_dot : bytes_eq p (b'.' ∷ []) ≡ false
  pub not_dot_dot : bytes_eq p dot_dot ≡ false

split-cons : (s : Bytes) → (p : Bytes) × (ps : List Bytes) × (split s ≡ p ∷ ps)
unfolding split_on
split-cons [] = ([], [], refl)
split-cons (x ∷ s) =
    let (p, ps, e) = split-cons s in
    elim (Bool-cases (x == b'/')) [
      | inl slash ↦ ([], split s, rw slash)
      | inr other ↦ (x ∷ p, ps, ground (arith, other, e))
    ]

-- A slash ends an element.
pub split-slash : (a b : Bytes) → split (a ++ b'/' ∷ b) ≡ split a ++ split b
unfolding split_on
split-slash [] b = refl
split-slash (x ∷ a) b =
    let (p, ps, e) = split-cons a in
    elim (Bool-cases (x == b'/')) [
      | inl slash ↦ rw slash (ap (λ t. [] ∷ t) (split-slash a b))
      | inr other ↦ rw (other, split-slash a b) (rw e)
    ]

pub push-plain :
    (rooted : Bool) (ps : List Bytes) (p : Bytes) → IsPlain p → push rooted ps p ≡ p ∷ ps
unfolding push
push-plain rooted ps p h = ground (arith, h.not_empty, h.not_dot, h.not_dot_dot)

-- The elements of the prefix, each with a slash behind it.
pub trail : List Bytes → Bytes
trail [] = []
trail (p ∷ ps) = p ++ b'/' ∷ trail ps

render-last :
    (ps : List Bytes) (d h : Bytes) → render (ps ++ d ∷ h ∷ []) ≡ trail ps ++ (d ++ b'/' ∷ h)
unfolding render trail join_on
render-last [] d h = refl
render-last (p ∷ []) d h = rw append_assoc
render-last (p ∷ q ∷ ps) d h =
    ap (λ t. p ++ b'/' ∷ t) (render-last (q ∷ ps) d h)
    ∙ sym (append_assoc p (b'/' ∷ trail (q ∷ ps)) (d ++ b'/' ∷ h))

-- What a prefix contributes to every name below it.
pub base : Bytes → Bytes
base prefix =
    let ps = trail (reverse (elements prefix)) in if is_rooted prefix then b'/' ∷ ps else ps

or_dot-nonempty : (a b : Bytes) (c : ℕ) → or_dot (a ++ c ∷ b) ≡ a ++ c ∷ b
or_dot-nonempty [] b c = refl
or_dot-nonempty (x ∷ a) b c = refl

pub clean-text :
    (prefix d h text : Bytes)
    → is_rooted text ≡ is_rooted prefix
    → elements text ≡ h ∷ d ∷ elements prefix
    → clean text ≡ base prefix ++ (d ++ b'/' ∷ h)
unfolding clean base
clean-text prefix d h text same e =
    let ps = reverse (elements prefix) in
    let order : reverse (elements text) ≡ ps ++ d ∷ h ∷ [] =
      ap reverse e
      ∙ reverse-cons h (d ∷ elements prefix)
      ∙ ap (λ t. t ++ h ∷ []) (reverse-cons d (elements prefix))
      ∙ append_assoc ps (d ∷ []) (h ∷ []) in
    let shape : render (reverse (elements text)) ≡ trail ps ++ (d ++ b'/' ∷ h) =
      ap render order ∙ render-last ps d h in
    let whole : or_dot (trail ps ++ (d ++ b'/' ∷ h)) ≡ trail ps ++ (d ++ b'/' ∷ h) =
      ap or_dot (sym (append_assoc (trail ps) d (b'/' ∷ h)))
      ∙ or_dot-nonempty (trail ps ++ d) h b'/'
      ∙ append_assoc (trail ps) d (b'/' ∷ h) in
    ground (arith, same, shape, whole)

pub cleaned-slash : (d h : Bytes) → cleaned (d ++ b'/' ∷ h) ≡ clean (d ++ b'/' ∷ h)
cleaned-slash [] h = refl
cleaned-slash (x ∷ d) h = refl

module _ (d h : Bytes) (pd : IsPlain d) (ph : IsPlain h) where
  unrooted : (s : Bytes) → is_rooted (d ++ b'/' ∷ s) ≡ false
  unrooted s = go d pd.no_slash pd.not_empty
    where
      go : (d : Bytes) → HasNoSlash d → bytes_eq d [] ≡ false → is_rooted (d ++ b'/' ∷ s) ≡ false
      go [] n e = cc (bytes_eq_refl [])
      go (x ∷ d) n e = ground arith

  elements-prefix :
      (prefix text : Bytes)
      → is_rooted text ≡ is_rooted prefix
      → split text ≡ split prefix ++ d ∷ h ∷ []
      → elements text ≡ h ∷ d ∷ elements prefix
  unfolding elements
  elements-prefix prefix text same parts =
      ap (λ (r : Bool). foldl (push r) [] (split text)) same
      ∙ ap (foldl (push (is_rooted prefix)) []) parts
      ∙ foldl-append (push (is_rooted prefix)) [] (split prefix) (d ∷ h ∷ [])
      ∙ ap (λ ps. push (is_rooted prefix) ps h)
          (push-plain (is_rooted prefix) (foldl (push (is_rooted prefix)) [] (split prefix)) d pd)
      ∙ push-plain (is_rooted prefix) (d ∷ foldl (push (is_rooted prefix)) [] (split prefix)) h ph

  elements-two : elements (d ++ b'/' ∷ h) ≡ h ∷ d ∷ elements []
  unfolding elements split_on push bytes_eq
  elements-two =
      ap (λ (r : Bool). foldl (push r) [] (split (d ++ b'/' ∷ h))) (unrooted h)
      ∙ ap (foldl (push false) []) (
          split-slash d h
          ∙ ap (λ t. t ++ split h) (split_part b'/' d pd.no_slash)
          ∙ ap (λ t. d ∷ t) (split_part b'/' h ph.no_slash))
      ∙ ap (λ ps. push false ps h) (push-plain false [] d pd)
      ∙ push-plain false (d ∷ []) h ph

  join_plain : join_with d h ≡ d ++ b'/' ∷ h
  unfolding join_with
  join_plain = go d pd.not_empty
    where
      go : (d : Bytes) → bytes_eq d [] ≡ false → join_with d h ≡ d ++ b'/' ∷ h
      go [] e = cc (bytes_eq_refl [])
      go (x ∷ d) e = refl

  -- Whatever the prefix is, the name is the text that it contributes, followed by the two elements.
  pub path_join-plain :
      (prefix : Bytes) → path_join (prefix ∷ d ∷ h ∷ []) ≡ base prefix ++ (d ++ b'/' ∷ h)
  unfolding path_join join_with
  path_join-plain [] =
      ap cleaned join_plain
      ∙ cleaned-slash d h
      ∙ clean-text [] d h (d ++ b'/' ∷ h) (unrooted h) elements-two
  path_join-plain (c ∷ s) = clean-text (c ∷ s) d h (((c ∷ s) ++ b'/' ∷ d) ++ b'/' ∷ h) refl (
      elements-prefix (c ∷ s) (((c ∷ s) ++ b'/' ∷ d) ++ b'/' ∷ h) refl (
        split-slash ((c ∷ s) ++ b'/' ∷ d) h
        ∙ cc (
          split-slash (c ∷ s) d,
          split_part b'/' d pd.no_slash,
          split_part b'/' h ph.no_slash,
          append_assoc (split (c ∷ s)) (d ∷ []) (h ∷ []),
        )))
