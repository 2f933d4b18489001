-- ===== src/GoText/Path/Absolute.antt =====
-- Absolute paths of ordinary names: joining one more name puts it at the end.
use aws_build_farm.Prelude.{
  All, All-append, Bytes, bytes_eq, ◌≡◌, refl, sym, ap, ◌∙◌, Bool, true, List, [], ◌∷◌, ◌++◌,
  append-nil, append_assoc,
}
use mathlib.Core.List.{reverse, reverse-cons, reverse-reverse, foldl}
use aws_build_farm.GoText.Split.{split, HasNoSlash, split_part, join_on}
use aws_build_farm.GoText.Path.{push, elements, render, clean, join_with, path_join}
use aws_build_farm.GoText.Path.Plain.{IsPlain, split-slash, push-plain}

-- The path of the names, below the root.
unfoldable pub absolute : List Bytes → Bytes
absolute [] = []
absolute (p ∷ ps) = b'/' ∷ (p ++ absolute ps)

pub absolute-append : (ps qs : List Bytes) → absolute (ps ++ qs) ≡ absolute ps ++ absolute qs
unfolding absolute
absolute-append [] qs = refl
absolute-append (p ∷ ps) qs =
    ap (λ t. b'/' ∷ t)
      (ap (λ t. p ++ t) (absolute-append ps qs) ∙ sym (append_assoc p (absolute ps) (absolute qs)))

split-absolute :
    (p : Bytes) (ps : List Bytes)
    → HasNoSlash p
    → All IsPlain ps
    → split (p ++ absolute ps) ≡ p ∷ ps
unfolding absolute
split-absolute p [] n h = ap split (append-nil p) ∙ split_part b'/' p n
split-absolute p (q ∷ ps) n (hq, h) =
    split-slash p (q ++ absolute ps)
    ∙ ap (λ t. t ++ split (q ++ absolute ps)) (split_part b'/' p n)
    ∙ ap (λ t. p ∷ t) (split-absolute q ps hq.no_slash h)

foldl-push-plain :
    (rooted : Bool) (acc ps : List Bytes)
    → All IsPlain ps
    → foldl (push rooted) acc ps ≡ reverse ps ++ acc
foldl-push-plain rooted acc [] h = refl
foldl-push-plain rooted acc (p ∷ ps) (hp, h) =
    ap (λ a. foldl (push rooted) a ps) (push-plain rooted acc p hp)
    ∙ foldl-push-plain rooted (p ∷ acc) ps h
    ∙ sym (ap (λ t. t ++ acc) (reverse-cons p ps) ∙ append_assoc (reverse ps) (p ∷ []) acc)

elements-absolute :
    (p : Bytes) (ps : List Bytes)
    → All IsPlain (p ∷ ps)
    → elements (absolute (p ∷ ps)) ≡ reverse (p ∷ ps)
unfolding elements push bytes_eq absolute
elements-absolute p ps h =
    ap (foldl (push true) []) (split-absolute [] (p ∷ ps) tt h)
    ∙ foldl-push-plain true [] (p ∷ ps) h
    ∙ append-nil (reverse (p ∷ ps))

render-absolute : (p : Bytes) (ps : List Bytes) → render (p ∷ ps) ≡ p ++ absolute ps
unfolding render absolute join_on
render-absolute p [] = sym (append-nil p)
render-absolute p (q ∷ ps) = ap (λ t. p ++ b'/' ∷ t) (render-absolute q ps)

clean-absolute :
    (p : Bytes) (ps : List Bytes)
    → All IsPlain (p ∷ ps)
    → clean (absolute (p ∷ ps)) ≡ absolute (p ∷ ps)
unfolding clean absolute
clean-absolute p ps h =
    let parts : elements (absolute (p ∷ ps)) ≡ reverse (p ∷ ps) = elements-absolute p ps h in
    ap (λ t. b'/' ∷ render (reverse t)) parts
    ∙ ap (λ t. b'/' ∷ render t) (reverse-reverse (p ∷ ps))
    ∙ ap (λ t. b'/' ∷ t) (render-absolute p ps)

-- Joining a name to an absolute path.
pub path_join-absolute :
    (p : Bytes) (ps : List Bytes) (name : Bytes)
    → All IsPlain (p ∷ ps)
    → IsPlain name
    → path_join (absolute (p ∷ ps) ∷ name ∷ []) ≡ absolute ((p ∷ ps) ++ name ∷ [])
unfolding path_join join_with absolute
path_join-absolute p ps name h hn =
    ap (λ t. clean (absolute (p ∷ ps) ++ b'/' ∷ t)) (sym (append-nil name))
    ∙ ap clean (sym (absolute-append (p ∷ ps) (name ∷ [])))
    ∙ clean-absolute p (ps ++ name ∷ []) (All-append IsPlain (p ∷ ps) (name ∷ []) h (hn, tt))
