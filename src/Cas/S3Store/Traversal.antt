-- ===== src/Cas/S3Store/Traversal.antt =====
-- A digest that was not validated can name objects outside the blobs of the store.
use aws_build_farm.Prelude.{
  Bytes, codes, bytes_eq, ◌≡◌, refl, sym, ap, ◌∙◌, Bool, false, some, List, [], ◌∷◌, ◌++◌,
  append_assoc,
}
use mathlib.Core.List.{foldl, foldl-append}
use aws_build_farm.GoText.Split.{split, split_part, split_on}
use aws_build_farm.GoText.Path.{path_join, elements, push, is_rooted, join_with}
use aws_build_farm.GoText.Path.Plain.{
  IsPlain, base, clean-text, push-plain, split-slash, path_join-plain,
}
use aws_build_farm.Digest.{Digest}
use aws_build_farm.Cas.S3Store.{S3Store, blob_key, ac_key}
use aws_build_farm.Cas.S3Store.Keys.{cas-IsPlain, ac-IsPlain}

-- The text that climbs out of the blobs and into the action cache.
abbrev pub climb : Bytes → Bytes
climb h = codes "../ac/" ++ h

module _ (h : Bytes) (ph : IsPlain h) where
  climbing :
      (rooted : Bool) (ps : List Bytes)
      → foldl (push rooted) (codes "cas" ∷ ps) (split (climb h)) ≡ h ∷ codes "ac" ∷ ps
  unfolding split_on push bytes_eq
  climbing rooted ps =
      ap (foldl (push rooted) (codes "ac" ∷ ps)) (split_part b'/' h ph.no_slash)
      ∙ push-plain rooted (codes "ac" ∷ ps) h ph

  elements-climb :
      (prefix text : Bytes)
      → is_rooted text ≡ is_rooted prefix
      → split text ≡ split prefix ++ codes "cas" ∷ split (climb h)
      → elements text ≡ h ∷ codes "ac" ∷ elements prefix
  unfolding elements
  elements-climb prefix text same parts =
      ap (λ (r : Bool). foldl (push r) [] (split text)) same
      ∙ ap (foldl (push (is_rooted prefix)) []) parts
      ∙ foldl-append (push (is_rooted prefix)) [] (split prefix) (codes "cas" ∷ split (climb h))
      ∙ ap (λ ps. foldl (push (is_rooted prefix)) ps (split (climb h)))
          (push-plain (is_rooted prefix) (foldl (push (is_rooted prefix)) [] (split prefix))
            (codes "cas") cas-IsPlain)
      ∙ climbing (is_rooted prefix) (foldl (push (is_rooted prefix)) [] (split prefix))

  elements_bare : elements (codes "cas" ++ b'/' ∷ climb h) ≡ h ∷ codes "ac" ∷ elements []
  unfolding elements split_on push bytes_eq
  elements_bare = climbing false []

  path_join-climb :
      (prefix : Bytes)
      → path_join (prefix ∷ codes "cas" ∷ climb h ∷ []) ≡ base prefix ++ (codes "ac" ++ b'/' ∷ h)
  unfolding path_join join_with
  path_join-climb [] =
      clean-text [] (codes "ac") h (codes "cas" ++ b'/' ∷ climb h) refl elements_bare
  path_join-climb (c ∷ s) =
      clean-text (c ∷ s) (codes "ac") h (((c ∷ s) ++ b'/' ∷ codes "cas") ++ b'/' ∷ climb h) refl (
        elements-climb (c ∷ s) (((c ∷ s) ++ b'/' ∷ codes "cas") ++ b'/' ∷ climb h) refl (
          split-slash ((c ∷ s) ++ b'/' ∷ codes "cas") (climb h)
          ∙ cc (
            split-slash (c ∷ s) (codes "cas"),
            split_part b'/' (codes "cas") cas-IsPlain.no_slash,
            append_assoc (split (c ∷ s)) (codes "cas" ∷ []) (split (climb h)),
          )))

-- For every store and prefix, the key of the blob with such a hash is the key under which the result of
-- the action is cached.
pub blob_key-climb :
    (c : S3Store) (d e : Digest)
    → IsPlain e.hash
    → d.hash ≡ climb e.hash
    → blob_key c (some d) ≡ ac_key c (some e)
unfolding blob_key ac_key
blob_key-climb c d e p h =
    ap (λ (x : Bytes). path_join (c.prefix ∷ codes "cas" ∷ x ∷ [])) h
    ∙ path_join-climb e.hash p c.prefix
    ∙ sym (path_join-plain (codes "ac") e.hash ac-IsPlain p c.prefix)
