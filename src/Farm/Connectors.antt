-- ===== src/Farm/Connectors.antt =====
-- The names of connectors that a flag gives, and the defaults.
use aws_build_farm.Prelude.{
  if◌then◌else◌, All, All-append, Bytes, codes, bytes_eq, bytes_eq_iff, ℕ, zero, suc, ◌≡◌, refl,
  sym, ap, ◌∙◌, ◌≢◌, false, List, [], ◌∷◌, ◌++◌, map, append-nil, arith,
}
use mathlib.Core.List.{reverse, reverse-append}
use aws_build_farm.GoText.Split.{split_on, join_on, HasNo, split_part, split-join}
use aws_build_farm.GoText.Trim.{front_space, back_space, IsTrimmed, blanks, trim_space-padded}
use aws_build_farm.Farm.{named_parts, connectors, connector_prefix, default_ingress, default_egress}

-- A part of a flag: a name, which may be empty, between blanks.
pub record Part : Type 0 where
  pub before : ℕ
  pub name : Bytes
  pub after : ℕ

abbrev pub text : Part → Bytes
text p = blanks p.before ++ (p.name ++ blanks p.after)

-- The name has no comma, and no white space at its ends.
abbrev pub IsPart : Part → Type 0
IsPart p = IsTrimmed p.name × HasNo b',' p.name

-- The names that are not empty.
abbrev pub given : List Part → List Bytes
given [] = []
given (p ∷ ps) = let rest = given ps in if bytes_eq p.name [] then rest else p.name ∷ rest

blanks-HasNo : (n : ℕ) → HasNo b',' (blanks n)
blanks-HasNo zero = tt
blanks-HasNo (suc n) = ((λ h. omega arith), blanks-HasNo n)

text-HasNo : (p : Part) → IsPart p → HasNo b',' (text p)
text-HasNo p (t, n) =
    All-append (λ c. c ≢ b',') (blanks p.before) (p.name ++ blanks p.after) (blanks-HasNo p.before)
      (All-append (λ c. c ≢ b',') p.name (blanks p.after) n (blanks-HasNo p.after))

texts-HasNo : (ps : List Part) → All IsPart ps → All (HasNo b',') (map text ps)
texts-HasNo [] h = tt
texts-HasNo (p ∷ ps) (h, hs) = (text-HasNo p h, texts-HasNo ps hs)

named_parts-text : (ps : List Part) → All IsPart ps → named_parts (map text ps) ≡ given ps
unfolding named_parts
named_parts-text [] h = refl
named_parts-text (p ∷ ps) ((t, n), hs) =
    rw (trim_space-padded p.before p.after p.name t, named_parts-text ps hs) refl

-- A flag that is not empty and whose parts, between commas, are names between blanks gives these names in order,
-- without the blanks and without the empty ones, if the names have no comma and no white space at their ends.
pub connectors-join :
    (p : Part) (ps : List Part) (fallback : Bytes)
    → All IsPart (p ∷ ps)
    → join_on b',' (text p) (map text ps) ≢ []
    → connectors (join_on b',' (text p) (map text ps)) fallback ≡ given (p ∷ ps)
unfolding connectors
connectors-join p ps fallback (h, hs) nonempty =
    let flag = join_on b',' (text p) (map text ps) in
    ap (λ b. named_parts (split_on b',' (if b then fallback else flag))) (not_empty flag nonempty)
    ∙ ap named_parts (split-join b',' (text p) (map text ps) (text-HasNo p h) (texts-HasNo ps hs))
    ∙ named_parts-text (p ∷ ps) (h, hs)
  where
    not_empty : (s : Bytes) → s ≢ [] → bytes_eq s [] ≡ false
    not_empty s h = ground (arith, bytes_eq_iff s [])

codes-HasNo : HasNo b',' (codes "arn:aws:lambda:")
codes-HasNo = ground arith

middle-HasNo : HasNo b',' (codes ":aws:network-connector:aws-network-connector:")
middle-HasNo = ground arith

prefix-HasNo : (region : Bytes) → HasNo b',' region → HasNo b',' (connector_prefix region)
prefix-HasNo region h =
    All-append (λ c. c ≢ b',') (codes "arn:aws:lambda:") _ codes-HasNo
      (All-append (λ c. c ≢ b',') region _ h middle-HasNo)

-- A default is one connector, where its name ends as this one.
connectors-default :
    (region ending : Bytes)
    → HasNo b',' region
    → HasNo b',' ending
    → ((t : Bytes) → back_space (reverse ending ++ t) ≡ 0)
    → connectors [] (connector_prefix region ++ ending) ≡ (connector_prefix region ++ ending) ∷ []
unfolding connectors front_space bytes_eq
connectors-default region ending h he hb =
    let name = connector_prefix region ++ ending in
    let part : Part = record { before = 0; name = name; after = 0 } in
    ap named_parts (
      split_part b',' name
        (All-append (λ c. c ≢ b',') (connector_prefix region) ending (prefix-HasNo region h) he))
    ∙ ap (λ t. named_parts (t ∷ [])) (sym (append-nil name))
    ∙ named_parts-text (part ∷ []) (
      (
        (
          refl,
          ap back_space (reverse-append (connector_prefix region) ending)
              ∙ hb (reverse (connector_prefix region)),
        ),
        All-append (λ c. c ≢ b',') (connector_prefix region) ending (prefix-HasNo region h) he,
      ),
      tt,
    )

-- Without the flags, the connectors are the defaults of the region.
pub connectors-defaults :
    (region : Bytes)
    → HasNo b',' region
    → (connectors [] (default_ingress region) ≡ default_ingress region ∷ [])
      × (connectors [] (default_egress region) ≡ default_egress region ∷ [])
unfolding default_ingress default_egress back_space
connectors-defaults region h = (
  connectors-default region (codes "ALL_INGRESS") h (ground arith) (λ t. refl),
  connectors-default region (codes "INTERNET_EGRESS") h (ground arith) (λ t. refl),
)
