-- ===== src/Server/Resource/RoundTrip.antt =====
-- Resource names that a client writes are read back, and what is read is a valid digest.
use aws_build_farm.Prelude.{
  All, All-append, All-imp, IsInt64, Bytes, bytes_eq, bytes_eq_iff, ok, ◌≡◌, refl, ◌∙◌, ◌≢◌, ◌⊎◌,
  inl, inr, false, none, some, List, [], ◌∷◌, ◌++◌, arith,
}
use aws_build_farm.GoText.Decimal.{show_int, show_int-HasNoSlash, parse_int-show_int}
use aws_build_farm.GoText.Split.{split, join, split-join, HasNoSlash}
use aws_build_farm.Digest.{Digest, validate}
use aws_build_farm.Digest.Laws.{valid-HasNoSlash}
use aws_build_farm.Server.Resource.{
  digest_from, after_blobs, after_uploads, blobs, compressed_blobs, uploads, read_parts,
  parse_read_resource, write_parts, parse_write_resource,
}

-- Parts of an instance name: no slash, and none of the words that the protocol keeps for itself.
abbrev pub IsInstancePart : Bytes → Type 0
IsInstancePart p = HasNoSlash p × (p ≢ blobs) × (p ≢ compressed_blobs) × (p ≢ uploads)

-- The parts, joined by slashes.
abbrev pub path : List Bytes → Bytes
path [] = []
path (p ∷ ps) = join p ps

pub digest_from-show_int :
    (d : Digest)
    → validate (some d) ≡ none
    → IsInt64 d.size_bytes
    → digest_from d.hash (show_int d.size_bytes) ≡ ok d
unfolding digest_from
digest_from-show_int d v i = ground (arith, parse_int-show_int d.size_bytes i, v)

digest_from-valid :
    (hash size : Bytes) (d : Digest) → digest_from hash size ≡ ok d → validate (some d) ≡ none
unfolding digest_from
digest_from-valid hash size d h = ground arith

read_parts-valid :
    (name : Bytes) (ps : List Bytes) (d : Digest)
    → read_parts name ps ≡ ok d
    → validate (some d) ≡ none
unfolding read_parts
read_parts-valid name [] d h = cc
read_parts-valid name (p ∷ []) d h = ground (arith, read_parts-valid name [] d)
read_parts-valid name (p ∷ q ∷ []) d h = ground (arith, read_parts-valid name (q ∷ []) d)
read_parts-valid name (p ∷ q ∷ r ∷ ps) d h =
    ground (arith, read_parts-valid name (q ∷ r ∷ ps) d, digest_from-valid q r d)

write_parts-valid :
    (name : Bytes) (ps : List Bytes) (d : Digest)
    → write_parts name ps ≡ ok d
    → validate (some d) ≡ none
unfolding write_parts
write_parts-valid name [] d h = cc
write_parts-valid name (p ∷ []) d h = ground (arith, write_parts-valid name [] d)
write_parts-valid name (p ∷ q ∷ []) d h = ground (arith, write_parts-valid name (q ∷ []) d)
write_parts-valid name (p ∷ q ∷ r ∷ []) d h = ground (arith, write_parts-valid name (q ∷ r ∷ []) d)
write_parts-valid name (p ∷ q ∷ r ∷ t ∷ []) d h =
    ground (arith, write_parts-valid name (q ∷ r ∷ t ∷ []) d)
write_parts-valid name (p ∷ q ∷ r ∷ t ∷ u ∷ ps) d h =
    ground (arith, write_parts-valid name (q ∷ r ∷ t ∷ u ∷ ps) d, digest_from-valid t u d)

-- A digest that is read from a resource name is valid.
pub parse-valid :
    (name : Bytes) (d : Digest)
    → (parse_read_resource name ≡ ok d) ⊎ (parse_write_resource name ≡ ok d)
    → validate (some d) ≡ none
unfolding parse_read_resource parse_write_resource
parse-valid name d (inl h) = read_parts-valid name (split name) d h
parse-valid name d (inr h) = write_parts-valid name (split name) d h

bytes_ne : (a b : Bytes) → a ≢ b → bytes_eq a b ≡ false
bytes_ne a b h = ground (arith, bytes_eq_iff a b)

after_blobs-none : (p : Bytes) (ps : List Bytes) → p ≢ blobs → after_blobs p ps ≡ none
after_blobs-none p [] h = refl
after_blobs-none p (a ∷ []) h = refl
after_blobs-none p (a ∷ b ∷ ps) h = rw (bytes_ne p blobs h)

after_uploads-none : (p : Bytes) (ps : List Bytes) → p ≢ uploads → after_uploads p ps ≡ none
after_uploads-none p [] h = refl
after_uploads-none p (a ∷ []) h = refl
after_uploads-none p (a ∷ b ∷ []) h = refl
after_uploads-none p (a ∷ b ∷ c ∷ []) h = refl
after_uploads-none p (a ∷ b ∷ c ∷ d ∷ ps) h = rw (bytes_ne p uploads h)

read_parts-instance :
    (name : Bytes) (parts : List Bytes) (hash size : Bytes) (rest : List Bytes)
    → All IsInstancePart parts
    → read_parts name (parts ++ blobs ∷ hash ∷ size ∷ rest) ≡ digest_from hash size
unfolding read_parts bytes_eq
read_parts-instance name [] hash size rest h = refl
read_parts-instance name (p ∷ parts) hash size rest (h, hs) = ground (
  arith,
  after_blobs-none p (parts ++ blobs ∷ hash ∷ size ∷ rest) h.1,
  bytes_ne p compressed_blobs h.2,
  read_parts-instance name parts hash size rest hs,
)

write_parts-instance :
    (name : Bytes) (parts : List Bytes) (uuid hash size : Bytes) (rest : List Bytes)
    → All IsInstancePart parts
    → write_parts name (parts ++ uploads ∷ uuid ∷ blobs ∷ hash ∷ size ∷ rest)
      ≡ digest_from hash size
unfolding write_parts bytes_eq
write_parts-instance name [] uuid hash size rest h = refl
write_parts-instance name (p ∷ parts) uuid hash size rest (h, hs) = ground (
  arith,
  after_uploads-none p (parts ++ uploads ∷ uuid ∷ blobs ∷ hash ∷ size ∷ rest) h.3,
  write_parts-instance name parts uuid hash size rest hs,
)

split-path : (ps : List Bytes) → ps ≢ [] → All HasNoSlash ps → split (path ps) ≡ ps
split-path [] h hs = absurd (h refl)
split-path (p ∷ ps) h (hp, hs) = split-join b'/' p ps hp hs

IsInstancePart-HasNoSlash : (ps : List Bytes) → All IsInstancePart ps → All HasNoSlash ps
IsInstancePart-HasNoSlash ps = All-imp IsInstancePart HasNoSlash ps (λ p h. h.0)

append-ne_nil : (ps qs : List Bytes) (q : Bytes) → ps ++ q ∷ qs ≢ []
append-ne_nil [] qs q h = cc
append-ne_nil (p ∷ ps) qs q h = cc

module _ (parts rest : List Bytes) (d : Digest) (h : All IsInstancePart parts)
    (hr : All HasNoSlash rest) (v : validate (some d) ≡ none) (i : IsInt64 d.size_bytes) where
  -- parseReadResource: the name `{instance}/blobs/{hash}/{size}` of a valid digest whose size is an
  -- `int64`, with any further parts behind it, is read as that digest, if no part has a slash, and
  -- no part of the instance is `blobs`, `compressed-blobs` or `uploads`.
  parse_read_resource-path :
      parse_read_resource (path (parts ++ blobs ∷ d.hash ∷ show_int d.size_bytes ∷ rest)) ≡ ok d
  unfolding parse_read_resource
  parse_read_resource-path =
      rw
        (split-path _ (append-ne_nil parts (d.hash ∷ show_int d.size_bytes ∷ rest) blobs) (
          All-append HasNoSlash parts _ (IsInstancePart-HasNoSlash parts h)
            (omega arith, (valid-HasNoSlash d v, (show_int-HasNoSlash d.size_bytes, hr)))))
        (read_parts-instance _ parts d.hash (show_int d.size_bytes) rest h
          ∙ digest_from-show_int d v i)

  -- parseWriteResource: the name `{instance}/uploads/{uuid}/blobs/{hash}/{size}` of a valid digest
  -- whose size is an `int64`, with any further parts behind it, is read as that digest, if no part
  -- has a slash, and no part of the instance is `blobs`, `compressed-blobs` or `uploads`.
  parse_write_resource-path :
      (uuid : Bytes)
      → HasNoSlash uuid
      → parse_write_resource
          (path (parts ++ uploads ∷ uuid ∷ blobs ∷ d.hash ∷ show_int d.size_bytes ∷ rest))
        ≡ ok d
  unfolding parse_write_resource
  parse_write_resource-path uuid hu =
      rw
        (split-path _
          (append-ne_nil parts (uuid ∷ blobs ∷ d.hash ∷ show_int d.size_bytes ∷ rest) uploads)
          (All-append HasNoSlash parts _ (IsInstancePart-HasNoSlash parts h) (
            omega arith,
            (hu, (omega arith, (valid-HasNoSlash d v, (show_int-HasNoSlash d.size_bytes, hr)))),
          )))
        (write_parts-instance _ parts uuid d.hash (show_int d.size_bytes) rest h
          ∙ digest_from-show_int d v i)

  -- parseReadResource and parseWriteResource: the names `{instance}/blobs/{hash}/{size}` and
  -- `{instance}/uploads/{uuid}/blobs/{hash}/{size}` of a valid digest whose size is an `int64`, with any further
  -- parts behind them, are read as that digest, if no part has a slash, and no part of the instance is `blobs`,
  -- `compressed-blobs` or `uploads`.
  pub parse_resource-path :
      (parse_read_resource (path (parts ++ blobs ∷ d.hash ∷ show_int d.size_bytes ∷ rest)) ≡ ok d)
      × ((uuid : Bytes)
          → HasNoSlash uuid
          → parse_write_resource
              (path (parts ++ uploads ∷ uuid ∷ blobs ∷ d.hash ∷ show_int d.size_bytes ∷ rest))
            ≡ ok d)
  parse_resource-path = (parse_read_resource-path, parse_write_resource-path)
