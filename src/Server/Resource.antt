-- ===== src/Server/Resource.antt =====
-- internal/server/cas_service.go: the resource names of the ByteStream service.
pub mod RoundTrip
use aws_build_farm.Prelude.{
  if◌then◌else◌, Bytes, codes, bytes_eq, Result, ok, err, panic, ◌&&◌, Option, none, some, List, [],
  ◌∷◌,
}
use aws_build_farm.GoText.Decimal.{parse_int}
use aws_build_farm.GoText.Split.{split}
use aws_build_farm.Digest.{Digest, validate}
use aws_build_farm.Server.Status.{
  ResourceError, compressed, invalid_read_name, invalid_write_name, invalid_size, invalid_digest,
}

abbrev checked : Digest → Result ResourceError Digest
checked d = elim (validate (some d)) [ some e ↦ err (invalid_digest e) | none ↦ ok d ]

-- `digestFrom`.
unfoldable pub digest_from : Bytes → Bytes → Result ResourceError Digest
digest_from hash size = elim (parse_int size) [
  | ok n ↦ checked (record { hash = hash; size_bytes = n })
  | err e ↦ err (invalid_size size e)
  | panic ↦ panic
]

abbrev pub blobs : Bytes
blobs = codes "blobs"

abbrev pub compressed_blobs : Bytes
compressed_blobs = codes "compressed-blobs"

abbrev pub uploads : Bytes
uploads = codes "uploads"

-- The hash and the size behind `blobs`, if both parts are there.
abbrev after_blobs : Bytes → List Bytes → Option (Bytes × Bytes)
after_blobs p (hash ∷ size ∷ ps) = if bytes_eq p blobs then some (hash, size) else none
after_blobs p _ = none

-- The loop of `parseReadResource` over the parts of the name.
read_parts : Bytes → List Bytes → Result ResourceError Digest
read_parts name [] = err (invalid_read_name name)
read_parts name (p ∷ ps) =
    let rest = read_parts name ps in
    let found = elim (after_blobs p ps) as (λ _. Result ResourceError Digest) [
      | some (hash, size) ↦ digest_from hash size
      | none ↦ rest
    ] in
    if bytes_eq p compressed_blobs then err compressed else found

-- `parseReadResource`.
unfoldable pub parse_read_resource : Bytes → Result ResourceError Digest
unfolding read_parts
parse_read_resource name = read_parts name (split name)

-- The hash and the size behind `uploads`, an identifier and `blobs`.
abbrev after_uploads : Bytes → List Bytes → Option (Bytes × Bytes)
after_uploads p (uuid ∷ q ∷ hash ∷ size ∷ ps) =
    if bytes_eq p uploads && bytes_eq q blobs then some (hash, size) else none
after_uploads p _ = none

write_parts : Bytes → List Bytes → Result ResourceError Digest
write_parts name [] = err (invalid_write_name name)
write_parts name (p ∷ ps) =
    let rest = write_parts name ps in
    elim (after_uploads p ps) [ some (hash, size) ↦ digest_from hash size | none ↦ rest ]

-- `parseWriteResource`.
unfoldable pub parse_write_resource : Bytes → Result ResourceError Digest
unfolding write_parts
parse_write_resource name = write_parts name (split name)
