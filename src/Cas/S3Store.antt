-- ===== src/Cas/S3Store.antt =====
-- internal/cas/cas.go: the store that keeps its blobs in an S3 bucket, over the parameter `S3`.
pub mod Keys
pub mod Reading
pub mod Writing
pub mod Laws
pub mod Traversal
pub mod Bounds
use aws_build_farm.Prelude.{
  if◌then◌else◌, length, ℤ, pos, negsuc, leb_ℤ, ◌+ℤ◌, wrap_int64, Bytes, codes, Result, ok, err,
  ◌>>=◌, ℕ, ◌*◌, ◌⊎◌, inl, inr, Bool, true, false, ◌&&◌, Option, none, some, [], ◌∷◌, ◌++◌,
}
use aws_build_farm.GoText.Path.{path_join}
use aws_build_farm.Digest.{DigestRef, get_hash, is_empty, key}
use aws_build_farm.Proto.{ActionResult, Codec}
use aws_build_farm.Cas.Reader.{
  StoreError, not_found, failure, Reads, Reader, bytes_reader, read_all,
}
use aws_build_farm.Cas.S3.{
  S3Error, no_such_key, not_found_type, api_error, other_error, Body, range_from, range_between,
  is_absent_code, S3,
}

-- `S3Store`; the client and its uploader are the parameter `S3`.
pub record S3Store : Type 0 where
  pub bucket : Bytes
  pub prefix : Bytes

-- `cas.NewS3Store`.
abbrev pub new_s3_store : Bytes → Bytes → S3Store
new_s3_store bucket prefix = record { bucket = bucket; prefix = prefix }

-- `blobKey`.
unfoldable pub blob_key : S3Store → DigestRef → Bytes
blob_key c d = path_join (c.prefix ∷ codes "cas" ∷ get_hash d ∷ [])

-- `acKey`.
unfoldable pub ac_key : S3Store → DigestRef → Bytes
ac_key c d = path_join (c.prefix ∷ codes "ac" ∷ get_hash d ∷ [])

-- `isNotFound`.
unfoldable pub is_not_found : S3Error → Bool
is_not_found (no_such_key text) = true
is_not_found (not_found_type text) = true
is_not_found (api_error code text) = is_absent_code code
is_not_found (other_error text) = false

-- `offset + limit - 1`, in `int64`.
abbrev pub last_offset : ℤ → ℤ → ℤ
last_offset offset limit = wrap_int64 (wrap_int64 (offset +ℤ limit) +ℤ negsuc 0)

-- `byteRange`, where `none` is the empty text.
unfoldable pub byte_range : ℤ → ℤ → Option Bytes
byte_range offset limit =
    if leb_ℤ offset (pos 0) && leb_ℤ limit (pos 0)
    then none
    else if leb_ℤ limit (pos 0)
    then some (range_from offset)
    else some (range_between offset (last_offset offset limit))

abbrev error_text : S3Error → Bytes
error_text (no_such_key text) = text
error_text (not_found_type text) = text
error_text (api_error code text) = text
error_text (other_error text) = text

-- `fmt.Errorf("<verb> %s: %w", digest.Key(d), err)`
abbrev wrapped : Bytes → DigestRef → S3Error → StoreError
wrapped verb d e = failure (verb ++ (key d ++ (codes ": " ++ error_text e)))

-- The error of a request for an object.
abbrev request_error : Bytes → DigestRef → S3Error → StoreError
request_error verb d e = if is_not_found e then not_found else wrapped verb d e

abbrev body_end : Option Bytes → Option StoreError
body_end none = none
body_end (some text) = some (failure text)

-- `out.Body`
abbrev pub body_reader : Body → Reader
body_reader body n = record { chunks = body.chunks n; error = body_end body.error }

-- The sizes of the first buffer of `io.ReadAll` and of a part of the upload manager.
abbrev pub read_all_size : ℕ
read_all_size = 512

abbrev pub part_size : ℕ
part_size = 5 * 1024 * 1024

abbrev all_read : Bytes × Option StoreError → Result StoreError Bytes
all_read (b, none) = ok b
all_read (b, some e) = err e

module _ (s3 : S3) (c : S3Store) where
  abbrev head_answer : DigestRef → Option S3Error → Bool × Option StoreError
  head_answer d none = (true, none)
  head_answer d (some e) =
      if is_not_found e then (false, none) else (false, some (wrapped (codes "head ") d e))

  unfoldable pub contains : s3.State → DigestRef → Bool × Option StoreError
  unfolding is_not_found
  contains s d =
      if is_empty d then (true, none) else head_answer d (s3.head_object s c.bucket (blob_key c d))

  abbrev object_reader : Bytes → DigestRef → S3Error ⊎ Body → Result StoreError Reader
  object_reader verb d (inl e) = err (request_error verb d e)
  object_reader verb d (inr body) = ok (body_reader body)

  unfoldable pub reader : s3.State → DigestRef → ℤ → ℤ → Result StoreError Reader
  reader s d offset limit =
      if is_empty d
      then ok (bytes_reader [])
      else object_reader (codes "get ") d
          (s3.get_object s c.bucket (blob_key c d) (byte_range offset limit))

  unfoldable pub get : s3.State → DigestRef → Result StoreError Bytes
  unfolding reader
  get s d =
      if is_empty d
      then ok []
      else reader s d (pos 0) (pos 0) >>= λ r. all_read (read_all (r read_all_size))

  abbrev upload_answer : DigestRef → Option S3Error → Option StoreError
  upload_answer d none = none
  upload_answer d (some e) = some (wrapped (codes "put ") d e)

  unfoldable pub put_stream : s3.State → DigestRef → ℤ → Reads → Option StoreError × s3.State
  put_stream s d size r =
      if is_empty d
      then (none, s)
      else let uploaded = s3.upload s c.bucket (blob_key c d) r in
        (upload_answer d uploaded.0, uploaded.1)

  unfoldable pub put : s3.State → DigestRef → Bytes → Option StoreError × s3.State
  unfolding put_stream
  put s d b =
      if is_empty d then (none, s) else put_stream s d (pos (length b)) (bytes_reader b part_size)

  module _ (codec : Codec ActionResult) where
    abbrev decoded : Option ActionResult → Result StoreError ActionResult
    decoded none = err (failure (codes "unmarshal action result"))
    decoded (some ar) = ok ar

    unfoldable pub get_action_result : s3.State → DigestRef → Result StoreError ActionResult
    get_action_result s d = do
      r ← object_reader (codes "get action result ") d (s3.get_object s c.bucket (ac_key c d) none)
      b ← all_read (read_all (r read_all_size))
      decoded (codec.unmarshal b)

    abbrev put_answer : DigestRef → Option S3Error → Option StoreError
    put_answer d none = none
    put_answer d (some e) = some (wrapped (codes "put action result ") d e)

    abbrev put_encoded : s3.State → DigestRef → Option Bytes → Option StoreError × s3.State
    put_encoded s d none = (some (failure (codes "marshal")), s)
    put_encoded s d (some b) =
        let written = s3.put_object s c.bucket (ac_key c d) b in (put_answer d written.0, written.1)

    unfoldable pub put_action_result :
        s3.State → DigestRef → ActionResult → Option StoreError × s3.State
    put_action_result s d ar = put_encoded s d (codec.marshal ar)
