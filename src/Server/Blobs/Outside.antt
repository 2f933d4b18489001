-- ===== src/Server/Blobs/Outside.antt =====
-- BatchReadBlobs does not validate its digests: over S3 it reads outside the blobs.
use aws_build_farm.Prelude.{
  Bytes, bytes_eq, ok, ◌≡◌, refl, sym, ap, ◌∙◌, inr, false, none, some, [], ◌∷◌, flatten, arith,
}
use aws_build_farm.GoText.Path.Plain.{IsPlain}
use aws_build_farm.Digest.{Digest, is_empty, empty_hash}
use aws_build_farm.Proto.{ActionResult, Codec}
use aws_build_farm.Cas.S3.{Body, S3}
use aws_build_farm.Cas.S3Store.{S3Store, blob_key, ac_key, byte_range, read_all_size, reader, get}
use aws_build_farm.Cas.S3Store.Laws.{s3_store}
use aws_build_farm.Cas.S3Store.Traversal.{climb, blob_key-climb}
use aws_build_farm.Server.Status.{status_ok}
use aws_build_farm.Server.Blobs.{batch_read_blobs}

climb_not_empty : (d : Digest) (h : Bytes) → d.hash ≡ climb h → is_empty (some d) ≡ false
unfolding is_empty empty_hash bytes_eq
climb_not_empty d h e = ground (arith, ap (λ (x : Bytes). bytes_eq x empty_hash) e)

-- What the store over S3 reads for such a digest, if S3 answers the request for the other object with a body
-- that ends without an error.
get-outside :
    (s3 : S3) (c : S3Store) (s : s3.State) (d e : Digest) (body : Body)
    → IsPlain e.hash
    → d.hash ≡ climb e.hash
    → s3.get_object s c.bucket (ac_key c (some e)) none ≡ inr body
    → body.error ≡ none
    → (b : Bytes) × (get s3 c s (some d) ≡ ok b)
unfolding get reader byte_range
get-outside s3 c s d e body plain climbs served whole = (
  flatten (body.chunks read_all_size),
  rw (climb_not_empty d e.hash climbs, blob_key-climb c d e plain climbs, served) (rw whole refl),
)

-- If S3 answers the request for the object that the action cache keeps for an action, and its body ends without
-- an error, then a batch read of the digest whose hash is `../ac/` and the hash of that action, over the
-- store in S3 with whatever prefix, is answered with the status OK and with that object.
pub batch_read_blobs-outside :
    (s3 : S3) (c : S3Store) (codec : Codec ActionResult) (s : s3.State) (d e : Digest) (body : Body)
    → IsPlain e.hash
    → d.hash ≡ climb e.hash
    → s3.get_object s c.bucket (ac_key c (some e)) none ≡ inr body
    → body.error ≡ none
    → (b : Bytes) × (s3.object s c.bucket (ac_key c (some e)) ≡ some b)
      × (batch_read_blobs (s3_store s3 c codec) s (some d ∷ [])
          ≡ ok (record { digest = some d; content = b; status = status_ok } ∷ []))
unfolding batch_read_blobs blob_key
batch_read_blobs-outside s3 c codec s d e body plain climbs served whole =
    let (b, got) = get-outside s3 c s d e body plain climbs served whole in
    let held = (s3_store s3 c codec).get_ok s (some d) b got in
    let some_size = climb_not_empty d e.hash climbs in
    (
      b,
      ap (s3.object s c.bucket) (sym (blob_key-climb c d e plain climbs))
          ∙ ground (arith, held, some_size),
      rw got refl,
    )
