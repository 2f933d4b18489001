-- ===== src/Server/Blobs.antt =====
-- internal/server/cas_service.go: BatchUpdateBlobs and BatchReadBlobs.
pub mod Integrity
pub mod Batch
pub mod Outside
pub mod Agreement
use aws_build_farm.Prelude.{
  if◌then◌else◌, length, pos, eq_ℤ, Bytes, bytes_eq, Result, ok, err, panic, ◌>>=◌, not, Option,
  none, some, List, [], ◌∷◌,
}
use aws_build_farm.Digest.{DigestRef, Sha256, get_hash, get_size_bytes, validate, from_bytes}
use aws_build_farm.Cas.Reader.{StoreError}
use aws_build_farm.Cas.Reader
use aws_build_farm.Cas.Interface.{Store}
use aws_build_farm.Server.Status.{
  Code, Status, status, status_ok, digest_error, size_mismatch, hash_mismatch, store_error,
  blob_not_found,
}

pub record UpdateRequest : Type 0 where
  pub digest : DigestRef
  pub content : Bytes

pub record UpdateResponse : Type 0 where
  pub digest : DigestRef
  pub status : Status

pub record ReadResponse : Type 0 where
  pub digest : DigestRef
  pub content : Bytes
  pub status : Status

abbrev pub put_status : Option StoreError → Status
put_status none = status_ok
put_status (some e) = status Code.internal (store_error e)

module _ (sha : Sha256) (st : Store) where
  put_stored : st.State → DigestRef → Bytes → Status × st.State
  put_stored s d b = let (e, s') = st.put s d b in (put_status e, s')

  put_valid : st.State → DigestRef → Bytes → Status × st.State
  unfolding put_stored
  put_valid s d b =
      if not (eq_ℤ (pos (length b)) (get_size_bytes d))
      then (status Code.invalid_argument (size_mismatch (get_size_bytes d) (length b)), s)
      else if not (bytes_eq (from_bytes sha b).hash (get_hash d))
      then (status Code.invalid_argument (hash_mismatch (get_hash d) (from_bytes sha b).hash), s)
      else put_stored s d b

  -- `putOne`.
  unfoldable pub put_one : st.State → DigestRef → Bytes → Status × st.State
  unfolding put_valid
  put_one s d b = elim (validate d) [
    | some e ↦ (status Code.invalid_argument (digest_error e), s)
    | none ↦ put_valid s d b
  ]

  -- `BatchUpdateBlobs`: the loop over the requests.
  unfoldable pub batch_update_blobs : st.State → List UpdateRequest → List UpdateResponse × st.State
  batch_update_blobs s [] = ([], s)
  batch_update_blobs s (r ∷ rs) =
      let (status, s') = put_one s r.digest r.content in
      let (responses, s'') = batch_update_blobs s' rs in
      (record { digest = r.digest; status = status } ∷ responses, s'')

read_response : DigestRef → Result StoreError Bytes → Result Status ReadResponse
read_response d (ok b) = ok (record { digest = d; content = b; status = status_ok })
read_response d (err Reader.not_found) =
    ok (record { digest = d; content = []; status = status Code.not_found blob_not_found })
read_response d (err e) =
    ok (record { digest = d; content = []; status = status Code.internal (store_error e) })
read_response d panic = panic

module _ (st : Store) where
  -- `BatchReadBlobs`: each digest has its own status, and the call itself returns no error.
  unfoldable pub batch_read_blobs : st.State → List DigestRef → Result Status (List ReadResponse)
  unfolding read_response
  batch_read_blobs s [] = ok []
  batch_read_blobs s (d ∷ ds) =
      let rest = batch_read_blobs s ds in
      do r ← read_response d (st.get s d); rs ← rest; ok (r ∷ rs)
