-- ===== src/Server/ByteStream/Unchecked.antt =====
-- What the ByteStream handlers leave unchecked: the hash of an upload, and the offset of a download.
use aws_build_farm.Prelude.{
  ℤ, ℕ, negsuc, panic, inl, inr, Bool-cases, if◌then◌else◌, is_some, length, pos, Bytes,
  bytes_eq_refl, ok, ◌≡◌, ◌∙◌, ◌≢◌, true, false, none, some, [], ◌∷◌, arith,
}
use aws_build_farm.Digest.{Digest, is_empty, Sha256, from_bytes}
use aws_build_farm.Cas.Interface.{Store}
use aws_build_farm.Server.Status.{Stream}
use aws_build_farm.Proto.{ActionResult, Codec}
use aws_build_farm.Cas.MemStore.{MemStore, reader, reader_at, get}
use aws_build_farm.Cas.MemStore.Laws.{mem_store}
use aws_build_farm.Server.Resource.{parse_read_resource, parse_write_resource}
use aws_build_farm.Server.Blobs.Integrity.{IsIntact}
use aws_build_farm.Server.Blobs.Batch.{content}
use aws_build_farm.Server.ByteStream.{
  TempFile, Incoming, read, read_digest, write, query_write_status,
}
use aws_build_farm.Server.ByteStream.Upload.{
  payload, IsContiguous, IsEnded, HasNoFault, IsFor, IsFor-IsName, write-stores,
}

module _ (sha : Sha256) (st : Store) where
  -- Write, of messages as in `write-stores` and without faults, for a digest that is not the empty
  -- one and whose hash is not the one of the data, answers with success, and after it the store is
  -- not intact: it holds data under a hash that is not theirs.
  pub write-not-IsIntact :
      (s : st.State) (tmp : TempFile) (incoming : Incoming) (d : Digest)
      → IsFor st d incoming.messages
      → HasNoFault tmp
      → IsContiguous 0 incoming.messages
      → IsEnded incoming.after incoming.messages
      → incoming.close_error ≡ none
      → d.size_bytes ≡ pos (length (payload incoming.messages))
      → (st.put_stream s
          (some d)
          d.size_bytes
          (record { chunks = payload incoming.messages ∷ []; error = none })).0
        ≡ none
      → is_empty (some d) ≡ false
      → (from_bytes sha (payload incoming.messages)).hash ≢ d.hash
      → ((write st s tmp incoming).0 ≡ ok d.size_bytes)
        × (¬ IsIntact sha st (write st s tmp incoming).1)
  write-not-IsIntact s tmp incoming d for f c e close size stored some_size differs =
      let (answer, blobs) = write-stores st s tmp incoming d for f c e close size stored in
      (
        answer,
        λ intact. differs (
            intact d.hash (payload incoming.messages) (IsFor-IsName st d incoming.messages for) (
              blobs d.hash (IsFor-IsName st d incoming.messages for)
              ∙ rw (some_size, bytes_eq_refl))),
      )

module _ (st : Store) where
  -- QueryWriteStatus, of a name that parses, with a store that answers the lookup: it says that the
  -- upload is complete, with the size that the name declares, exactly if the store holds the blob,
  -- and otherwise that it is not complete, with size 0.
  query_write_status_lem :
      (s : st.State) (name : Bytes) (d : Digest)
      → parse_write_resource name ≡ ok d
      → (st.contains s (some d)).1 ≡ none
      → query_write_status st s name
        ≡ (if is_some (content st s (some d)) then ok (d.size_bytes, true) else ok (pos 0, false))
  unfolding query_write_status
  query_write_status_lem s name d for quiet =
      let held =
        st.contains_ok s (some d) (st.contains s (some d)).0
          (λ i. ((st.contains s (some d)).0, quiet i)) in
      rw (for, query_write_status) (ground (arith, held, quiet))

-- Over the in-memory store, a Read of a name that parses, whose blob is held, panics at a negative
-- offset, whatever the limit.
pub read_negative_offset :
    (codec : Codec ActionResult) (m : MemStore) (name : Bytes) (o : ℕ) (limit : ℤ)
    (stream : Stream Bytes) (d : Digest) (b : Bytes)
    → parse_read_resource name ≡ ok d
    → content (mem_store codec) m (some d) ≡ some b
    → read (mem_store codec) m name (negsuc o) limit stream ≡ (panic, stream)
unfolding read read_digest reader reader_at get
read_negative_offset codec m name o limit stream d b for held =
    elim (Bool-cases (is_empty (some d))) [
      | inl e ↦ ground (arith, for, e)
      | inr e ↦ ground (arith, for, e, held)
    ]
