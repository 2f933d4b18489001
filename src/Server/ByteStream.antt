-- ===== src/Server/ByteStream.antt =====
-- internal/server/cas_service.go: the handlers Read, Write and QueryWriteStatus.
pub mod Download
pub mod Upload
pub mod Outcomes
pub mod Unchecked
use aws_build_farm.Prelude.{
  ltb, if◌then◌else◌, length, ℤ, pos, eq_ℤ, Bytes, Result, ok, err, panic, ◌>>=◌, ℕ, ◌*◌, Bool,
  true, false, not, Option, none, some, List, [], ◌∷◌, ◌++◌,
}
use aws_build_farm.Digest.{Digest, DigestRef, key}
use aws_build_farm.Cas.Reader.{StoreError}
use aws_build_farm.Cas.Reader
use aws_build_farm.Cas.Interface.{Store}
use aws_build_farm.Server.Resource.{parse_read_resource, parse_write_resource}
use aws_build_farm.Server.Status.{
  Code, Status, status, Stream, send, resource_error, no_blob, read_blob, create_temp,
  non_contiguous, buffer_upload, wrong_size, rewind_upload, store_blob, store_error,
}

abbrev pub read_chunk_size : ℕ
read_chunk_size = 1024 * 1024

-- What `Recv` returns when there is no further message: `io.EOF`, or another error.
pub data RecvError : Type 0 where
  eof : RecvError
  broken : Status → RecvError

-- The errors that a handler returns.
pub data StreamError : Type 0 where
  refused : Status → StreamError
  recv_failed : RecvError → StreamError

module _ (d : DigestRef) where
  read_end : Option StoreError → Result Status (Unit {0})
  read_end none = ok tt
  read_end (some e) = err (status Code.internal (read_blob (key d) e))

  -- The loop of `Read`: a message for each read that has data, until the reader ends.
  send_chunks :
      List Bytes → Option StoreError → Stream Bytes → Result Status (Unit {0}) × Stream Bytes
  unfolding read_end
  send_chunks [] e stream = (read_end e, stream)
  send_chunks ([] ∷ cs) e stream = send_chunks cs e stream
  send_chunks ((x ∷ c) ∷ cs) e stream =
      let sent = send stream (x ∷ c) in
      elim sent.0 [ some f ↦ (err f, sent.1) | none ↦ send_chunks cs e sent.1 ]

module _ (st : Store) where
  read_digest : st.State → Digest → ℤ → ℤ → Stream Bytes → Result Status (Unit {0}) × Stream Bytes
  unfolding send_chunks
  read_digest s d offset limit stream = elim (st.reader s (some d) offset limit) [
    | ok r ↦ let reads = r read_chunk_size in send_chunks (some d) reads.chunks reads.error stream
    | err Reader.not_found ↦ (err (status Code.not_found (no_blob (key (some d)))), stream)
    | err e ↦ (err (status Code.internal (read_blob (key (some d)) e)), stream)
    | panic ↦ (panic, stream)
  ]

  -- `Read`.
  unfoldable pub read :
      st.State → Bytes → ℤ → ℤ → Stream Bytes → Result Status (Unit {0}) × Stream Bytes
  unfolding read_digest
  read s name offset limit stream = elim (parse_read_resource name) [
    | ok d ↦ read_digest s d offset limit stream
    | err e ↦ (err (status Code.invalid_argument (resource_error e)), stream)
    | panic ↦ (panic, stream)
  ]

pub record WriteRequest : Type 0 where
  pub resource_name : Bytes
  pub write_offset : ℤ
  pub content : Bytes
  pub finish_write : Bool

-- The faults of the temporary file: its creation, the write at a given length, the rewind, and the
-- error that ends its reading.
pub record TempFile : Type 0 where
  pub create_fails : Bool
  pub write_fails : ℕ → Bool
  pub seek_fails : Bool
  pub read_error : Option StoreError

-- The upload as it comes in: the messages, what follows them, and the error of `SendAndClose`.
pub record Incoming : Type 0 where
  pub messages : List WriteRequest
  pub after : RecvError
  pub close_error : Option Status

abbrev end_of : RecvError → Bytes → Result StreamError Bytes
end_of eof written = ok written
end_of (broken e) written = err (recv_failed (broken e))

-- One message: its data are appended to the file.
unfoldable pub append_data : TempFile → WriteRequest → Bytes → Result StreamError Bytes
append_data tmp req written =
    if ltb 0 (length req.content)
    then (if not (eq_ℤ req.write_offset (pos (length written)))
        then err (
            refused (
              status Code.invalid_argument
                (non_contiguous req.write_offset (pos (length written)))))
        else if tmp.write_fails (length written)
        then err (refused (status Code.internal buffer_upload))
        else ok (written ++ req.content))
    else ok written

-- The loop of `Write`, from the message `req` on: the content of the file at its end.
pub receive :
    TempFile → RecvError → WriteRequest → List WriteRequest → Bytes → Result StreamError Bytes
receive tmp after req [] written = do
  written' ← append_data tmp req written
  if req.finish_write then ok written' else end_of after written'
receive tmp after req (next ∷ more) written =
    let continue = λ (written' : Bytes). receive tmp after next more written' in
    do
      written' ← append_data tmp req written
      if req.finish_write then ok written' else continue written'

pub committed : Option Status → ℤ → Result StreamError ℤ
committed none n = ok n
committed (some e) n = err (refused e)

upload_status : Digest → Bool × Option StoreError → Result Status (ℤ × Bool)
upload_status d (there, some e) = err (status Code.internal (store_error e))
upload_status d (there, none) = if there then ok (d.size_bytes, true) else ok (pos 0, false)

module _ (st : Store) where
  -- The end of `Write`: the size is checked, and the file goes to the store.
  store_upload : st.State → TempFile → Incoming → Digest → Bytes → Result StreamError ℤ × st.State
  unfolding committed
  store_upload s tmp incoming d written =
      if not (eq_ℤ (pos (length written)) d.size_bytes)
      then (
        err (
            refused
              (status Code.invalid_argument (wrong_size (pos (length written)) d.size_bytes))),
        s,
      )
      else if tmp.seek_fails
      then (err (refused (status Code.internal rewind_upload)), s)
      else let stored =
          st.put_stream s (some d) (pos (length written))
            (record { chunks = written ∷ []; error = tmp.read_error }) in
        elim stored.0 [
          | some e ↦ (err (refused (status Code.internal (store_blob (key (some d)) e))), stored.1)
          | none ↦ (committed incoming.close_error (pos (length written)), stored.1)
        ]

  write_digest :
      st.State
      → TempFile
      → Incoming
      → WriteRequest
      → List WriteRequest
      → Digest
      → Result StreamError ℤ × st.State
  unfolding store_upload receive
  write_digest s tmp incoming first more d =
      if tmp.create_fails
      then (err (refused (status Code.internal create_temp)), s)
      else elim (receive tmp incoming.after first more []) [
        | ok written ↦ store_upload s tmp incoming d written
        | err e ↦ (err e, s)
        | panic ↦ (panic, s)
      ]

  write_messages :
      st.State → TempFile → Incoming → List WriteRequest → Result StreamError ℤ × st.State
  unfolding write_digest
  write_messages s tmp incoming [] = (err (recv_failed incoming.after), s)
  write_messages s tmp incoming (first ∷ more) = elim (parse_write_resource first.resource_name) [
    | ok d ↦ write_digest s tmp incoming first more d
    | err e ↦ (err (refused (status Code.invalid_argument (resource_error e))), s)
    | panic ↦ (panic, s)
  ]

  -- `Write`: the committed size or the error, and the store.
  unfoldable pub write : st.State → TempFile → Incoming → Result StreamError ℤ × st.State
  unfolding write_messages
  write s tmp incoming = write_messages s tmp incoming incoming.messages

  -- `QueryWriteStatus`: the committed size, and whether the upload is complete.
  unfoldable pub query_write_status : st.State → Bytes → Result Status (ℤ × Bool)
  unfolding upload_status
  query_write_status s name = elim (parse_write_resource name) [
    | ok d ↦ upload_status d (st.contains s (some d))
    | err e ↦ err (status Code.invalid_argument (resource_error e))
    | panic ↦ panic
  ]
