-- ===== src/Server/Status.antt =====
-- The statuses of internal/server: the gRPC code, and the message as its format and arguments.
use aws_build_farm.Prelude.{
  length, ℤ, Bytes, ℕ, ◌≡◌, Option, none, some, List, [], ◌∷◌, ◌++◌, arith,
}
use aws_build_farm.Digest.{DigestError}
use aws_build_farm.Cas.Reader.{StoreError}
use aws_build_farm.GoText.Decimal.{NumError}

-- The codes of google.golang.org/grpc/codes that the server answers.
pub data Code : Type 0 where
  ok canceled invalid_argument not_found failed_precondition unimplemented internal : Code

-- The errors of `parseReadResource`, `parseWriteResource` and `digestFrom`.
pub data ResourceError : Type 0 where
  compressed : ResourceError
  invalid_read_name : Bytes → ResourceError
  invalid_write_name : Bytes → ResourceError
  invalid_size : Bytes → NumError → ResourceError
  invalid_digest : DigestError → ResourceError

-- One constructor for each format of internal/server, with the values that are formatted.
-- A digest enters by its `digest.Key`.
pub data Message : Type 0 where
  no_message : Message
  digest_error : DigestError → Message
  size_mismatch : ℤ → ℕ → Message
  hash_mismatch : Bytes → Bytes → Message
  store_error : StoreError → Message
  blob_not_found : Message
  find_missing : StoreError → Message
  directory_not_found : Bytes → Message
  read_directory : Bytes → StoreError → Message
  unmarshal_directory : Bytes → Message
  resource_error : ResourceError → Message
  no_blob : Bytes → Message
  read_blob : Bytes → StoreError → Message
  create_temp : Message
  non_contiguous : ℤ → ℤ → Message
  buffer_upload : Message
  wrong_size : ℤ → ℤ → Message
  rewind_upload : Message
  store_blob : Bytes → StoreError → Message
  no_cached_result : Bytes → Message
  action_result_required : Message
  no_operation : Bytes → Message
  operation_without_state : Bytes → Message
  execution_disabled : Message
  action_not_found : Bytes → Message
  fetch_action : StoreError → Message
  unmarshal_action : Message
  command_not_found : Bytes → StoreError → Message
  unmarshal_command : Message
  run_error : Bytes → Message

pub record Status : Type 0 where
  pub code : Code
  pub message : Message

-- `statusProto` and `status.Errorf`.
abbrev pub status : Code → Message → Status
status c m = record { code = c; message = m }

abbrev pub status_ok : Status
status_ok = status Code.ok no_message

-- A server stream: what was sent, and which `Send`, counted from 0, returns an error.
pub record Stream (M : Type 0) : Type 0 where
  pub sent : List M
  pub fault : ℕ → Option Status

-- `stream.Send(m)`: the error if there is one, and the stream.
abbrev pub send : {M : Type 0} → Stream M → M → Option Status × Stream M
send s m = elim (s.fault (length s.sent)) [
  | none ↦ (none, record s { sent = s.sent ++ m ∷ [] })
  | some e ↦ (some e, s)
]

-- A client that stays connected.
abbrev pub IsReliable : {M : Type 0} → Stream M → Type 0
IsReliable s = (n : ℕ) → s.fault n ≡ none

pub send_ok :
    {M : Type 0} (s : Stream M) (m : M)
    → s.fault (length s.sent) ≡ none
    → send s m ≡ (none, record s { sent = s.sent ++ m ∷ [] })
send_ok s m h = ground (arith, h)
