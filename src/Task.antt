-- ===== src/Task.antt =====
-- internal/task/task.go: what the server and the agent send each other. `encoding/json` is a parameter,
-- the record `JsonCodec`.
use aws_build_farm.Prelude.{ℤ, Bytes, codes, ◌≡◌, true, Option, some}
use aws_build_farm.GoText.Utf8.{is_valid}

-- `json.Marshal` and `json.Unmarshal` at one type of messages: either may fail. Strings that are not valid
-- UTF-8 are altered, so only the messages whose strings are valid are decoded to themselves; a field of
-- bytes is written in base64, and may hold any.
pub record JsonCodec (M : Type 0) (IsText : M → Type 0) : Type 0 where
  pub marshal : M → Option Bytes
  pub unmarshal : Bytes → Option M
  pub round_trip : (m : M) (b : Bytes) → IsText m → marshal m ≡ some b → unmarshal b ≡ some m

abbrev pub execute_path : Bytes
execute_path = codes "/v1/execute"

abbrev pub health_path : Bytes
health_path = codes "/health"

pub record ExecuteTask : Type 0 where
  pub region : Bytes
  pub bucket : Bytes
  pub prefix : Bytes
  pub command_proto : Bytes
  pub input_root_hash : Bytes
  pub input_root_size : ℤ
  pub timeout_seconds : ℤ

-- The strings of a task are valid UTF-8.
abbrev pub IsTextTask : ExecuteTask → Type 0
IsTextTask t =
    (is_valid t.region ≡ true)
    × (is_valid t.bucket ≡ true)
    × (is_valid t.prefix ≡ true)
    × (is_valid t.input_root_hash ≡ true)

abbrev pub TaskCodec : Type 0
TaskCodec = JsonCodec ExecuteTask IsTextTask

pub record ExecuteResult : Type 0 where
  pub action_result : Bytes
  pub error : Bytes

-- The string of a result is valid UTF-8.
abbrev pub IsTextResult : ExecuteResult → Type 0
IsTextResult r = is_valid r.error ≡ true

abbrev pub ResultCodec : Type 0
ResultCodec = JsonCodec ExecuteResult IsTextResult
