-- ===== src/Agent/Handler.antt =====
-- cmd/executor-agent/main.go: the handler of a task. The texts of its errors come in part from other packages
-- and are parameters.
use aws_build_farm.Prelude.{
  if◌then◌else◌, Bytes, codes, bytes_eq, Result, ok, err, panic, ℕ, not, Option, none, some, [],
  ◌∷◌, ◌++◌,
}
use aws_build_farm.Digest.{Sha256}
use aws_build_farm.Proto.{ActionResult, Directory, Tree, Command, Codec}
use aws_build_farm.Task.{TaskCodec, ResultCodec, ExecuteResult}
use aws_build_farm.Os.{Os}
use aws_build_farm.Cas.Interface.{Store}
use aws_build_farm.Agent.Outputs.{AgentError}
use aws_build_farm.Agent.Work.{run_task}
use aws_build_farm.Microvm.{Response}

module _ (tasks : TaskCodec) (results : ResultCodec) (actions : Codec ActionResult)
    (error_text : AgentError → Bytes) (json_error : Bytes → Bytes) (proto_error : Bytes) where
  abbrev pub written : Option Bytes → Bytes
  written none = []
  written (some b) = b

  -- `writeResult`: the status is 200, also with an error, and a failure of the encoder is ignored.
  unfoldable pub write_result : ExecuteResult → Response
  write_result r = record { status = 200; body = written (results.marshal r) }

  abbrev pub failure : Bytes → ExecuteResult
  failure text = record { action_result = []; error = text }

  abbrev pub packed : Option Bytes → ExecuteResult
  packed none = failure (codes "marshal action result: " ++ proto_error)
  packed (some b) = record { action_result = b; error = [] }

  -- What the handler answers after `runTask`. There is no answer after a panic, at which the server closes the
  -- connection.
  unfoldable pub task_answer : Result AgentError ActionResult → Option Response
  unfolding write_result
  task_answer (ok ar) = some (write_result (packed (actions.marshal ar)))
  task_answer (err e) = some (write_result (failure (error_text e)))
  task_answer panic = none

  module _ (sha : Sha256) (st : Store) (os : Os) (directories : Codec Directory)
      (trees : Codec Tree) (commands : Codec Command) (config_error : Bytes → Option Bytes)
      (fuel : ℕ) where
    abbrev pub answered :
        Option (Result AgentError ActionResult × (os.State × st.State))
        → Option (Option Response × (os.State × st.State))
    answered none = none
    answered (some (r, w)) = some (task_answer r, w)

    -- `handleExecute`, with the method and the body of the request.
    unfoldable pub handle_execute :
        Bytes → Bytes → os.State × st.State → Option (Option Response × (os.State × st.State))
    unfolding write_result run_task task_answer
    handle_execute method body w =
        if not (bytes_eq method (codes "POST"))
        then some (some (record { status = 405; body = codes "method not allowed" ++ 10 ∷ [] }), w)
        else elim (tasks.unmarshal body) [
          | none ↦
              some (some (write_result (failure (codes "decode task: " ++ json_error body))), w)
          | some t ↦ answered (run_task sha st os directories trees commands config_error fuel t w)
        ]
