-- ===== src/Microvm/Run.antt =====
-- internal/microvm/executor.go: the run of an action in a machine of its own, from the call that starts the
-- machine to the one that ends it.
pub mod Cleanup
pub mod Delivery
pub mod Answers
pub mod Outcome
mod Steady
use aws_build_farm.Prelude.{
  ◌==◌, if◌then◌else◌, take, after, ℤ, Bytes, codes, bytes_eq, Result, ok, err, ℕ, ◌⊎◌, inl, inr,
  Bool, true, false, not, Option, none, some, [], ◌∷◌, ◌++◌,
}
use aws_build_farm.Prelude.Dict.{Dict, lookup}
use aws_build_farm.Digest.{DigestRef}
use aws_build_farm.Proto.{ActionResult, Command, Codec}
use aws_build_farm.Task.{TaskCodec, ResultCodec, ExecuteTask, ExecuteResult, execute_path}
use aws_build_farm.Microvm.{
  ApiError, VmOutput, VmState, running, Request, Response, Config, World, ExecError,
  marshal_command, run_microvm_failed, auth_token_failed, auth_token_missing, marshal_task,
  dispatch_failed, agent_returned, bad_request, bad_response, execution_failed, bad_action_result,
  opt_string, normalize_endpoint, truncate, auth_header, run_input, task_of, proxy_headers,
  response_limit,
}
use aws_build_farm.Microvm.Boot.{wait_running, wait_healthy}

abbrev pub is_running : VmState → Bool
is_running running = true
is_running state = false

-- The token for the proxy, if the answer holds one that is not empty.
unfoldable pub token_of : Dict Bytes → Option Bytes
token_of tokens = elim (lookup auth_header tokens) [ none ↦ none | some t ↦ opt_string t ]

module _ (world : World) (cfg : Config) (tasks : TaskCodec) (results : ResultCodec)
    (commands : Codec Command) (actions : Codec ActionResult) where
  abbrev pub decoded_action_result : Option ActionResult → Result ExecError ActionResult
  decoded_action_result none = err bad_action_result
  decoded_action_result (some ar) = ok ar

  abbrev pub agent_result : Option ExecuteResult → Result ExecError ActionResult
  agent_result none = err bad_response
  agent_result (some r) =
      if not (bytes_eq r.error [])
      then err (execution_failed r.error)
      else decoded_action_result (actions.unmarshal r.action_result)

  -- What `dispatch` makes of the agent's answer.
  unfoldable pub agent_answer : ApiError ⊎ Response → Result ExecError ActionResult
  unfolding truncate
  agent_answer (inl e) = err (dispatch_failed e)
  agent_answer (inr r) =
      let read = take response_limit r.body in
      if not (r.status == 200)
      then err (agent_returned r.status (truncate read 512))
      else agent_result (results.unmarshal read)

  abbrev pub execute_request : Bytes → Bytes → Bytes → Request
  execute_request base_url token body = record {
    method = codes "POST";
    url = base_url ++ execute_path;
    headers = proxy_headers cfg token ++ (codes "Content-Type", codes "application/json") ∷ [];
    body = body;
  }

  -- `dispatch`.
  unfoldable pub dispatch :
      world.State → Bytes → Bytes → ExecuteTask → Result ExecError ActionResult × world.State
  unfolding agent_answer
  dispatch w base_url token task = elim (tasks.marshal task) [
    | none ↦ (err marshal_task, w)
    | some body ↦ elim (world.bad_url (base_url ++ execute_path)) [
      | some e ↦ (err (bad_request e), w)
      | none ↦
          let answered = world.send w (execute_request base_url token body) in
          (agent_answer answered.0, answered.1)
    ]
  ]

  -- The part of `Run` from the token on.
  run_task :
      ℕ
      → world.State
      → Bytes
      → Bytes
      → ExecuteTask
      → Option (Result ExecError ActionResult × world.State)
  unfolding wait_healthy
  run_task fuel w endpoint token task =
      let base_url = normalize_endpoint endpoint in
      after (wait_healthy world cfg fuel w base_url token)
        (λ _ w'. some (dispatch w' base_url token task))

  -- The part of `Run` from the machine's being up to its return.
  run_in :
      ℕ
      → world.State
      → Bytes
      → Bytes
      → ExecuteTask
      → Option (Result ExecError ActionResult × world.State)
  unfolding run_task
  run_in fuel w id endpoint task =
      let answered = world.create_auth_token w id in
      elim answered.0 [
        | inl e ↦ some (err (auth_token_failed e), answered.1)
        | inr tokens ↦ elim (token_of tokens) [
          | none ↦ some (err auth_token_missing, answered.1)
          | some token ↦ run_task fuel answered.1 endpoint token task
        ]
      ]

  -- The part of `Run` from the start of the machine on, before the deferred call.
  run_started :
      ℕ
      → world.State
      → VmOutput
      → ExecuteTask
      → Option (Result ExecError ActionResult × world.State)
  unfolding run_in
  run_started fuel w out task =
      if is_running out.state
      then run_in fuel w out.id out.endpoint task
      else after (wait_running world cfg fuel w out.id)
          (λ endpoint w'. run_in fuel w' out.id endpoint task)

  -- The deferred call of `Run`: the machine is ended, however the run went.
  cleanup :
      Bytes
      → Option (Result ExecError ActionResult × world.State)
      → Option (Result ExecError ActionResult × world.State)
  cleanup id none = none
  cleanup id (some (answer, w)) = some (answer, world.terminate_microvm w id)

  -- `Run`.
  unfoldable pub run :
      ℕ
      → world.State
      → Command
      → DigestRef
      → ℤ
      → Option (Result ExecError ActionResult × world.State)
  unfolding run_started cleanup
  run fuel w command root timeout = elim (commands.marshal command) [
    | none ↦ some (err marshal_command, w)
    | some b ↦
        let started = world.run_microvm w (run_input cfg) in
        elim started.0 [
          | inl e ↦ some (err (run_microvm_failed e), started.1)
          | inr out ↦ cleanup out.id (run_started fuel started.1 out (task_of cfg b root timeout))
        ]
  ]
