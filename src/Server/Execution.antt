-- ===== src/Server/Execution.antt =====
-- internal/server/execution.go: the start of Execute, and `runAction`, which publishes the updates of
-- an operation. `microvm.Executor` is met through the interface `Runner` of internal/server/server.go.
pub mod Updates
pub mod Caching
use aws_build_farm.Prelude.{
  if◌then◌else◌, is_some, ℤ, pos, eq_ℤ, Bytes, Result, ok, err, panic, ◌*◌, ◌≢◌, Bool, true, false,
  not, ◌&&◌, Option, none, some, List, [], ◌∷◌,
}
use aws_build_farm.Digest.{DigestRef, validate, key}
use aws_build_farm.Proto.{ActionResult, Action, Command, Codec}
use aws_build_farm.Cas.Reader.{StoreError}
use aws_build_farm.Cas.Reader
use aws_build_farm.Cas.Interface.{Store}
use aws_build_farm.Server.Operation.{
  Stage, cache_check, executing, completed, ExecuteResponse, Operation,
}
use aws_build_farm.Server.Status.{
  Code, Status, status, status_ok, Message, digest_error, execution_disabled, action_not_found,
  fetch_action, unmarshal_action, command_not_found, unmarshal_command, run_error,
}

-- The errors of a runner: those that wrap `context.Canceled`, and any other.
pub data RunError : Type 0 where
  canceled : Bytes → RunError
  run_failed : Bytes → RunError

-- The interface `Runner`: a run may do anything to the store, since the agent uploads the outputs.
pub record Runner (st : Store) : Type 0 where
  pub run : st.State → Command → DigestRef → ℤ → Result RunError ActionResult × st.State

-- A runner whose runs never end in a run-time panic.
abbrev pub NeverPanics : (st : Store) → Runner st → Type 0
NeverPanics st runner =
    (s : st.State) (c : Command) (root : DigestRef) (timeout : ℤ)
    → (runner.run s c root timeout).0 ≢ panic

pub record ExecuteRequest : Type 0 where
  pub action_digest : DigestRef
  pub skip_cache_lookup : Bool

-- 15 minutes, in nanoseconds.
abbrev pub default_action_timeout : ℤ
default_action_timeout = pos (15 * 60 * 1000000000)

-- `s.operation`.
abbrev pub operation : Bytes → DigestRef → Stage → Option ExecuteResponse → Operation
operation name d stage response = record {
  name = name;
  stage = stage;
  action_digest = d;
  done = is_some response;
  response = response;
}

-- `s.completed`.
abbrev pub completed_operation : Bytes → DigestRef → ExecuteResponse → Operation
completed_operation name d response = operation name d completed (some response)

-- `s.failed`.
abbrev pub failed_operation : Bytes → DigestRef → Code → Message → Operation
failed_operation name d code message =
    completed_operation name d
      (record { result = none; cached_result = false; status = status code message })

abbrev pub result_operation : Bytes → DigestRef → Bool → ActionResult → Operation
result_operation name d cached ar =
    completed_operation name d
      (record { result = some ar; cached_result = cached; status = status_ok })

abbrev run_failure : Bytes → DigestRef → RunError → Operation
run_failure name d (canceled text) = failed_operation name d Code.canceled (run_error text)
run_failure name d (run_failed text) = failed_operation name d Code.internal (run_error text)

module _ (st : Store) (codec : Codec Action) where
  decoded_action : Option Action → Result Status Action
  decoded_action none = err (status Code.internal unmarshal_action)
  decoded_action (some a) = ok a

  -- `fetchAction`.
  unfoldable pub fetch : st.State → DigestRef → Result Status Action
  unfolding decoded_action
  fetch s d = elim (st.get s d) [
    | ok b ↦ decoded_action (codec.unmarshal b)
    | err Reader.not_found ↦ err (status Code.failed_precondition (action_not_found (key d)))
    | err e ↦ err (status Code.internal (fetch_action e))
    | panic ↦ panic
  ]

  -- What Execute checks before it registers an operation; `enabled` says that there is a runner.
  unfoldable pub start_execute : Bool → st.State → ExecuteRequest → Result Status Action
  unfolding fetch
  start_execute enabled s req =
      if enabled
      then elim (validate req.action_digest) [
        | some e ↦ err (status Code.invalid_argument (digest_error e))
        | none ↦ fetch s req.action_digest
      ]
      else err (status Code.unimplemented execution_disabled)

abbrev timeout_of : Option ℤ → ℤ
timeout_of none = default_action_timeout
timeout_of (some t) = t

module _ (st : Store) (codec : Codec Command) (runner : Runner st) (name : Bytes)
    (d : DigestRef) where
  -- The result is cached if the action allows it and the exit code is 0; a failure to do so is ignored.
  cache_result : st.State → Action → ActionResult → st.State
  cache_result s action ar =
      if not action.do_not_cache && eq_ℤ ar.exit_code (pos 0)
      then (st.put_action_result s d ar).1
      else s

  finish_run : Action → Result RunError ActionResult × st.State → List Operation × st.State
  unfolding cache_result
  finish_run action (ok ar, s) = (result_operation name d false ar ∷ [], cache_result s action ar)
  finish_run action (err e, s) = (run_failure name d e ∷ [], s)
  finish_run action (panic, s) = ([], s)

  run_command : st.State → Action → Option Command → List Operation × st.State
  unfolding finish_run
  run_command s action none = (failed_operation name d Code.internal unmarshal_command ∷ [], s)
  run_command s action (some command) =
      let ran = runner.run s command action.input_root_digest (timeout_of action.timeout) in
      let finished = finish_run action ran in
      (operation name d executing none ∷ finished.0, finished.1)

  -- From the fetch of the command on.
  run_uncached : st.State → Action → List Operation × st.State
  unfolding run_command
  run_uncached s action = elim (st.get s action.command_digest) [
    | ok b ↦ run_command s action (codec.unmarshal b)
    | err e ↦ (
      failed_operation name d Code.failed_precondition
            (command_not_found (key action.command_digest) e)
          ∷ [],
      s,
    )
    | panic ↦ ([], s)
  ]

  run_looked_up : st.State → Action → Result StoreError ActionResult → List Operation × st.State
  unfolding run_uncached
  run_looked_up s action (ok ar) = (result_operation name d true ar ∷ [], s)
  run_looked_up s action (err e) = run_uncached s action
  run_looked_up s action panic = ([], s)

  -- `runAction`: the operations that it publishes, in order, and the store. A panic ends them.
  unfoldable pub run_action : st.State → Bool → Action → List Operation × st.State
  unfolding run_looked_up
  run_action s skip_cache_lookup action =
      let rest =
        if not skip_cache_lookup && not action.do_not_cache
        then run_looked_up s action (st.get_action_result s d)
        else run_uncached s action in
      (operation name d cache_check none ∷ rest.0, rest.1)
