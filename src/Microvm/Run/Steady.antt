-- ===== src/Microvm/Run/Steady.antt =====
-- Run ends in no run-time panic: the executor is a runner that does not panic.
use mathlib.Core.Path.{subst}
use aws_build_farm.Prelude.{
  ◌==◌, Bool-cases, Option-cases, take, Sum-cases, ℤ, Bytes, bytes_eq, Result, ok, err, panic, ℕ,
  ◌≡◌, sym, ◌∙◌, ◌≢◌, ◌⊎◌, inl, inr, Option, none, some, [], ◌++◌, arith,
}
use aws_build_farm.Digest.{DigestRef}
use aws_build_farm.Proto.{ActionResult, Command, Codec}
use aws_build_farm.Task.{ExecuteResult, execute_path, ExecuteTask, TaskCodec, ResultCodec}
use aws_build_farm.Microvm.{
  ApiError, VmOutput, Response, Config, World, ExecError, run_microvm_failed, auth_token_failed,
  auth_token_missing, marshal_command, response_limit, normalize_endpoint, run_input, task_of,
}
use aws_build_farm.Microvm.Boot.Steady.{
  IsSteady, after-IsSteady, if-IsSteady, steady-not-panic, err-IsSteady, some-IsSteady,
  wait_running-IsSteady, wait_healthy-IsSteady,
}
use aws_build_farm.Microvm.Run.{
  agent_result, agent_answer, execute_request, dispatch, run_task, token_of, run_in, is_running,
  run_started, cleanup, run,
}

module _ (world : World) (cfg : Config) (tasks : TaskCodec) (results : ResultCodec)
    (commands : Codec Command) (actions : Codec ActionResult) where
  agent_result-steady :
      (o : Option ExecuteResult) → agent_result world cfg tasks results commands actions o ≢ panic
  agent_result-steady none h = cc
  agent_result-steady (some r) h = elim (Bool-cases (bytes_eq r.error [])) [
    | inr failed ↦ ground (arith, failed, h)
    | inl empty ↦ elim (Option-cases (actions.unmarshal r.action_result)) [
      | inl bad ↦ ground (arith, empty, bad, h)
      | inr (ar, good) ↦ ground (arith, empty, good, h)
    ]
  ]

  agent_answer-steady :
      (a : ApiError ⊎ Response) → agent_answer world cfg tasks results commands actions a ≢ panic
  unfolding agent_answer
  agent_answer-steady (inl e) h = cc
  agent_answer-steady (inr r) h = elim (Bool-cases (r.status == 200)) [
    | inr other ↦ ground (arith, other, h)
    | inl same ↦
        agent_result-steady (results.unmarshal (take response_limit r.body))
          (ground (arith, same, h))
  ]

  dispatch-steady :
      (w : world.State) (url token : Bytes) (task : ExecuteTask)
      → (dispatch world cfg tasks results commands actions w url token task).0 ≢ panic
  unfolding dispatch
  dispatch-steady w url token task h = elim (Option-cases (tasks.marshal task)) [
    | inl failed ↦ ground (arith, failed, h)
    | inr (body, encoded) ↦ elim (Option-cases (world.bad_url (url ++ execute_path))) [
      | inr (e, bad) ↦ ground (arith, encoded, bad, h)
      | inl good ↦
          agent_answer-steady
            (world.send w
              (execute_request world cfg tasks results commands actions url token body)).0
            (sym (rw (encoded, good, dispatch)) ∙ h)
    ]
  ]

  run_task-IsSteady :
      (fuel : ℕ) (w : world.State) (endpoint token : Bytes) (task : ExecuteTask)
      → IsSteady (run_task world cfg tasks results commands actions fuel w endpoint token task)
  unfolding run_task
  run_task-IsSteady fuel w endpoint token task =
      after-IsSteady _ _
        (wait_healthy-IsSteady world cfg fuel w (normalize_endpoint endpoint) token)
        (λ u w'. some-IsSteady _ _ (dispatch-steady w' _ token task))

  run_in-IsSteady :
      (fuel : ℕ) (w : world.State) (id endpoint : Bytes) (task : ExecuteTask)
      → IsSteady (run_in world cfg tasks results commands actions fuel w id endpoint task)
  unfolding run_in
  run_in-IsSteady fuel w id endpoint task =
      let given = world.create_auth_token w id in
      elim (Sum-cases given.0) [
        | inl (e, refused) ↦
            subst IsSteady (sym (rw (refused, run_in)))
              (err-IsSteady ActionResult (auth_token_failed e) given.1)
        | inr (tokens, granted) ↦ elim (Option-cases (token_of tokens)) [
          | inl missing ↦
              subst IsSteady (sym (rw (granted, missing, run_in)))
                (err-IsSteady ActionResult auth_token_missing given.1)
          | inr (token, found) ↦
              subst IsSteady (sym (rw (granted, found, run_in)))
                (run_task-IsSteady fuel given.1 endpoint token task)
        ]
      ]

  run_started-IsSteady :
      (fuel : ℕ) (w : world.State) (out : VmOutput) (task : ExecuteTask)
      → IsSteady (run_started world cfg tasks results commands actions fuel w out task)
  unfolding run_started
  run_started-IsSteady fuel w out task =
      if-IsSteady (is_running out.state) _ _ (run_in-IsSteady fuel w out.id out.endpoint task) (
        after-IsSteady _ _ (wait_running-IsSteady world cfg fuel w out.id)
          (λ endpoint w'. run_in-IsSteady fuel w' out.id endpoint task))

  cleanup-IsSteady :
      (id : Bytes) (m : Option (Result ExecError ActionResult × world.State))
      → IsSteady m
      → IsSteady (cleanup world cfg tasks results commands actions id m)
  unfolding cleanup IsSteady
  cleanup-IsSteady id none h = tt
  cleanup-IsSteady id (some (ok ar, w)) h = tt
  cleanup-IsSteady id (some (err e, w)) h = tt
  cleanup-IsSteady id (some (panic, w)) h = h

  -- Run does not end in a run-time panic.
  run-not-panic :
      (fuel : ℕ) (w w' : world.State) (command : Command) (root : DigestRef) (timeout : ℤ)
      (r : Result ExecError ActionResult)
      → run world cfg tasks results commands actions fuel w command root timeout ≡ some (r, w')
      → r ≢ panic
  unfolding run
  run-not-panic fuel w w' command root timeout r h =
      let started = world.run_microvm w (run_input cfg) in
      elim (Option-cases (commands.marshal command)) [
        | inl failed ↦
            steady-not-panic _ r w' (err-IsSteady ActionResult marshal_command w)
              (sym (rw (failed, run)) ∙ h)
        | inr (b, encoded) ↦ elim (Sum-cases started.0) [
          | inl (e, refused) ↦
              steady-not-panic _ r w' (err-IsSteady ActionResult (run_microvm_failed e) started.1)
                (sym (rw (encoded, refused, run)) ∙ h)
          | inr (out, up) ↦
              steady-not-panic _ r w'
                (cleanup-IsSteady out.id _
                  (run_started-IsSteady fuel started.1 out (task_of cfg b root timeout)))
                (sym (rw (encoded, up, run)) ∙ h)
        ]
      ]
