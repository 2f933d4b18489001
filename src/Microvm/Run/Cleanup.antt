-- ===== src/Microvm/Run/Cleanup.antt =====
-- A run comes to an end, and it ends the machine that it has started.
use aws_build_farm.Prelude.{
  Option-cases, Returns, after-Returns, if-Returns, Sum-cases, ℤ, Bytes, Result, err, ℕ, suc, ◌*◌,
  ◌<◌, ◌≡◌, refl, inl, inr, some,
}
use aws_build_farm.Digest.{DigestRef}
use aws_build_farm.Proto.{ActionResult, Command, Codec}
use aws_build_farm.Task.{TaskCodec, ResultCodec, ExecuteTask}
use aws_build_farm.Microvm.{
  VmOutput, Config, World, ExecError, auth_token_failed, auth_token_missing, normalize_endpoint,
  second, run_input, task_of,
}
use aws_build_farm.Microvm.Boot.{wait_running, wait_healthy}
use aws_build_farm.Microvm.Run.{
  dispatch, run_task, token_of, run_in, is_running, run_started, cleanup, run,
}
use aws_build_farm.Microvm.Boot.Returns.{wait_running-returns, wait_healthy-returns}

module _ (world : World) (cfg : Config) (tasks : TaskCodec) (results : ResultCodec)
    (commands : Codec Command) (actions : Codec ActionResult) (n : ℕ)
    (long : cfg.startup_timeout < n * second) where
  run_task-Returns :
      (w : world.State) (endpoint token : Bytes) (task : ExecuteTask)
      → Returns (run_task world cfg tasks results commands actions (suc n) w endpoint token task)
  unfolding run_task Returns
  run_task-Returns w endpoint token task =
      after-Returns (wait_healthy world cfg (suc n) w (normalize_endpoint endpoint) token) _
        (wait_healthy-returns world cfg n w (normalize_endpoint endpoint) token long)
        (λ _ w' _. (
          dispatch world cfg tasks results commands actions w' (normalize_endpoint endpoint) token
              task,
          refl,
        ))

  run_in-Returns :
      (w : world.State) (id endpoint : Bytes) (task : ExecuteTask)
      → Returns (run_in world cfg tasks results commands actions (suc n) w id endpoint task)
  unfolding run_in Returns
  run_in-Returns w id endpoint task = elim (Sum-cases (world.create_auth_token w id).0) [
    | inl (e, refused) ↦
        ((err (auth_token_failed e), (world.create_auth_token w id).1), rw (refused, run_in))
    | inr (tokens, given) ↦ elim (Option-cases (token_of tokens)) [
      | inl missing ↦
          ((err auth_token_missing, (world.create_auth_token w id).1), rw (given, missing, run_in))
      | inr (token, found) ↦
          let (r, e) = run_task-Returns (world.create_auth_token w id).1 endpoint token task in
          (r, rw (given, found, e, run_in))
    ]
  ]

  run_started-Returns :
      (w : world.State) (out : VmOutput) (task : ExecuteTask)
      → Returns (run_started world cfg tasks results commands actions (suc n) w out task)
  unfolding run_started Returns
  run_started-Returns w out task =
      if-Returns (is_running out.state) _ _ (run_in-Returns w out.id out.endpoint task) (
        after-Returns (wait_running world cfg (suc n) w out.id) _
          (wait_running-returns world cfg n w out.id long)
          (λ endpoint w' _. run_in-Returns w' out.id endpoint task))

  -- Once the API has started a machine, Run returns, in at most a round more of each wait than the seconds in
  -- which the start-up timeout passes, and the last thing that it does is to end that machine, whatever the
  -- answer is.
  pub run-terminates :
      (w : world.State) (command : Command) (root : DigestRef) (timeout : ℤ) (b : Bytes)
      (out : VmOutput)
      → commands.marshal command ≡ some b
      → (world.run_microvm w (run_input cfg)).0 ≡ inr out
      → (answer : Result ExecError ActionResult) × (w' : world.State) × (run world cfg tasks results
            commands actions
            (suc n)
            w
            command
            root
            timeout
          ≡ some (answer, world.terminate_microvm w' out.id))
  unfolding run cleanup Returns
  run-terminates w command root timeout b out encoded started =
      let ((answer, w'), e) =
        run_started-Returns (world.run_microvm w (run_input cfg)).1 out
          (task_of cfg b root timeout) in
      (answer, w', rw (encoded, started, e, run))
