-- ===== src/Microvm/Run/Outcome.antt =====
-- What it takes that a run gives an action result.
use mathlib.Core.Path.{subst}
use aws_build_farm.Prelude.{
  Bool-cases, Option-cases, Sum-cases, some-injective, after-ok, ℤ, Bytes, Result, ok, ℕ, ◌+◌, ◌≡◌,
  refl, sym, ap, ◌∙◌, ◌≢◌, ◌⊎◌, inl, inr, true, Option, none, some, [], arith,
}
use aws_build_farm.Prelude.Dict.{Dict}
use aws_build_farm.Digest.{DigestRef}
use aws_build_farm.Proto.{ActionResult, Command, Codec}
use aws_build_farm.Task.{TaskCodec, ResultCodec, ExecuteTask}
use aws_build_farm.Microvm.{
  VmOutput, VmState, running, terminating, terminated, other_state, Config, World, ExecError,
  normalize_endpoint, run_input, task_of,
}
use aws_build_farm.Microvm.Boot.{is_healthy, health_request, wait_running, wait_healthy}
use aws_build_farm.Microvm.Run.{
  dispatch, run_task, token_of, run_in, is_running, run_started, cleanup, run,
}
use aws_build_farm.Microvm.Boot.Up.{IsFound, wait_running-ok}
use aws_build_farm.Microvm.Boot.Healthy.{health_rounds-ok}
use aws_build_farm.Microvm.Run.Answers.{IsAnswered, dispatch-ok}

token_of-some : (tokens : Dict Bytes) (token : Bytes) → token_of tokens ≡ some token → token ≢ []
unfolding token_of
token_of-some tokens token h = ground arith

is_running-running : (state : VmState) → is_running state ≡ true → state ≡ running
is_running-running running h = refl
is_running-running terminating h = absurd (cc)
is_running-running terminated h = absurd (cc)
is_running-running (other_state t) h = absurd (cc)

module _ (world : World) (cfg : Config) (tasks : TaskCodec) (results : ResultCodec)
    (commands : Codec Command) (actions : Codec ActionResult) where
  -- The machine was up when it was started, or the wait for it found that it runs; the endpoint is its own.
  abbrev pub IsUp : ℕ → world.State → VmOutput → Bytes → world.State → Type 0
  IsUp fuel w out endpoint w' =
      ((out.state ≡ running) × (out.endpoint ≡ endpoint) × (w ≡ w'))
      ⊎ ((wait_running world cfg fuel w out.id ≡ some (ok endpoint, w'))
          × IsFound world cfg out.id endpoint w')

  -- The API gave a token for that machine, which is not empty.
  pub record IsGranted (w : world.State) (id token : Bytes) (w' : world.State) : Type 0 where
    pub tokens : Dict Bytes
    pub asked : (world.create_auth_token w id).0 ≡ inr tokens
    pub found : token_of tokens ≡ some token
    pub present : token ≢ []
    pub after_it : (world.create_auth_token w id).1 ≡ w'

  -- The wait for the agent began in the state `w`, and ended when the agent answered a request for its health
  -- with the status 200; then it was sent the task.
  pub record IsServed (fuel : ℕ) (w : world.State) (url token : Bytes) (task : ExecuteTask)
      (ar : ActionResult) (w' : world.State) : Type 0 where
    pub before : world.State
    pub waited :
        wait_healthy world cfg fuel w url token
        ≡ some (ok tt, (world.send before (health_request world cfg url token)).1)
    pub healthy :
        is_healthy world cfg (world.send before (health_request world cfg url token)).0 ≡ true
    pub served :
        IsAnswered world cfg tasks results commands actions
          (world.send before (health_request world cfg url token)).1
          url
          token
          task
          ar
          w'

  run_task-ok :
      (fuel : ℕ) (w w' : world.State) (endpoint token : Bytes) (task : ExecuteTask)
      (ar : ActionResult)
      → run_task world cfg tasks results commands actions fuel w endpoint token task
        ≡ some (ok ar, w')
      → IsServed fuel w (normalize_endpoint endpoint) token task ar w'
  unfolding run_task wait_healthy
  run_task-ok fuel w w' endpoint token task ar h =
      let url = normalize_endpoint endpoint in
      let (u, w₁, waited, sent) =
        after-ok (wait_healthy world cfg fuel w url token)
          (λ u w₁. some (dispatch world cfg tasks results commands actions w₁ url token task)) ar w'
          h in
      let (before, healthy, kept) =
        health_rounds-ok world cfg fuel w w₁ (world.clock w + cfg.startup_timeout) url token u
          waited in
      record {
        before = before;
        waited = waited ∙ ap (λ s. some (ok tt, s)) kept;
        healthy = healthy;
        served =
            subst (λ s. IsAnswered world cfg tasks results commands actions s url token task ar w')
              kept
              (dispatch-ok world cfg tasks results commands actions w₁ w' url token task ar
                (some-injective sent));
      }

  run_in-ok :
      (fuel : ℕ) (w w' : world.State) (id endpoint : Bytes) (task : ExecuteTask) (ar : ActionResult)
      → run_in world cfg tasks results commands actions fuel w id endpoint task ≡ some (ok ar, w')
      → (token : Bytes) × (w₁ : world.State) × IsGranted w id token w₁
        × IsServed fuel w₁ (normalize_endpoint endpoint) token task ar w'
  unfolding run_in
  run_in-ok fuel w w' id endpoint task ar h =
      let given = world.create_auth_token w id in
      elim (Sum-cases given.0) [
        | inl (e, refused) ↦ absurd (ground (arith, refused, h))
        | inr (tokens, granted) ↦ elim (Option-cases (token_of tokens)) [
          | inl missing ↦ absurd (ground (arith, granted, missing, h))
          | inr (token, found) ↦ (
            token,
            given.1,
            record {
              tokens = tokens;
              asked = granted;
              found = found;
              present = token_of-some tokens token found;
              after_it = refl;
            },
            run_task-ok fuel given.1 w' endpoint token task ar
                (sym (rw (granted, found, run_in)) ∙ h),
          )
        ]
      ]

  run_started-ok :
      (fuel : ℕ) (w w' : world.State) (out : VmOutput) (task : ExecuteTask) (ar : ActionResult)
      → run_started world cfg tasks results commands actions fuel w out task ≡ some (ok ar, w')
      → (endpoint token : Bytes) × (w₁ w₂ : world.State) × IsUp fuel w out endpoint w₁
        × IsGranted w₁ out.id token w₂
        × IsServed fuel w₂ (normalize_endpoint endpoint) token task ar w'
  unfolding run_started
  run_started-ok fuel w w' out task ar h = elim (Bool-cases (is_running out.state)) [
    | inl up ↦
        let (token, w₂, granted, served) =
          run_in-ok fuel w w' out.id out.endpoint task ar (sym (rw (up, run_started)) ∙ h) in
        (
          out.endpoint,
          token,
          w,
          w₂,
          inl (is_running-running out.state up, refl, refl),
          granted,
          served,
        )
    | inr down ↦
        let (endpoint, w₁, waited, ran) =
          after-ok (wait_running world cfg fuel w out.id)
            (λ endpoint w₁.
              run_in world cfg tasks results commands actions fuel w₁ out.id endpoint task)
            ar w' (sym (rw (down, run_started)) ∙ h) in
        let (token, w₂, granted, served) = run_in-ok fuel w₁ w' out.id endpoint task ar ran in
        (
          endpoint,
          token,
          w₁,
          w₂,
          inr (waited, wait_running-ok world cfg fuel w w₁ out.id endpoint waited),
          granted,
          served,
        )
  ]

  cleanup-ok :
      (id : Bytes) (m : Option (Result ExecError ActionResult × world.State)) (w' : world.State)
      (ar : ActionResult)
      → cleanup world cfg tasks results commands actions id m ≡ some (ok ar, w')
      → (w₁ : world.State) × (m ≡ some (ok ar, w₁)) × (w' ≡ world.terminate_microvm w₁ id)
  unfolding cleanup
  cleanup-ok id none w' ar h = absurd (cc)
  cleanup-ok id (some (r, w₁)) w' ar h =
      let final : ◌≡◌ {A = Result ExecError ActionResult × world.State}
          (r, world.terminate_microvm w₁ id) (ok ar, w') =
        some-injective h in
      (w₁, ap (λ t. some (t.0, w₁)) final, sym (ap (λ t. t.1) final))

  -- Run gives an action result only if the API started a machine; that machine was up then, or was found to run
  -- by the wait for it, with an endpoint of its own; the API then gave a token for that machine that is not
  -- empty; the agent at that endpoint, asked with that token, answered a request for its health with the
  -- status 200, and was then sent the encoded task of the action's command, input root and time limit,
  -- which decodes to that task if its strings are valid UTF-8; and its answer, with the status 200 and no error, holds that action result. The machine is ended
  -- after that.
  pub run-ok :
      (fuel : ℕ) (w w' : world.State) (command : Command) (root : DigestRef) (timeout : ℤ)
      (ar : ActionResult)
      → run world cfg tasks results commands actions fuel w command root timeout ≡ some (ok ar, w')
      → (b : Bytes) × (out : VmOutput) × (endpoint token : Bytes) × (w₁ w₂ w₃ : world.State)
        × (commands.unmarshal b ≡ some command)
        × ((world.run_microvm w (run_input cfg)).0 ≡ inr out)
        × IsUp fuel (world.run_microvm w (run_input cfg)).1 out endpoint w₁
        × IsGranted w₁ out.id token w₂
        × IsServed fuel w₂ (normalize_endpoint endpoint) token (task_of cfg b root timeout) ar w₃
        × (w' ≡ world.terminate_microvm w₃ out.id)
  unfolding run
  run-ok fuel w w' command root timeout ar h =
      let started = world.run_microvm w (run_input cfg) in
      elim (Option-cases (commands.marshal command)) [
        | inl failed ↦ absurd (ground (arith, failed, h))
        | inr (b, encoded) ↦ elim (Sum-cases started.0) [
          | inl (e, refused) ↦ absurd (ground (arith, encoded, refused, h))
          | inr (out, up) ↦
              let (w₃, ran, ended) =
                cleanup-ok out.id
                  (run_started world cfg tasks results commands actions fuel started.1 out
                    (task_of cfg b root timeout))
                  w' ar (sym (rw (encoded, up, run)) ∙ h) in
              let (endpoint, token, w₁, w₂, reached, granted, served) =
                run_started-ok fuel started.1 w₃ out (task_of cfg b root timeout) ar ran in
              (
                b,
                out,
                endpoint,
                token,
                w₁,
                w₂,
                w₃,
                commands.round_trip command b encoded,
                up,
                reached,
                granted,
                served,
                ended,
              )
        ]
      ]
