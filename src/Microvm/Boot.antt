-- ===== src/Microvm/Boot.antt =====
-- internal/microvm/executor.go: the loops that wait for a machine to run and for its agent to answer. They
-- have fuel, one round for each unit.
pub mod Healthy
pub mod Returns
pub mod Up
pub mod Steady
use aws_build_farm.Prelude.{
  ltb, ◌==◌, if◌then◌else◌, Bytes, codes, Result, ok, err, ℕ, zero, suc, ◌+◌, ◌⊎◌, inl, inr, Bool,
  true, false, Option, none, some, [], ◌++◌,
}
use aws_build_farm.Task.{health_path}
use aws_build_farm.Microvm.{
  ApiError, VmState, running, terminating, terminated, other_state, Request, Response, Config,
  World, ExecError, get_microvm_failed, entered_state, not_running, interrupted, not_healthy,
  bad_request, second, proxy_headers,
}

module _ (world : World) (cfg : Config) where
  -- The rest of a round of `waitRunning`, in a state that is not final: the deadline, and the sleep.
  pub pause_running : world.State → ℕ → VmState → Option ExecError × world.State
  pause_running w deadline state =
      if ltb deadline (world.clock w)
      then (some (not_running cfg.startup_timeout state), w)
      else let slept = world.sleep w second in
        (elim slept.0 [ none ↦ none | some e ↦ some (interrupted e) ], slept.1)

  -- What a round of `waitRunning` comes to: an end, or a pause and another round.
  pub poll_running : world.State → ℕ → Bytes → Option (Result ExecError Bytes) × world.State
  unfolding pause_running
  poll_running w deadline id =
      let got = world.get_microvm w id in
      elim got.0 [
        | inl e ↦ (some (err (get_microvm_failed e)), got.1)
        | inr out ↦ elim out.state [
          | running ↦ (some (ok out.endpoint), got.1)
          | terminating ↦ (some (err (entered_state terminating out.reason)), got.1)
          | terminated ↦ (some (err (entered_state terminated out.reason)), got.1)
          | other_state t ↦
              let paused = pause_running got.1 deadline (other_state t) in
              (elim paused.0 [ none ↦ none | some e ↦ some (err e) ], paused.1)
        ]
      ]

  -- The loop of `waitRunning`.
  pub wait_rounds : ℕ → world.State → ℕ → Bytes → Option (Result ExecError Bytes × world.State)
  unfolding poll_running
  wait_rounds zero w deadline id = none
  wait_rounds (suc n) w deadline id =
      let polled = poll_running w deadline id in
      elim polled.0 [
        | some answer ↦ some (answer, polled.1)
        | none ↦ wait_rounds n polled.1 deadline id
      ]

  -- `waitRunning`.
  unfoldable pub wait_running :
      ℕ → world.State → Bytes → Option (Result ExecError Bytes × world.State)
  unfolding wait_rounds
  wait_running fuel w id = wait_rounds fuel w (world.clock w + cfg.startup_timeout) id

  abbrev pub health_request : Bytes → Bytes → Request
  health_request base_url token = record {
    method = codes "GET";
    url = base_url ++ health_path;
    headers = proxy_headers cfg token;
    body = [];
  }

  -- Whether the agent answered with the status 200.
  abbrev pub is_healthy : ApiError ⊎ Response → Bool
  is_healthy (inl e) = false
  is_healthy (inr r) = r.status == 200

  pub pause_healthy : world.State → ℕ → Option ExecError × world.State
  pause_healthy w deadline =
      if ltb deadline (world.clock w)
      then (some (not_healthy cfg.startup_timeout), w)
      else let slept = world.sleep w second in
        (elim slept.0 [ none ↦ none | some e ↦ some (interrupted e) ], slept.1)

  pub poll_healthy :
      world.State → ℕ → Bytes → Bytes → Option (Result ExecError (Unit {0})) × world.State
  unfolding pause_healthy
  poll_healthy w deadline base_url token = elim (world.bad_url (base_url ++ health_path)) [
    | some e ↦ (some (err (bad_request e)), w)
    | none ↦
        let answered = world.send w (health_request base_url token) in
        elim (is_healthy answered.0) [
          | true ↦ (some (ok tt), answered.1)
          | false ↦
              let paused = pause_healthy answered.1 deadline in
              (elim paused.0 [ none ↦ none | some e ↦ some (err e) ], paused.1)
        ]
  ]

  -- The loop of `waitHealthy`.
  pub health_rounds :
      ℕ → world.State → ℕ → Bytes → Bytes → Option (Result ExecError (Unit {0}) × world.State)
  unfolding poll_healthy
  health_rounds zero w deadline base_url token = none
  health_rounds (suc n) w deadline base_url token =
      let polled = poll_healthy w deadline base_url token in
      elim polled.0 [
        | some answer ↦ some (answer, polled.1)
        | none ↦ health_rounds n polled.1 deadline base_url token
      ]

  -- `waitHealthy`.
  unfoldable pub wait_healthy :
      ℕ → world.State → Bytes → Bytes → Option (Result ExecError (Unit {0}) × world.State)
  unfolding health_rounds
  wait_healthy fuel w base_url token =
      health_rounds fuel w (world.clock w + cfg.startup_timeout) base_url token
