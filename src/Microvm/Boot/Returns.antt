-- ===== src/Microvm/Boot/Returns.antt =====
-- The loops that wait for a machine and for its agent end.
use aws_build_farm.Prelude.{
  ltb, Bool-cases, Option-cases, Sum-cases, Bytes, Result, ℕ, zero, suc, ◌+◌, ◌*◌, ◌≤◌, ◌<◌, ◌≡◌,
  refl, ◌⊎◌, inl, inr, none, some, ◌++◌, arith,
}
use aws_build_farm.Task.{health_path}
use aws_build_farm.Microvm.{
  VmOutput, VmState, running, terminating, terminated, other_state, Config, World, ExecError,
  second,
}
use aws_build_farm.Microvm.Boot.{
  pause_running, poll_running, wait_rounds, wait_running, is_healthy, health_request, pause_healthy,
  poll_healthy, health_rounds, wait_healthy,
}

module _ (world : World) (cfg : Config) where
  pause_running-none :
      (w : world.State) (deadline : ℕ) (state : VmState)
      → (pause_running world cfg w deadline state).0 ≡ none
      → (world.clock w ≤ deadline)
        × (world.clock w + second ≤ world.clock (pause_running world cfg w deadline state).1)
  unfolding pause_running
  pause_running-none w deadline state h = elim (Bool-cases (ltb deadline (world.clock w))) [
    | inl over ↦ ground (arith, over, h)
    | inr early ↦ elim (Option-cases (world.sleep w second).0) [
      | inl slept ↦ ground (arith, early, slept, world.sleep_takes_time w second slept)
      | inr (e, broken) ↦ ground (arith, early, broken, h)
    ]
  ]

  poll_running-none :
      (w : world.State) (deadline : ℕ) (id : Bytes)
      → (poll_running world cfg w deadline id).0 ≡ none
      → (world.clock w ≤ deadline)
        × (world.clock w + second ≤ world.clock (poll_running world cfg w deadline id).1)
  unfolding poll_running
  poll_running-none w deadline id h = elim (Sum-cases (world.get_microvm w id).0) [
    | inl (e, failed) ↦ ground (arith, failed, h)
    | inr (out, got) ↦ from_state out out.state got refl
  ]
    where
      from_state :
          (out : VmOutput) (state : VmState)
          → (world.get_microvm w id).0 ≡ inr out
          → out.state ≡ state
          → (world.clock w ≤ deadline)
            × (world.clock w + second ≤ world.clock (poll_running world cfg w deadline id).1)
      from_state out running got st = ground (arith, got, st, h)
      from_state out terminating got st = ground (arith, got, st, h)
      from_state out terminated got st = ground (arith, got, st, h)
      from_state out (other_state t) got st =
          elim (Option-cases
            (pause_running world cfg (world.get_microvm w id).1 deadline (other_state t)).0) [
              | inl paused ↦ ground (
                arith,
                got,
                st,
                paused,
                pause_running-none (world.get_microvm w id).1 deadline (other_state t) paused,
                world.get_takes_time w id,
              )
              | inr (e, ended) ↦ ground (arith, got, st, ended, h)
            ]

  poll_running-cases :
      (w : world.State) (deadline : ℕ) (id : Bytes)
      → ((answer : Result ExecError Bytes) × ((poll_running world cfg w deadline id).0
            ≡ some answer))
        ⊎ (((poll_running world cfg w deadline id).0 ≡ none)
            × (world.clock w ≤ deadline)
            × (world.clock w + second ≤ world.clock (poll_running world cfg w deadline id).1))
  poll_running-cases w deadline id = elim (Option-cases (poll_running world cfg w deadline id).0) [
    | inr ended ↦ inl ended
    | inl again ↦
        let (early, later) = poll_running-none w deadline id again in inr (again, early, later)
  ]

  wait_rounds-ends :
      (n : ℕ) (w : world.State) (deadline : ℕ) (id : Bytes)
      → deadline < world.clock w + n * second
      → (answer : Result ExecError Bytes × world.State) × (wait_rounds world cfg
            (suc n)
            w
            deadline
            id
          ≡ some answer)
  unfolding wait_rounds
  wait_rounds-ends zero w deadline id left = elim (poll_running-cases w deadline id) [
    | inl (answer, ended) ↦
        ((answer, (poll_running world cfg w deadline id).1), rw (ended, wait_rounds))
    | inr (again, early, later) ↦ absurd (omega arith)
  ]
  wait_rounds-ends (suc n) w deadline id left = elim (poll_running-cases w deadline id) [
    | inl (answer, ended) ↦
        ((answer, (poll_running world cfg w deadline id).1), rw (ended, wait_rounds))
    | inr (again, early, later) ↦
        let (answer, e) =
          wait_rounds-ends n (poll_running world cfg w deadline id).1 deadline id (omega arith) in
        (answer, ground (arith, again, e))
  ]

  -- waitRunning returns: it takes at most one round more than the seconds in which the start-up timeout
  -- passes, whatever the API answers.
  pub wait_running-returns :
      (n : ℕ) (w : world.State) (id : Bytes)
      → cfg.startup_timeout < n * second
      → (answer : Result ExecError Bytes × world.State) × (wait_running world cfg (suc n) w id
          ≡ some answer)
  unfolding wait_running
  wait_running-returns n w id h =
      wait_rounds-ends n w (world.clock w + cfg.startup_timeout) id (omega arith)

  pause_healthy-none :
      (w : world.State) (deadline : ℕ)
      → (pause_healthy world cfg w deadline).0 ≡ none
      → (world.clock w ≤ deadline)
        × (world.clock w + second ≤ world.clock (pause_healthy world cfg w deadline).1)
  unfolding pause_healthy
  pause_healthy-none w deadline h = elim (Bool-cases (ltb deadline (world.clock w))) [
    | inl over ↦ ground (arith, over, h)
    | inr early ↦ elim (Option-cases (world.sleep w second).0) [
      | inl slept ↦ ground (arith, early, slept, world.sleep_takes_time w second slept)
      | inr (e, broken) ↦ ground (arith, early, broken, h)
    ]
  ]

  poll_healthy-none :
      (w : world.State) (deadline : ℕ) (url token : Bytes)
      → (poll_healthy world cfg w deadline url token).0 ≡ none
      → (world.clock w ≤ deadline)
        × (world.clock w + second ≤ world.clock (poll_healthy world cfg w deadline url token).1)
  unfolding poll_healthy
  poll_healthy-none w deadline url token h =
      let sent = world.send w (health_request world cfg url token) in
      elim (Option-cases (world.bad_url (url ++ health_path))) [
        | inr (e, bad) ↦ ground (arith, bad, h)
        | inl good ↦ elim (Bool-cases (is_healthy world cfg sent.0)) [
          | inl healthy ↦ ground (arith, good, healthy, h)
          | inr sick ↦ elim (Option-cases (pause_healthy world cfg sent.1 deadline).0) [
            | inl paused ↦ ground (
              arith,
              good,
              sick,
              paused,
              pause_healthy-none sent.1 deadline paused,
              world.send_takes_time w (health_request world cfg url token),
            )
            | inr (e, ended) ↦ ground (arith, good, sick, ended, h)
          ]
        ]
      ]

  poll_healthy-cases :
      (w : world.State) (deadline : ℕ) (url token : Bytes)
      → ((answer : Result ExecError (Unit {0})) × ((poll_healthy world cfg w deadline url token).0
            ≡ some answer))
        ⊎ (((poll_healthy world cfg w deadline url token).0 ≡ none)
            × (world.clock w ≤ deadline)
            × (world.clock w + second
                ≤ world.clock (poll_healthy world cfg w deadline url token).1))
  poll_healthy-cases w deadline url token =
      elim (Option-cases (poll_healthy world cfg w deadline url token).0) [
        | inr ended ↦ inl ended
        | inl again ↦
            let (early, later) = poll_healthy-none w deadline url token again in
            inr (again, early, later)
      ]

  health_rounds-ends :
      (n : ℕ) (w : world.State) (deadline : ℕ) (url token : Bytes)
      → deadline < world.clock w + n * second
      → (answer : Result ExecError (Unit {0}) × world.State) × (health_rounds world cfg
            (suc n)
            w
            deadline
            url
            token
          ≡ some answer)
  unfolding health_rounds
  health_rounds-ends zero w deadline url token left =
      elim (poll_healthy-cases w deadline url token) [
        | inl (answer, ended) ↦
            ((answer, (poll_healthy world cfg w deadline url token).1), rw (ended, health_rounds))
        | inr (again, early, later) ↦ absurd (omega arith)
      ]
  health_rounds-ends (suc n) w deadline url token left =
      elim (poll_healthy-cases w deadline url token) [
        | inl (answer, ended) ↦
            ((answer, (poll_healthy world cfg w deadline url token).1), rw (ended, health_rounds))
        | inr (again, early, later) ↦
            let (answer, e) =
              health_rounds-ends n (poll_healthy world cfg w deadline url token).1 deadline url
                token (omega arith) in
            (answer, ground (arith, again, e))
      ]

  -- waitHealthy returns: it takes at most one round more than the seconds in which the start-up timeout
  -- passes, whatever the agent answers.
  pub wait_healthy-returns :
      (n : ℕ) (w : world.State) (url token : Bytes)
      → cfg.startup_timeout < n * second
      → (answer : Result ExecError (Unit {0}) × world.State) × (wait_healthy world cfg
            (suc n)
            w
            url
            token
          ≡ some answer)
  unfolding wait_healthy
  wait_healthy-returns n w url token h =
      health_rounds-ends n w (world.clock w + cfg.startup_timeout) url token (omega arith)
