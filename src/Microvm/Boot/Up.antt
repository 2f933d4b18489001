-- ===== src/Microvm/Boot/Up.antt =====
-- What it takes that the wait for a machine ends well.
use mathlib.Core.Path.{subst}
use aws_build_farm.Prelude.{
  Option-cases, Sum-cases, some-injective, Bytes, Result, ok, ℕ, zero, suc, ◌+◌, ◌≡◌, refl, sym, ap,
  ◌∙◌, inl, inr, some, arith,
}
use aws_build_farm.Microvm.{
  VmOutput, VmState, running, terminating, terminated, other_state, Config, World, ExecError,
}
use aws_build_farm.Microvm.Boot.{pause_running, poll_running, wait_rounds, wait_running}

module _ (world : World) (cfg : Config) where
  -- The API answered a request for the machine: it runs, and has that endpoint.
  pub record IsFound (id endpoint : Bytes) (w' : world.State) : Type 0 where
    pub before : world.State
    pub found : VmOutput
    pub asked : (world.get_microvm before id).0 ≡ inr found
    pub runs : found.state ≡ running
    pub same_endpoint : found.endpoint ≡ endpoint
    pub after_it : (world.get_microvm before id).1 ≡ w'

  poll_running-ok :
      (w : world.State) (deadline : ℕ) (id endpoint : Bytes)
      → (poll_running world cfg w deadline id).0 ≡ some (ok endpoint)
      → IsFound id endpoint (poll_running world cfg w deadline id).1
  unfolding poll_running
  poll_running-ok w deadline id endpoint h = elim (Sum-cases (world.get_microvm w id).0) [
    | inl (e, failed) ↦ absurd (ground (arith, failed, h))
    | inr (out, got) ↦ from_state out out.state got refl
  ]
    where
      from_state :
          (out : VmOutput) (state : VmState)
          → (world.get_microvm w id).0 ≡ inr out
          → out.state ≡ state
          → IsFound id endpoint (poll_running world cfg w deadline id).1
      from_state out running got st = record {
        before = w;
        found = out;
        asked = got;
        runs = st;
        same_endpoint = ground (arith, got, st, h);
        after_it = ground (arith, got, st);
      }
      from_state out terminating got st = absurd (ground (arith, got, st, h))
      from_state out terminated got st = absurd (ground (arith, got, st, h))
      from_state out (other_state t) got st =
          elim (Option-cases
            (pause_running world cfg (world.get_microvm w id).1 deadline (other_state t)).0) [
              | inl paused ↦ absurd (ground (arith, got, st, paused, h))
              | inr (e, ended) ↦ absurd (ground (arith, got, st, ended, h))
            ]

  wait_rounds-ok :
      (n : ℕ) (w w' : world.State) (deadline : ℕ) (id endpoint : Bytes)
      → wait_rounds world cfg n w deadline id ≡ some (ok endpoint, w')
      → IsFound id endpoint w'
  unfolding wait_rounds
  wait_rounds-ok zero w w' deadline id endpoint h = absurd (cc)
  wait_rounds-ok (suc n) w w' deadline id endpoint h =
      let polled = poll_running world cfg w deadline id in
      elim (Option-cases polled.0) [
        | inl again ↦
            wait_rounds-ok n polled.1 w' deadline id endpoint (sym (rw (again, wait_rounds)) ∙ h)
        | inr (answer, ended) ↦
            let final : ◌≡◌ {A = Result ExecError Bytes × world.State} (answer, polled.1)
                (ok endpoint, w') =
              some-injective (sym (rw (ended, wait_rounds)) ∙ h) in
            subst (IsFound id endpoint) (ap (λ t. t.1) final)
              (poll_running-ok w deadline id endpoint (ended ∙ ap (λ t. some t.0) final))
      ]

  pub wait_running-ok :
      (fuel : ℕ) (w w' : world.State) (id endpoint : Bytes)
      → wait_running world cfg fuel w id ≡ some (ok endpoint, w')
      → IsFound id endpoint w'
  unfolding wait_running
  wait_running-ok fuel w w' id endpoint h =
      wait_rounds-ok fuel w w' (world.clock w + cfg.startup_timeout) id endpoint h
