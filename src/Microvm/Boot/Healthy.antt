-- ===== src/Microvm/Boot/Healthy.antt =====
-- What it takes that the wait for the agent ends well.
use aws_build_farm.Prelude.{
  Bool-cases, Option-cases, some-injective, Bytes, Result, ok, ℕ, zero, suc, ◌≡◌, sym, ap, ◌∙◌, inl,
  inr, true, some, ◌++◌, arith,
}
use aws_build_farm.Task.{health_path}
use aws_build_farm.Microvm.{Config, World, ExecError}
use aws_build_farm.Microvm.Boot.{
  is_healthy, health_request, pause_healthy, poll_healthy, health_rounds,
}

module _ (world : World) (cfg : Config) where
  poll_healthy-ok :
      (w : world.State) (deadline : ℕ) (url token : Bytes) (u : Unit {0})
      → (poll_healthy world cfg w deadline url token).0 ≡ some (ok u)
      → (is_healthy world cfg (world.send w (health_request world cfg url token)).0 ≡ true)
        × ((poll_healthy world cfg w deadline url token).1
            ≡ (world.send w (health_request world cfg url token)).1)
  unfolding poll_healthy
  poll_healthy-ok w deadline url token u h =
      let sent = world.send w (health_request world cfg url token) in
      elim (Option-cases (world.bad_url (url ++ health_path))) [
        | inr (e, bad) ↦ ground (arith, bad, h)
        | inl good ↦ elim (Bool-cases (is_healthy world cfg sent.0)) [
          | inl healthy ↦ ground (arith, good, healthy, h)
          | inr sick ↦ elim (Option-cases (pause_healthy world cfg sent.1 deadline).0) [
            | inl paused ↦ ground (arith, good, sick, paused, h)
            | inr (e, ended) ↦ ground (arith, good, sick, ended, h)
          ]
        ]
      ]

  pub health_rounds-ok :
      (n : ℕ) (w w' : world.State) (deadline : ℕ) (url token : Bytes) (u : Unit {0})
      → health_rounds world cfg n w deadline url token ≡ some (ok u, w')
      → (w₀ : world.State) × (is_healthy world cfg
            (world.send w₀ (health_request world cfg url token)).0
          ≡ true)
        × (w' ≡ (world.send w₀ (health_request world cfg url token)).1)
  unfolding health_rounds
  health_rounds-ok zero w w' deadline url token u h = absurd (cc)
  health_rounds-ok (suc n) w w' deadline url token u h =
      let polled = poll_healthy world cfg w deadline url token in
      elim (Option-cases polled.0) [
        | inl again ↦
            health_rounds-ok n polled.1 w' deadline url token u
              (sym (rw (again, health_rounds)) ∙ h)
        | inr (answer, ended) ↦
            let final : ◌≡◌ {A = Result ExecError (Unit {0}) × world.State} (answer, polled.1)
                (ok u, w') =
              some-injective (sym (rw (ended, health_rounds)) ∙ h) in
            let (healthy, sent) =
              poll_healthy-ok w deadline url token u (ended ∙ ap (λ t. some t.0) final) in
            (w, healthy, sym (ap (λ t. t.1) final) ∙ sent)
      ]
