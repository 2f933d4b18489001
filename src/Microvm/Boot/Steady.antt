-- ===== src/Microvm/Boot/Steady.antt =====
-- The waits for a machine end in no run-time panic.
use mathlib.Core.Path.{subst}
use aws_build_farm.Prelude.{
  if◌then◌else◌, Bool-cases, Option-cases, Sum-cases, after, Bytes, Result, ok, err, panic, ℕ, zero,
  suc, ◌≡◌, refl, sym, ap, ◌∙◌, ◌≢◌, inl, inr, Bool, true, false, Option, none, some, ◌++◌, arith,
}
use aws_build_farm.Task.{health_path}
use aws_build_farm.Microvm.{
  VmOutput, VmState, running, terminating, terminated, other_state, Config, World,
}
use aws_build_farm.Microvm.Boot.{
  pause_running, poll_running, wait_rounds, wait_running, is_healthy, health_request, pause_healthy,
  poll_healthy, health_rounds, wait_healthy,
}

-- A call that may run out of fuel does not end in a panic.
unfoldable pub IsSteady : {S E A : Type 0} → Option (Result E A × S) → Type 0
IsSteady none = Unit {0}
IsSteady (some (ok a, s)) = Unit {0}
IsSteady (some (err e, s)) = Unit {0}
IsSteady (some (panic, s)) = ⊥

pub after-IsSteady :
    {S E A B : Type 0} (m : Option (Result E A × S)) (k : A → S → Option (Result E B × S))
    → IsSteady m
    → ((a : A) (s : S) → IsSteady (k a s))
    → IsSteady (after m k)
unfolding IsSteady after
after-IsSteady none k h f = tt
after-IsSteady (some (ok a, s)) k h f = f a s
after-IsSteady (some (err e, s)) k h f = tt
after-IsSteady (some (panic, s)) k h f = absurd h

pub if-IsSteady :
    {S E A : Type 0} (b : Bool) (m k : Option (Result E A × S))
    → IsSteady m
    → IsSteady k
    → IsSteady (if b then m else k)
if-IsSteady true m k h g = h
if-IsSteady false m k h g = g

pub steady-not-panic :
    {S E A : Type 0} (m : Option (Result E A × S)) (r : Result E A) (s : S)
    → IsSteady m
    → m ≡ some (r, s)
    → r ≢ panic
unfolding IsSteady
steady-not-panic m r s h e p = subst IsSteady (e ∙ ap (λ x. some (x, s)) p) h

pub err-IsSteady : {S E : Type 0} (A : Type 0) (e : E) (s : S) → IsSteady {A = A} (some (err e, s))
unfolding IsSteady
err-IsSteady A e s = tt

pub some-IsSteady : {S E A : Type 0} (r : Result E A) (s : S) → r ≢ panic → IsSteady (some (r, s))
unfolding IsSteady
some-IsSteady (ok a) s h = tt
some-IsSteady (err e) s h = tt
some-IsSteady panic s h = h refl

module _ (world : World) (cfg : Config) where
  poll_running-steady :
      (w : world.State) (deadline : ℕ) (id : Bytes)
      → (poll_running world cfg w deadline id).0 ≢ some panic
  unfolding poll_running
  poll_running-steady w deadline id h = elim (Sum-cases (world.get_microvm w id).0) [
    | inl (e, failed) ↦ ground (arith, failed, h)
    | inr (out, got) ↦ from_state out out.state got refl
  ]
    where
      from_state :
          (out : VmOutput) (state : VmState)
          → (world.get_microvm w id).0 ≡ inr out
          → out.state ≡ state
          → ⊥
      from_state out running got st = ground (arith, got, st, h)
      from_state out terminating got st = ground (arith, got, st, h)
      from_state out terminated got st = ground (arith, got, st, h)
      from_state out (other_state t) got st =
          elim (Option-cases
            (pause_running world cfg (world.get_microvm w id).1 deadline (other_state t)).0) [
              | inl paused ↦ ground (arith, got, st, paused, h)
              | inr (e, ended) ↦ ground (arith, got, st, ended, h)
            ]

  wait_rounds-IsSteady :
      (n : ℕ) (w : world.State) (deadline : ℕ) (id : Bytes)
      → IsSteady (wait_rounds world cfg n w deadline id)
  unfolding wait_rounds
  wait_rounds-IsSteady zero w deadline id = unfold IsSteady in tt
  wait_rounds-IsSteady (suc n) w deadline id =
      let polled = poll_running world cfg w deadline id in
      elim (Option-cases polled.0) [
        | inl again ↦
            subst IsSteady (sym (rw (again, wait_rounds)))
              (wait_rounds-IsSteady n polled.1 deadline id)
        | inr (answer, ended) ↦ subst IsSteady (sym (rw (ended, wait_rounds))) (
            some-IsSteady answer polled.1
              (λ p. poll_running-steady w deadline id (ended ∙ ap (λ x. some x) p)))
      ]

  poll_healthy-steady :
      (w : world.State) (deadline : ℕ) (url token : Bytes)
      → (poll_healthy world cfg w deadline url token).0 ≢ some panic
  unfolding poll_healthy
  poll_healthy-steady w deadline url token h =
      let sent = world.send w (health_request world cfg url token) in
      elim (Option-cases (world.bad_url (url ++ health_path))) [
        | inr (e, bad) ↦ ground (arith, bad, h)
        | inl good ↦ elim (Bool-cases (is_healthy world cfg sent.0)) [
          | inl healthy ↦ ground (arith, good, healthy, h)
          | inr sick ↦ elim (Option-cases (pause_healthy world cfg sent.1 deadline).0) [
            | inl paused ↦ ground (arith, good, sick, paused, h)
            | inr (e, ended) ↦ ground (arith, good, sick, ended, h)
          ]
        ]
      ]

  health_rounds-IsSteady :
      (n : ℕ) (w : world.State) (deadline : ℕ) (url token : Bytes)
      → IsSteady (health_rounds world cfg n w deadline url token)
  unfolding health_rounds
  health_rounds-IsSteady zero w deadline url token = unfold IsSteady in tt
  health_rounds-IsSteady (suc n) w deadline url token =
      let polled = poll_healthy world cfg w deadline url token in
      elim (Option-cases polled.0) [
        | inl again ↦
            subst IsSteady (sym (rw (again, health_rounds)))
              (health_rounds-IsSteady n polled.1 deadline url token)
        | inr (answer, ended) ↦ subst IsSteady (sym (rw (ended, health_rounds))) (
            some-IsSteady answer polled.1
              (λ p. poll_healthy-steady w deadline url token (ended ∙ ap (λ x. some x) p)))
      ]

  pub wait_running-IsSteady :
      (fuel : ℕ) (w : world.State) (id : Bytes) → IsSteady (wait_running world cfg fuel w id)
  unfolding wait_running
  wait_running-IsSteady fuel w id = wait_rounds-IsSteady fuel w _ id

  pub wait_healthy-IsSteady :
      (fuel : ℕ) (w : world.State) (url token : Bytes)
      → IsSteady (wait_healthy world cfg fuel w url token)
  unfolding wait_healthy
  wait_healthy-IsSteady fuel w url token = health_rounds-IsSteady fuel w _ url token
