-- ===== src/Server/Execution/Updates.antt =====
-- The operations that one execution publishes.
use aws_build_farm.Prelude.{
  Bool-cases, Option-cases, is_some, Result-cases, Bytes, Result, ok, err, panic, ◌≡◌, refl, ◌≢◌,
  inl, inr, Bool, true, false, not, ◌&&◌, none, some, List, [], ◌∷◌, arith,
}
use mathlib.Core.List.{foldl}
use aws_build_farm.Digest.{DigestRef}
use aws_build_farm.Proto.{ActionResult, Action, Command, Codec}
use aws_build_farm.Cas.Reader.{StoreError}
use aws_build_farm.Cas.Interface.{Store}
use aws_build_farm.Server.Operation.{
  cache_check, executing, completed, Operation, Update, OpEntry, publish,
}
use aws_build_farm.Server.Execution.{
  operation, RunError, Runner, NeverPanics, finish_run, run_command, run_uncached, run_looked_up,
  run_action, timeout_of,
}

-- The last operation is done, has the stage COMPLETED and a response; those before it are not done and have none.
abbrev pub EndsOnce : List Operation → Type 0
EndsOnce [] = ⊥
EndsOnce (o ∷ []) = (o.done ≡ true) × (o.stage ≡ completed) × (is_some o.response ≡ true)
EndsOnce (o ∷ p ∷ ps) = (o.done ≡ false) × (is_some o.response ≡ false) × EndsOnce (p ∷ ps)

module _ (st : Store) (codec : Codec Command) (runner : Runner st) (steady : NeverPanics st runner)
    (name : Bytes) (d : DigestRef) where
  finish_run-EndsOnce :
      (action : Action) (r : Result RunError ActionResult) (s : st.State)
      → r ≢ panic
      → EndsOnce (finish_run st codec runner name d action (r, s)).0
  unfolding finish_run
  finish_run-EndsOnce action (ok ar) s h = ground arith
  finish_run-EndsOnce action (err e) s h = ground arith
  finish_run-EndsOnce action panic s h = absurd (h refl)

  cons-EndsOnce :
      (o : Operation) (os : List Operation)
      → o.done ≡ false
      → is_some o.response ≡ false
      → EndsOnce os
      → EndsOnce (o ∷ os)
  cons-EndsOnce o [] a b h = absurd h
  cons-EndsOnce o (p ∷ ps) a b h = (a, b, h)

  run_uncached-EndsOnce :
      (s : st.State) (action : Action) → EndsOnce (run_uncached st codec runner name d s action).0
  unfolding run_uncached run_command
  run_uncached-EndsOnce s action = elim (Result-cases (st.get s action.command_digest)) [
    | inr (inr crash) ↦ absurd (st.get_no_panic s action.command_digest crash)
    | inr (inl (e, failed)) ↦ rw (failed, run_uncached) (refl, refl, refl)
    | inl (b, got) ↦ elim (Option-cases (codec.unmarshal b)) [
      | inl bad ↦ rw (got, run_uncached) (rw bad (refl, refl, refl))
      | inr (c, good) ↦
          let ran = runner.run s c action.input_root_digest (timeout_of action.timeout) in
          rw (got, run_uncached)
            (rw good (
              cons-EndsOnce (operation name d executing none)
                (finish_run st codec runner name d action ran).0 refl refl
                (finish_run-EndsOnce action ran.0 ran.1
                  (steady s c action.input_root_digest (timeout_of action.timeout)))))
    ]
  ]

  run_looked_up-EndsOnce :
      (s : st.State) (action : Action) (r : Result StoreError ActionResult)
      → r ≢ panic
      → EndsOnce (run_looked_up st codec runner name d s action r).0
  unfolding run_looked_up
  run_looked_up-EndsOnce s action (ok ar) h = (refl, refl, refl)
  run_looked_up-EndsOnce s action (err e) h = run_uncached-EndsOnce s action
  run_looked_up-EndsOnce s action panic h = absurd (h refl)

  -- Every execution, whatever the store and the codec answer, and whatever a runner that does not panic answers,
  -- publishes one operation that is done, as the last one, with the stage COMPLETED and a response; those before it are not done.
  pub run_action-EndsOnce :
      (s : st.State) (skip : Bool) (action : Action)
      → EndsOnce (run_action st codec runner name d s skip action).0
  unfolding run_action
  run_action-EndsOnce s skip action = elim (Bool-cases (not skip && not action.do_not_cache)) [
    | inl looks ↦ rw looks (
        cons-EndsOnce (operation name d cache_check none)
          (run_looked_up st codec runner name d s action (st.get_action_result s d)).0 refl refl
          (run_looked_up-EndsOnce s action (st.get_action_result s d)
            (st.get_action_result_no_panic s d)))
    | inr skips ↦ rw skips (
        cons-EndsOnce (operation name d cache_check none)
          (run_uncached st codec runner name d s action).0 refl refl
          (run_uncached-EndsOnce s action))
  ]

-- The operations are published one after the other.
abbrev pub publish_all : OpEntry → List Operation → OpEntry
publish_all = foldl publish

-- An entry to which such operations are published is done, and holds the last of them.
pub publish_all-done :
    (e : OpEntry) (os : List Operation)
    → e.done ≡ false
    → EndsOnce os
    → ((publish_all e os).done ≡ true)
      × ((u : Update) × ((publish_all e os).latest ≡ some u)
          × (u.operation.done ≡ true)
          × (u.operation.stage ≡ completed))
unfolding publish
publish_all-done e [] fresh h = absurd h
publish_all-done e (o ∷ []) fresh h = (
  ground arith,
  (record { address = e.changed; operation = o }, ground arith, ground arith, ground arith),
)
publish_all-done e (o ∷ p ∷ ps) fresh h = publish_all-done (publish e o) (p ∷ ps) (ground arith) h.2
