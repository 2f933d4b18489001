-- ===== src/Server/Execution/Caching.antt =====
-- What an execution reads from the action cache, and what it writes there.
use aws_build_farm.Prelude.{
  Bool-cases, Option-cases, Result-cases, pos, eq_ℤ_iff, Bytes, bytes_eq_iff, bytes_eq_refl, Result,
  ok, err, panic, ◌≡◌, refl, sym, ap, ◌⊎◌, inl, inr, Bool, true, false, not, ◌&&◌, none, some, List,
  [], ◌∷◌, arith,
}
use mathlib.Core.Path.{subst}
use aws_build_farm.Digest.{validate, DigestRef, get_hash}
use aws_build_farm.Proto.{ActionResult, Action, Command, Codec}
use aws_build_farm.Cas.Reader.{StoreError}
use aws_build_farm.Cas.Interface.{validate-IsName, Store}
use aws_build_farm.Server.Operation.{cache_check, executing, Operation}
use aws_build_farm.Server.Execution.{
  operation, result_operation, RunError, Runner, cache_result, finish_run, run_command,
  run_uncached, run_looked_up, run_action, timeout_of,
}

module _ (st : Store) (codec : Codec Command) (runner : Runner st) (name : Bytes)
    (d : DigestRef) where
  -- The entry that an execution leaves after such a run.
  abbrev pub IsLeft : Action → Result RunError ActionResult × st.State → st.State → Bytes → Type 0
  IsLeft action ran s' k =
      (st.cached s' k ≡ st.cached ran.1 k)
      ⊎ ((get_hash d ≡ k)
          × (action.do_not_cache ≡ false)
          × ((ar : ActionResult) × (ran.0 ≡ ok ar)
              × (ar.exit_code ≡ pos 0)
              × (st.cached s' k ≡ some ar)))

  -- The entry of a key is the old one; or the command of the action was fetched and run, and the entry is the
  -- one that the run left or, for the key of the action, the result of the run, with the exit code 0, of an
  -- action that may be cached.
  abbrev pub IsSafeEntry : Action → st.State → st.State → Bytes → Type 0
  IsSafeEntry action s s' k =
      (st.cached s' k ≡ st.cached s k)
      ⊎ ((b : Bytes) × (c : Command) × (st.get s action.command_digest ≡ ok b)
          × (codec.unmarshal b ≡ some c)
          × IsLeft action (runner.run s c action.input_root_digest (timeout_of action.timeout)) s'
              k)

  cache_result-cases :
      (s : st.State) (action : Action) (ar : ActionResult) (k : Bytes)
      → st.IsName (get_hash d)
      → st.IsName k
      → (st.cached (cache_result st codec runner name d s action ar) k ≡ st.cached s k)
        ⊎ ((get_hash d ≡ k)
            × (action.do_not_cache ≡ false)
            × (ar.exit_code ≡ pos 0)
            × (st.cached (cache_result st codec runner name d s action ar) k ≡ some ar))
  unfolding cache_result
  cache_result-cases s action ar k nd nk = ground (
    arith,
    st.put_action_result_any s d ar k nd nk,
    bytes_eq_iff (get_hash d) k,
    eq_ℤ_iff ar.exit_code (pos 0),
  )

  run_command-IsLeft :
      (s : st.State) (action : Action) (c : Command) (k : Bytes)
      → st.IsName (get_hash d)
      → st.IsName k
      → IsLeft action
          (runner.run s c action.input_root_digest (timeout_of action.timeout))
          (run_command st codec runner name d s action (some c)).1
          k
  unfolding run_command finish_run
  run_command-IsLeft s action c k nd nk =
      let ran = runner.run s c action.input_root_digest (timeout_of action.timeout) in
      elim (Result-cases ran.0) [
        | inr (inr crash) ↦ inl (ground (arith, crash))
        | inr (inl (e, failed)) ↦ inl (ground (arith, failed))
        | inl (ar, fine) ↦ elim (cache_result-cases ran.1 action ar k nd nk) [
          | inl old ↦ inl (ground (arith, fine, old))
          | inr (hit, may, zero_exit, new) ↦
              inr (hit, may, (ar, fine, zero_exit, ground (arith, fine, new)))
        ]
      ]

  run_uncached-IsSafeEntry :
      (s : st.State) (action : Action) (k : Bytes)
      → st.IsName (get_hash d)
      → st.IsName k
      → IsSafeEntry action s (run_uncached st codec runner name d s action).1 k
  unfolding run_uncached
  run_uncached-IsSafeEntry s action k nd nk = elim (Result-cases (st.get s action.command_digest)) [
    | inr (inr crash) ↦ inl (rw (crash, run_uncached))
    | inr (inl (e, failed)) ↦ inl (rw (failed, run_uncached))
    | inl (b, got) ↦ elim (Option-cases (codec.unmarshal b)) [
      | inl bad ↦ inl (rw (got, run_uncached) (unfold run_command in rw bad))
      | inr (c, good) ↦
          let same : run_uncached st codec runner name d s action
              ≡ run_command st codec runner name d s action (some c) =
            rw (got, run_uncached) (rw good) in
          subst (λ (p : List Operation × st.State). IsSafeEntry action s p.1 k) (sym same)
            (inr (b, c, got, good, run_command-IsLeft s action c k nd nk))
    ]
  ]

  run_looked_up-IsSafeEntry :
      (s : st.State) (action : Action) (r : Result StoreError ActionResult) (k : Bytes)
      → st.IsName (get_hash d)
      → st.IsName k
      → IsSafeEntry action s (run_looked_up st codec runner name d s action r).1 k
  unfolding run_looked_up
  run_looked_up-IsSafeEntry s action (ok ar) k nd nk = inl refl
  run_looked_up-IsSafeEntry s action (err e) k nd nk = run_uncached-IsSafeEntry s action k nd nk
  run_looked_up-IsSafeEntry s action panic k nd nk = inl refl

  -- An execution of an action with a valid digest leaves every entry of the action cache as it was, or as the one
  -- run of its command in the store at the start left it, but for the entry of its own action: there it may put
  -- the result of that run, with the exit code 0, if the action does not forbid caching.
  pub run_action-IsSafeEntry :
      (s : st.State) (skip : Bool) (action : Action) (k : Bytes)
      → validate d ≡ none
      → st.IsName k
      → IsSafeEntry action s (run_action st codec runner name d s skip action).1 k
  unfolding run_action
  run_action-IsSafeEntry s skip action k v nk =
      let nd = validate-IsName st d v in
      elim (Bool-cases (not skip && not action.do_not_cache)) [
        | inl looks ↦
            rw looks (run_looked_up-IsSafeEntry s action (st.get_action_result s d) k nd nk)
        | inr skips ↦ rw skips (run_uncached-IsSafeEntry s action k nd nk)
      ]

  -- On a cache hit the execution publishes the cached result, marked as cached, and changes nothing.
  pub run_action-hit :
      (s : st.State) (action : Action) (ar : ActionResult)
      → action.do_not_cache ≡ false
      → st.get_action_result s d ≡ ok ar
      → run_action st codec runner name d s false action
        ≡ (operation name d cache_check none ∷ result_operation name d true ar ∷ [], s)
  unfolding run_action run_looked_up
  run_action-hit s action ar may hit = ground (arith, may, hit)

  -- The updates and the store of an execution that misses the cache and whose command runs to the exit code 0.
  run_action-fresh :
      (s : st.State) (action : Action) (e : StoreError) (b : Bytes) (c : Command)
      (ar : ActionResult)
      → action.do_not_cache ≡ false
      → st.get_action_result s d ≡ err e
      → st.get s action.command_digest ≡ ok b
      → codec.unmarshal b ≡ some c
      → (runner.run s c action.input_root_digest (timeout_of action.timeout)).0 ≡ ok ar
      → ar.exit_code ≡ pos 0
      → run_action st codec runner name d s false action ≡ (
        operation name d cache_check none
            ∷ operation name d executing none
            ∷ result_operation name d false ar
            ∷ [],
        (st.put_action_result
            (runner.run s c action.input_root_digest (timeout_of action.timeout)).1
            d
            ar).1,
      )
  unfolding run_action run_looked_up run_uncached run_command finish_run cache_result
  run_action-fresh s action e b c ar may miss got good ran zero_exit =
      ground (arith, may, miss, got, good, ran, zero_exit)

  -- If an execution of an action with a valid digest that may be cached misses the cache, its command is found and runs
  -- to the exit code 0, and the result is stored, then the same action executed again, in the store
  -- that the first execution left, publishes that very result as a cached one, does not run and
  -- changes nothing, if the store then answers the lookup with a result.
  pub run_action-again :
      (s : st.State) (action : Action) (e : StoreError) (b : Bytes) (c : Command)
      (ar x : ActionResult)
      → validate d ≡ none
      → action.do_not_cache ≡ false
      → st.get_action_result s d ≡ err e
      → st.get s action.command_digest ≡ ok b
      → codec.unmarshal b ≡ some c
      → (runner.run s c action.input_root_digest (timeout_of action.timeout)).0 ≡ ok ar
      → ar.exit_code ≡ pos 0
      → (st.put_action_result
          (runner.run s c action.input_root_digest (timeout_of action.timeout)).1
          d
          ar).0
        ≡ none
      → let s' = (run_action st codec runner name d s false action).1 in
        st.get_action_result s' d ≡ ok x
        → run_action st codec runner name d s' false action
          ≡ (operation name d cache_check none ∷ result_operation name d true ar ∷ [], s')
  run_action-again s action e b c ar x v may miss got good ran zero_exit stored hit =
      let s' = (run_action st codec runner name d s false action).1 in
      let t = (runner.run s c action.input_root_digest (timeout_of action.timeout)).1 in
      let put = st.put_action_result t d ar in
      let first =
        ap (λ p. p.1) (run_action-fresh s action e b c ar may miss got good ran zero_exit) in
      let named = validate-IsName st d v in
      let held =
        st.put_action_result_ok t put.1 d ar named (λ i. (stored i, put.1)) (get_hash d) named in
      let found = st.get_action_result_ok s' d x hit in
      let same : x ≡ ar = ground (
        arith,
        found,
        ap (λ (u : st.State). st.cached u (get_hash d)) first,
        held,
        bytes_eq_refl (get_hash d),
      ) in
      subst
        (λ (y : ActionResult).
          run_action st codec runner name d s' false action
          ≡ (operation name d cache_check none ∷ result_operation name d true y ∷ [], s'))
        same (run_action-hit s' action x may hit)
