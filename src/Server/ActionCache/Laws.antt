-- ===== src/Server/ActionCache/Laws.antt =====
-- What the action cache answers after an update.
use aws_build_farm.Prelude.{
  if◌then◌else◌, Bytes, bytes_eq, bytes_eq_refl, Result, ok, err, ◌≡◌, sym, ◌∙◌, ◌≢◌, none, some,
  arith,
}
use aws_build_farm.Digest.{DigestRef, get_hash, validate}
use aws_build_farm.Proto.{ActionResult}
use aws_build_farm.Cas.Reader.{StoreError}
use aws_build_farm.Cas.Reader
use aws_build_farm.Cas.Interface.{validate-IsName, Store}
use aws_build_farm.Server.Status.{Code, Status}
use aws_build_farm.Server.ActionCache.{cached_answer, get_action_result, update_action_result}

cached_answer-cases :
    (d : DigestRef) (r : Result StoreError ActionResult)
    → ((ar : ActionResult) → cached_answer d r ≡ ok ar → r ≡ ok ar)
      × ((m : Status)
          → cached_answer d r ≡ err m
          → m.code ≡ Code.not_found
          → r ≡ err Reader.not_found)
unfolding cached_answer
cached_answer-cases d r = ((λ ar h. ground arith), λ m h c. ground arith)

module _ (st : Store) where
  get_valid :
      (s : st.State) (d : DigestRef)
      → validate d ≡ none
      → get_action_result st s d ≡ cached_answer d (st.get_action_result s d)
  unfolding get_action_result
  get_valid s d v = rw (v, get_action_result)

  -- A result that is answered is the cached one.
  pub get_action_result-cached :
      (s : st.State) (d : DigestRef) (ar : ActionResult)
      → validate d ≡ none
      → get_action_result st s d ≡ ok ar
      → st.cached s (get_hash d) ≡ some ar
  get_action_result-cached s d ar v h =
      st.get_action_result_ok s d ar
        ((cached_answer-cases d (st.get_action_result s d)).0 ar (sym (get_valid s d v) ∙ h))

  -- NotFound is answered only if there is none.
  pub get_action_result-absent :
      (s : st.State) (d : DigestRef) (m : Status)
      → validate d ≡ none
      → get_action_result st s d ≡ err m
      → m.code ≡ Code.not_found
      → st.cached s (get_hash d) ≡ none
  get_action_result-absent s d m v h c =
      st.get_action_result_not_found s d
        ((cached_answer-cases d (st.get_action_result s d)).1 m (sym (get_valid s d v) ∙ h) c)

  update_valid :
      (s : st.State) (d : DigestRef) (ar x : ActionResult)
      → (update_action_result st s d (some ar)).0 ≡ ok x
      → (validate d ≡ none)
        × (x ≡ ar)
        × ((st.put_action_result s d ar).0 ≡ none)
        × ((update_action_result st s d (some ar)).1 ≡ (st.put_action_result s d ar).1)
  unfolding update_action_result
  update_valid s d ar x h = ground arith

  -- After an update that was answered with a result, that result is the given one, the cache holds it for
  -- the action and for every other one what it held, and no blob has changed, under the names that the store keeps apart. A query of the same action is
  -- then answered with that result if it is answered with any, and never with NotFound.
  pub update-get :
      (s : st.State) (d : DigestRef) (ar x : ActionResult)
      → (update_action_result st s d (some ar)).0 ≡ ok x
      → let s' = (update_action_result st s d (some ar)).1 in
        (x ≡ ar)
        × ((k : Bytes)
            → st.IsName k
            → (st.cached s' k ≡ (if bytes_eq (get_hash d) k then some ar else st.cached s k))
              × (st.blob s' k ≡ st.blob s k))
        × ((y : ActionResult) → get_action_result st s' d ≡ ok y → y ≡ ar)
        × ((m : Status) → get_action_result st s' d ≡ err m → m.code ≢ Code.not_found)
  update-get s d ar x h =
      let (v, same, fine, after) = update_valid s d ar x h in
      let put = st.put_action_result s d ar in
      let named = validate-IsName st d v in
      let held = λ (k : Bytes) (named' : st.IsName k).
        st.put_action_result_ok s put.1 d ar named (λ i. (fine i, put.1)) k named' in
      let here : st.cached put.1 (get_hash d) ≡ some ar =
        ground (arith, held (get_hash d) named, bytes_eq_refl (get_hash d)) in
      rw after (
        same,
        λ k named'. (held k named', st.put_action_result_blob s d ar k named named'),
        λ y e. ground (arith, here, get_action_result-cached put.1 d y v e),
        λ m e c. ground (arith, here, get_action_result-absent put.1 d m v e c),
      )
