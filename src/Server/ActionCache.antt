-- ===== src/Server/ActionCache.antt =====
-- internal/server/actioncache.go: the handlers GetActionResult and UpdateActionResult.
pub mod Laws
use aws_build_farm.Prelude.{Result, ok, err, panic, Option, none, some, []}
use aws_build_farm.Digest.{DigestRef, validate, key}
use aws_build_farm.Proto.{ActionResult}
use aws_build_farm.Cas.Reader.{StoreError}
use aws_build_farm.Cas.Reader
use aws_build_farm.Cas.Interface.{Store}
use aws_build_farm.Server.Status.{
  Code, Status, status, digest_error, no_cached_result, store_error, action_result_required,
}

cached_answer : DigestRef → Result StoreError ActionResult → Result Status ActionResult
cached_answer d (ok ar) = ok ar
cached_answer d (err Reader.not_found) = err (status Code.not_found (no_cached_result (key d)))
cached_answer d (err e) = err (status Code.internal (store_error e))
cached_answer d panic = panic

module _ (st : Store) where
  -- `GetActionResult`.
  unfoldable pub get_action_result : st.State → DigestRef → Result Status ActionResult
  unfolding cached_answer
  get_action_result s d = elim (validate d) [
    | some e ↦ err (status Code.invalid_argument (digest_error e))
    | none ↦ cached_answer d (st.get_action_result s d)
  ]

  put_answer : ActionResult → Option StoreError × st.State → Result Status ActionResult × st.State
  put_answer ar (none, s) = (ok ar, s)
  put_answer ar (some e, s) = (err (status Code.internal (store_error e)), s)

  put_present : st.State → DigestRef → Option ActionResult → Result Status ActionResult × st.State
  unfolding put_answer
  put_present s d none = (err (status Code.invalid_argument action_result_required), s)
  put_present s d (some ar) = put_answer ar (st.put_action_result s d ar)

  -- `UpdateActionResult`.
  unfoldable pub update_action_result :
      st.State → DigestRef → Option ActionResult → Result Status ActionResult × st.State
  unfolding put_present
  update_action_result s d ar = elim (validate d) [
    | some e ↦ (err (status Code.invalid_argument (digest_error e)), s)
    | none ↦ put_present s d ar
  ]
