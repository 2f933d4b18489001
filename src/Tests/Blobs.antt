-- ===== src/Tests/Blobs.antt =====
-- Batches of blobs, lookups and the action cache, over the in-memory store.
use aws_build_farm.Prelude.{
  if◌then◌else◌, is_some, get_elem?, pos, Bytes, codes, bytes_eq, ok, err, zero, suc, ◌≡◌, refl,
  ◌≢◌, Bool, false, ◌||◌, Option, none, some, List, [], ◌∷◌, arith,
}
use mathlib.Core.List.{Memᴰ, Forall₂}
use aws_build_farm.Prelude.Dict.{lookup}
use aws_build_farm.Digest.{Digest, DigestRef, from_bytes, validate, empty_hash, is_empty, get_hash}
use aws_build_farm.GoText.Hex.{encode, decode}
use aws_build_farm.Cas.Reader.{StoreError, failure}
use aws_build_farm.Cas.Interface.{Store}
use aws_build_farm.Cas.MemStore.{MemStore, new_mem_store, put, contains, put_action_result}
use aws_build_farm.Server.Status.{Code, Status, status, status_ok, find_missing}
use aws_build_farm.Server.Blobs.{
  UpdateRequest, ReadResponse, put_one, batch_update_blobs, batch_read_blobs,
}
use aws_build_farm.Server.Blobs.Integrity.{IsIntact, batch_update_blobs-IsIntact}
use aws_build_farm.Server.Blobs.Batch.{
  content, IsAnswer, batch_update_blobs-content, batch_read_blobs-IsAnswer,
}
use aws_build_farm.Server.Missing.{find_missing_blobs}
use aws_build_farm.Server.Missing.Schedules.{Answers, IsComplete, absent, find_missing_blobs-absent}
use aws_build_farm.Server.Missing.Failures.{IsReported, find_missing_blobs-error}
use aws_build_farm.Server.ActionCache.{get_action_result, update_action_result}
use aws_build_farm.Server.ActionCache.Laws.{update-get}
use aws_build_farm.Proto.{ActionResult}
use aws_build_farm.Tests.Sample.{toy_sha, bare_result, store, hello, hello_digest}

abbrev wrong_digest : Digest
wrong_digest = record { hash = empty_hash; size_bytes = pos 5 }

abbrev pub good_request : UpdateRequest
good_request = record { digest = some hello_digest; content = hello }

abbrev requests : List UpdateRequest
requests = record { digest = some wrong_digest; content = codes "world" } ∷ good_request ∷ []

pub new_mem_store-IsIntact : IsIntact toy_sha store new_mem_store
unfolding lookup
new_mem_store-IsIntact k b named h = cc

batch_update_blobs-IsIntact_example :
    IsIntact toy_sha store (batch_update_blobs toy_sha store new_mem_store requests).1
batch_update_blobs-IsIntact_example =
    batch_update_blobs-IsIntact toy_sha store new_mem_store requests new_mem_store-IsIntact

only_answer :
    get_elem? (batch_update_blobs toy_sha store new_mem_store (good_request ∷ [])).0 0
    ≡ some (record { digest = some hello_digest; status = status_ok })
unfolding batch_update_blobs put_one validate decode from_bytes encode bytes_eq put is_empty
only_answer = refl

batch_update_blobs-content_example :
    content store
      (batch_update_blobs toy_sha store new_mem_store (good_request ∷ [])).1
      (some hello_digest)
    ≡ some hello
batch_update_blobs-content_example =
    batch_update_blobs-content toy_sha store new_mem_store (good_request ∷ []) 0 good_request
      (record { digest = some hello_digest; status = status_ok }) refl only_answer refl
      ((λ h. refl), tt)

abbrev asked : List DigestRef
asked = some hello_digest ∷ none ∷ []

batch_read_blobs-IsAnswer_example :
    (answers : List ReadResponse) × (batch_read_blobs store new_mem_store asked ≡ ok answers)
    × Forall₂ (IsAnswer store new_mem_store) asked answers
batch_read_blobs-IsAnswer_example = batch_read_blobs-IsAnswer store new_mem_store asked

backwards-IsComplete : IsComplete asked (1 ∷ 0 ∷ [])
backwards-IsComplete zero h = Memᴰ.tail (Memᴰ.head refl)
backwards-IsComplete (suc zero) h = Memᴰ.head refl
backwards-IsComplete (suc (suc i)) h = absurd (omega arith)

Answers-asked : Answers store new_mem_store asked
unfolding contains is_empty from_bytes bytes_eq empty_hash
Answers-asked = (refl, (refl, tt))

find_missing_blobs-absent_example :
    find_missing_blobs store new_mem_store asked (1 ∷ 0 ∷ [])
    ≡ ok (absent store new_mem_store asked)
find_missing_blobs-absent_example =
    find_missing_blobs-absent store new_mem_store asked (1 ∷ 0 ∷ []) Answers-asked
      backwards-IsComplete

-- A store that does not answer lookups.
abbrev quiet : MemStore → DigestRef → Bool × Option StoreError
quiet s d = (false, some (failure []))

quiet_contains :
    (s : MemStore) (d : DigestRef) (b : Bool)
    → quiet s d ≡ (b, none)
    → b ≡ (is_empty d || is_some (store.blob s (get_hash d)))
quiet_contains s d b h = cc

abbrev quiet_store : Store
quiet_store = record store { contains = quiet; contains_ok = quiet_contains }

find_missing_blobs-error_example :
    (x : StoreError) × (find_missing_blobs quiet_store new_mem_store asked (1 ∷ 0 ∷ [])
      ≡ err (status Code.internal (find_missing x)))
    × IsReported quiet_store new_mem_store asked x
find_missing_blobs-error_example =
    find_missing_blobs-error quiet_store new_mem_store asked (1 ∷ 0 ∷ []) 0 (some hello_digest)
      (failure []) backwards-IsComplete refl refl

hello_valid : validate (some hello_digest) ≡ none
unfolding validate decode from_bytes encode
hello_valid = refl

update_accepted :
    (update_action_result store new_mem_store (some hello_digest) (some (bare_result 3))).0
    ≡ ok (bare_result 3)
unfolding update_action_result validate decode from_bytes encode put_action_result
update_accepted = refl

update-get_example :
    let s' =
      (update_action_result store new_mem_store (some hello_digest) (some (bare_result 3))).1 in
    (bare_result 3 ≡ bare_result 3)
    × ((k : Bytes)
        → store.IsName k
        → (store.cached s' k ≡ (
            if bytes_eq (get_hash (some hello_digest)) k
            then some (bare_result 3)
            else store.cached new_mem_store k))
          × (store.blob s' k ≡ store.blob new_mem_store k))
    × ((y : ActionResult)
        → get_action_result store s' (some hello_digest) ≡ ok y
        → y ≡ bare_result 3)
    × ((m : Status)
        → get_action_result store s' (some hello_digest) ≡ err m
        → m.code ≢ Code.not_found)
update-get_example =
    update-get store new_mem_store (some hello_digest) (bare_result 3) (bare_result 3)
      update_accepted
