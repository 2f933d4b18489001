-- ===== src/Server/Missing.antt =====
-- internal/server/cas_service.go: FindMissingBlobs, whose lookups run as concurrent goroutines.
-- A goroutine asks the store and then, in one step, writes its own slot of the slice or, under the
-- lock, the first error. `order` lists the goroutines as they take that step.
pub mod Schedules
pub mod Failures
use aws_build_farm.Prelude.{
  if◌then◌else◌, length, get_elem?, set, replicate, Result, ok, err, ℕ, Bool, Option, none, some,
  List, [], ◌∷◌,
}
use mathlib.Core.List.{foldl}
use aws_build_farm.Digest.{DigestRef}
use aws_build_farm.Cas.Reader.{StoreError}
use aws_build_farm.Cas.Interface.{Store}
use aws_build_farm.Server.Status.{Code, Status, status, find_missing}

-- The variables that the goroutines share: the slice `missing` and `firstErr`.
pub record Shared : Type 0 where
  pub missing : List DigestRef
  pub first_err : Option StoreError

abbrev keep_first : Option StoreError → StoreError → Option StoreError
keep_first none e = some e
keep_first (some e) e' = some e

-- The loop that drops the nil entries.
unfoldable pub compact : List DigestRef → List DigestRef
compact [] = []
compact (none ∷ ds) = compact ds
compact (some d ∷ ds) = some d ∷ compact ds

abbrev response : Shared → Result Status (List DigestRef)
response w = elim w.first_err [
  | some e ↦ err (status Code.internal (find_missing e))
  | none ↦ ok (compact w.missing)
]

abbrev pub start : List DigestRef → Shared
start ds = record { missing = replicate (length ds) none; first_err = none }

module _ (st : Store) where
  report : Bool × Option StoreError → ℕ → DigestRef → Shared → Shared
  report (present, some e) i d w = record w { first_err = keep_first w.first_err e }
  report (present, none) i d w = if present then w else record w { missing = set w.missing i d }

  -- The goroutine of index `i`.
  unfoldable pub lookup_at : st.State → List DigestRef → Shared → ℕ → Shared
  unfolding report
  lookup_at s ds w i = elim (get_elem? ds i) [ none ↦ w | some d ↦ report (st.contains s d) i d w ]

  unfoldable pub find_missing_blobs :
      st.State → List DigestRef → List ℕ → Result Status (List DigestRef)
  unfolding lookup_at
  find_missing_blobs s ds order = response (foldl (lookup_at s ds) (start ds) order)
