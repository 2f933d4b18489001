-- ===== src/Server/Missing/Failures.antt =====
-- FindMissingBlobs when the store fails at a lookup.
use aws_build_farm.Prelude.{
  Option-cases, get_elem?, get_elem?-lt_length, err, ℕ, ◌≡◌, refl, sym, ap, ◌∙◌, ◌⊎◌, inl, inr,
  none, some, List, [], ◌∷◌, arith,
}
use mathlib.Core.List.{foldl, Memᴰ}
use mathlib.Core.List.Memᴰ
use aws_build_farm.Digest.{DigestRef}
use aws_build_farm.Cas.Reader.{StoreError}
use aws_build_farm.Cas.Interface.{Store}
use aws_build_farm.Server.Status.{Code, status, find_missing}
use aws_build_farm.Server.Missing.{Shared, response, report, lookup_at, start, find_missing_blobs}
use aws_build_farm.Server.Missing.Schedules.{IsComplete}

response-error :
    (w : Shared) (e : StoreError)
    → w.first_err ≡ some e
    → response w ≡ err (status Code.internal (find_missing e))
response-error w e h = ground (arith, h)

module _ (st : Store) (s : st.State) (ds : List DigestRef) where
  -- The store answers the lookup of some digest of the request with this error.
  abbrev pub IsReported : StoreError → Type 0
  IsReported e =
      (i : ℕ) × (d : DigestRef) × (get_elem? ds i ≡ some d) × ((st.contains s d).1 ≡ some e)

  abbrev Failing : Shared → Type 0
  Failing w = (e : StoreError) × (w.first_err ≡ some e) × IsReported e

  report-error :
      (i : ℕ) (d : DigestRef) (w : Shared) (e : StoreError)
      → (st.contains s d).1 ≡ some e
      → ((report st (st.contains s d) i d w).first_err ≡ some e) × (w.first_err ≡ none)
        ⊎ ((x : StoreError) × (w.first_err ≡ some x)
            × ((report st (st.contains s d) i d w).first_err ≡ some x))
  unfolding report
  report-error i d w e h = elim (Option-cases w.first_err) [
    | inl fresh ↦ inl (ground (arith, h), fresh)
    | inr (x, old) ↦ inr (x, old, ground (arith, h))
  ]

  report-quiet :
      (i : ℕ) (d : DigestRef) (w : Shared)
      → (st.contains s d).1 ≡ none
      → (report st (st.contains s d) i d w).first_err ≡ w.first_err
  unfolding report
  report-quiet i d w h = ground (arith, h)

  -- A goroutine whose lookup fails leaves an error behind.
  lookup_at-Failing :
      (w : Shared) (i : ℕ) (d : DigestRef) (e : StoreError)
      → (w.first_err ≡ none) ⊎ Failing w
      → get_elem? ds i ≡ some d
      → (st.contains s d).1 ≡ some e
      → Failing (lookup_at st s ds w i)
  unfolding lookup_at
  lookup_at-Failing w i d e sound at h = elim (report-error i d w e h) [
    | inl (new, fresh) ↦ (e, rw (at, lookup_at) new, (i, d, at, h))
    | inr (x, old, kept) ↦ elim sound [
      | inl fresh ↦ cc
      | inr (y, known, reported) ↦ (y, rw (at, lookup_at) (kept ∙ sym old ∙ known), reported)
    ]
  ]

  -- An error that is there stays there.
  lookup_at-keeps : (w : Shared) (i : ℕ) → Failing w → Failing (lookup_at st s ds w i)
  unfolding lookup_at
  lookup_at-keeps w i (e, known, reported) = elim (Option-cases (get_elem? ds i)) [
    | inl out ↦ (e, rw (out, lookup_at) known, reported)
    | inr (d, at) ↦ elim (Option-cases (st.contains s d).1) [
      | inl quiet ↦ (e, rw (at, lookup_at) (report-quiet i d w quiet ∙ known), reported)
      | inr (x, h) ↦ lookup_at-Failing w i d x (inr (e, known, reported)) at h
    ]
  ]

  lookup_at_sound :
      (w : Shared) (i : ℕ)
      → (w.first_err ≡ none) ⊎ Failing w
      → ((lookup_at st s ds w i).first_err ≡ none) ⊎ Failing (lookup_at st s ds w i)
  unfolding lookup_at
  lookup_at_sound w i (inr f) = inr (lookup_at-keeps w i f)
  lookup_at_sound w i (inl fresh) = elim (Option-cases (get_elem? ds i)) [
    | inl out ↦ inl (rw (out, lookup_at) fresh)
    | inr (d, at) ↦ elim (Option-cases (st.contains s d).1) [
      | inl quiet ↦ inl (rw (at, lookup_at) (report-quiet i d w quiet ∙ fresh))
      | inr (x, h) ↦ inr (lookup_at-Failing w i d x (inl fresh) at h)
    ]
  ]

  run-keeps :
      (order : List ℕ) (w : Shared) → Failing w → Failing (foldl (lookup_at st s ds) w order)
  run-keeps [] w f = f
  run-keeps (i ∷ order) w f = run-keeps order (lookup_at st s ds w i) (lookup_at-keeps w i f)

  run-Failing :
      (order : List ℕ) (w : Shared) (i : ℕ) (d : DigestRef) (e : StoreError)
      → (w.first_err ≡ none) ⊎ Failing w
      → get_elem? ds i ≡ some d
      → (st.contains s d).1 ≡ some e
      → Memᴰ i order
      → Failing (foldl (lookup_at st s ds) w order)
  run-Failing [] w i d e sound at h m = absurd (Memᴰ.not-nil m)
  run-Failing (j ∷ order) w i d e sound at h (Memᴰ.head p) =
      run-keeps order (lookup_at st s ds w j)
        (lookup_at-Failing w j d e sound (ap (get_elem? ds) (sym p) ∙ at) h)
  run-Failing (j ∷ order) w i d e sound at h (Memᴰ.tail m) =
      run-Failing order (lookup_at st s ds w j) i d e (lookup_at_sound w j sound) at h m

  -- If the store fails at the lookup of a requested digest, the call fails with the code Internal and
  -- an error that the store gave for a requested digest, in whatever order the lookups end.
  pub find_missing_blobs-error :
      (order : List ℕ) (i : ℕ) (d : DigestRef) (e : StoreError)
      → IsComplete ds order
      → get_elem? ds i ≡ some d
      → (st.contains s d).1 ≡ some e
      → (x : StoreError) × (find_missing_blobs st s ds order
          ≡ err (status Code.internal (find_missing x)))
        × IsReported x
  unfolding find_missing_blobs
  find_missing_blobs-error order i d e all at h =
      let (x, known, reported) =
        run-Failing order (start ds) i d e (inl refl) at h (all i (get_elem?-lt_length ds i at)) in
      (x, response-error _ x known, reported)
