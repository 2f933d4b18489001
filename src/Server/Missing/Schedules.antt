-- ===== src/Server/Missing/Schedules.antt =====
-- The answer of FindMissingBlobs does not depend on the order in which the lookups end.
use aws_build_farm.Prelude.{
  ltb, ◌==◌, if◌then◌else◌, ltb→lt, lt→ltb, ==_iff, Bool-cases, Option-cases, is_some, length,
  get_elem?, replicate, All, length-set, get_elem?-set, get_elem?-map, get_elem?-lt_length,
  get_elem?-replicate, eq_of_get_elem?, length-map, ok, ℕ, zero, suc, ◌<◌, ◌≡◌, refl, ap, ◌∙◌, ◌⊎◌,
  inl, inr, false, none, some, List, [], ◌∷◌, map, arith,
}
use mathlib.Core.Path.{subst}
use mathlib.Core.Option.{some-injective}
use mathlib.Core.List.Memᴰ
use mathlib.Core.List.{foldl, Memᴰ}
use aws_build_farm.Digest.{DigestRef}
use aws_build_farm.Cas.Interface.{Store}
use aws_build_farm.Server.Blobs.Batch.{content}
use aws_build_farm.Server.Missing.{Shared, compact, report, lookup_at, start, find_missing_blobs}

-- Every goroutine takes its step, as `wg.Wait` waits for: each index is in the order.
abbrev pub IsComplete : List DigestRef → List ℕ → Type 0
IsComplete ds order = (i : ℕ) → i < length ds → Memᴰ i order

out_of_range : (ds : List DigestRef) (j : ℕ) → ltb j (length ds) ≡ false → get_elem? ds j ≡ none
out_of_range [] j h = refl
out_of_range (d ∷ ds) zero h = ground arith
out_of_range (d ∷ ds) (suc j) h = out_of_range ds j (ground arith)

module _ (st : Store) (s : st.State) where
  -- The slot of a digest once its goroutine is done.
  abbrev slot : DigestRef → DigestRef
  slot d = if (st.contains s d).0 then none else d

  abbrev pub Answers : List DigestRef → Type 0
  Answers = All (λ d. (st.contains s d).1 ≡ none)

  get_elem?-Answers :
      (ds : List DigestRef) (i : ℕ) {d : DigestRef}
      → Answers ds
      → get_elem? ds i ≡ some d
      → (st.contains s d).1 ≡ none
  get_elem?-Answers [] i h e = cc
  get_elem?-Answers (x ∷ ds) zero h e =
      subst (λ (t : DigestRef). (st.contains s t).1 ≡ none) (some-injective _ _ e) h.0
  get_elem?-Answers (x ∷ ds) (suc i) h e = get_elem?-Answers ds i h.1 e

  abbrev blank : DigestRef → DigestRef
  blank d = none

  -- While the goroutines run: no error, and each slot is untouched or done.
  record Running (ds : List DigestRef) (w : Shared) : Type 0 where
    no_error : w.first_err ≡ none
    slots : length w.missing ≡ length ds
    each :
        (j : ℕ)
        → (get_elem? w.missing j ≡ get_elem? (map slot ds) j)
          ⊎ (get_elem? w.missing j ≡ get_elem? (map blank ds) j)

  report-slot :
      (i j : ℕ) (d : DigestRef) (w : Shared)
      → (st.contains s d).1 ≡ none
      → i < length w.missing
      → (get_elem? w.missing i ≡ some (slot d)) ⊎ (get_elem? w.missing i ≡ some none)
      → get_elem? (report st (st.contains s d) i d w).missing j
        ≡ (if i == j then some (slot d) else get_elem? w.missing j)
  unfolding report
  report-slot i j d w a h e = elim (Bool-cases (st.contains s d).0) [
    | inl there ↦ ground (arith, a, there, ==_iff i j)
    | inr gone ↦ ground (arith, a, gone, get_elem?-set w.missing i j d, lt→ltb i (length w.missing))
  ]

  report_Running :
      (i : ℕ) (d : DigestRef) (w : Shared)
      → (st.contains s d).1 ≡ none
      → (length (report st (st.contains s d) i d w).missing ≡ length w.missing)
        × ((report st (st.contains s d) i d w).first_err ≡ w.first_err)
  unfolding report
  report_Running i d w a = elim (Bool-cases (st.contains s d).0) [
    | inl there ↦ ground (arith, a, there)
    | inr gone ↦ ground (arith, a, gone, length-set w.missing i d)
  ]

  -- What one goroutine does to the slots.
  lookup_at-effect :
      (ds : List DigestRef) (w : Shared) (i : ℕ)
      → Answers ds
      → Running ds w
      → (length (lookup_at st s ds w i).missing ≡ length w.missing)
        × ((lookup_at st s ds w i).first_err ≡ w.first_err)
        × ((j : ℕ)
            → get_elem? (lookup_at st s ds w i).missing j
              ≡ (if i == j then get_elem? (map slot ds) j else get_elem? w.missing j))
  unfolding lookup_at
  lookup_at-effect ds w i a r = elim (Option-cases (get_elem? ds i)) [
    | inl out ↦
        rw (out, lookup_at)
          (
            refl,
            refl,
            λ j.
                ground
                  (arith, get_elem?-map slot ds j, get_elem?-map blank ds j, r.each j, ==_iff i j),
          )
    | inr (d, e) ↦
        let none_err = get_elem?-Answers ds i a e in
        let (same, kept) = report_Running i d w none_err in
        let inside : i < length w.missing = omega (arith, get_elem?-lt_length ds i e, r.slots) in
        let before : (get_elem? w.missing i ≡ some (slot d)) ⊎ (get_elem? w.missing i ≡ some none) =
          ground (arith, get_elem?-map slot ds i, get_elem?-map blank ds i, r.each i) in
        rw (e, lookup_at)
          (
            same,
            kept,
            λ j. ground (
              arith,
              report-slot i j d w none_err inside before,
              get_elem?-map slot ds j,
              ==_iff i j,
            ),
          )
  ]

  lookup_at-Running :
      (ds : List DigestRef) (w : Shared) (i : ℕ)
      → Answers ds
      → Running ds w
      → Running ds (lookup_at st s ds w i)
  lookup_at-Running ds w i a r =
      let (same, kept, at) = lookup_at-effect ds w i a r in
      record {
        no_error = kept ∙ r.no_error;
        slots = same ∙ r.slots;
        each = λ j. ground (arith, at j, r.each j);
      }

  -- A slot that is done stays so, and the goroutine of its index makes it so.
  next_done :
      (ds : List DigestRef) (order : List ℕ) (w : Shared) (i j : ℕ)
      → Answers ds
      → Running ds w
      → (get_elem? w.missing j ≡ get_elem? (map slot ds) j) ⊎ Memᴰ j (i ∷ order)
      → (get_elem? (lookup_at st s ds w i).missing j ≡ get_elem? (map slot ds) j) ⊎ Memᴰ j order
  next_done ds order w i j a r (inl e) = inl (ground (arith, (lookup_at-effect ds w i a r).2 j))
  next_done ds order w i j a r (inr (Memᴰ.head e)) =
      inl (ground (arith, (lookup_at-effect ds w i a r).2 j, ==_iff i j))
  next_done ds order w i j a r (inr (Memᴰ.tail m)) = inr m

  -- After the goroutines of an order, each slot of the order is done, and so are those that were.
  run_done :
      (ds : List DigestRef) (order : List ℕ) (w : Shared)
      → Answers ds
      → Running ds w
      → Running ds (foldl (lookup_at st s ds) w order)
        × ((j : ℕ)
            → (get_elem? w.missing j ≡ get_elem? (map slot ds) j) ⊎ Memᴰ j order
            → get_elem? (foldl (lookup_at st s ds) w order).missing j ≡ get_elem? (map slot ds) j)
  run_done ds [] w a r = (r, λ j h. elim h [ inl e ↦ e | inr m ↦ absurd (Memᴰ.not-nil m) ])
  run_done ds (i ∷ order) w a r =
      let (r', done) = run_done ds order (lookup_at st s ds w i) a (lookup_at-Running ds w i a r) in
      (r', λ j h. done j (next_done ds order w i j a r h))

  replicate-blank : (ds : List DigestRef) → replicate (length ds) none ≡ map blank ds
  replicate-blank [] = refl
  replicate-blank (d ∷ ds) = ap (λ t. none ∷ t) (replicate-blank ds)

  start-Running : (ds : List DigestRef) → Running ds (start ds)
  start-Running ds = record {
    no_error = refl;
    slots = rw (replicate-blank ds) (length-map blank ds);
    each = λ j. inr (rw (replicate-blank ds));
  }

  -- At the end all slots are done, whatever the order was.
  run_slots :
      (ds : List DigestRef) (order : List ℕ)
      → Answers ds
      → IsComplete ds order
      → foldl (lookup_at st s ds) (start ds) order
        ≡ record { missing = map slot ds; first_err = none }
  run_slots ds order a all =
      let (r, done) = run_done ds order (start ds) a (start-Running ds) in
      let slots : (foldl (lookup_at st s ds) (start ds) order).missing ≡ map slot ds =
        eq_of_get_elem? _ _ (λ j. done j (reached j)) in
      λ i. record { missing = slots i; first_err = r.no_error i }
    where
      reached :
          (j : ℕ) → (get_elem? (start ds).missing j ≡ get_elem? (map slot ds) j) ⊎ Memᴰ j order
      reached j = elim (Bool-cases (ltb j (length ds))) [
        | inl inside ↦ inr (all j (ltb→lt j (length ds) inside))
        | inr outside ↦ inl (
            ground (
              arith,
              get_elem?-replicate {A = DigestRef} (length ds) j none,
              get_elem?-map slot ds j,
              out_of_range ds j,
            ))
      ]

  -- The digests that the store does not hold, in the order of the request; nil digests are left out.
  abbrev pub absent : List DigestRef → List DigestRef
  absent [] = []
  absent (none ∷ ds) = absent ds
  absent (some d ∷ ds) =
      let rest = absent ds in if is_some (content st s (some d)) then rest else some d ∷ rest

  contains_content :
      (d : DigestRef) → (st.contains s d).1 ≡ none → (st.contains s d).0 ≡ is_some (content st s d)
  contains_content d h =
      let held = st.contains_ok s d (st.contains s d).0 (λ i. ((st.contains s d).0, h i)) in
      ground (arith, held)

  compact_slots : (ds : List DigestRef) → Answers ds → compact (map slot ds) ≡ absent ds
  unfolding compact
  compact_slots [] a = refl
  compact_slots (none ∷ ds) a = ground (arith, compact_slots ds a.1)
  compact_slots (some d ∷ ds) a =
      ground (arith, compact_slots ds a.1, contains_content (some d) a.0)

  -- If the store answers every lookup, then for every order in which the lookups end, each of them
  -- in it, the answer is the digests that the store does not hold, in the order of the request; nil
  -- digests are left out.
  pub find_missing_blobs-absent :
      (ds : List DigestRef) (order : List ℕ)
      → Answers ds
      → IsComplete ds order
      → find_missing_blobs st s ds order ≡ ok (absent ds)
  unfolding find_missing_blobs
  find_missing_blobs-absent ds order a all =
      rw (run_slots ds order a all) (ap ok (compact_slots ds a))
