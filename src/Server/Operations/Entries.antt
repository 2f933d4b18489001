-- ===== src/Server/Operations/Entries.antt =====
-- What the handlers of the Operations service answer, and which entries they touch.
use aws_build_farm.Prelude.{
  Option-cases, length, get_elem?, set, length-append, get_elem?-set, get_elem?-lt_length,
  Result-cases, Bytes, bytes_eq_iff, bytes_eq_refl, ok, err, ℕ, zero, suc, ◌<◌, ◌≡◌, refl, sym, ap,
  ◌∙◌, ◌≢◌, inl, inr, Bool, true, some, List, [], ◌∷◌, ◌++◌, arith,
}
use mathlib.Core.List.{foldl}
use aws_build_farm.Prelude.Dict.{lookup, remove, lookup-insert, lookup-remove}
use aws_build_farm.Proto.{Action, Command, Codec}
use aws_build_farm.Cas.Interface.{Store}
use aws_build_farm.Server.Status.{Code, status, no_operation}
use aws_build_farm.Server.Operation.{Operation, OpEntry, Update, new_entry, publish, completed}
use aws_build_farm.Server.Execution.{Runner, NeverPanics, ExecuteRequest, start_execute, run_action}
use aws_build_farm.Server.Execution.Updates.{run_action-EndsOnce, publish_all, publish_all-done}
use aws_build_farm.Server.Operations.{
  Manager, new_operation, get_operation, delete_operation, publish_at, execute,
}

-- Each name has an entry of its own.
pub record IsManager (m : Manager) : Type 0 where
  pub in_range : (k : Bytes) (i : ℕ) → lookup k m.ops ≡ some i → i < length m.entries
  pub own : (k j : Bytes) (i : ℕ) → lookup k m.ops ≡ some i → lookup j m.ops ≡ some i → k ≡ j

get_elem?-last : (es : List OpEntry) (e : OpEntry) → get_elem? (es ++ e ∷ []) (length es) ≡ some e
get_elem?-last [] e = refl
get_elem?-last (x ∷ es) e = get_elem?-last es e

get_elem?-before :
    (es : List OpEntry) (e : OpEntry) (i : ℕ)
    → i < length es
    → get_elem? (es ++ e ∷ []) i ≡ get_elem? es i
get_elem?-before [] e i h = absurd (omega arith)
get_elem?-before (x ∷ es) e zero h = refl
get_elem?-before (x ∷ es) e (suc i) h = get_elem?-before es e i (omega arith)

-- Two managers whose names and entries agree at a name answer alike there.
get_operation-agree :
    (m m' : Manager) (k : Bytes)
    → lookup k m'.ops ≡ lookup k m.ops
    → ((i : ℕ) → lookup k m.ops ≡ some i → get_elem? m'.entries i ≡ get_elem? m.entries i)
    → get_operation m' k ≡ get_operation m k
unfolding get_operation
get_operation-agree m m' k names entries = elim (Option-cases (lookup k m.ops)) [
  | inl absent ↦ ground (arith, names, absent)
  | inr (i, at) ↦ ground (arith, names, at, entries i at)
]

publish_at-effect :
    (i : ℕ) (m : Manager) (op : Operation) (e : OpEntry)
    → get_elem? m.entries i ≡ some e
    → publish_at i m op ≡ record m { entries = set m.entries i (publish e op) }
unfolding publish_at
publish_at-effect i m op e h = ground (arith, h)

-- The updates of a run reach its entry, in order, and no other.
run_entries :
    (i : ℕ) (m : Manager) (os : List Operation) (e : OpEntry)
    → get_elem? m.entries i ≡ some e
    → let m' = foldl (publish_at i) m os in
      (m'.ops ≡ m.ops)
      × (get_elem? m'.entries i ≡ some (publish_all e os))
      × ((j : ℕ) → i ≢ j → get_elem? m'.entries j ≡ get_elem? m.entries j)
run_entries i m [] e h = (refl, h, λ j d. refl)
run_entries i m (op ∷ os) e h =
    let eq = publish_at-effect i m op e h in
    let at : get_elem? (publish_at i m op).entries i ≡ some (publish e op) = rw eq (
      ground
        (arith, get_elem?-set m.entries i i (publish e op), get_elem?-lt_length m.entries i h)) in
    let (names, own, rest) = run_entries i (publish_at i m op) os (publish e op) at in
    (
      names ∙ ap (λ x. x.ops) eq,
      own,
      λ j d. rest j d ∙ rw eq (ground (arith, get_elem?-set m.entries i j (publish e op))),
    )

-- After a deletion that was answered with OK the name is not found, every other name is answered as
-- before, and the entries are all still there for the streams that watch them.
pub delete_operation-get :
    (m : Manager) (name : Bytes)
    → (delete_operation m name).0 ≡ ok tt
    → let m' = (delete_operation m name).1 in
      (get_operation m' name ≡ err (status Code.not_found (no_operation name)))
      × ((other : Bytes) → other ≢ name → get_operation m' other ≡ get_operation m other)
      × (m'.entries ≡ m.entries)
unfolding delete_operation
delete_operation-get m name h = elim (Option-cases (lookup name m.ops)) [
  | inl absent ↦ ground (arith, absent)
  | inr (i, at) ↦
      let same : (delete_operation m name).1 ≡ record m { ops = remove name m.ops } =
        ground (arith, at) in
      rw same (
        unfold get_operation in ground (arith, lookup-remove name name m.ops, bytes_eq_refl name),
        λ other d.
            get_operation-agree m (record m { ops = remove name m.ops }) other
              (ground (arith, lookup-remove name other m.ops, bytes_eq_iff name other))
              (λ j k. refl),
        refl,
      )
]

-- The reference that `New` gives is of a new entry, under the name, and every other name is as before.
new_operation-IsManager :
    (m : Manager) (name : Bytes) → IsManager m → IsManager (new_operation name m).1
unfolding new_operation
new_operation-IsManager m name v = record {
  in_range = λ k i h. ground (
    arith,
    lookup-insert name k (length m.entries) m.ops,
    h,
    v.in_range k i,
    length-append m.entries (new_entry ∷ []),
  );
  own = λ k j i hk hj. ground (
    arith,
    lookup-insert name k (length m.entries) m.ops,
    lookup-insert name j (length m.entries) m.ops,
    hk,
    hj,
    v.in_range k i,
    v.in_range j i,
    bytes_eq_iff name k,
    bytes_eq_iff name j,
    v.own k j i,
  );
}

new_operation-get :
    (m : Manager) (name other : Bytes)
    → IsManager m
    → other ≢ name
    → get_operation (new_operation name m).1 other ≡ get_operation m other
new_operation-get m name other v d =
    unfold new_operation in
    get_operation-agree m (new_operation name m).1 other
      (ground (arith, lookup-insert name other (length m.entries) m.ops, bytes_eq_iff name other))
      (λ i h. get_elem?-before m.entries new_entry i (v.in_range other i h))

-- A deletion and a cancellation keep the map in order.
delete_operation-IsManager :
    (m : Manager) (name : Bytes) → IsManager m → IsManager (delete_operation m name).1
unfolding delete_operation
delete_operation-IsManager m name v = elim (Option-cases (lookup name m.ops)) [
  | inl absent ↦ rw (absent, delete_operation) v
  | inr (i, at) ↦
      rw (at, delete_operation)
        (record {
          in_range = λ k j h. ground (arith, lookup-remove name k m.ops, h, v.in_range k j);
          own = λ k l j hk hl.
              ground (
                arith,
                lookup-remove name k m.ops,
                lookup-remove name l m.ops,
                hk,
                hl,
                v.own k l j,
              );
        })
]

found_name :
    (m : Manager) (k : Bytes) (i : ℕ) (u : Update) (e : OpEntry)
    → lookup k m.ops ≡ some i
    → get_elem? m.entries i ≡ some e
    → e.latest ≡ some u
    → get_operation m k ≡ ok u.operation
unfolding get_operation
found_name m k i u e h at latest = ground (arith, h, at, latest)

module _ (st : Store) (codec : Codec Action) (commands : Codec Command) (runner : Runner st)
    (steady : NeverPanics st runner) where
  execute-made :
      (enabled : Bool) (name : Bytes) (s : st.State) (m : Manager) (req : ExecuteRequest)
      (action : Action) (i : ℕ)
      → (execute st codec enabled name s m req).0 ≡ ok (action, i)
      → (i ≡ length m.entries)
        × ((execute st codec enabled name s m req).1 ≡ (new_operation name m).1)
  unfolding execute new_operation
  execute-made enabled name s m req action i h =
      elim (Result-cases (start_execute st codec enabled s req)) [
        | inl (a, started) ↦ ground (arith, started)
        | inr (inl (e, failed)) ↦ ground (arith, failed)
        | inr (inr crash) ↦ ground (arith, crash)
      ]

  -- With a runner that does not panic: an execution that is accepted, in a manager in which each name has an entry of its own, keeps that; and when
  -- its run has published its operations, in whatever store it ran, GetOperation of its name answers an
  -- operation that is done, at the stage COMPLETED, and of every other name what it answered before.
  pub execute-get_operation :
      (enabled : Bool) (name : Bytes) (s t : st.State) (m : Manager) (req : ExecuteRequest)
      (action : Action) (i : ℕ)
      → IsManager m
      → (execute st codec enabled name s m req).0 ≡ ok (action, i)
      → let m' = (execute st codec enabled name s m req).1 in
        let run =
          run_action st commands runner name req.action_digest t req.skip_cache_lookup action in
        let m'' = foldl (publish_at i) m' run.0 in
        (IsManager m')
        × ((op : Operation) × (get_operation m'' name ≡ ok op)
            × (op.done ≡ true)
            × (op.stage ≡ completed))
        × ((other : Bytes) → other ≢ name → get_operation m'' other ≡ get_operation m other)
  execute-get_operation enabled name s t m req action i v h =
      let (new, made) = execute-made enabled name s m req action i h in
      let m' = (new_operation name m).1 in
      let os =
        (run_action st commands runner name req.action_digest t req.skip_cache_lookup action).0 in
      let at : get_elem? m'.entries i ≡ some new_entry =
        rw new (unfold new_operation in get_elem?-last m.entries new_entry) in
      let (names, own, rest) = run_entries i m' os new_entry at in
      let (done, (u, last, fine, stage)) = publish_all-done new_entry os refl (
        run_action-EndsOnce st commands runner steady name req.action_digest t req.skip_cache_lookup
          action) in
      let valid = new_operation-IsManager m name v in
      let under : lookup name m'.ops ≡ some i =
        unfold new_operation in
        ground (arith, lookup-insert name name (length m.entries) m.ops, bytes_eq_refl name, new) in
      rw made (
        valid,
        (
          u.operation,
          found_name (foldl (publish_at i) m' os) name i u (publish_all new_entry os)
              (ap (lookup name) names ∙ under) own last,
          fine,
          stage,
        ),
        λ other d.
            get_operation-agree m' (foldl (publish_at i) m' os) other (ap (lookup other) names)
              (λ j k. rest j (λ same. d (valid.own other name i (k ∙ ap some (sym same)) under)))
            ∙ new_operation-get m name other v d,
      )
