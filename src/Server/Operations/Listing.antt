-- ===== src/Server/Operations/Listing.antt =====
-- What ListOperations answers, in whatever order it visits the map.
use aws_build_farm.Prelude.{
  Option-cases, length, get_elem?, All, ok-injective, Bytes, Result, ok, err, panic, ℕ, zero, suc,
  ◌<◌, ◌≡◌, refl, sym, ap, ◌∙◌, ◌↔◌, inl, inr, Option, none, some, List, [], ◌∷◌, map, arith,
}
use mathlib.Core.List.{Memᴰ}
use mathlib.Core.List.Memᴰ
use aws_build_farm.Prelude.Dict.{Dict, lookup}
use aws_build_farm.Server.Status.{Status}
use aws_build_farm.Server.Operation.{Operation, OpEntry, Update}
use aws_build_farm.Server.Operations.{
  Manager, latest_of, get_operation, list_operations, add_latest,
}
use aws_build_farm.Server.Operations.Entries.{IsManager}

-- An order in which `range` visits the map: exactly its pairs.
pub record IsVisit (m : Manager) (order : Dict ℕ) : Type 0 where
  pub only : All (λ p. lookup p.0 m.ops ≡ some p.1) order
  pub visited : (name : Bytes) (i : ℕ) → lookup name m.ops ≡ some i → Memᴰ (name, i) order

-- The values of those that have one.
unfoldable pub values : {E A : Type 0} → List (Result E A) → List A
values [] = []
values (ok a ∷ rs) = a ∷ values rs
values (err e ∷ rs) = values rs
values (panic ∷ rs) = values rs

abbrev pub answers : Manager → Dict ℕ → List (Result Status Operation)
answers m order = map (λ p. get_operation m p.0) order

get_elem?-in_range :
    {A : Type 0} (xs : List A) (i : ℕ) → i < length xs → (x : A) × (get_elem? xs i ≡ some x)
get_elem?-in_range [] i h = absurd (omega arith)
get_elem?-in_range (x ∷ xs) zero h = (x, refl)
get_elem?-in_range (x ∷ xs) (suc i) h = get_elem?-in_range xs i (omega arith)

get_operation-at :
    (m : Manager) (name : Bytes) (i : ℕ) (e : OpEntry)
    → lookup name m.ops ≡ some i
    → get_elem? m.entries i ≡ some e
    → get_operation m name ≡ latest_of name e.latest
unfolding get_operation
get_operation-at m name i e h at = ground (arith, h, at)

list_operations-step :
    (m : Manager) (name : Bytes) (i : ℕ) (order : Dict ℕ) (ops : List Operation) (e : OpEntry)
    → get_elem? m.entries i ≡ some e
    → list_operations m order ≡ ok ops
    → list_operations m ((name, i) ∷ order) ≡ ok (add_latest e.latest ops)
unfolding list_operations
list_operations-step m name i order ops e at h = ground (arith, at, h)

values-latest :
    (name : Bytes) (latest : Option Update) (rs : List (Result Status Operation))
    → add_latest latest (values rs) ≡ values (latest_of name latest ∷ rs)
unfolding values
values-latest name none rs = refl
values-latest name (some u) rs = refl

list_operations-values :
    (m : Manager) (order : Dict ℕ)
    → IsManager m
    → All (λ p. lookup p.0 m.ops ≡ some p.1) order
    → list_operations m order ≡ ok (values (answers m order))
unfolding list_operations values get_operation
list_operations-values m [] v h = refl
list_operations-values m ((name, i) ∷ order) v (h, hs) =
    let (e, at) = get_elem?-in_range m.entries i (v.in_range name i h) in
    list_operations-step m name i order (values (answers m order)) e at
      (list_operations-values m order v hs)
    ∙ ap (λ q. ok q)
        (values-latest name e.latest (answers m order)
          ∙ ap (λ r. values (r ∷ answers m order)) (sym (get_operation-at m name i e h at)))

values-Mem : {E A : Type 0} (a : A) (rs : List (Result E A)) → Memᴰ a (values rs) → Memᴰ (ok a) rs
unfolding values
values-Mem a [] h = absurd (Memᴰ.not-nil h)
values-Mem a (ok b ∷ rs) (Memᴰ.head e) = Memᴰ.head (ap (λ x. ok x) e)
values-Mem a (ok b ∷ rs) (Memᴰ.tail h) = Memᴰ.tail (values-Mem a rs h)
values-Mem a (err e ∷ rs) h = Memᴰ.tail (values-Mem a rs h)
values-Mem a (panic ∷ rs) h = Memᴰ.tail (values-Mem a rs h)

Mem-values : {E A : Type 0} (a : A) (rs : List (Result E A)) → Memᴰ (ok a) rs → Memᴰ a (values rs)
unfolding values
Mem-values a [] h = absurd (Memᴰ.not-nil h)
Mem-values a (ok b ∷ rs) (Memᴰ.head e) = Memᴰ.head (ok-injective e)
Mem-values a (err e ∷ rs) (Memᴰ.head h) = absurd (cc)
Mem-values a (panic ∷ rs) (Memᴰ.head h) = absurd (cc)
Mem-values a (ok b ∷ rs) (Memᴰ.tail h) = Memᴰ.tail (Mem-values a rs h)
Mem-values a (err e ∷ rs) (Memᴰ.tail h) = Mem-values a rs h
Mem-values a (panic ∷ rs) (Memᴰ.tail h) = Mem-values a rs h

answers-Mem :
    (m : Manager) (order : Dict ℕ) (op : Operation)
    → Memᴰ (ok op) (answers m order)
    → (name : Bytes) × (get_operation m name ≡ ok op)
answers-Mem m [] op h = absurd (Memᴰ.not-nil h)
answers-Mem m ((name, i) ∷ order) op (Memᴰ.head e) = (name, sym e)
answers-Mem m ((name, i) ∷ order) op (Memᴰ.tail h) = answers-Mem m order op h

Mem-answers :
    (m : Manager) (order : Dict ℕ) (name : Bytes) (i : ℕ) (op : Operation)
    → Memᴰ (name, i) order
    → get_operation m name ≡ ok op
    → Memᴰ (ok op) (answers m order)
Mem-answers m [] name i op h e = absurd (Memᴰ.not-nil h)
Mem-answers m ((other, j) ∷ order) name i op (Memᴰ.head q) e =
    Memᴰ.head (sym e ∙ ap (λ p. get_operation m p.0) q)
Mem-answers m ((other, j) ∷ order) name i op (Memᴰ.tail h) e =
    Memᴰ.tail (Mem-answers m order name i op h e)

get_operation-name :
    (m : Manager) (name : Bytes) (op : Operation)
    → get_operation m name ≡ ok op
    → (i : ℕ) × (lookup name m.ops ≡ some i)
unfolding get_operation
get_operation-name m name op h = elim (Option-cases (lookup name m.ops)) [
  | inl e ↦ absurd (ground arith)
  | inr (i, e) ↦ (i, e)
]

-- In a manager in which each name has an entry of its own, and in whatever order it visits the map,
-- ListOperations answers what GetOperation answers for each name of the map in that order, leaving out the names
-- for which it has no operation; so it lists exactly the operations that GetOperation answers for some name.
pub list_operations-get_operation :
    (m : Manager) (order : Dict ℕ)
    → IsManager m
    → IsVisit m order
    → (ops : List Operation) × (list_operations m order ≡ ok ops)
      × (ops ≡ values (answers m order))
      × ((op : Operation) → Memᴰ op ops ↔ ((name : Bytes) × (get_operation m name ≡ ok op)))
list_operations-get_operation m order v visit = (
  values (answers m order),
  list_operations-values m order v visit.only,
  refl,
  λ op. (
    (λ h. answers-Mem m order op (values-Mem op (answers m order) h)),
    λ (name, e).
        let (i, found) = get_operation-name m name op e in
        Mem-values op (answers m order)
          (Mem-answers m order name i op (visit.visited name i found) e),
  ),
)
