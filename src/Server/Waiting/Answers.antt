-- ===== src/Server/Waiting/Answers.antt =====
-- WaitOperation answers once the operation is done, and with the operation that is done.
use aws_build_farm.Prelude.{
  ltb, Bool-cases, ◌≤◌, ◌<◌, ◌≡◌, refl, ◌∙◌, ◌≢◌, ◌⊎◌, inl, inr, true, false, Option, none, some,
  arith,
}
use mathlib.Core.Path.{subst}
use aws_build_farm.Server.Status.{Status}
use aws_build_farm.Server.Operation.{Operation, Update, OpEntry, Choice, proceed, lost, publish}
use aws_build_farm.Server.Operation.Watching.{IsEntry}
use aws_build_farm.Server.Waiting.{
  WaitPosition, looking, blocked, answered, gave_up, operation_of, wait_step,
}

-- Either an update is published, or the call takes a step.
pub data WaitReach : OpEntry → WaitPosition → Type 0 where
  start : (e : OpEntry) → IsEntry e.latest e.done e.changed → WaitReach e looking
  update :
      {e : OpEntry} {p : WaitPosition}
      → WaitReach e p
      → (op : Operation) → WaitReach (publish e op) p
  wait :
      {e : OpEntry} {p : WaitPosition}
      → WaitReach e p
      → (c : Choice) → WaitReach e (wait_step e c p)

-- The answer of a finished operation.
abbrev pub IsAnswered : OpEntry → Option Operation → Type 0
IsAnswered e o =
    (u : Update) × (e.latest ≡ some u) × (o ≡ some u.operation) × (u.operation.done ≡ true)

abbrev IsWaiting : OpEntry → WaitPosition → Type 0
IsWaiting e looking = Unit
IsWaiting e (blocked ch) = (ch ≤ e.changed) × ((ch < e.changed) ⊎ (e.done ≡ false))
IsWaiting e (answered o) = (e.done ≡ true) × IsAnswered e o
IsWaiting e (gave_up s) = Unit

abbrev Valid : OpEntry → WaitPosition → Type 0
Valid e p = IsEntry e.latest e.done e.changed × IsWaiting e p

publish-IsEntry :
    (e : OpEntry) (op : Operation)
    → IsEntry e.latest e.done e.changed
    → IsEntry (publish e op).latest (publish e op).done (publish e op).changed
unfolding publish
publish-IsEntry e op h = elim (Bool-cases e.done) [
  | inl done ↦ (let same : publish e op ≡ e = ground (arith, done) in rw same h)
  | inr open' ↦ ground (arith, open')
]

publish-IsWaiting :
    (e : OpEntry) (op : Operation) (p : WaitPosition) → IsWaiting e p → IsWaiting (publish e op) p
unfolding publish
publish-IsWaiting e op looking h = tt
publish-IsWaiting e op (blocked ch) h = ground arith
publish-IsWaiting e op (answered o) h =
    let same : publish e op ≡ e = ground (arith, h.0) in rw same h
publish-IsWaiting e op (gave_up s) h = tt

finished :
    (e : OpEntry) (latest : Option Update)
    → e.latest ≡ latest
    → e.done ≡ true
    → IsEntry e.latest e.done e.changed
    → IsAnswered e (operation_of latest)
finished e none h done i = absurd (never (rw h at i).1)
  where
    never : e.done ≡ false → ⊥
    never a = ground arith
finished e (some u) h done i = (u, h, refl, (rw h at i).1 ∙ done)

wait_step-IsWaiting :
    (e : OpEntry) (c : Choice) (p : WaitPosition)
    → IsEntry e.latest e.done e.changed
    → IsWaiting e p
    → IsWaiting e (wait_step e c p)
unfolding wait_step
wait_step-IsWaiting e c looking i h = elim (Bool-cases e.done) [
  | inl done ↦
      let same : wait_step e c looking ≡ answered (operation_of e.latest) = ground (arith, done) in
      rw same (done, finished e e.latest refl done i)
  | inr open' ↦
      let same : wait_step e c looking ≡ blocked e.changed = ground (arith, open') in
      rw same (omega arith, inr open')
]
wait_step-IsWaiting e proceed (blocked ch) i h = elim (Bool-cases (ltb ch e.changed)) [
  | inl closed ↦ rw (closed, wait_step) tt
  | inr same ↦ rw (same, wait_step) h
]
wait_step-IsWaiting e (lost s) (blocked ch) i h = tt
wait_step-IsWaiting e c (answered o) i h = h
wait_step-IsWaiting e c (gave_up s) i h = tt

valid : {e : OpEntry} {p : WaitPosition} → WaitReach e p → Valid e p
valid (start e i) = (i, tt)
valid (update {e} {p} r op) =
    (publish-IsEntry e op (valid r).0, publish-IsWaiting e op p (valid r).1)
valid (wait {e} {p} r c) = let (i, h) = valid r in (i, wait_step-IsWaiting e c p i h)

-- WaitOperation, however its steps interleave with the updates: what it has returned is the latest
-- operation of the entry, which is done; and once the operation is done, a call whose context has not
-- ended and does not end has returned after at most two of its own steps.
pub wait_step-answers :
    {e : OpEntry} {p : WaitPosition}
    → WaitReach e p
    → ((o : Option Operation) → p ≡ answered o → IsAnswered e o)
      × (e.done ≡ true
          → ((s : Status) → p ≢ gave_up s)
          → (o : Option Operation) × (wait_step e proceed (wait_step e proceed p) ≡ answered o)
            × IsAnswered e o)
unfolding wait_step
wait_step-answers {e} {p} r =
    let (i, h) = valid r in (λ o q. returned o p q h, λ done safe. ends p done safe i h)
  where
    returned :
        (o : Option Operation) (p : WaitPosition) → p ≡ answered o → IsWaiting e p → IsAnswered e o
    returned o (answered x) q h = let same : x ≡ o = cc in subst (IsAnswered e) same h.1
    returned o looking q h = cc
    returned o (blocked ch) q h = cc
    returned o (gave_up s) q h = cc

    ends :
        (p : WaitPosition)
        → e.done ≡ true
        → ((s : Status) → p ≢ gave_up s)
        → IsEntry e.latest e.done e.changed
        → IsWaiting e p
        → (o : Option Operation) × (wait_step e proceed (wait_step e proceed p) ≡ answered o)
          × IsAnswered e o
    ends looking done safe i h =
        (operation_of e.latest, ground (arith, done), finished e e.latest refl done i)
    ends (blocked ch) done safe i h =
        (operation_of e.latest, ground (arith, done, h), finished e e.latest refl done i)
    ends (answered o) done safe i h = (o, refl, h.1)
    ends (gave_up s) done safe i h = absurd (safe s refl)
