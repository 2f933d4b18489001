-- ===== src/Server/Operation/Watching.antt =====
-- The interleavings of one stream with the updates of its entry, and what holds in all of them.
use aws_build_farm.Prelude.{
  ltb, if◌then◌else◌, ==_iff, Bool-cases, ℕ, suc, ◌≤◌, ◌<◌, ◌≡◌, refl, ap, ◌∙◌, ◌⊎◌, inl, inr, Bool,
  true, false, Option, none, some, List, [], ◌∷◌, ◌++◌, arith,
}
use aws_build_farm.Server.Operation.{
  Operation, Update, OpEntry, new_entry, publish, Position, snapshot, sending, waiting, returned,
  Watcher, new_watcher, Choice, proceed, lost, is_news, advance, step_from, look,
}

pub record World : Type 0 where
  pub entry : OpEntry
  pub watcher : Watcher

-- Either an update is published, or the stream takes a step. Other streams change nothing.
pub data Step : World → World → Type 0 where
  update : (w : World) (op : Operation) → Step w (record w { entry = publish w.entry op })
  watch : (w : World) (c : Choice) → Step w (record w { watcher = advance w.entry c w.watcher })

pub data Reach (s : World) : World → Type 0 where
  here : Reach s s
  next : {t u : World} → Reach s t → Step t u → Reach s u

abbrev pub initial : World
initial = record { entry = new_entry; watcher = new_watcher }

-- The latest update has the address before the current channel, and says whether the entry is done.
abbrev pub IsEntry : Option Update → Bool → ℕ → Type 0
IsEntry none done changed = (changed ≡ 0) × (done ≡ false)
IsEntry (some u) done changed = (suc u.address ≡ changed) × (u.operation.done ≡ done)

-- The first address that is above what was sent.
abbrev pub bound : Option ℕ → ℕ
bound none = 0
bound (some a) = suc a

-- The latest update is the one that was sent last, or there is none.
abbrev pub HasSent : Option Update → Option ℕ → Type 0
HasSent none last = Unit
HasSent (some u) last = last ≡ some u.address

-- What a position promises. A channel that is still open tells that there is nothing new.
abbrev pub IsAt : OpEntry → Option ℕ → Position → Type 0
IsAt e last snapshot = (bound last ≡ e.changed) → e.done ≡ false
IsAt e last (sending u done ch) =
    (ch ≤ e.changed)
    × (suc u.address ≡ ch)
    × (u.operation.done ≡ done)
    × (bound last ≤ u.address)
    × ((ch < e.changed) ⊎ (e.latest ≡ some u))
    × (done ≡ true → ch ≡ e.changed)
IsAt e last (waiting ch) =
    (ch ≤ e.changed)
    × (bound last ≤ ch)
    × ((ch < e.changed) ⊎ ((e.done ≡ false) × HasSent e.latest last))
IsAt e last (returned none) = (e.done ≡ true) × HasSent e.latest last
IsAt e last (returned (some s)) = Unit

-- Updates whose addresses ascend from `lo`, below `hi`.
abbrev pub IsAscending : ℕ → List Update → ℕ → Type 0
IsAscending lo [] hi = lo ≤ hi
IsAscending lo (u ∷ us) hi = (lo ≤ u.address) × IsAscending (suc u.address) us hi

pub record Inv (e : OpEntry) (w : Watcher) : Type 0 where
  pub entry_ok : IsEntry e.latest e.done e.changed
  pub bounded : bound w.last_sent ≤ e.changed
  pub at : IsAt e w.last_sent w.position
  pub ascending : IsAscending 0 w.sent (bound w.last_sent)

publish-IsAt :
    (e : OpEntry) (op : Operation) (last : Option ℕ) (p : Position)
    → IsEntry e.latest e.done e.changed
    → bound last ≤ e.changed
    → IsAt e last p
    → IsAt (publish e op) last p
unfolding publish
publish-IsAt e op last snapshot i b h = ground arith
publish-IsAt e op last (sending u done ch) i b h = ground arith
publish-IsAt e op last (waiting ch) i b h = ground arith
publish-IsAt e op last (returned none) i b h = ground arith
publish-IsAt e op last (returned (some s)) i b h = tt

publish-Inv : (e : OpEntry) (w : Watcher) (op : Operation) → Inv e w → Inv (publish e op) w
publish-Inv e w op v = record {
  entry_ok = unfold publish in ground arith;
  bounded = unfold publish in ground arith;
  at = publish-IsAt e op w.last_sent w.position v.entry_ok v.bounded v.at;
  ascending = v.ascending;
}

IsAscending-snoc :
    (lo hi : ℕ) (us : List Update) (u : Update)
    → IsAscending lo us hi
    → hi ≤ u.address
    → IsAscending lo (us ++ u ∷ []) (suc u.address)
IsAscending-snoc lo hi [] u h k = (omega arith, omega arith)
IsAscending-snoc lo hi (x ∷ us) u (h, hs) k = (h, IsAscending-snoc (suc x.address) hi us u hs k)

-- The facts about a known latest update.
entry_at :
    (e : OpEntry) (latest : Option Update)
    → e.latest ≡ latest
    → IsEntry e.latest e.done e.changed
    → IsEntry latest e.done e.changed
entry_at e latest h i = rw h at i

move-Inv :
    (e : OpEntry) (w : Watcher) (p : Position)
    → Inv e w
    → IsAt e w.last_sent p
    → Inv e (record w { position = p })
move-Inv e w p v h = record {
  entry_ok = v.entry_ok;
  bounded = v.bounded;
  at = h;
  ascending = v.ascending;
}

sent-IsAt :
    (e : OpEntry) (last : Option ℕ) (u : Update) (done : Bool) (ch : ℕ)
    → IsEntry e.latest e.done e.changed
    → IsAt e last (sending u done ch)
    → IsAt e (some u.address) (if done then returned none else waiting ch)
sent-IsAt e last u true ch i h = ground (arith, h.5 refl)
sent-IsAt e last u false ch i h = ground arith

old_last : (last : Option ℕ) (a : ℕ) → is_news last a ≡ false → last ≡ some a
old_last last a h = ground arith

module _ (e : OpEntry) (last : Option ℕ) (u : Update) (h : e.latest ≡ some u)
    (b : bound last ≤ e.changed) (i : IsEntry (some u) e.done e.changed) where
  news-IsAt : is_news last u.address ≡ true → IsAt e last (sending u e.done e.changed)
  news-IsAt news =
      (omega arith, i.0, i.1, ground (arith, ==_iff (bound last) (suc u.address)), inr h, λ d. refl)

  old-IsAt : is_news last u.address ≡ false → IsAt e last snapshot → IsAt e last (waiting e.changed)
  old-IsAt old s =
      let same : last ≡ some u.address = old_last last u.address old in
      (omega arith, b, inr (s (ap bound same ∙ i.0), rw (h, same)))

look-Inv :
    (e : OpEntry) (w : Watcher) (latest : Option Update)
    → e.latest ≡ latest
    → Inv e w
    → IsAt e w.last_sent snapshot
    → Inv e (look latest e.done e.changed w)
look-Inv e w none h v s =
    move-Inv e w (waiting e.changed) v (ground (arith, entry_at e none h v.entry_ok, h))
look-Inv e w (some u) h v s = elim (Bool-cases (is_news w.last_sent u.address)) [
  | inl news ↦ rw news (
      move-Inv e w (sending u e.done e.changed) v
        (news-IsAt e w.last_sent u h v.bounded (entry_at e (some u) h v.entry_ok) news))
  | inr old ↦ rw old (
      move-Inv e w (waiting e.changed) v
        (old-IsAt e w.last_sent u h v.bounded (entry_at e (some u) h v.entry_ok) old s))
]

step_from-Inv :
    (e : OpEntry) (w : Watcher) (c : Choice) (p : Position)
    → Inv e w
    → IsAt e w.last_sent p
    → Inv e (step_from p e c w)
step_from-Inv e w c snapshot v h = look-Inv e w e.latest refl v h
step_from-Inv e w proceed (sending u done ch) v h = record {
  entry_ok = v.entry_ok;
  bounded = omega arith;
  at = sent-IsAt e w.last_sent u done ch v.entry_ok h;
  ascending = IsAscending-snoc 0 (bound w.last_sent) w.sent u v.ascending h.3;
}
step_from-Inv e w (lost s) (sending u done ch) v h = record {
  entry_ok = v.entry_ok;
  bounded = v.bounded;
  at = tt;
  ascending = v.ascending;
}
step_from-Inv e w proceed (waiting ch) v h = elim (Bool-cases (ltb ch e.changed)) [
  | inl closed ↦ rw closed (move-Inv e w snapshot v (λ same. ground arith))
  | inr open' ↦ rw open' v
]
step_from-Inv e w (lost s) (waiting ch) v h = record {
  entry_ok = v.entry_ok;
  bounded = v.bounded;
  at = tt;
  ascending = v.ascending;
}
step_from-Inv e w c (returned r) v h = v

Step-Inv : {t u : World} → Step t u → Inv t.entry t.watcher → Inv u.entry u.watcher
Step-Inv (update w op) v = publish-Inv w.entry w.watcher op v
Step-Inv (watch w c) v =
    unfold advance in step_from-Inv w.entry w.watcher c w.watcher.position v v.at

initial-Inv : Inv new_entry new_watcher
initial-Inv = ground arith

-- The invariant holds in every interleaving of a stream with the updates of its entry.
pub Reach-Inv : {w : World} → Reach initial w → Inv w.entry w.watcher
Reach-Inv here = initial-Inv
Reach-Inv (next r s) = Step-Inv s (Reach-Inv r)
