-- ===== src/Server/Operation/Waking.antt =====
-- Every stream observes the end of its operation.
use aws_build_farm.Prelude.{
  ltb, lt→ltb, Option-cases, ℕ, zero, suc, ◌≤◌, ◌<◌, ◌≡◌, refl, ap, ◌∙◌, ◌≢◌, inl, inr, true, false,
  Option, none, some, List, [], ◌∷◌, arith,
}
use aws_build_farm.Server.Status.{Status}
use aws_build_farm.Server.Operation.{
  Update, OpEntry, Position, snapshot, sending, waiting, returned, Watcher, proceed, is_news,
  advance, step_from,
}
use aws_build_farm.Server.Operation.Watching.{
  World, Reach, initial, Inv, IsAt, IsEntry, HasSent, bound, IsAscending, Reach-Inv,
}

-- A stream that waits on a channel which is still open has sent the latest update of its entry, and
-- the entry is not done: no wake-up is lost, in any interleaving.
pub waiting_up_to_date :
    {w : World} (ch : ℕ)
    → Reach initial w
    → w.watcher.position ≡ waiting ch
    → ltb ch w.entry.changed ≡ false
    → (w.entry.done ≡ false) × HasSent w.entry.latest w.watcher.last_sent
waiting_up_to_date {w} ch r p still_open = let h = rw p at (Reach-Inv r).at in ground arith

-- A stream that returned without an error has sent the latest update last, and that one is done.
pub returned-done :
    {w : World}
    → Reach initial w
    → w.watcher.position ≡ returned none
    → (u : Update) × (w.entry.latest ≡ some u)
      × (u.operation.done ≡ true)
      × (w.watcher.last_sent ≡ some u.address)
returned-done {w} r p =
    let v = Reach-Inv r in
    let (done, sent) = rw p at v.at in
    elim (Option-cases w.entry.latest) [
      | inl empty ↦ absurd (never (rw empty at v.entry_ok).1 done)
      | inr (u, e) ↦ (u, e, (rw e at v.entry_ok).1 ∙ done, rw e at sent)
    ]
  where
    never : w.entry.done ≡ false → w.entry.done ≡ true → ⊥
    never a b = ground arith

IsAscending-le :
    (lo hi hi' : ℕ) (us : List Update) → IsAscending lo us hi → hi ≤ hi' → IsAscending lo us hi'
IsAscending-le lo hi hi' [] h k = omega arith
IsAscending-le lo hi hi' (u ∷ us) (h, hs) k = (h, IsAscending-le (suc u.address) hi hi' us hs k)

-- A stream sends updates in the order in which they were published, each at most once.
pub sent-IsAscending : {w : World} → Reach initial w → IsAscending 0 w.watcher.sent w.entry.changed
sent-IsAscending {w} r =
    let v = Reach-Inv r in IsAscending-le 0 _ w.entry.changed w.watcher.sent v.ascending v.bounded

-- `n` steps of a stream whose connection lasts.
pub watch_for : ℕ → OpEntry → Watcher → Watcher
watch_for zero e w = w
watch_for (suc n) e w = watch_for n e (advance e proceed w)

abbrev HasEnded : OpEntry → Watcher → Type 0
HasEnded e w = w.position ≡ returned none

stays_returned : (n : ℕ) (e : OpEntry) (w : Watcher) → HasEnded e w → HasEnded e (watch_for n e w)
unfolding watch_for advance
stays_returned zero e w h = h
stays_returned (suc n) e w h =
    stays_returned n e (advance e proceed w) (ap (λ p. (step_from p e proceed w).position) h ∙ h)

news_of_bound : (last : Option ℕ) (a : ℕ) → bound last ≢ suc a → is_news last a ≡ true
news_of_bound last a h = ground arith

-- The steps that a stream needs from each position, once its entry is done.
module _ (e : OpEntry) (done : e.done ≡ true) (i : IsEntry e.latest e.done e.changed) where
  from_sending :
      (w : Watcher) (u : Update) (ch : ℕ)
      → w.position ≡ sending u true ch
      → HasEnded e (advance e proceed w)
  unfolding advance
  from_sending w u ch p = rw p

  from_snapshot :
      (w : Watcher)
      → w.position ≡ snapshot
      → bound w.last_sent ≢ e.changed
      → bound w.last_sent ≤ e.changed
      → (u : Update) × ((advance e proceed w).position ≡ sending u true e.changed)
  unfolding advance
  from_snapshot w p fresh b = elim (Option-cases e.latest) [
    | inl empty ↦ absurd (never (rw empty at i).1)
    | inr (u, h) ↦
        let (above, _) = rw h at i in
        let news = news_of_bound w.last_sent u.address (λ same. fresh (same ∙ above)) in
        (u, ground (arith, p, h, news, done))
  ]
    where
      never : e.done ≡ false → ⊥
      never a = ground arith

  ends_from_snapshot :
      (n : ℕ) (w : Watcher)
      → w.position ≡ snapshot
      → bound w.last_sent ≢ e.changed
      → bound w.last_sent ≤ e.changed
      → HasEnded e (watch_for (suc (suc n)) e w)
  unfolding watch_for
  ends_from_snapshot n w p fresh b =
      let (u, q) = from_snapshot w p fresh b in
      stays_returned n e (advance e proceed (advance e proceed w))
        (from_sending (advance e proceed w) u e.changed q)

  ends_from_waiting :
      (n : ℕ) (w : Watcher) (ch : ℕ)
      → w.position ≡ waiting ch
      → ch < e.changed
      → bound w.last_sent ≤ ch
      → HasEnded e (watch_for (suc (suc (suc n))) e w)
  unfolding watch_for
  ends_from_waiting n w ch p closed b =
      let same : advance e proceed w ≡ record w { position = snapshot } =
        unfold advance in ground (arith, p, lt→ltb ch e.changed closed) in
      rw (same, watch_for)
        (ends_from_snapshot n (record w { position = snapshot }) refl (λ s. omega arith)
          (omega arith))

  after_sending :
      (w : Watcher) (u : Update) (ch : ℕ)
      → w.position ≡ sending u false ch
      → ((advance e proceed w).position ≡ waiting ch)
        × ((advance e proceed w).last_sent ≡ some u.address)
  unfolding advance
  after_sending w u ch p = (rw p, rw p)

  passed :
      (last : Option ℕ) (u : Update) (ch : ℕ) → IsAt e last (sending u false ch) → ch < e.changed
  passed last u ch h = elim h.4 [
    | inl below ↦ below
    | inr latest ↦ ground (arith, rw latest at i, done)
  ]

  ends_from :
      (w : Watcher) (p : Position)
      → w.position ≡ p
      → Inv e w
      → IsAt e w.last_sent p
      → ((s : Status) → p ≢ returned (some s))
      → HasEnded e (watch_for 4 e w)
  unfolding watch_for
  ends_from w snapshot p v h safe =
      ends_from_snapshot 2 w p (λ same. ground (arith, h same, done)) v.bounded
  ends_from w (sending u true ch) p v h safe =
      stays_returned 3 e (advance e proceed w) (from_sending w u ch p)
  ends_from w (sending u false ch) p v h safe =
      let (waits, sent) = after_sending w u ch p in
      ends_from_waiting 0 (advance e proceed w) ch waits (passed w.last_sent u ch h)
        (rw sent (omega arith))
  ends_from w (waiting ch) p v h safe = ends_from_waiting 1 w ch p (ground (arith, done)) h.1
  ends_from w (returned none) p v h safe = stays_returned 4 e w p
  ends_from w (returned (some s)) p v h safe = absurd (safe s refl)

-- Once its operation is done, a stream whose connection has not failed and does not fail returns without an
-- error after at most four of its own steps, wherever it stands.
pub done-returns :
    {w : World}
    → Reach initial w
    → w.entry.done ≡ true
    → ((s : Status) → w.watcher.position ≢ returned (some s))
    → (watch_for 4 w.entry w.watcher).position ≡ returned none
done-returns {w} r done safe =
    let v = Reach-Inv r in
    ends_from w.entry done v.entry_ok w.watcher w.watcher.position refl v v.at safe
