-- ===== src/Server/Tree/Pages.antt =====
-- GetTree sends the directories of the tree, breadth first, in pages.
use aws_build_farm.Prelude.{
  leb, Bool-cases, length, All, length-append, All-append, Result, ok, ℕ, zero, suc, ◌≤◌, ◌<◌, ◌≡◌,
  refl, sym, ap, ◌∙◌, inl, inr, Option, none, some, List, [], ◌∷◌, ◌++◌, flatten, append-nil,
  append_assoc, arith,
}
use aws_build_farm.Digest.{DigestRef}
use aws_build_farm.Proto.{Directory, Codec}
use aws_build_farm.Cas.Interface.{Store}
use aws_build_farm.Server.Status.{Status, Stream, send, send_ok, IsReliable}
use aws_build_farm.Server.Tree.{
  page_size, sub_digests, flush_full, flush_last, fetch_directory, walk, get_tree,
}

-- A page that is sent: not empty, and not above the size of a page.
abbrev pub IsPage : List Directory → Type 0
IsPage page = (0 < length page) × (length page ≤ page_size)

module _ (st : Store) (codec : Codec Directory) (s : st.State) where
  -- The directories read from a queue, breadth first, if the store holds all of them.
  pub data Visits : List DigestRef → List Directory → Type 0 where
    finished : Visits [] []
    visit :
        {d : DigestRef} {queue : List DigestRef} {dir : Directory} {dirs : List Directory}
        → fetch_directory st codec s d ≡ ok dir
        → Visits (queue ++ sub_digests dir) dirs
        → Visits (d ∷ queue) (dir ∷ dirs)

flatten-snoc :
    (pages : List (List Directory)) (page : List Directory)
    → flatten (pages ++ page ∷ []) ≡ flatten pages ++ page
unfolding flatten
flatten-snoc [] page = append-nil page
flatten-snoc (p ∷ pages) page = cc (flatten-snoc pages page, append_assoc p (flatten pages) page)

-- What was sent and what waits in the page are the directories so far; the pages sent are good.
record Holds (dirs page : List Directory) (stream : Stream (List Directory)) : Type 0 where
  reliable : IsReliable stream
  pages : All IsPage stream.sent
  room : length page < page_size
  same : flatten stream.sent ++ page ≡ dirs

send_page :
    (dirs page : List Directory) (stream : Stream (List Directory))
    → IsReliable stream
    → All IsPage stream.sent
    → IsPage page
    → flatten stream.sent ++ page ≡ dirs
    → ((send stream page).0 ≡ none) × Holds dirs [] (send stream page).1
send_page dirs page stream fine good p same =
    let sent = send_ok stream page (fine (length stream.sent)) in
    (
      ap (λ x. x.0) sent,
      rw (ap (λ x. x.1) sent) (record {
        reliable = fine;
        pages = All-append IsPage stream.sent (page ∷ []) good (p, tt);
        room = omega arith;
        same = append-nil _ ∙ flatten-snoc stream.sent page ∙ same;
      }),
    )

-- A directory more, and the page is sent if it is full.
flush_full-Holds :
    (dirs page : List Directory) (dir : Directory) (stream : Stream (List Directory))
    → Holds dirs page stream
    → let flushed = flush_full (page ++ dir ∷ []) stream in
      (flushed.0 ≡ none) × Holds (dirs ++ dir ∷ []) flushed.1 flushed.2
unfolding flush_full
flush_full-Holds dirs page dir stream h =
    let longer = length-append page (dir ∷ []) in
    let joined : flatten stream.sent ++ (page ++ dir ∷ []) ≡ dirs ++ dir ∷ [] =
      cc (h.same, append_assoc (flatten stream.sent) page (dir ∷ [])) in
    elim (Bool-cases (leb page_size (length (page ++ dir ∷ [])))) [
      | inl full ↦ rw full (
          send_page (dirs ++ dir ∷ []) (page ++ dir ∷ []) stream h.reliable h.pages
            (omega (arith, longer, h.room), omega (arith, longer, h.room)) joined)
      | inr room ↦ rw room (
        refl,
        record {
          reliable = h.reliable;
          pages = h.pages;
          room = ground (arith, room);
          same = joined;
        },
      )
    ]

-- What a client has at the end: a return without an error, and the directories in pages.
abbrev pub IsSent :
    List Directory → Option (Result Status (Unit {0}) × Stream (List Directory)) → Type 0
IsSent dirs outcome =
    (stream : Stream (List Directory)) × (outcome ≡ some (ok tt, stream))
    × All IsPage stream.sent
    × (flatten stream.sent ≡ dirs)

flush_last-IsSent :
    (dirs page : List Directory) (stream : Stream (List Directory))
    → Holds dirs page stream
    → IsSent dirs (some (flush_last page stream))
unfolding flush_last
flush_last-IsSent dirs [] stream h = (stream, refl, h.pages, sym (append-nil _) ∙ h.same)
flush_last-IsSent dirs (dir ∷ page) stream h =
    let (fine, after) =
      send_page dirs (dir ∷ page) stream h.reliable h.pages (omega arith, omega (arith, h.room))
        h.same in
    (
      (send stream (dir ∷ page)).1,
      ground (arith, fine),
      after.pages,
      sym (append-nil _) ∙ after.same,
    )

module _ (st : Store) (codec : Codec Directory) (s : st.State) where
  walk-IsSent :
      (fuel : ℕ) (queue : List DigestRef) (before page dirs : List Directory)
      (stream : Stream (List Directory))
      → Visits st codec s queue dirs
      → length dirs < fuel
      → Holds before page stream
      → IsSent (before ++ dirs) (walk st codec fuel s queue page stream)
  unfolding walk
  walk-IsSent zero queue before page dirs stream v enough h = absurd (omega arith)
  walk-IsSent (suc fuel) [] before page [] stream finished enough h =
      rw append-nil (flush_last-IsSent before page stream h)
  walk-IsSent (suc fuel) [] before page (dir ∷ dirs) stream v enough h = elim v [ ]
  walk-IsSent (suc fuel) (d ∷ queue) before page [] stream v enough h = elim v [ ]
  walk-IsSent (suc fuel) (d ∷ queue) before page (dir ∷ dirs) stream (visit got v) enough h =
      let flushed = flush_full (page ++ dir ∷ []) stream in
      let (fine, after) = flush_full-Holds before page dir stream h in
      let (last, e, good, same) =
        walk-IsSent fuel (queue ++ sub_digests dir) (before ++ dir ∷ []) flushed.1 dirs flushed.2 v
          (omega arith) after in
      (last, rw (got, walk) (rw fine e), good, same ∙ append_assoc before (dir ∷ []) dirs)

  -- If the store holds every directory of the tree, and the tree has fewer directories than there
  -- is fuel, GetTree ends and returns no error to a client that stays connected, and the pages,
  -- none empty and none above the page size, make up the directories of the tree, breadth first,
  -- each as often as the tree names it.
  pub get_tree-IsSent :
      (fuel : ℕ) (root : DigestRef) (dirs : List Directory) (stream : Stream (List Directory))
      → Visits st codec s (root ∷ []) dirs
      → length dirs < fuel
      → IsReliable stream
      → stream.sent ≡ []
      → IsSent dirs (get_tree st codec fuel s root stream)
  unfolding get_tree
  get_tree-IsSent fuel root dirs stream v enough fine fresh =
      walk-IsSent fuel (root ∷ []) [] [] dirs stream v enough (record {
        reliable = fine;
        pages = rw fresh tt;
        room = omega arith;
        same = rw fresh (unfold flatten in refl);
      })
