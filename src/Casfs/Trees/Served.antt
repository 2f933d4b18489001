-- ===== src/Casfs/Trees/Served.antt =====
-- The directories of a captured directory as GetTree serves them: breadth first, where the message Tree has them
-- each before those below it.
use aws_build_farm.Prelude.{
  length, All, length-append, All-append, Bytes, ok, ℕ, zero, suc, ◌+◌, ◌≤◌, ◌<◌, ◌≡◌, refl, sym,
  ap, ◌∙◌, some, List, [], ◌∷◌, ◌++◌, map, append-nil, append_assoc, arith,
}
use mathlib.Core.Path.{subst}
use mathlib.Core.List.{Perm}
use mathlib.Core.List.Perm
use mathlib.Core.List.Permᴰ
use aws_build_farm.Digest.{Sha256, DigestRef, from_bytes}
use aws_build_farm.Proto.{Directory, Tree, OutputDirectory, Codec}
use aws_build_farm.Os.{Os}
use aws_build_farm.Cas.Interface.{Store}
use aws_build_farm.Server.Status.{Stream, IsReliable}
use aws_build_farm.Server.Tree.{sub_digests, fetch_directory, get_tree}
use aws_build_farm.Server.Tree.Pages.{Visits, finished, visit, IsSent, get_tree-IsSent}
use aws_build_farm.Casfs.Capture.{sorted, capture_directory}
use aws_build_farm.Casfs.Trees.{
  Entries, end, file, link, dir, IsListed, Shows, blob_of, message, below, blobs, IsEncoded,
}
use aws_build_farm.Casfs.Trees.Order.{sorted-message}
use aws_build_farm.Casfs.Trees.Captured.{All-split, Has, Serves}
use aws_build_farm.Casfs.Trees.RoundTrip.{
  tree_of, all_blobs, HaveHashes, capture_directory-Captured,
}

subs : Entries → List Entries
subs end = []
subs (file name b x es) = subs es
subs (link name target es) = subs es
subs (dir name sub es) = sub ∷ subs es

map-append : {A B : Type 0} (f : A → B) (xs ys : List A) → map f (xs ++ ys) ≡ map f xs ++ map f ys
map-append f [] ys = refl
map-append f (x ∷ xs) ys = ap (λ t. f x ∷ t) (map-append f xs ys)

fetch_directory-ok :
    (st : Store) (directories : Codec Directory) (c : st.State) (d : DigestRef) (b : Bytes)
    (m : Directory)
    → st.get c d ≡ ok b
    → directories.unmarshal b ≡ some m
    → fetch_directory st directories c d ≡ ok m
unfolding fetch_directory
fetch_directory-ok st directories c d b m got made = ground (arith, got, made)

module _ (sha : Sha256) (directories : Codec Directory) where
  digest_of : Entries → DigestRef
  digest_of es = some (from_bytes sha (blob_of directories (message sha directories es)))

  -- The directories of a queue, each before those below it.
  all_dirs : List Entries → List Directory
  all_dirs [] = []
  all_dirs (e ∷ q) = sorted (message sha directories e) ∷ (below sha directories e ++ all_dirs q)

  below-subs : (e : Entries) → below sha directories e ≡ all_dirs (subs e)
  unfolding below all_dirs subs
  below-subs end = refl
  below-subs (file name b x es) = below-subs es
  below-subs (link name target es) = below-subs es
  below-subs (dir name sub es) =
      ap (λ t. sorted (message sha directories sub) ∷ (below sha directories sub ++ t))
        (below-subs es)

  sub_digests-message :
      (e : Entries) → sub_digests (message sha directories e) ≡ map digest_of (subs e)
  unfolding message subs digest_of
  sub_digests-message end = refl
  sub_digests-message (file name b x es) = sub_digests-message es
  sub_digests-message (link name target es) = sub_digests-message es
  sub_digests-message (dir name sub es) = ap (λ t. digest_of sub ∷ t) (sub_digests-message es)

  all_dirs-append : (q r : List Entries) → all_dirs (q ++ r) ≡ all_dirs q ++ all_dirs r
  unfolding all_dirs
  all_dirs-append [] r = refl
  all_dirs-append (e ∷ q) r =
      ap (λ t. sorted (message sha directories e) ∷ (below sha directories e ++ t))
        (all_dirs-append q r)
      ∙ ap (λ t. sorted (message sha directories e) ∷ t)
          (sym (append_assoc (below sha directories e) (all_dirs q) (all_dirs r)))

  module _ (st : Store) (c : st.State) where
    -- The store has the directory and all below it.
    record IsKept (e : Entries) : Type 0 where
      listed : IsListed e
      has_encoding :
          directories.marshal (sorted (message sha directories e))
          ≡ some (blob_of directories (message sha directories e))
      encodings : IsEncoded sha directories e
      has_root : Has sha st c (blob_of directories (message sha directories e))
      has_blobs : All (Has sha st c) (blobs sha directories e)

    subs-IsKept :
        (e : Entries)
        → IsListed e
        → IsEncoded sha directories e
        → All (Has sha st c) (blobs sha directories e)
        → All IsKept (subs e)
    unfolding subs
    subs-IsKept end l n h = tt
    subs-IsKept (file name b x es) (o, l) n (hb, h) = subs-IsKept es l n h
    subs-IsKept (link name target es) (o, l) n h = subs-IsKept es l n h
    subs-IsKept (dir name sub es) (o, (l', l)) (e, (n', n)) h =
        let (h', (root, rest)) = All-split (Has sha st c) (blobs sha directories sub) _ h in
        (
          record { listed = l'; has_encoding = e; encodings = n'; has_root = root; has_blobs = h' },
          subs-IsKept es l n rest,
        )

    fetch_directory-IsKept :
        (e : Entries)
        → Serves sha st c
        → IsKept e
        → fetch_directory st directories c (digest_of e) ≡ ok (sorted (message sha directories e))
    unfolding digest_of
    fetch_directory-IsKept e serves k =
        fetch_directory-ok st directories c _ _ _ (serves _ _ k.has_root)
          (directories.round_trip _ _ k.has_encoding)

    -- What the loop of GetTree has left after a turn.
    next_queue :
        (e : Entries) (q : List Entries)
        → IsListed e
        → map digest_of (q ++ subs e)
          ≡ map digest_of q ++ sub_digests (sorted (message sha directories e))
    next_queue e q l =
        map-append digest_of q (subs e)
        ∙ ap (λ t. map digest_of q ++ t)
            (sym (sub_digests-message e)
              ∙ ap sub_digests (sym (sorted-message sha directories e l)))

    all_dirs-next :
        (e : Entries) (q : List Entries)
        → Perm (all_dirs (q ++ subs e)) (below sha directories e ++ all_dirs q)
    all_dirs-next e q =
        subst (λ t. Perm t (below sha directories e ++ all_dirs q))
          (sym (all_dirs-append q (subs e) ∙ ap (λ t. all_dirs q ++ t) (sym (below-subs e))))
          ∣ Permᴰ.append_comm (all_dirs q) (below sha directories e) ∣₁

    visits :
        (n : ℕ) (q : List Entries)
        → length (all_dirs q) ≤ n
        → Serves sha st c
        → All IsKept q
        → (dirs : List Directory) × Visits st directories c (map digest_of q) dirs
          × Perm dirs (all_dirs q)
          × (length dirs ≡ length (all_dirs q))
    unfolding all_dirs
    visits n [] room serves h = ([], finished, Perm.rfl, refl)
    visits zero (e ∷ q) room serves h = absurd (omega arith)
    visits (suc n) (e ∷ q) room serves (k, h) =
        let moved = all_dirs-next e q in
        let smaller : length (all_dirs (q ++ subs e))
            ≡ length (below sha directories e ++ all_dirs q) =
          omega (
            arith,
            ap length (all_dirs-append q (subs e)),
            length-append (all_dirs q) (all_dirs (subs e)),
            length-append (below sha directories e) (all_dirs q),
            ap length (below-subs e),
          ) in
        let (dirs, v, p, same) =
          visits n (q ++ subs e) (omega (arith, smaller)) serves
            (All-append IsKept q (subs e) h (subs-IsKept e k.listed k.encodings k.has_blobs)) in
        (
          sorted (message sha directories e) ∷ dirs,
          visit (fetch_directory-IsKept e serves k)
              (subst (λ t. Visits st directories c t dirs) (next_queue e q k.listed) v),
          Perm.cons (sorted (message sha directories e)) (Perm.trans p moved),
          ap suc (same ∙ smaller),
        )

module _ (sha : Sha256) (st : Store) (os : Os) (directories : Codec Directory) (trees : Codec Tree)
    (files : os.State) where
  -- GetTree of the root digest of a captured directory, whose file system listed every directory by ascending
  -- names and whose blobs have different hashes, ends and returns no error to a client that stays connected, if the
  -- reads of the store do not fail and there is fuel for its directories; the pages that it sends make up the
  -- directories of the uploaded Tree message, each as often as there, in another order.
  pub capture_directory-get_tree :
      (es : Entries) (n : ℕ) (output_path path : Bytes) (c c₁ : st.State) (out : OutputDirectory)
      (fuel : ℕ) (stream : Stream (List Directory))
      → Shows os files path es
      → IsListed es
      → HaveHashes sha (all_blobs sha directories trees es)
      → capture_directory sha st os directories trees files n output_path path c ≡ some (ok out, c₁)
      → Serves sha st c₁
      → length (below sha directories es) + 1 < fuel
      → IsReliable stream
      → stream.sent ≡ []
      → (dirs : List Directory) × Perm dirs
          ((tree_of sha directories trees es).root ∷ (tree_of sha directories trees es).children)
        × IsSent dirs (get_tree st directories fuel c₁ out.root_directory_digest stream)
  unfolding all_dirs digest_of
  capture_directory-get_tree es n output_path path c c₁ out fuel stream shown listed hashes h serves
        enough reliable fresh =
      let (answer, _, enc, encs, (_, (has, all))) =
        capture_directory-Captured sha st os directories trees files es n output_path path c c₁ out
          shown hashes h in
      let kept : IsKept sha directories st c₁ es = record {
        listed = listed;
        has_encoding = enc;
        encodings = encs;
        has_root = has;
        has_blobs = all;
      } in
      let one = ap length (append-nil (below sha directories es)) in
      let (dirs, v, p, same) =
        visits sha directories st c₁ (length (below sha directories es) + 1) (es ∷ [])
          (omega (arith, one)) serves (kept, tt) in
      (
        dirs,
        subst (λ t. Perm dirs (sorted (message sha directories es) ∷ t))
            (append-nil (below sha directories es)) p,
        subst
            (λ (q : OutputDirectory).
              IsSent dirs (get_tree st directories fuel c₁ q.root_directory_digest stream))
            (sym answer)
            (get_tree-IsSent st directories c₁ fuel (digest_of sha directories es) dirs stream v
              (omega (arith, same, one, enough)) reliable fresh),
      )
