-- ===== src/Casfs/Trees/Restored.antt =====
-- Materialize makes a directory whose message and blobs the store has.
use aws_build_farm.Prelude.{
  All, after, fold_calls, Bytes, ok, ℕ, zero, suc, ◌≡◌, refl, sym, ap, ◌∙◌, Bool, none, some, List,
  [], ◌∷◌,
}
use aws_build_farm.GoText.Path.{path_join}
use aws_build_farm.Digest.{Sha256, DigestRef, from_bytes}
use aws_build_farm.Proto.{FileNode, DirectoryNode, SymlinkNode, Directory, Codec}
use aws_build_farm.Os.{Os}
use aws_build_farm.Cas.Interface.{Store}
use aws_build_farm.Casfs.Capture.{sorted}
use aws_build_farm.Casfs.Materialize.{check_name, named, called, write_node, link_node, materialize}
use aws_build_farm.Casfs.Trees.{
  Entries, end, file, link, dir, HasLevels, IsListed, IsNamed, blob_of, message, blobs, IsEncoded,
  Made, make_files, make_links, make_one, make_directories, make,
}
use aws_build_farm.Casfs.Trees.Order.{sorted-message}
use aws_build_farm.Casfs.Trees.Captured.{All-split, Has, Serves}

module _ (sha : Sha256) (st : Store) (os : Os) (directories : Codec Directory) (c : st.State) where
  write_node-restores :
      (path name b : Bytes) (x : Bool) (s : os.State)
      → check_name name ≡ none
      → st.get c (some (from_bytes sha b)) ≡ ok b
      → write_node st os directories c path
          (record { name = name; digest = some (from_bytes sha b); is_executable = x })
          s
        ≡ called (os.write_file s (path_join (path ∷ name ∷ [])) b x)
  unfolding write_node after
  write_node-restores path name b x s hn hg = rw (hn, hg) refl

  link_node-restores :
      (path name target : Bytes) (s : os.State)
      → check_name name ≡ none
      → link_node st os directories c path (record { name = name; target = target }) s
        ≡ called (os.symlink s target (path_join (path ∷ name ∷ [])))
  unfolding link_node after
  link_node-restores path name target s hn = rw hn refl

  -- The loops of `Materialize` over the three kinds of entries.
  write_all : Bytes → List FileNode → os.State → Made os
  write_all path fs s = fold_calls (λ _ f t. write_node st os directories c path f t) tt fs s

  link_all : Bytes → List SymlinkNode → os.State → Made os
  link_all path ls s = fold_calls (λ _ sl t. link_node st os directories c path sl t) tt ls s

  descend : ℕ → Bytes → List DirectoryNode → os.State → Made os
  descend n path ds s =
      fold_calls
        (λ _ (sub : DirectoryNode) t. after (named (check_name sub.name) t) (λ _ t₁.
          materialize st os directories c n sub.digest (path_join (path ∷ sub.name ∷ [])) t₁))
        tt ds s

  materialize-step :
      (n : ℕ) (root : DigestRef) (path b : Bytes) (d : Directory) (s : os.State)
      → st.get c root ≡ ok b
      → directories.unmarshal b ≡ some d
      → materialize st os directories c (suc n) root path s
        ≡ after (called (os.mkdir_all s path)) (λ _ s₁.
          after
            (write_all path d.files s₁)
            (λ _ s₂. after (link_all path d.symlinks s₂) (λ _ s₃. descend n path d.directories s₃)))
  unfolding materialize write_all link_all descend after
  materialize-step n root path b d s hg hu = rw (hg, hu) refl

  write_all-message :
      (es : Entries) (path : Bytes) (s : os.State)
      → Serves sha st c
      → IsNamed es
      → All (Has sha st c) (blobs sha directories es)
      → write_all path (message sha directories es).files s ≡ make_files os es path s
  unfolding write_all make_files message
  write_all-message end path s serves hn hb = refl
  write_all-message (file name b x es) path s serves (n, hn) (h, hb) =
      rw (write_node-restores path name b x s n (serves _ b h)) (λ i.
        after (called (os.write_file s (path_join (path ∷ name ∷ [])) b x))
          (λ _ s₁. write_all-message es path s₁ serves hn hb i))
  write_all-message (link name target es) path s serves (n, hn) hb =
      write_all-message es path s serves hn hb
  write_all-message (dir name sub es) path s serves (n, hn) hb =
      write_all-message es path s serves hn.1
        (All-split (Has sha st c) (blobs sha directories sub) _ hb).1.1

  link_all-message :
      (es : Entries) (path : Bytes) (s : os.State)
      → IsNamed es
      → link_all path (message sha directories es).symlinks s ≡ make_links os es path s
  unfolding link_all make_links message
  link_all-message end path s hn = refl
  link_all-message (file name b x es) path s (n, hn) = link_all-message es path s hn
  link_all-message (link name target es) path s (n, hn) =
      rw (link_node-restores path name target s n) (λ i.
        after (called (os.symlink s target (path_join (path ∷ name ∷ []))))
          (λ _ s₁. link_all-message es path s₁ hn i))
  link_all-message (dir name sub es) path s (n, hn) = link_all-message es path s hn.1

  -- The store serves what a directory's digest stands for, and what is below it.
  materialize-message :
      (es : Entries) (n : ℕ) (path : Bytes) (s : os.State)
      → Serves sha st c
      → IsNamed es
      → IsListed es
      → directories.marshal (sorted (message sha directories es))
        ≡ some (blob_of directories (message sha directories es))
      → Has sha st c (blob_of directories (message sha directories es))
      → All (Has sha st c) (blobs sha directories es)
      → ((s₁ : os.State)
          → descend n path (message sha directories es).directories s₁
            ≡ make_directories os es path s₁)
      → materialize st os directories c
          (suc n)
          (some (from_bytes sha (blob_of directories (message sha directories es))))
          path
          s
        ≡ make_one os es path (make_directories os es path) s
  materialize-message es n path s serves hn hl he hr hb below =
      materialize-step n _ path _ (message sha directories es) s (serves _ _ hr) (
        directories.round_trip (message sha directories es) _
          (ap directories.marshal (sym (sorted-message sha directories es hl)) ∙ he))
      ∙ (λ i. after (called (os.mkdir_all s path)) (λ _ s₁.
          after (write_all-message es path s₁ serves hn hb i)
            (λ _ s₂. after (link_all-message es path s₂ hn i) (λ _ s₃. below s₃ i))))

  descend-message :
      (es : Entries) (n : ℕ) (path : Bytes) (s : os.State)
      → Serves sha st c
      → HasLevels es n
      → IsNamed es
      → IsListed es
      → IsEncoded sha directories es
      → All (Has sha st c) (blobs sha directories es)
      → descend n path (message sha directories es).directories s ≡ make_directories os es path s
  unfolding descend make_directories message after
  descend-message end n path s serves deep hn hl he hb = refl
  descend-message (file name b x es) n path s serves deep (k, hn) (o, hl) he (h, hb) =
      descend-message es n path s serves deep hn hl he hb
  descend-message (link name target es) n path s serves deep (k, hn) (o, hl) he hb =
      descend-message es n path s serves deep hn hl he hb
  descend-message (dir name sub es) zero path s serves deep hn hl he hb = absurd deep
  descend-message (dir name sub es) (suc n) path s serves (deep', deep) (k, (hn', hn))
        (o, (hl', hl)) (e, (he', he)) hb =
      let full = path_join (path ∷ name ∷ []) in
      let (hs, (hr, hb')) = All-split (Has sha st c) (blobs sha directories sub) _ hb in
      rw
        (
          k,
          materialize-message sub n full s serves hn' hl' e hr hs
              (λ s₁. descend-message sub n full s₁ serves deep' hn' hl' he' hs),
        )
        (λ i.
          after (make_one os sub full (make_directories os sub full) s)
            (λ _ s₁. descend-message es (suc n) path s₁ serves deep hn hl he hb' i))

  pub materialize-restores :
      (es : Entries) (n : ℕ) (path : Bytes) (s : os.State)
      → Serves sha st c
      → HasLevels es n
      → IsNamed es
      → IsListed es
      → directories.marshal (sorted (message sha directories es))
        ≡ some (blob_of directories (message sha directories es))
      → IsEncoded sha directories es
      → Has sha st c (blob_of directories (message sha directories es))
      → All (Has sha st c) (blobs sha directories es)
      → materialize st os directories c
          (suc n)
          (some (from_bytes sha (blob_of directories (message sha directories es))))
          path
          s
        ≡ make os es path s
  unfolding make
  materialize-restores es n path s serves deep hn hl he hes hr hb =
      materialize-message es n path s serves hn hl he hr hb
        (λ s₁. descend-message es n path s₁ serves deep hn hl hes hb)
