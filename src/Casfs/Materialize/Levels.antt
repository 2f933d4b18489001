-- ===== src/Casfs/Materialize/Levels.antt =====
-- The recursion of Materialize ends on a tree of the store.
use aws_build_farm.Prelude.{
  All, All-imp, Returns, after-Returns, fold_calls-Returns, Bytes, Result, ok, err, panic, ℕ, zero,
  suc, ◌≡◌, refl, Option, none, some, List, [], ◌∷◌,
}
use aws_build_farm.GoText.Path.{path_join}
use aws_build_farm.Digest.{DigestRef}
use aws_build_farm.Proto.{FileNode, DirectoryNode, SymlinkNode, Directory, Codec}
use aws_build_farm.Os.{OsError, Os}
use aws_build_farm.Cas.Reader.{StoreError}
use aws_build_farm.Cas.Interface.{Store}
use aws_build_farm.Casfs.Materialize.{
  MaterializeError, not_fetched, check_name, named, called, fetched, decoded, write_node, link_node,
  materialize,
}

named-Returns : {S : Type 0} (e : Option MaterializeError) (s : S) → Returns (named e s)
unfolding Returns
named-Returns none s = (_, refl)
named-Returns (some e) s = (_, refl)

called-Returns : {S A : Type 0} (r : Result OsError A × S) → Returns (called r)
unfolding Returns
called-Returns (ok a, s) = (_, refl)
called-Returns (err e, s) = (_, refl)
called-Returns (panic, s) = (_, refl)

fetched-Returns :
    {S : Type 0} (wrap : StoreError → MaterializeError) (r : Result StoreError Bytes) (s : S)
    → Returns (fetched wrap r s)
unfolding Returns
fetched-Returns wrap (ok b) s = (_, refl)
fetched-Returns wrap (err e) s = (_, refl)
fetched-Returns wrap panic s = (_, refl)

fetched-ok :
    {S : Type 0} (wrap : StoreError → MaterializeError) (r : Result StoreError Bytes) (s s₁ : S)
    (b : Bytes)
    → fetched wrap r s ≡ some (ok b, s₁)
    → r ≡ ok b
fetched-ok wrap (ok b') s s₁ b h = cc
fetched-ok wrap (err e) s s₁ b h = absurd (cc)
fetched-ok wrap panic s s₁ b h = absurd (cc)

decoded-Returns :
    {S : Type 0} (root : DigestRef) (d : Option Directory) (s : S) → Returns (decoded root d s)
unfolding Returns
decoded-Returns root none s = (_, refl)
decoded-Returns root (some d) s = (_, refl)

decoded-ok :
    {S : Type 0} (root : DigestRef) (o : Option Directory) (s s₁ : S) (d : Directory)
    → decoded root o s ≡ some (ok d, s₁)
    → o ≡ some d
decoded-ok root none s s₁ d h = absurd (cc)
decoded-ok root (some d') s s₁ d h = cc

pub all : {A : Type 0} {P : A → Type 0} (xs : List A) → ((x : A) → P x) → All P xs
all [] f = tt
all (x ∷ xs) f = (f x, all xs f)

module _ (st : Store) (os : Os) (directories : Codec Directory) (c : st.State) where
  -- The tree of the directories below a digest has at most so many levels.
  abbrev pub HasDepth : ℕ → DigestRef → Type 0
  HasDepth zero root = ⊥
  HasDepth (suc n) root =
      (b : Bytes) (d : Directory)
      → st.get c root ≡ ok b
      → directories.unmarshal b ≡ some d
      → All (λ (sub : DirectoryNode). HasDepth n sub.digest) d.directories

  write_node-Returns :
      (dir : Bytes) (f : FileNode) (s : os.State) → Returns (write_node st os directories c dir f s)
  unfolding write_node
  write_node-Returns dir f s = after-Returns _ _ (named-Returns (check_name f.name) s) (λ _ s₁ _.
      after-Returns _ _ (fetched-Returns _ (st.get c f.digest) s₁)
        (λ content s₂ _. called-Returns _))

  link_node-Returns :
      (dir : Bytes) (sl : SymlinkNode) (s : os.State)
      → Returns (link_node st os directories c dir sl s)
  unfolding link_node
  link_node-Returns dir sl s =
      after-Returns _ _ (named-Returns (check_name sl.name) s) (λ _ s₁ _. called-Returns _)

  -- Materialize returns on a tree whose directories are at most `n` levels deep, whatever the file system
  -- answers: it goes down a level for each.
  pub materialize-Returns :
      (n : ℕ) (root : DigestRef) (dir : Bytes) (s : os.State)
      → HasDepth n root
      → Returns (materialize st os directories c n root dir s)
  unfolding materialize
  materialize-Returns zero root dir s h = absurd h
  materialize-Returns (suc n) root dir s h =
      after-Returns _ _ (called-Returns (os.mkdir_all s dir)) (λ _ s₁ _.
        after-Returns _ _ (fetched-Returns (not_fetched root) (st.get c root) s₁) (λ b s₂ got.
          after-Returns _ _ (decoded-Returns root (directories.unmarshal b) s₂) (λ d s₃ made.
            after-Returns _ _
              (fold_calls-Returns _ d.files (all d.files (λ f _ t. write_node-Returns dir f t)) tt
                s₃)
              (λ _ s₄ _.
                after-Returns _ _
                  (fold_calls-Returns _ d.symlinks
                    (all d.symlinks (λ sl _ t. link_node-Returns dir sl t)) tt s₄)
                  (λ _ s₅ _.
                    fold_calls-Returns _ d.directories
                      (All-imp (λ (sub : DirectoryNode). HasDepth n sub.digest) _ d.directories
                        (λ sub deep _ t.
                          after-Returns _ _ (named-Returns (check_name sub.name) t) (λ _ t₁ _.
                            materialize-Returns n sub.digest (path_join (dir ∷ sub.name ∷ [])) t₁
                              deep))
                        (h b d (fetched-ok (not_fetched root) (st.get c root) s₁ s₂ b got)
                          (decoded-ok root (directories.unmarshal b) s₂ s₃ d made)))
                      tt s₅)))))
