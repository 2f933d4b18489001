-- ===== src/Casfs/Materialize/Inside.antt =====
-- The paths at which a materialized tree is written stand below its directory.
use mathlib.Core.Path.{subst}
use aws_build_farm.Prelude.{
  Option-cases, All, All-append, after, Keeps, none-Keeps, after-Keeps, fold_calls-Keeps, Bytes,
  Result, ok, err, panic, ℕ, zero, suc, ◌≡◌, sym, ap, ◌∙◌, inl, inr, Bool, false, Option, none,
  some, List, [], ◌∷◌, ◌++◌, append_assoc, arith,
}
use aws_build_farm.GoText.Path.{path_join}
use aws_build_farm.GoText.Path.Plain.{IsPlain}
use aws_build_farm.GoText.Path.Absolute.{absolute, path_join-absolute}
use aws_build_farm.GoText.Split.{HasNoSlash}
use aws_build_farm.Digest.{DigestRef}
use aws_build_farm.Proto.{FileNode, SymlinkNode, Directory, Codec}
use aws_build_farm.Os.{OsError, Os}
use aws_build_farm.Cas.Reader.{StoreError}
use aws_build_farm.Cas.Interface.{Store}
use aws_build_farm.Casfs.Materialize.{
  MaterializeError, not_fetched, contains_slash, check_name, named, called, fetched, decoded,
  write_node, link_node, materialize,
}

contains_slash-HasNoSlash : (s : Bytes) → contains_slash s ≡ false → HasNoSlash s
contains_slash-HasNoSlash [] h = tt
contains_slash-HasNoSlash (c ∷ s) h = (ground arith, contains_slash-HasNoSlash s (ground arith))

check_name-IsPlain : (name : Bytes) → check_name name ≡ none → IsPlain name
unfolding check_name
check_name-IsPlain name h = record {
  no_slash = contains_slash-HasNoSlash name (ground (arith, h));
  not_empty = ground (arith, h);
  not_dot = ground (arith, h);
  not_dot_dot = ground (arith, h);
}

named-Keeps :
    {S : Type 0} (I : S → Type 0) (e : Option MaterializeError) (s : S) → I s → Keeps I (named e s)
unfolding Keeps
named-Keeps I none s h = h
named-Keeps I (some e) s h = h

called-Keeps :
    {S A : Type 0} (I : S → Type 0) (r : Result OsError A × S) → I r.1 → Keeps I (called r)
unfolding Keeps
called-Keeps I (ok a, s) h = h
called-Keeps I (err e, s) h = h
called-Keeps I (panic, s) h = h

fetched-Keeps :
    {S : Type 0} (I : S → Type 0) (wrap : StoreError → MaterializeError)
    (r : Result StoreError Bytes) (s : S)
    → I s
    → Keeps I (fetched wrap r s)
unfolding Keeps
fetched-Keeps I wrap (ok b) s h = h
fetched-Keeps I wrap (err e) s h = h
fetched-Keeps I wrap panic s h = h

decoded-Keeps :
    {S : Type 0} (I : S → Type 0) (root : DigestRef) (d : Option Directory) (s : S)
    → I s
    → Keeps I (decoded root d s)
unfolding Keeps
decoded-Keeps I root none s h = h
decoded-Keeps I root (some d) s h = h

named-after-Keeps :
    {S A : Type 0} (I : S → Type 0) (name : Bytes) (s : S)
    (k : Unit {0} → S → Option (Result MaterializeError A × S))
    → I s
    → (IsPlain name → (u : Unit {0}) (s : S) → I s → Keeps I (k u s))
    → Keeps I (after (named (check_name name) s) k)
unfolding Keeps after
named-after-Keeps I name s k h f = elim (Option-cases (check_name name)) [
  | inl fine ↦
      subst (λ e. Keeps I (after (named e s) k)) (sym fine)
        (f (check_name-IsPlain name fine) tt s h)
  | inr (e, bad) ↦ subst (λ e. Keeps I (after (named e s) k)) (sym bad) h
]

module _ (st : Store) (os : Os) (directories : Codec Directory) (c : st.State) (d : Bytes)
    (ds : List Bytes) (plain : All IsPlain (d ∷ ds)) (I : os.State → Type 0)
    (mkdir_keeps : (s : os.State) (ps : List Bytes)
      → All IsPlain ps
      → I s
      → I (os.mkdir_all s (absolute ((d ∷ ds) ++ ps))).1)
    (write_keeps : (s : os.State) (ps : List Bytes) (name content : Bytes) (x : Bool)
      → All IsPlain ps
      → IsPlain name
      → I s
      → I (os.write_file s (absolute ((d ∷ ds) ++ (ps ++ name ∷ []))) content x).1)
    (symlink_keeps : (s : os.State) (ps : List Bytes) (name target : Bytes)
      → All IsPlain ps
      → IsPlain name
      → I s
      → I (os.symlink s target (absolute ((d ∷ ds) ++ (ps ++ name ∷ [])))).1) where
  below :
      (ps : List Bytes) (name : Bytes)
      → All IsPlain ps
      → IsPlain name
      → path_join (absolute ((d ∷ ds) ++ ps) ∷ name ∷ []) ≡ absolute ((d ∷ ds) ++ (ps ++ name ∷ []))
  below ps name h hn =
      path_join-absolute d (ds ++ ps) name (All-append IsPlain (d ∷ ds) ps plain h) hn
      ∙ ap absolute (append_assoc (d ∷ ds) ps (name ∷ []))

  write_node-Keeps :
      (ps : List Bytes)
      → All IsPlain ps
      → (f : FileNode) (s : os.State) → I s
      → Keeps I (write_node st os directories c (absolute ((d ∷ ds) ++ ps)) f s)
  unfolding write_node
  write_node-Keeps ps hps f s h = named-after-Keeps I f.name s _ h (λ hn _ s₁ h₁.
      after-Keeps I (fetched _ (st.get c f.digest) s₁) _
        (fetched-Keeps I _ (st.get c f.digest) s₁ h₁)
        (λ content s₂ h₂. called-Keeps I _ (
          subst (λ p. I (os.write_file s₂ p content f.is_executable).1)
            (sym (below ps f.name hps hn))
            (write_keeps s₂ ps f.name content f.is_executable hps hn h₂))))

  link_node-Keeps :
      (ps : List Bytes)
      → All IsPlain ps
      → (sl : SymlinkNode) (s : os.State) → I s
      → Keeps I (link_node st os directories c (absolute ((d ∷ ds) ++ ps)) sl s)
  unfolding link_node
  link_node-Keeps ps hps sl s h = named-after-Keeps I sl.name s _ h (λ hn _ s₁ h₁.
      called-Keeps I _ (
        subst (λ p. I (os.symlink s₁ sl.target p).1) (sym (below ps sl.name hps hn))
          (symlink_keeps s₁ ps sl.name sl.target hps hn h₁)))

  -- A property of the file system that is kept by making, writing and linking at the directory and at the
  -- paths of ordinary names below it is kept by Materialize there, whatever the store holds and wherever it
  -- fails: the directory is an absolute path of ordinary names, which are not empty, have no slash and are not
  -- dots.
  pub materialize-Keeps :
      (n : ℕ) (ps : List Bytes)
      → All IsPlain ps
      → (root : DigestRef) (s : os.State) → I s
      → Keeps I (materialize st os directories c n root (absolute ((d ∷ ds) ++ ps)) s)
  unfolding materialize
  materialize-Keeps zero ps hps root s h = none-Keeps _ I
  materialize-Keeps (suc n) ps hps root s h =
      after-Keeps I _ _
        (called-Keeps I (os.mkdir_all s (absolute ((d ∷ ds) ++ ps))) (mkdir_keeps s ps hps h))
        (λ _ s₁ h₁.
          after-Keeps I _ _ (fetched-Keeps I (not_fetched root) (st.get c root) s₁ h₁)
            (λ content s₂ h₂.
              after-Keeps I _ _ (decoded-Keeps I root (directories.unmarshal content) s₂ h₂)
                (λ dir s₃ h₃.
                  after-Keeps I _ _
                    (fold_calls-Keeps I _ (λ _ f t ht. write_node-Keeps ps hps f t ht) tt dir.files
                      s₃ h₃)
                    (λ _ s₄ h₄.
                      after-Keeps I _ _
                        (fold_calls-Keeps I _ (λ _ sl t ht. link_node-Keeps ps hps sl t ht) tt
                          dir.symlinks s₄ h₄)
                        (λ _ s₅ h₅.
                          fold_calls-Keeps I _
                            (λ _ sub t ht. named-after-Keeps I sub.name t _ ht (λ hn _ t₁ h₆.
                              subst
                                (λ p. Keeps I (materialize st os directories c n sub.digest p t₁))
                                (sym (below ps sub.name hps hn))
                                (materialize-Keeps n (ps ++ sub.name ∷ [])
                                  (All-append IsPlain ps (sub.name ∷ []) hps (hn, tt)) sub.digest t₁
                                  h₆)))
                            tt dir.directories s₅ h₅)))))
