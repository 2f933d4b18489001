-- ===== src/Casfs/Materialize.antt =====
-- internal/casfs/casfs.go: a directory tree of the store is written to the file system. The recursion has
-- fuel, one unit for each level of the tree.
pub mod Inside
pub mod Levels
use aws_build_farm.Prelude.{
  ◌==◌, if◌then◌else◌, after, fold_calls, Bytes, codes, bytes_eq, Result, ok, err, panic, ℕ, zero,
  suc, Bool, false, ◌||◌, Option, none, some, [], ◌∷◌,
}
use aws_build_farm.GoText.Path.{path_join}
use aws_build_farm.Digest.{DigestRef}
use aws_build_farm.Proto.{FileNode, SymlinkNode, Directory, Codec}
use aws_build_farm.Os.{OsError, Os}
use aws_build_farm.Cas.Reader.{StoreError}
use aws_build_farm.Cas.Interface.{Store}

pub data MaterializeError : Type 0 where
  os_failed : OsError → MaterializeError
  not_fetched : DigestRef → StoreError → MaterializeError
  not_decoded : DigestRef → MaterializeError
  invalid_name : Bytes → MaterializeError
  file_not_fetched : Bytes → DigestRef → StoreError → MaterializeError

abbrev pub contains_slash : Bytes → Bool
contains_slash [] = false
contains_slash (c ∷ s) = c == b'/' || contains_slash s

-- `checkName`, where the separator of the system is a slash.
unfoldable pub check_name : Bytes → Option MaterializeError
check_name name =
    if bytes_eq name []
      || bytes_eq name (codes ".")
      || bytes_eq name (codes "..")
      || contains_slash name
    then some (invalid_name name)
    else none

abbrev pub named :
    {S : Type 0} → Option MaterializeError → S → Option (Result MaterializeError (Unit {0}) × S)
named none s = some (ok tt, s)
named (some e) s = some (err e, s)

-- A call of the system, whose error is passed on.
abbrev pub called : {S A : Type 0} → Result OsError A × S → Option (Result MaterializeError A × S)
called (ok a, s) = some (ok a, s)
called (err e, s) = some (err (os_failed e), s)
called (panic, s) = some (panic, s)

abbrev pub fetched :
    {S : Type 0}
    → (StoreError → MaterializeError)
    → Result StoreError Bytes
    → S
    → Option (Result MaterializeError Bytes × S)
fetched wrap (ok b) s = some (ok b, s)
fetched wrap (err e) s = some (err (wrap e), s)
fetched wrap panic s = some (panic, s)

abbrev pub decoded :
    {S : Type 0} → DigestRef → Option Directory → S → Option (Result MaterializeError Directory × S)
decoded root none s = some (err (not_decoded root), s)
decoded root (some d) s = some (ok d, s)

module _ (st : Store) (os : Os) (directories : Codec Directory) (c : st.State) where
  abbrev pub Call : Type 0
  Call = Option (Result MaterializeError (Unit {0}) × os.State)

  -- The loops of `Materialize` over the files and over the symbolic links.
  unfoldable pub write_node : Bytes → FileNode → os.State → Call
  unfolding check_name
  write_node dir f s = after (named (check_name f.name) s) (λ _ s₁.
      after (fetched (file_not_fetched f.name f.digest) (st.get c f.digest) s₁) (λ content s₂.
        called (os.write_file s₂ (path_join (dir ∷ f.name ∷ [])) content f.is_executable)))

  unfoldable pub link_node : Bytes → SymlinkNode → os.State → Call
  unfolding check_name
  link_node dir sl s =
      after (named (check_name sl.name) s)
        (λ _ s₁. called (os.symlink s₁ sl.target (path_join (dir ∷ sl.name ∷ []))))

  -- `Materialize`.
  unfoldable pub materialize : ℕ → DigestRef → Bytes → os.State → Call
  unfolding write_node link_node
  materialize zero root dir s = none
  materialize (suc n) root dir s = after (called (os.mkdir_all s dir)) (λ _ s₁.
      after (fetched (not_fetched root) (st.get c root) s₁) (λ content s₂.
        after (decoded root (directories.unmarshal content) s₂) (λ d s₃.
          after (fold_calls (λ _ f t. write_node dir f t) tt d.files s₃) (λ _ s₄.
            after (fold_calls (λ _ sl t. link_node dir sl t) tt d.symlinks s₄) (λ _ s₅.
              fold_calls
                (λ _ sub t.
                  after (named (check_name sub.name) t)
                    (λ _ t₁. materialize n sub.digest (path_join (dir ∷ sub.name ∷ [])) t₁))
                tt d.directories s₅)))))
