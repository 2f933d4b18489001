-- ===== src/Casfs/Capture.antt =====
-- internal/casfs/casfs.go: a file or a directory of the file system is uploaded. The recursion has fuel, one
-- unit for each level of the directory.
pub mod Intact
pub mod Complete
use aws_build_farm.Prelude.{
  ltb, ◌==◌, if◌then◌else◌, after, fold_calls, Bytes, Result, ok, err, panic, ℕ, zero, suc, Bool,
  true, false, Option, none, some, List, [], ◌∷◌, ◌++◌,
}
use aws_build_farm.GoText.Path.{path_join}
use aws_build_farm.Digest.{Sha256, DigestRef, from_bytes}
use aws_build_farm.Proto.{
  FileNode, DirectoryNode, SymlinkNode, Directory, Tree, OutputFile, OutputDirectory, Codec,
}
use aws_build_farm.Os.{OsError, DirEntry, Os}
use aws_build_farm.Cas.Reader.{StoreError}
use aws_build_farm.Cas.Interface.{Store}

pub data CaptureError : Type 0 where
  not_read : OsError → CaptureError
  not_stored : StoreError → CaptureError
  not_encoded : CaptureError

-- The order of Go strings.
unfoldable pub bytes_lt : Bytes → Bytes → Bool
bytes_lt [] [] = false
bytes_lt [] (y ∷ ys) = true
bytes_lt (x ∷ xs) [] = false
bytes_lt (x ∷ xs) (y ∷ ys) = if x == y then bytes_lt xs ys else ltb x y

-- `sort.Slice` by the names, which differ in a directory, so that there is one sorted order.
unfoldable pub insert_by_name : {A : Type 0} → (A → Bytes) → A → List A → List A
insert_by_name name x [] = x ∷ []
insert_by_name name x (y ∷ ys) =
    let rest = insert_by_name name x ys in
    if bytes_lt (name y) (name x) then y ∷ rest else x ∷ y ∷ ys

unfoldable pub sort_by_name : {A : Type 0} → (A → Bytes) → List A → List A
unfolding insert_by_name
sort_by_name name [] = []
sort_by_name name (x ∷ xs) = insert_by_name name x (sort_by_name name xs)

unfoldable pub sorted : Directory → Directory
unfolding sort_by_name
sorted d = record {
  files = sort_by_name (λ (f : FileNode). f.name) d.files;
  directories = sort_by_name (λ (sub : DirectoryNode). sub.name) d.directories;
  symlinks = sort_by_name (λ (sl : SymlinkNode). sl.name) d.symlinks;
}

-- A read of the file system, whose error is passed on.
abbrev pub reading : {S A : Type 0} → Result OsError A → S → Option (Result CaptureError A × S)
reading (ok a) s = some (ok a, s)
reading (err e) s = some (err (not_read e), s)
reading panic s = some (panic, s)

abbrev pub encoded : {S : Type 0} → Option Bytes → S → Option (Result CaptureError Bytes × S)
encoded none s = some (err not_encoded, s)
encoded (some b) s = some (ok b, s)

-- What `buildDirectory` gives: the message, its digest, and all directories below it.
pub record Built : Type 0 where
  pub directory : Directory
  pub digest : DigestRef
  pub descendants : List Directory

module _ (sha : Sha256) (st : Store) (os : Os) (directories : Codec Directory) (trees : Codec Tree)
    (files : os.State) where
  abbrev pub stored :
      Option StoreError × st.State → DigestRef → Option (Result CaptureError DigestRef × st.State)
  stored (none, c) d = some (ok d, c)
  stored (some e, c) d = some (err (not_stored e), c)

  -- `digest.FromBytes` and the `Put` of the data under it.
  unfoldable pub upload : Bytes → st.State → Option (Result CaptureError DigestRef × st.State)
  upload content c =
      stored (st.put c (some (from_bytes sha content)) content) (some (from_bytes sha content))

  -- `CaptureFile`.
  unfoldable pub capture_file :
      Bytes → Bytes → Bool → st.State → Option (Result CaptureError OutputFile × st.State)
  unfolding upload
  capture_file output_path fs_path executable c =
      after (reading (os.read_file files fs_path) c) (λ content c₁.
        after (upload content c₁) (λ d c₂.
          some (ok (record { path = output_path; digest = d; is_executable = executable }), c₂)))

  -- The directory and the descendants that the loop of `buildDirectory` has so far.
  abbrev pub Partial : Type 0
  Partial = Directory × List Directory

  -- The cases of the loop's body: a symbolic link, and a file.
  unfoldable pub add_symlink :
      Bytes → Partial → Bytes → st.State → Option (Result CaptureError Partial × st.State)
  add_symlink full (d, below) name c = after (reading (os.read_link files full) c) (λ target c₁.
      some (
        ok (
          record d { symlinks = d.symlinks ++ record { name = name; target = target } ∷ [] },
          below,
        ),
        c₁,
      ))

  unfoldable pub add_file :
      Bytes → Partial → Bytes → Bool → st.State → Option (Result CaptureError Partial × st.State)
  unfolding upload
  add_file full (d, below) name executable c =
      after (reading (os.read_file files full) c) (λ content c₁.
        after (upload content c₁) (λ digest c₂. some (
          ok (
            record d {
              files =
                  d.files
                  ++ record { name = name; digest = digest; is_executable = executable } ∷ [];
            },
            below,
          ),
          c₂,
        )))

  abbrev pub add_directory : Partial → Bytes → Built → Partial
  add_directory (d, below) name child = (
    record d { directories = d.directories ++ record { name = name; digest = child.digest } ∷ [] },
    below ++ child.directory ∷ child.descendants,
  )

  abbrev pub no_entries : Directory
  no_entries = record { files = []; directories = []; symlinks = [] }

  -- The end of `buildDirectory`: the sorted message is uploaded.
  unfoldable pub finish_directory :
      Partial → st.State → Option (Result CaptureError Built × st.State)
  unfolding sorted upload
  finish_directory (d, below) c = after (encoded (directories.marshal (sorted d)) c) (λ b c₁.
      after (upload b c₁) (λ digest c₂.
        some (ok (record { directory = sorted d; digest = digest; descendants = below }), c₂)))

  -- The body of the loop of `buildDirectory`, with the call that builds the directory below.
  abbrev pub add_entry :
      (Bytes → st.State → Option (Result CaptureError Built × st.State))
      → Bytes
      → Partial
      → DirEntry
      → st.State
      → Option (Result CaptureError Partial × st.State)
  add_entry build path part e c =
      let full = path_join (path ∷ e.name ∷ []) in
      after (reading e.info c) (λ info c₁.
        if info.is_symlink
        then add_symlink full part e.name c₁
        else if e.is_dir
        then after (build full c₁) (λ child c₂. some (ok (add_directory part e.name child), c₂))
        else add_file full part e.name info.is_executable c₁)

  -- `buildDirectory`.
  unfoldable pub build_directory :
      ℕ → Bytes → st.State → Option (Result CaptureError Built × st.State)
  unfolding add_symlink add_file finish_directory
  build_directory zero path c = none
  build_directory (suc n) path c = after (reading (os.read_dir files path) c) (λ entries c₁.
      after (fold_calls (add_entry (build_directory n) path) (no_entries, []) entries c₁)
        (λ part c₅. finish_directory part c₅))

  -- `CaptureDirectory`.
  unfoldable pub capture_directory :
      ℕ → Bytes → Bytes → st.State → Option (Result CaptureError OutputDirectory × st.State)
  unfolding build_directory upload
  capture_directory fuel output_path fs_path c = after (build_directory fuel fs_path c) (λ built c₁.
      after
        (encoded (trees.marshal (record { root = built.directory; children = built.descendants }))
          c₁)
        (λ b c₂. after (upload b c₂) (λ d c₃. some (
          ok (record { path = output_path; tree_digest = d; root_directory_digest = built.digest }),
          c₃,
        ))))
