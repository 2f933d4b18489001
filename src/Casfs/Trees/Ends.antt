-- ===== src/Casfs/Trees/Ends.antt =====
-- The recursion of buildDirectory ends where the directories of the file system are not too deep.
use aws_build_farm.Prelude.{
  if◌then◌else◌, All, All-imp, Returns, after-Returns, if-Returns, fold_calls-Returns, Bytes,
  Result, ok, err, panic, ℕ, zero, suc, ◌≡◌, refl, Bool, true, false, Option, none, some, List, [],
  ◌∷◌,
}
use aws_build_farm.GoText.Path.{path_join}
use aws_build_farm.Digest.{Sha256, DigestRef, from_bytes}
use aws_build_farm.Proto.{Directory, Tree, Codec}
use aws_build_farm.Os.{OsError, DirEntry, Os}
use aws_build_farm.Cas.Reader.{StoreError}
use aws_build_farm.Cas.Interface.{Store}
use aws_build_farm.Casfs.Capture.{
  sorted, reading, encoded, stored, upload, add_symlink, add_file, finish_directory, add_entry,
  build_directory, capture_directory,
}
use aws_build_farm.Casfs.Trees.Captured.{reading-ok}
use aws_build_farm.Casfs.Trees.Captured.Loop.{Build}

pub if_cases-Returns :
    {A : Type 0} (b : Bool) (m k : Option A)
    → (b ≡ true → Returns m)
    → (b ≡ false → Returns k)
    → Returns (if b then m else k)
if_cases-Returns true m k h g = h refl
if_cases-Returns false m k h g = g refl

pub reading-Returns : {S A : Type 0} (r : Result OsError A) (s : S) → Returns (reading r s)
unfolding Returns
reading-Returns (ok a) s = (_, refl)
reading-Returns (err e) s = (_, refl)
reading-Returns panic s = (_, refl)

encoded-Returns : {S : Type 0} (b : Option Bytes) (s : S) → Returns (encoded b s)
unfolding Returns
encoded-Returns none s = (_, refl)
encoded-Returns (some b) s = (_, refl)

pub some-Returns : {A : Type 0} (a : A) → Returns (some a)
unfolding Returns
some-Returns a = (a, refl)

module _ (os : Os) (files : os.State) where
  -- Where the host has a directory, it has at most so many levels, as far as they can be listed.
  abbrev pub IsBounded : ℕ → Bytes → Type 0
  IsBounded zero path = ⊥
  IsBounded (suc n) path =
      (listing : List DirEntry)
      → os.read_dir files path ≡ ok listing
      → All (λ e. e.is_dir ≡ true → IsBounded n (path_join (path ∷ e.name ∷ []))) listing

module _ (sha : Sha256) (st : Store) (os : Os) (directories : Codec Directory) (trees : Codec Tree)
    (files : os.State) where
  stored-Returns :
      (r : Option StoreError × st.State) (d : DigestRef)
      → Returns (stored sha st os directories trees files r d)
  unfolding Returns
  stored-Returns (none, c) d = (_, refl)
  stored-Returns (some e, c) d = (_, refl)

  pub upload-Returns :
      (b : Bytes) (c : st.State) → Returns (upload sha st os directories trees files b c)
  unfolding upload
  upload-Returns b c = stored-Returns (st.put c (some (from_bytes sha b)) b) _

  add_file-Returns :
      (full : Bytes) (part : Directory × List Directory) (name : Bytes) (x : Bool) (c : st.State)
      → Returns (add_file sha st os directories trees files full part name x c)
  unfolding add_file
  add_file-Returns full (d, below) name x c =
      after-Returns _ _ (reading-Returns (os.read_file files full) c)
        (λ b c₁ _. after-Returns _ _ (upload-Returns b c₁) (λ d' c₂ _. some-Returns _))

  add_symlink-Returns :
      (full : Bytes) (part : Directory × List Directory) (name : Bytes) (c : st.State)
      → Returns (add_symlink sha st os directories trees files full part name c)
  unfolding add_symlink
  add_symlink-Returns full (d, below) name c =
      after-Returns _ _ (reading-Returns (os.read_link files full) c) (λ t c₁ _. some-Returns _)

  finish_directory-Returns :
      (part : Directory × List Directory) (c : st.State)
      → Returns (finish_directory sha st os directories trees files part c)
  unfolding finish_directory
  finish_directory-Returns (d, below) c =
      after-Returns _ _ (encoded-Returns (directories.marshal (sorted d)) c)
        (λ b c₁ _. after-Returns _ _ (upload-Returns b c₁) (λ d' c₂ _. some-Returns _))

  -- A round of the loop returns, if the directory below that it may have to build is built.
  add_entry-Returns :
      (build : Build sha st os directories trees files) (path : Bytes) (e : DirEntry)
      → (e.is_dir ≡ true → (c : st.State) → Returns (build (path_join (path ∷ e.name ∷ [])) c))
      → (part : Directory × List Directory) (c : st.State)
      → Returns (add_entry sha st os directories trees files build path part e c)
  add_entry-Returns build path e deep part c =
      after-Returns _ _ (reading-Returns e.info c) (λ info c₁ _.
        if-Returns info.is_symlink _ _ (add_symlink-Returns _ part e.name c₁) (
          if_cases-Returns e.is_dir _ _
            (λ is_dir. after-Returns _ _ (deep is_dir c₁) (λ child c₂ _. some-Returns _))
            (λ _. add_file-Returns _ part e.name info.is_executable c₁)))

  build_directory-Returns :
      (n : ℕ) (path : Bytes) (c : st.State)
      → IsBounded os files n path
      → Returns (build_directory sha st os directories trees files n path c)
  unfolding build_directory
  build_directory-Returns zero path c h = absurd h
  build_directory-Returns (suc n) path c h =
      after-Returns _ _ (reading-Returns (os.read_dir files path) c) (λ listing c₁ e.
        after-Returns _ _
          (fold_calls-Returns _ listing
            (All-imp _ _ listing
              (λ entry deep.
                add_entry-Returns (build_directory sha st os directories trees files n) path entry
                  (λ is_dir c₂. build_directory-Returns n _ c₂ (deep is_dir)))
              (h listing (reading-ok (os.read_dir files path) c c₁ listing e).0))
            _ c₁)
          (λ part c₂ _. finish_directory-Returns part c₂))

  -- CaptureDirectory returns, whatever the store and the host answer, where the directories have at most `n`
  -- levels.
  pub capture_directory-Returns :
      (n : ℕ) (output_path path : Bytes) (c : st.State)
      → IsBounded os files n path
      → Returns (capture_directory sha st os directories trees files n output_path path c)
  unfolding capture_directory
  capture_directory-Returns n output_path path c deep =
      after-Returns _ _ (build_directory-Returns n path c deep) (λ built c₁ _.
        after-Returns _ _ (encoded-Returns _ c₁)
          (λ b c₂ _. after-Returns _ _ (upload-Returns b c₂) (λ d c₃ _. some-Returns _)))
