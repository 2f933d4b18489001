-- ===== src/Casfs/Capture/Intact.antt =====
-- Captured outputs keep the store intact: each blob has the hash under which it is kept.
use aws_build_farm.Prelude.{
  length, Keeps, none-Keeps, some-Keeps, if-Keeps, after-Keeps, fold_calls-Keeps, pos, eq_ℤ_iff,
  Bytes, bytes_eq_refl, Result, ok, err, panic, ℕ, zero, suc, refl, Bool, Option, none, some, List,
  [], ◌∷◌,
}
use aws_build_farm.GoText.Path.{path_join}
use aws_build_farm.Digest.{Sha256, DigestRef, from_bytes}
use aws_build_farm.Digest.Laws.{validate-from_bytes}
use aws_build_farm.Proto.{Directory, Tree, Codec}
use aws_build_farm.Os.{OsError, DirEntry, Os}
use aws_build_farm.Cas.Reader.{StoreError}
use aws_build_farm.Cas.Interface.{Store}
use aws_build_farm.Server.Blobs.Integrity.{IsGenuine, IsIntact, put-IsIntact}
use aws_build_farm.Casfs.Capture.{
  sorted, reading, encoded, stored, upload, capture_file, add_symlink, add_file, finish_directory,
  build_directory, capture_directory,
}

reading-Keeps :
    {S A : Type 0} (I : S → Type 0) (r : Result OsError A) (s : S) → I s → Keeps I (reading r s)
unfolding Keeps
reading-Keeps I (ok a) s h = h
reading-Keeps I (err e) s h = h
reading-Keeps I panic s h = h

encoded-Keeps :
    {S : Type 0} (I : S → Type 0) (b : Option Bytes) (s : S) → I s → Keeps I (encoded b s)
unfolding Keeps
encoded-Keeps I none s h = h
encoded-Keeps I (some b) s h = h

pub from_bytes-IsGenuine : (sha : Sha256) (b : Bytes) → IsGenuine sha (some (from_bytes sha b)) b
unfolding from_bytes
from_bytes-IsGenuine sha b = record {
  valid = validate-from_bytes sha b;
  size = (eq_ℤ_iff (pos (length b)) (pos (length b))).1 refl;
  same_hash = bytes_eq_refl (from_bytes sha b).hash;
}

module _ (sha : Sha256) (st : Store) (os : Os) (directories : Codec Directory) (trees : Codec Tree)
    (files : os.State) where
  stored-Keeps :
      (I : st.State → Type 0) (r : Option StoreError × st.State) (d : DigestRef)
      → I r.1
      → Keeps I (stored sha st os directories trees files r d)
  unfolding Keeps
  stored-Keeps I (none, c) d h = h
  stored-Keeps I (some e, c) d h = h

  upload-IsIntact :
      (b : Bytes) (c : st.State)
      → IsIntact sha st c
      → Keeps (IsIntact sha st) (upload sha st os directories trees files b c)
  unfolding upload
  upload-IsIntact b c h =
      stored-Keeps (IsIntact sha st) (st.put c (some (from_bytes sha b)) b)
        (some (from_bytes sha b))
        (put-IsIntact sha st c (some (from_bytes sha b)) b (from_bytes-IsGenuine sha b) h)

  pub capture_file-IsIntact :
      (path fs_path : Bytes) (executable : Bool) (c : st.State)
      → IsIntact sha st c
      → Keeps
          (IsIntact sha st)
          (capture_file sha st os directories trees files path fs_path executable c)
  unfolding capture_file
  capture_file-IsIntact path fs_path executable c h =
      after-Keeps _ _ _ (reading-Keeps _ (os.read_file files fs_path) c h)
        (λ b c₁ h₁. after-Keeps _ _ _ (upload-IsIntact b c₁ h₁) (λ d c₂ h₂. some-Keeps _ _ c₂ h₂))

  add_symlink-Keeps :
      (I : st.State → Type 0) (full : Bytes) (part : Directory × List Directory) (name : Bytes)
      (c : st.State)
      → I c
      → Keeps I (add_symlink sha st os directories trees files full part name c)
  unfolding add_symlink
  add_symlink-Keeps I full (d, below) name c h =
      after-Keeps I _ _ (reading-Keeps I (os.read_link files full) c h)
        (λ t c₁ h₁. some-Keeps I _ c₁ h₁)

  add_file-IsIntact :
      (full : Bytes) (part : Directory × List Directory) (name : Bytes) (x : Bool) (c : st.State)
      → IsIntact sha st c
      → Keeps (IsIntact sha st) (add_file sha st os directories trees files full part name x c)
  unfolding add_file
  add_file-IsIntact full (d, below) name x c h =
      after-Keeps _ _ _ (reading-Keeps _ (os.read_file files full) c h)
        (λ b c₁ h₁. after-Keeps _ _ _ (upload-IsIntact b c₁ h₁) (λ d c₂ h₂. some-Keeps _ _ c₂ h₂))

  finish_directory-IsIntact :
      (part : Directory × List Directory) (c : st.State)
      → IsIntact sha st c
      → Keeps (IsIntact sha st) (finish_directory sha st os directories trees files part c)
  unfolding finish_directory
  finish_directory-IsIntact (d, below) c h =
      after-Keeps _ _ _ (encoded-Keeps _ (directories.marshal (sorted d)) c h)
        (λ b c₁ h₁. after-Keeps _ _ _ (upload-IsIntact b c₁ h₁) (λ d c₂ h₂. some-Keeps _ _ c₂ h₂))

  pub build_directory-IsIntact :
      (n : ℕ) (path : Bytes) (c : st.State)
      → IsIntact sha st c
      → Keeps (IsIntact sha st) (build_directory sha st os directories trees files n path c)
  unfolding build_directory
  build_directory-IsIntact zero path c h = none-Keeps _ _
  build_directory-IsIntact (suc n) path c h =
      after-Keeps _ _ _ (reading-Keeps _ (os.read_dir files path) c h) (λ entries c₁ h₁.
        after-Keeps _ _ _
          (fold_calls-Keeps _ _
            (λ part (e : DirEntry) c₂ h₂.
              after-Keeps _ _ _ (reading-Keeps _ e.info c₂ h₂) (λ info c₃ h₃.
                if-Keeps _ info.is_symlink _ _
                  (add_symlink-Keeps _ (path_join (path ∷ e.name ∷ [])) part e.name c₃ h₃)
                  (if-Keeps _ e.is_dir _ _
                    (after-Keeps _ _ _
                      (build_directory-IsIntact n (path_join (path ∷ e.name ∷ [])) c₃ h₃)
                      (λ child c₄ h₄. some-Keeps _ _ c₄ h₄))
                    (add_file-IsIntact (path_join (path ∷ e.name ∷ [])) part e.name
                      info.is_executable c₃ h₃))))
            _ entries c₁ h₁)
          (λ part c₅ h₅. finish_directory-IsIntact part c₅ h₅))

  -- Whatever the file system holds, the upload of a directory keeps every blob, under a name of its own, under the hash
  -- that is its own, also where it fails on the way.
  pub capture_directory-IsIntact :
      (fuel : ℕ) (path fs_path : Bytes) (c : st.State)
      → IsIntact sha st c
      → Keeps
          (IsIntact sha st)
          (capture_directory sha st os directories trees files fuel path fs_path c)
  unfolding capture_directory
  capture_directory-IsIntact fuel path fs_path c h =
      after-Keeps _ _ _ (build_directory-IsIntact fuel fs_path c h) (λ built c₁ h₁.
        after-Keeps _ _ _
          (encoded-Keeps _
            (trees.marshal (record { root = built.directory; children = built.descendants })) c₁ h₁)
          (λ b c₂ h₂.
            after-Keeps _ _ _ (upload-IsIntact b c₂ h₂) (λ d c₃ h₃. some-Keeps _ _ c₃ h₃)))
