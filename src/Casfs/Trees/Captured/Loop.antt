-- ===== src/Casfs/Trees/Captured/Loop.antt =====
-- The body of the loop of buildDirectory for each kind of entry, and the calls of a directory that is built.
use aws_build_farm.Prelude.{
  after, after-ok, fold_calls, Bytes, Result, ok, ℕ, zero, suc, ◌≡◌, refl, sym, ◌∙◌, true, false,
  Option, some, List, [], ◌∷◌,
}
use aws_build_farm.GoText.Path.{path_join}
use aws_build_farm.Digest.{Sha256}
use aws_build_farm.Proto.{Directory, Tree, Codec}
use aws_build_farm.Os.{FileInfo, DirEntry, Os}
use aws_build_farm.Cas.Interface.{Store}
use aws_build_farm.Casfs.Capture.{
  CaptureError, reading, Built, add_symlink, add_file, finish_directory, no_entries, add_directory,
  add_entry, build_directory,
}
use aws_build_farm.Casfs.Trees.Captured.{reading-ok}

module _ (sha : Sha256) (st : Store) (os : Os) (directories : Codec Directory) (trees : Codec Tree)
    (files : os.State) where
  abbrev pub Build : Type 0
  Build = Bytes → st.State → Option (Result CaptureError Built × st.State)

  pub add_entry-file :
      (build : Build) (path : Bytes) (part : Directory × List Directory) (e : DirEntry)
      (info : FileInfo) (c : st.State)
      → e.info ≡ ok info
      → info.is_symlink ≡ false
      → e.is_dir ≡ false
      → add_entry sha st os directories trees files build path part e c
        ≡ add_file sha st os directories trees files
            (path_join (path ∷ e.name ∷ []))
            part
            e.name
            info.is_executable
            c
  unfolding after
  add_entry-file build path part e info c he hs hd = rw (he, hs, hd) refl

  pub add_entry-link :
      (build : Build) (path : Bytes) (part : Directory × List Directory) (e : DirEntry)
      (info : FileInfo) (c : st.State)
      → e.info ≡ ok info
      → info.is_symlink ≡ true
      → add_entry sha st os directories trees files build path part e c
        ≡ add_symlink sha st os directories trees files
            (path_join (path ∷ e.name ∷ []))
            part
            e.name
            c
  unfolding after
  add_entry-link build path part e info c he hs = rw (he, hs) refl

  pub add_entry-dir :
      (build : Build) (path : Bytes) (part : Directory × List Directory) (e : DirEntry)
      (info : FileInfo) (c : st.State)
      → e.info ≡ ok info
      → info.is_symlink ≡ false
      → e.is_dir ≡ true
      → add_entry sha st os directories trees files build path part e c
        ≡ after (build (path_join (path ∷ e.name ∷ [])) c) (λ child c₂.
          some (ok (add_directory sha st os directories trees files part e.name child), c₂))
  unfolding after
  add_entry-dir build path part e info c he hs hd = rw (he, hs, hd) refl

  -- A directory that is built has been read, its entries have been gone through, and its message is stored.
  pub build_directory-split :
      (n : ℕ) (path : Bytes) (c c₁ : st.State) (built : Built) (listing : List DirEntry)
      → os.read_dir files path ≡ ok listing
      → build_directory sha st os directories trees files n path c ≡ some (ok built, c₁)
      → (m : ℕ) × (part : Directory × List Directory) × (c' : st.State) × (fold_calls
            (add_entry sha st os directories trees files
              (build_directory sha st os directories trees files m)
              path)
            (no_entries sha st os directories trees files, [])
            listing
            c
          ≡ some (ok part, c'))
        × (finish_directory sha st os directories trees files part c' ≡ some (ok built, c₁))
  unfolding build_directory
  build_directory-split zero path c c₁ built listing read h = absurd (cc)
  build_directory-split (suc m) path c c₁ built listing read h =
      let (entries, s, er, h₁) = after-ok (reading (os.read_dir files path) c) _ built c₁ h in
      let (q, w) = reading-ok (os.read_dir files path) c s entries er in
      let (part, c', ef, h₂) = after-ok _ _ built c₁ h₁ in
      let same : entries ≡ listing = cc in
      (
        m,
        part,
        c',
        (λ i.
              fold_calls
                (add_entry sha st os directories trees files
                  (build_directory sha st os directories trees files m) path)
                (no_entries sha st os directories trees files, []) (sym same i) (w i))
            ∙ ef,
        h₂,
      )
