-- ===== src/Casfs/Capture/Complete.antt =====
-- What captured outputs name is in the store: the digests of an OutputFile and of an OutputDirectory.
use aws_build_farm.Prelude.{
  Bool-cases, after, Ensures, after-Ensures, if-Ensures, Ensures-imp, some-Ensures,
  fold_calls-Ensures, Bytes, Result, ok, err, panic, ℕ, zero, suc, ◌≡◌, refl, ap, ◌∙◌, inl, inr,
  Bool, Option, none, some, List, [], ◌∷◌, arith,
}
use aws_build_farm.GoText.Path.{path_join}
use aws_build_farm.Digest.{validate, Sha256, DigestRef, get_hash, is_empty, from_bytes}
use aws_build_farm.Digest.Laws.{validate-from_bytes}
use aws_build_farm.Proto.{Directory, Tree, OutputFile, OutputDirectory, Codec}
use aws_build_farm.Os.{OsError, DirEntry, Os}
use aws_build_farm.Cas.Reader.{StoreError}
use aws_build_farm.Cas.Interface.{validate-IsName, Store}
use aws_build_farm.Server.Blobs.Batch.{content, put-content}
use aws_build_farm.Casfs.Capture.{
  CaptureError, sorted, reading, encoded, stored, Built, upload, capture_file, add_symlink,
  add_file, finish_directory, add_entry, build_directory, capture_directory,
}
use aws_build_farm.Casfs.Capture.Intact.{from_bytes-IsGenuine}

module _ (sha : Sha256) (st : Store) where
  -- The store has a content for the digest, which is the digest of some data.
  abbrev pub Present : st.State → DigestRef → Type 0
  Present c d =
      (b : Bytes) × (d ≡ some (from_bytes sha b)) × ((b' : Bytes) × (content st c d ≡ some b'))

  -- What a state of the store has, a later one has too.
  abbrev pub Later : st.State → st.State → Type 0
  Later c c' = (d : DigestRef) → Present c d → Present c' d

  pub put-Later : (c : st.State) (b : Bytes) → Later c (st.put c (some (from_bytes sha b)) b).1
  put-Later c b d (b₀, same, (b', held)) =
      let name = validate-IsName st (some (from_bytes sha b)) (validate-from_bytes sha b) in
      let name₀ = validate-IsName st d (ap validate same ∙ validate-from_bytes sha b₀) in
      elim (Bool-cases (is_empty d)) [
        | inl e ↦ (b₀, same, ([], ground (arith, e)))
        | inr e ↦ elim (st.put_any c (some (from_bytes sha b)) b (get_hash d) name name₀) [
          | inl old ↦ (b₀, same, (b', ground (arith, e, old, held)))
          | inr (hit, new) ↦ (b₀, same, (b, ground (arith, e, new)))
        ]
      ]

  pub put-Present :
      (c : st.State) (b : Bytes)
      → (st.put c (some (from_bytes sha b)) b).0 ≡ none
      → Present (st.put c (some (from_bytes sha b)) b).1 (some (from_bytes sha b))
  put-Present c b done = (
    b,
    refl,
    (b, put-content sha st c (some (from_bytes sha b)) b (from_bytes-IsGenuine sha b) done),
  )

module _ (sha : Sha256) (st : Store) (os : Os) (directories : Codec Directory) (trees : Codec Tree)
    (files : os.State) where
  -- The digest is in the store, and all that was there before is too.
  Adds : st.State → DigestRef → st.State → Type 0
  Adds c d c' = Later sha st c c' × Present sha st c' d

  stored-Ensures :
      (Q : DigestRef → st.State → Type 0) (r : Option StoreError × st.State) (d : DigestRef)
      → (r.0 ≡ none → Q d r.1)
      → Ensures Q (stored sha st os directories trees files r d)
  unfolding Ensures
  stored-Ensures Q (none, c) d f = f refl
  stored-Ensures Q (some e, c) d f = tt

  upload-Ensures :
      (b : Bytes) (c : st.State) → Ensures (Adds c) (upload sha st os directories trees files b c)
  unfolding upload Adds
  upload-Ensures b c =
      stored-Ensures (Adds c) (st.put c (some (from_bytes sha b)) b) (some (from_bytes sha b))
        (λ done. (put-Later sha st c b, put-Present sha st c b done))

  after_reading :
      {S A B : Type 0} (R : B → S → Type 0) (r : Result OsError A) (s : S)
      (k : A → S → Option (Result CaptureError B × S))
      → ((a : A) → Ensures R (k a s))
      → Ensures R (after (reading r s) k)
  unfolding Ensures after
  after_reading R (ok a) s k f = f a
  after_reading R (err e) s k f = tt
  after_reading R panic s k f = tt

  after_encoded :
      {S B : Type 0} (R : B → S → Type 0) (o : Option Bytes) (s : S)
      (k : Bytes → S → Option (Result CaptureError B × S))
      → ((b : Bytes) → Ensures R (k b s))
      → Ensures R (after (encoded o s) k)
  unfolding Ensures after
  after_encoded R none s k f = tt
  after_encoded R (some b) s k f = f b

  -- An uploaded file is in the store under the digest that its OutputFile names.
  pub capture_file-Ensures :
      (output_path path : Bytes) (executable : Bool) (c : st.State)
      → Ensures
          (λ (f : OutputFile) c'. Later sha st c c' × Present sha st c' f.digest)
          (capture_file sha st os directories trees files output_path path executable c)
  unfolding capture_file Adds
  capture_file-Ensures output_path path executable c =
      after_reading _ (os.read_file files path) c _
        (λ b. after-Ensures (Adds c) _ _ _ (upload-Ensures b c) (λ d c' h. some-Ensures _ _ _ c' h))

  Grown : {A : Type 0} → st.State → A → st.State → Type 0
  Grown c a c' = Later sha st c c'

  add_file-Ensures :
      (full : Bytes) (part : Directory × List Directory) (name : Bytes) (x : Bool) (c : st.State)
      → Ensures (Grown c) (add_file sha st os directories trees files full part name x c)
  unfolding add_file Adds Grown
  add_file-Ensures full (d, below) name x c = after_reading _ (os.read_file files full) c _ (λ b.
      after-Ensures (Adds c) _ _ _ (upload-Ensures b c) (λ d' c' h. some-Ensures _ _ _ c' h.0))

  add_symlink-Ensures :
      (full : Bytes) (part : Directory × List Directory) (name : Bytes) (c : st.State)
      → Ensures (Grown c) (add_symlink sha st os directories trees files full part name c)
  unfolding add_symlink Grown
  add_symlink-Ensures full (d, below) name c =
      after_reading _ (os.read_link files full) c _ (λ t. some-Ensures _ _ _ c (λ q h. h))

  finish_directory-Ensures :
      (part : Directory × List Directory) (c : st.State)
      → Ensures
          (λ (built : Built) c'. Adds c built.digest c')
          (finish_directory sha st os directories trees files part c)
  unfolding finish_directory
  finish_directory-Ensures (d, below) c =
      after_encoded _ (directories.marshal (sorted d)) c _ (λ b.
        after-Ensures (Adds c) _ _ _ (upload-Ensures b c) (λ d' c' h. some-Ensures _ _ _ c' h))

  add_entry-Ensures :
      (build : Bytes → st.State → Option (Result CaptureError Built × st.State))
      → ((full : Bytes) (c : st.State)
          → Ensures (λ (built : Built) c'. Adds c built.digest c') (build full c))
      → (path : Bytes) (part : Directory × List Directory) (e : DirEntry) (c : st.State)
      → Ensures (Grown c) (add_entry sha st os directories trees files build path part e c)
  unfolding Adds Grown
  add_entry-Ensures build built path part e c =
      let full = path_join (path ∷ e.name ∷ []) in
      after_reading _ e.info c _ (λ info.
        if-Ensures _ info.is_symlink _ _ (add_symlink-Ensures full part e.name c) (
          if-Ensures _ e.is_dir _ _
            (after-Ensures _ _ _ _ (built full c) (λ child c' h. some-Ensures _ _ _ c' h.0))
            (add_file-Ensures full part e.name info.is_executable c)))

  build_directory-Ensures :
      (n : ℕ) (path : Bytes) (c : st.State)
      → Ensures
          (λ (built : Built) c'. Adds c built.digest c')
          (build_directory sha st os directories trees files n path c)
  unfolding build_directory Adds Grown Ensures
  build_directory-Ensures zero path c = tt
  build_directory-Ensures (suc n) path c = after_reading _ (os.read_dir files path) c _ (λ entries.
      after-Ensures (Grown c) _ _ _
        (fold_calls-Ensures (Grown c) _
          (λ part e c' h.
            Ensures-imp (Grown c') (Grown c) _ (λ a s g q p. g q (h q p))
              (add_entry-Ensures (build_directory sha st os directories trees files n)
                (λ full c₁. build_directory-Ensures n full c₁) path part e c'))
          _ entries c (λ q h. h))
        (λ part c' h.
          Ensures-imp (λ (built : Built) s. Adds c' built.digest s)
            (λ (built : Built) s. Adds c built.digest s) _
            (λ built s g. ((λ q p. g.0 q (h q p)), g.1)) (finish_directory-Ensures part c')))

  -- An uploaded directory: its Tree message and its root are in the store under the digests that its
  -- OutputDirectory names.
  pub capture_directory-Ensures :
      (fuel : ℕ) (output_path path : Bytes) (c : st.State)
      → Ensures
          (λ (d : OutputDirectory) c'.
            Later sha st c c'
            × Present sha st c' d.tree_digest
            × Present sha st c' d.root_directory_digest)
          (capture_directory sha st os directories trees files fuel output_path path c)
  unfolding capture_directory Adds
  capture_directory-Ensures fuel output_path path c =
      after-Ensures _ _ _ _ (build_directory-Ensures fuel path c) (λ built c₁ h.
        after_encoded _ _ c₁ _ (λ b.
          after-Ensures (Adds c₁) _ _ _ (upload-Ensures b c₁) (λ d c₂ g.
            some-Ensures _ _ _ c₂ ((λ q p. g.0 q (h.0 q p)), g.1, g.0 built.digest h.1))))
