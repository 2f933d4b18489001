-- ===== src/Casfs/Trees/RoundTrip.antt =====
-- A directory that is captured on one file system and materialized on another: what CaptureDirectory answers,
-- that it returns, and what Materialize makes of it.
use aws_build_farm.Prelude.{
  All, All-imp, after, after-ok, Bytes, ok, ℕ, suc, ◌≡◌, refl, sym, ap, ◌∙◌, some, List, [], ◌∷◌,
}
use mathlib.Core.Path.{subst}
use mathlib.Core.List.{Memᴰ}
use mathlib.Core.List.Memᴰ
use aws_build_farm.Digest.{Sha256, from_bytes}
use aws_build_farm.Proto.{Directory, Tree, OutputDirectory, Codec}
use aws_build_farm.Os.{Os}
use aws_build_farm.Cas.Interface.{Store}
use aws_build_farm.Casfs.Capture.{
  sorted, Built, encoded, upload, build_directory, capture_directory,
}
use aws_build_farm.Casfs.Materialize.{materialize}
use aws_build_farm.Casfs.Trees.{
  Entries, HasLevels, IsListed, IsNamed, Shows, bytes_of, blob_of, message, below, blobs, IsEncoded,
  IsFree, make,
}
use aws_build_farm.Casfs.Trees.Captured.{Has, Grows-All, Serves, encoded-ok, upload-ok}
use aws_build_farm.Casfs.Trees.Captured.Whole.{build_directory-Captured}
use aws_build_farm.Casfs.Trees.Restored.{materialize-restores}

All-at : {A : Type 0} (P : A → Type 0) (x : A) (xs : List A) → All P xs → Memᴰ x xs → P x
All-at P x [] h m = absurd (Memᴰ.not-nil m)
All-at P x (y ∷ ys) (h, hs) (Memᴰ.head e) = subst P (sym e) h
All-at P x (y ∷ ys) (h, hs) (Memᴰ.tail m) = All-at P x ys hs m

All-Mem : {A : Type 0} (xs : List A) → All (λ x. Memᴰ x xs) xs
All-Mem [] = tt
All-Mem (x ∷ xs) = (
  Memᴰ.head refl,
  All-imp (λ y. Memᴰ y xs) (λ y. Memᴰ y (x ∷ xs)) xs (λ y m. Memᴰ.tail m) (All-Mem xs),
)

module _ (sha : Sha256) (directories : Codec Directory) (trees : Codec Tree) where
  -- The message `repb.Tree` of a directory.
  abbrev pub tree_of : Entries → Tree
  tree_of es = record {
    root = sorted (message sha directories es);
    children = below sha directories es;
  }

  abbrev pub tree_blob : Entries → Bytes
  tree_blob es = bytes_of (trees.marshal (tree_of es))

  -- All blobs that stand for a directory: of its files, of its directories, and of the tree.
  abbrev pub all_blobs : Entries → List Bytes
  all_blobs es =
      tree_blob es ∷ blob_of directories (message sha directories es) ∷ blobs sha directories es

module _ (sha : Sha256) where
  -- No two of the blobs have one hash.
  abbrev pub HaveHashes : List Bytes → Type 0
  HaveHashes bs =
      All (λ a. All (λ b. (from_bytes sha a).hash ≡ (from_bytes sha b).hash → a ≡ b) bs) bs

  HaveHashes-IsFree : (bs : List Bytes) → HaveHashes bs → IsFree sha (λ b. Memᴰ b bs)
  HaveHashes-IsFree bs h a b ma mb =
      All-at (λ b. (from_bytes sha a).hash ≡ (from_bytes sha b).hash → a ≡ b) b bs
        (All-at (λ a. All (λ b. (from_bytes sha a).hash ≡ (from_bytes sha b).hash → a ≡ b) bs) a bs
          h ma)
        mb

module _ (sha : Sha256) (st : Store) (os : Os) (directories : Codec Directory) (trees : Codec Tree)
    (files : os.State) where
  -- If CaptureDirectory of a directory of a host succeeds, and no two of the blobs that stand for the directory
  -- have one hash, it answers the output path with the digests of the encodings of the `Tree` message and of the
  -- root message of the directory, and the store then has these, the messages below the root and the data of the
  -- files, each under its digest, whatever it held before.
  pub capture_directory-Captured :
      (es : Entries) (n : ℕ) (output_path path : Bytes) (c c₁ : st.State) (out : OutputDirectory)
      → Shows os files path es
      → HaveHashes sha (all_blobs sha directories trees es)
      → capture_directory sha st os directories trees files n output_path path c ≡ some (ok out, c₁)
      → (out ≡ record {
        path = output_path;
        tree_digest = some (from_bytes sha (tree_blob sha directories trees es));
        root_directory_digest =
            some (from_bytes sha (blob_of directories (message sha directories es)));
      })
        × (trees.unmarshal (tree_blob sha directories trees es)
            ≡ some (tree_of sha directories trees es))
        × (directories.marshal (sorted (message sha directories es))
            ≡ some (blob_of directories (message sha directories es)))
        × IsEncoded sha directories es
        × All (Has sha st c₁) (all_blobs sha directories trees es)
  unfolding capture_directory after
  capture_directory-Captured es n output_path path c c₁ out shown hashes h =
      let bs = all_blobs sha directories trees es in
      let P : Bytes → Type 0 = λ b. Memᴰ b bs in
      let free = HaveHashes-IsFree sha bs hashes in
      let (pt, (pr, ps)) = All-Mem bs in
      let (built, c₂, eb, h₁) =
        after-ok (build_directory sha st os directories trees files n path c) _ out c₁ h in
      let (made, enc, encs, has, all) =
        build_directory-Captured sha st os directories trees files P free es n path c c₂ built shown
          ps pr eb in
      let (b, c₃, ee, h₂) =
        after-ok
          (encoded (trees.marshal (record { root = built.directory; children = built.descendants }))
            c₂)
          _ out c₁ h₁ in
      let (marshalled, same_state) = encoded-ok _ c₂ c₃ b ee in
      let encoding : trees.marshal (tree_of sha directories trees es) ≡ some b =
        ap (λ (q : Built). trees.marshal (record { root = q.directory; children = q.descendants }))
          (sym made)
        ∙ marshalled in
      let same : b ≡ tree_blob sha directories trees es = ap bytes_of (sym encoding) in
      let (dg, c₄, eu, h₃) = after-ok (upload sha st os directories trees files b c₃) _ out c₁ h₂ in
      let (eq, has₁, grows) =
        upload-ok sha st os directories trees files P free (tree_blob sha directories trees es) c₂
          c₄ dg pt
          ((λ i. upload sha st os directories trees files (sym same i) (same_state i)) ∙ eu) in
      let left : c₄ ≡ c₁ = cc in
      let answered : out
          ≡ record { path = output_path; tree_digest = dg; root_directory_digest = built.digest } =
        cc in
      (
        answered ∙ (λ i. record {
          path = output_path;
          tree_digest = eq i;
          root_directory_digest = ap (λ (q : Built). q.digest) made i;
        }),
        trees.round_trip _ _ (encoding ∙ ap (λ q. some q) same),
        enc,
        encs,
        subst (λ q. All (Has sha st q) bs) left
            (
              has₁,
              Grows-All sha st P c₂ c₄
                  (blob_of directories (message sha directories es) ∷ blobs sha directories es)
                  grows (pr, ps) (has, all),
            ),
      )

  -- If CaptureDirectory of a directory of one host succeeds, then Materialize of the root digest, from the store
  -- that it left, on any host and at any path, is the calls that make the directory: its own, its files with their
  -- data and executable bits, its links, and then the directories in it, up to the first call that fails. This is
  -- for a directory that is listed by ascending names, all of them names that checkName takes, with fuel for its
  -- levels, blobs of which no two have one hash, and a store that then answers the reads of what it holds.
  pub capture_directory-materialize :
      (es : Entries) (n m : ℕ) (output_path path : Bytes) (c c₁ : st.State) (out : OutputDirectory)
      (host : Os) (dir : Bytes) (s : host.State)
      → Shows os files path es
      → IsListed es
      → IsNamed es
      → HasLevels es m
      → HaveHashes sha (all_blobs sha directories trees es)
      → capture_directory sha st os directories trees files n output_path path c ≡ some (ok out, c₁)
      → Serves sha st c₁
      → materialize st host directories c₁ (suc m) out.root_directory_digest dir s
        ≡ make host es dir s
  capture_directory-materialize es n m output_path path c c₁ out host dir s shown listed named deep
        hashes h serves =
      let (answer, _, enc, encs, (_, (has, all))) =
        capture_directory-Captured es n output_path path c c₁ out shown hashes h in
      ap
        (λ (q : OutputDirectory).
          materialize st host directories c₁ (suc m) q.root_directory_digest dir s)
        answer
      ∙ materialize-restores sha st host directories c₁ es m dir s serves deep named listed enc encs
          has all
