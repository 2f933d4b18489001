-- ===== src/Casfs/Trees/Captured.antt =====
-- What the calls of buildDirectory that succeed put into the store, where no two blobs of a class have one
-- hash: a file, a link and the message of a directory.
pub mod Loop
pub mod Walk
pub mod Whole
use aws_build_farm.Prelude.{
  All, after, after-ok, Bytes, bytes_eq_iff, Result, ok, err, panic, ◌≡◌, sym, ap, ◌∙◌, Bool,
  Option, none, some, List, [], ◌∷◌, ◌++◌, arith,
}
use mathlib.Core.Path.{subst}
use aws_build_farm.Digest.{Sha256, DigestRef, get_hash, from_bytes}
use aws_build_farm.Digest.Laws.{validate-from_bytes}
use aws_build_farm.Proto.{Directory, Tree, Codec}
use aws_build_farm.Os.{OsError, Os}
use aws_build_farm.Cas.Reader.{StoreError}
use aws_build_farm.Cas.Interface.{validate-IsName, Store}
use aws_build_farm.Server.Blobs.Batch.{content, put-content}
use aws_build_farm.Casfs.Capture.{
  sorted, reading, encoded, stored, Built, upload, add_symlink, add_file, finish_directory,
}
use aws_build_farm.Casfs.Capture.Intact.{from_bytes-IsGenuine}
use aws_build_farm.Casfs.Trees.{bytes_of, blob_of, IsFree}

pub All-split : (P : Bytes → Type 0) (xs ys : List Bytes) → All P (xs ++ ys) → All P xs × All P ys
All-split P [] ys h = (tt, h)
All-split P (x ∷ xs) ys (h, hs) = let (hx, hy) = All-split P xs ys hs in ((h, hx), hy)

module _ (sha : Sha256) (st : Store) where
  -- The store holds a blob under its digest.
  abbrev pub Has : st.State → Bytes → Type 0
  Has c b = content st c (some (from_bytes sha b)) ≡ some b

  -- The reads of a state of the store do not fail for what it holds.
  abbrev pub Serves : st.State → Type 0
  Serves c = (d : DigestRef) (b : Bytes) → content st c d ≡ some b → st.get c d ≡ ok b

  -- The blobs of the class that a state holds, another holds too.
  abbrev pub Grows : (Bytes → Type 0) → st.State → st.State → Type 0
  Grows P c c₁ = (b : Bytes) → P b → Has c b → Has c₁ b

  pub Grows-All :
      (P : Bytes → Type 0) (c c₁ : st.State) (bs : List Bytes)
      → Grows P c c₁
      → All P bs
      → All (Has c) bs
      → All (Has c₁) bs
  Grows-All P c c₁ [] g p h = tt
  Grows-All P c c₁ (b ∷ bs) g (p, ps) (h, hs) = (g b p h, Grows-All P c c₁ bs g ps hs)

  put-Grows :
      (P : Bytes → Type 0)
      → IsFree sha P
      → (c : st.State) (b : Bytes) → P b
      → (st.put c (some (from_bytes sha b)) b).0 ≡ none
      → Grows P c (st.put c (some (from_bytes sha b)) b).1
  put-Grows P free c b p stored b' p' held =
      let d = some (from_bytes sha b) in
      let name = validate-IsName st d (validate-from_bytes sha b) in
      let name' = validate-IsName st (some (from_bytes sha b')) (validate-from_bytes sha b') in
      ground (
        arith,
        held,
        st.put_ok c (st.put c d b).1 d b name (λ i. (stored i, (st.put c d b).1))
            (get_hash (some (from_bytes sha b'))) name',
        free b b' p p',
        bytes_eq_iff (from_bytes sha b).hash (from_bytes sha b').hash,
      )

pub reading-ok :
    {S A : Type 0} (r : Result OsError A) (s s₁ : S) (a : A)
    → reading r s ≡ some (ok a, s₁)
    → (r ≡ ok a) × (s ≡ s₁)
reading-ok (ok b) s s₁ a h = (cc, cc)
reading-ok (err e) s s₁ a h = absurd (cc)
reading-ok panic s s₁ a h = absurd (cc)

pub encoded-ok :
    {S : Type 0} (r : Option Bytes) (s s₁ : S) (b : Bytes)
    → encoded r s ≡ some (ok b, s₁)
    → (r ≡ some b) × (s ≡ s₁)
encoded-ok none s s₁ b h = absurd (cc)
encoded-ok (some b') s s₁ b h = (cc, cc)

module _ (sha : Sha256) (st : Store) (os : Os) (directories : Codec Directory) (trees : Codec Tree)
    (files : os.State) (P : Bytes → Type 0) (free : IsFree sha P) where
  stored-ok :
      (r : Option StoreError × st.State) (d d' : DigestRef) (c : st.State)
      → stored sha st os directories trees files r d ≡ some (ok d', c)
      → (r ≡ (none, c)) × (d' ≡ d)
  stored-ok (none, c₁) d d' c h = (cc, cc)
  stored-ok (some e, c₁) d d' c h = absurd (cc)

  -- An upload that succeeds gives the digest of the blob, which the store holds from then on.
  pub upload-ok :
      (b : Bytes) (c c₁ : st.State) (d : DigestRef)
      → P b
      → upload sha st os directories trees files b c ≡ some (ok d, c₁)
      → (d ≡ some (from_bytes sha b)) × Has sha st c₁ b × Grows sha st P c c₁
  unfolding upload
  upload-ok b c c₁ d p h =
      let (e, same) = stored-ok (st.put c (some (from_bytes sha b)) b) _ d c₁ h in
      let left : (st.put c (some (from_bytes sha b)) b).1 ≡ c₁ = ap (λ q. q.1) e in
      (
        same,
        subst (λ q. Has sha st q b) left
            (put-content sha st c _ b (from_bytes-IsGenuine sha b) (ap (λ q. q.0) e)),
        subst (λ q. Grows sha st P c q) left (put-Grows sha st P free c b p (ap (λ q. q.0) e)),
      )

  pub add_file-ok :
      (full : Bytes) (d : Directory) (below : List Directory) (name b : Bytes) (x : Bool)
      (c c₁ : st.State) (part : Directory × List Directory)
      → os.read_file files full ≡ ok b
      → P b
      → add_file sha st os directories trees files full (d, below) name x c ≡ some (ok part, c₁)
      → (part ≡ (
        record d {
          files =
              d.files
              ++ record { name = name; digest = some (from_bytes sha b); is_executable = x } ∷ [];
        },
        below,
      ))
        × Has sha st c₁ b
        × Grows sha st P c c₁
  unfolding add_file after
  add_file-ok full d below name b x c c₁ part read p h =
      let (b', s, er, h₁) = after-ok (reading (os.read_file files full) c) _ part c₁ h in
      let (q, w) = reading-ok (os.read_file files full) c s b' er in
      let (dg, s₁, eu, h₂) =
        after-ok (upload sha st os directories trees files b' s) _ part c₁ h₁ in
      let same : b' ≡ b = cc in
      let (eq, has, grows) =
        upload-ok b c s₁ dg p
          ((λ i. upload sha st os directories trees files (sym same i) (w i)) ∙ eu) in
      let left : s₁ ≡ c₁ = cc in
      (cc, subst (λ q. Has sha st q b) left has, subst (λ q. Grows sha st P c q) left grows)

  pub add_symlink-ok :
      (full : Bytes) (d : Directory) (below : List Directory) (name target : Bytes)
      (c c₁ : st.State) (part : Directory × List Directory)
      → os.read_link files full ≡ ok target
      → add_symlink sha st os directories trees files full (d, below) name c ≡ some (ok part, c₁)
      → (part ≡ (
        record d { symlinks = d.symlinks ++ record { name = name; target = target } ∷ [] },
        below,
      ))
        × Grows sha st P c c₁
  unfolding add_symlink after
  add_symlink-ok full d below name target c c₁ part read h =
      let (t, s, er, h₁) = after-ok (reading (os.read_link files full) c) _ part c₁ h in
      let (q, w) = reading-ok (os.read_link files full) c s t er in
      let same : t ≡ target = cc in
      let left : c ≡ c₁ = cc in (cc, subst (λ x. Grows sha st P c x) left (λ b p held. held))

  -- The message of a directory is in the store under its digest, once the directory is built.
  pub finish_directory-ok :
      (d : Directory) (below : List Directory) (c c₁ : st.State) (built : Built)
      → P (blob_of directories d)
      → finish_directory sha st os directories trees files (d, below) c ≡ some (ok built, c₁)
      → (built ≡ record {
        directory = sorted d;
        digest = some (from_bytes sha (blob_of directories d));
        descendants = below;
      })
        × (directories.marshal (sorted d) ≡ some (blob_of directories d))
        × Has sha st c₁ (blob_of directories d)
        × Grows sha st P c c₁
  unfolding finish_directory after blob_of
  finish_directory-ok d below c c₁ built p h =
      let (b, s, er, h₁) = after-ok (encoded (directories.marshal (sorted d)) c) _ built c₁ h in
      let (q, w) = encoded-ok (directories.marshal (sorted d)) c s b er in
      let (dg, s₁, eu, h₂) =
        after-ok (upload sha st os directories trees files b s) _ built c₁ h₁ in
      let same : b ≡ blob_of directories d = ap bytes_of (sym q) in
      let (eq, has, grows) =
        upload-ok (blob_of directories d) c s₁ dg p
          ((λ i. upload sha st os directories trees files (sym same i) (w i)) ∙ eu) in
      let left : s₁ ≡ c₁ = cc in
      (
        cc,
        cc,
        subst (λ q. Has sha st q (blob_of directories d)) left has,
        subst (λ q. Grows sha st P c q) left grows,
      )
