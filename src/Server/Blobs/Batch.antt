-- ===== src/Server/Blobs/Batch.antt =====
-- What a batch upload that was answered with OK leaves in the store, and what a batch read answers.
use aws_build_farm.Prelude.{
  if◌then◌else◌, Bool-cases, get_elem?, All, pos, eq_ℤ_iff, Bytes, bytes_eq_iff, bytes_eq_refl,
  Result, ok, err, panic, ℕ, zero, suc, ◌≡◌, refl, sym, ap, ◌∙◌, ◌≢◌, ◌⊎◌, inl, inr, true, Option,
  none, some, List, [], ◌∷◌, arith,
}
use mathlib.Core.Path.{subst}
use mathlib.Core.List.{Forall₂}
use mathlib.Core.Option.{some-injective}
use aws_build_farm.Digest.{DigestRef, Sha256, get_hash, get_size_bytes, is_empty, from_bytes}
use aws_build_farm.Cas.Reader.{StoreError}
use aws_build_farm.Cas.Reader
use aws_build_farm.Cas.Interface.{validate-IsName, Store}
use aws_build_farm.Server.Status.{Code, status_ok}
use aws_build_farm.Server.Blobs.{
  UpdateRequest, UpdateResponse, ReadResponse, put_one, put_status, batch_update_blobs,
  batch_read_blobs, read_response,
}
use aws_build_farm.Server.Blobs.Integrity.{IsGenuine, put_one-cases}

module _ (st : Store) where
  -- What the store holds for a digest: the empty blob is always present.
  abbrev pub content : st.State → DigestRef → Option Bytes
  content s d = if is_empty d then some [] else st.blob s (get_hash d)

module _ (sha : Sha256) (st : Store) where
  -- The contents that the digest's hash could stand for, besides `b`: none.
  abbrev pub NoCollision : Bytes → List UpdateRequest → Type 0
  NoCollision b =
      All (λ q. (from_bytes sha q.content).hash ≡ (from_bytes sha b).hash → q.content ≡ b)

  genuine_empty : (d : DigestRef) (b : Bytes) → IsGenuine sha d b → is_empty d ≡ true → b ≡ []
  unfolding is_empty
  genuine_empty d [] g h = refl
  genuine_empty d (x ∷ b) g h = ground (arith, g.size, eq_ℤ_iff (get_size_bytes d) (pos 0))

  pub put-content :
      (s : st.State) (d : DigestRef) (b : Bytes)
      → IsGenuine sha d b
      → (st.put s d b).0 ≡ none
      → content st (st.put s d b).1 d ≡ some b
  put-content s d b g h =
      let name = validate-IsName st d g.valid in
      let kept =
        st.put_ok s (st.put s d b).1 d b name (λ i. (h i, (st.put s d b).1)) (get_hash d) name in
      elim (Bool-cases (is_empty d)) [
        | inl e ↦ rw (e, genuine_empty d b g e)
        | inr e ↦ rw e (ground (arith, kept, bytes_eq_refl (get_hash d)))
      ]

  put_status-ok : (e : Option StoreError) → put_status e ≡ status_ok → e ≡ none
  put_status-ok none h = refl
  put_status-ok (some e) h = cc

  -- An upload that is answered with OK is genuine, and is in the store.
  pub put_one-content :
      (s : st.State) (d : DigestRef) (b : Bytes)
      → (put_one sha st s d b).0 ≡ status_ok
      → IsGenuine sha d b × (content st (put_one sha st s d b).1 d ≡ some b)
  put_one-content s d b h = elim (put_one-cases sha st s d b) [
    | inl (same, code, _) ↦ cc
    | inr (g, e) ↦
        (g, rw e (put-content s d b g (put_status-ok (st.put s d b).0 (sym (ap (λ p. p.0) e) ∙ h))))
  ]

  -- Later uploads do not change what the store holds.
  put_one-keeps :
      (s : st.State) (d d' : DigestRef) (b b' : Bytes)
      → IsGenuine sha d b
      → content st s d ≡ some b
      → ((from_bytes sha b').hash ≡ (from_bytes sha b).hash → b' ≡ b)
      → content st (put_one sha st s d' b').1 d ≡ some b
  put_one-keeps s d d' b b' g h free = elim (put_one-cases sha st s d' b') [
    | inl (same, code, _) ↦ rw same h
    | inr (g', e) ↦ rw e (
        ground (
          arith,
          st.put_any s d' b' (get_hash d) (validate-IsName st d' g'.valid)
              (validate-IsName st d g.valid),
          g.same_hash,
          g'.same_hash,
          bytes_eq_iff (from_bytes sha b).hash (get_hash d),
          bytes_eq_iff (from_bytes sha b').hash (get_hash d'),
          bytes_eq_iff (get_hash d') (get_hash d),
        ))
  ]

  batch_update_blobs-keeps :
      (s : st.State) (rs : List UpdateRequest) (d : DigestRef) (b : Bytes)
      → IsGenuine sha d b
      → content st s d ≡ some b
      → NoCollision b rs
      → content st (batch_update_blobs sha st s rs).1 d ≡ some b
  unfolding batch_update_blobs
  batch_update_blobs-keeps s [] d b g h free = h
  batch_update_blobs-keeps s (r ∷ rs) d b g h (f, free) =
      batch_update_blobs-keeps (put_one sha st s r.digest r.content).1 rs d b g
        (put_one-keeps s d r.digest b r.content g h f) free

  -- Each upload of a batch that is answered with OK is in the store after the whole batch, if no
  -- other content of the batch has its hash.
  pub batch_update_blobs-content :
      (s : st.State) (rs : List UpdateRequest) (i : ℕ) (r : UpdateRequest) (a : UpdateResponse)
      → get_elem? rs i ≡ some r
      → get_elem? (batch_update_blobs sha st s rs).0 i ≡ some a
      → a.status ≡ status_ok
      → NoCollision r.content rs
      → content st (batch_update_blobs sha st s rs).1 r.digest ≡ some r.content
  unfolding batch_update_blobs
  batch_update_blobs-content s [] i r a hr ha h free = cc
  batch_update_blobs-content s (q ∷ rs) zero r a hr ha h (f, free) =
      let answer : (put_one sha st s r.digest r.content).0 ≡ status_ok = cc in
      let (g, held) = put_one-content s r.digest r.content answer in
      subst
        (λ (x : UpdateRequest).
          content st (batch_update_blobs sha st s (x ∷ rs)).1 r.digest ≡ some r.content)
        (sym (some-injective _ _ hr))
        (batch_update_blobs-keeps (put_one sha st s r.digest r.content).1 rs r.digest r.content g
          held free)
  batch_update_blobs-content s (q ∷ rs) (suc i) r a hr ha h (f, free) =
      batch_update_blobs-content (put_one sha st s q.digest q.content).1 rs i r a hr ha h free

read_response-cases :
    (d : DigestRef) (r : Result StoreError Bytes) (a : ReadResponse)
    → read_response d r ≡ ok a
    → (a.digest ≡ d)
      × (((a.status ≡ status_ok) × (r ≡ ok a.content))
          ⊎ ((a.status.code ≡ Code.not_found) × (r ≡ err Reader.not_found))
          ⊎ (a.status.code ≡ Code.internal))
unfolding read_response
read_response-cases d r a h = ground arith

answered :
    (d : DigestRef) (r : Result StoreError Bytes)
    → r ≢ panic
    → (a : ReadResponse) × (read_response d r ≡ ok a)
unfolding read_response
answered d (ok b) h = (_, refl)
answered d (err Reader.not_found) h = (_, refl)
answered d (err (Reader.failure t)) h = (_, refl)
answered d panic h = absurd (h refl)

module _ (st : Store) where
  -- The answer for one digest of a batch read: the content, NotFound, or a failure of the store.
  abbrev pub IsAnswer : st.State → DigestRef → ReadResponse → Type 0
  IsAnswer s d a =
      (a.digest ≡ d)
      × (((a.status ≡ status_ok) × (content st s d ≡ some a.content))
          ⊎ ((a.status.code ≡ Code.not_found) × (content st s d ≡ none))
          ⊎ (a.status.code ≡ Code.internal))

  read_response-IsAnswer :
      (s : st.State) (d : DigestRef) (a : ReadResponse)
      → read_response d (st.get s d) ≡ ok a
      → IsAnswer s d a
  read_response-IsAnswer s d a h =
      let (same, cases) = read_response-cases d (st.get s d) a h in
      (
        same,
        elim cases [
          | inl (fine, got) ↦ inl (fine, st.get_ok s d a.content got)
          | inr (inl (code, missing)) ↦
              let (some_size, no_blob) = st.get_not_found s d missing in
              inr (inl (code, rw (some_size, no_blob)))
          | inr (inr code) ↦ inr (inr code)
        ],
      )

  read_response-total :
      (s : st.State) (d : DigestRef)
      → (a : ReadResponse) × (read_response d (st.get s d) ≡ ok a) × IsAnswer s d a
  read_response-total s d =
      let (a, e) = answered d (st.get s d) (st.get_no_panic s d) in
      (a, e, read_response-IsAnswer s d a e)

  -- A batch read never fails as a whole. It answers each digest, in order: with the content that the
  -- store holds, with NotFound only if it holds none, or with the code Internal.
  pub batch_read_blobs-IsAnswer :
      (s : st.State) (ds : List DigestRef)
      → (answers : List ReadResponse) × (batch_read_blobs st s ds ≡ ok answers)
        × Forall₂ (IsAnswer s) ds answers
  unfolding batch_read_blobs
  batch_read_blobs-IsAnswer s [] = ([], refl, Forall₂.nil)
  batch_read_blobs-IsAnswer s (d ∷ ds) =
      let (a, ea, good) = read_response-total s d in
      let (rest, er, all) = batch_read_blobs-IsAnswer s ds in
      (a ∷ rest, rw (ea, batch_read_blobs) (rw er), Forall₂.cons good all)
