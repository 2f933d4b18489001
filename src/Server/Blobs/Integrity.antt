-- ===== src/Server/Blobs/Integrity.antt =====
-- Batch uploads keep the store intact: each blob has the hash under which it is kept.
use aws_build_farm.Prelude.{
  Bool-cases, Option-cases, length, pos, eq_ℤ, Bytes, bytes_eq, bytes_eq_iff, ◌≡◌, refl, ◌⊎◌, inl,
  inr, true, none, some, List, [], ◌∷◌, arith,
}
use aws_build_farm.Digest.{DigestRef, Sha256, get_hash, get_size_bytes, validate, from_bytes}
use aws_build_farm.Cas.Interface.{validate-IsName, Store}
use aws_build_farm.Server.Status.{Code}
use aws_build_farm.Server.Blobs.{UpdateRequest, put_one, put_status, batch_update_blobs}

-- What an upload has to satisfy.
pub record IsGenuine (sha : Sha256) (d : DigestRef) (b : Bytes) : Type 0 where
  pub valid : validate d ≡ none
  pub size : eq_ℤ (pos (length b)) (get_size_bytes d) ≡ true
  pub same_hash : bytes_eq (from_bytes sha b).hash (get_hash d) ≡ true

module _ (sha : Sha256) (st : Store) where
  -- Every blob that the store keeps under a name of its own has the hash that is its key.
  abbrev pub IsIntact : st.State → Type 0
  IsIntact s = (k b : Bytes) → st.IsName k → st.blob s k ≡ some b → (from_bytes sha b).hash ≡ k

  -- `putOne` refuses an upload and leaves the store alone, or the upload is genuine and the store is
  -- asked to keep it.
  pub put_one-cases :
      (s : st.State) (d : DigestRef) (b : Bytes)
      → (((put_one sha st s d b).1 ≡ s)
          × ((put_one sha st s d b).0.code ≡ Code.invalid_argument)
          × (¬ IsGenuine sha d b))
        ⊎ ((IsGenuine sha d b)
            × (put_one sha st s d b ≡ (put_status (st.put s d b).0, (st.put s d b).1)))
  unfolding put_one
  put_one-cases s d b = elim (Option-cases (validate d)) [
    | inr (e, v) ↦ rw (v, put_one) (inl (refl, refl, λ g. cc (g.valid)))
    | inl v ↦ elim (Bool-cases (eq_ℤ (pos (length b)) (get_size_bytes d))) [
      | inr wrong ↦ rw (v, put_one, wrong) (inl (refl, refl, λ g. cc (g.size)))
      | inl size ↦ elim (Bool-cases (bytes_eq (from_bytes sha b).hash (get_hash d))) [
        | inr wrong ↦ rw (v, put_one, size, wrong) (inl (refl, refl, λ g. cc (g.same_hash)))
        | inl same ↦
            rw (v, put_one, size, same)
              (inr (record { valid = v; size = size; same_hash = same }, refl))
      ]
    ]
  ]

  pub put-IsIntact :
      (s : st.State) (d : DigestRef) (b : Bytes)
      → IsGenuine sha d b
      → IsIntact s
      → IsIntact (st.put s d b).1
  put-IsIntact s d b g h k c named e =
      elim (st.put_any s d b k (validate-IsName st d g.valid) named) [
        | inl old ↦ h k c named (cc)
        | inr (hit, new) ↦ ground (
          arith,
          g.same_hash,
          bytes_eq_iff (from_bytes sha b).hash (get_hash d),
          bytes_eq_iff (get_hash d) k,
        )
      ]

  -- One upload, accepted or refused, stored or failed, keeps the store intact.
  pub put_one-IsIntact :
      (s : st.State) (d : DigestRef) (b : Bytes) → IsIntact s → IsIntact (put_one sha st s d b).1
  put_one-IsIntact s d b h = elim (put_one-cases s d b) [
    | inl (same, _, _) ↦ rw same h
    | inr (g, e) ↦ rw e (put-IsIntact s d b g h)
  ]

  -- Whatever a client uploads in batches, every blob that the store keeps under a name of its own keeps
  -- the hash that is its key.
  pub batch_update_blobs-IsIntact :
      (s : st.State) (rs : List UpdateRequest)
      → IsIntact s
      → IsIntact (batch_update_blobs sha st s rs).1
  unfolding batch_update_blobs
  batch_update_blobs-IsIntact s [] h = h
  batch_update_blobs-IsIntact s (r ∷ rs) h =
      batch_update_blobs-IsIntact (put_one sha st s r.digest r.content).1 rs
        (put_one-IsIntact s r.digest r.content h)
