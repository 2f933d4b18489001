-- ===== src/Server/Blobs/Agreement.antt =====
-- Two stores that hold the same blobs are not told apart by batch uploads.
use aws_build_farm.Prelude.{
  if◌then◌else◌, Bool-cases, Option-cases, length, All, pos, eq_ℤ, Bytes, bytes_eq, ◌≡◌, refl, sym,
  ap, ◌∙◌, ◌≢◌, inl, inr, Option, none, some, List, [], ◌∷◌, arith,
}
use aws_build_farm.Digest.{DigestRef, Sha256, get_hash, get_size_bytes, from_bytes, validate}
use aws_build_farm.Cas.Interface.{Store, hits, validate-IsName}
use aws_build_farm.Cas.Reader.{StoreError}
use aws_build_farm.Server.Status.{Code, status}
use aws_build_farm.Server.Blobs.{
  UpdateRequest, UpdateResponse, put_status, put_one, put_valid, put_stored, batch_update_blobs,
}

module _ (st st' : Store) where
  -- The two states hold the same blobs, under the names that both stores keep apart.
  abbrev pub Agree : st.State → st'.State → Type 0
  Agree s s' = (k : Bytes) → st.IsName k → st'.IsName k → st.blob s k ≡ st'.blob s' k

-- No answer reports a failure of the store.
abbrev pub HasNoFailure : List UpdateResponse → Type 0
HasNoFailure = All (λ a. a.status.code ≢ Code.internal)

put_status-none : (e : Option StoreError) → (put_status e).code ≢ Code.internal → e ≡ none
put_status-none none h = refl
put_status-none (some e) h = absurd (h refl)

module _ (sha : Sha256) (st st' : Store) where
  stored-Agree :
      (s : st.State) (s' : st'.State) (d : DigestRef) (b : Bytes)
      → validate d ≡ none
      → Agree st st' s s'
      → (st.put s d b).0 ≡ none
      → (st'.put s' d b).0 ≡ none
      → Agree st st' (st.put s d b).1 (st'.put s' d b).1
  stored-Agree s s' d b v same fine fine' k named named' =
      let put = st.put s d b in
      let put' = st'.put s' d b in
      st.put_ok s put.1 d b (validate-IsName st d v) (λ i. (fine i, put.1)) k named
      ∙ ap (λ (x : Option Bytes). if hits d k then some b else x) (same k named named')
      ∙ sym (st'.put_ok s' put'.1 d b (validate-IsName st' d v) (λ i. (fine' i, put'.1)) k named')

  put_one-Agree :
      (s : st.State) (s' : st'.State) (d : DigestRef) (b : Bytes)
      → Agree st st' s s'
      → (put_one sha st s d b).0.code ≢ Code.internal
      → (put_one sha st' s' d b).0.code ≢ Code.internal
      → ((put_one sha st s d b).0 ≡ (put_one sha st' s' d b).0)
        × Agree st st' (put_one sha st s d b).1 (put_one sha st' s' d b).1
  unfolding put_one put_valid put_stored
  put_one-Agree s s' d b same fine fine' = elim (Option-cases (validate d)) [
    | inr (e, bad) ↦ rw (bad, put_one) (refl, same)
    | inl v ↦ elim (Bool-cases (eq_ℤ (pos (length b)) (get_size_bytes d))) [
      | inr wrong ↦ rw (v, wrong, put_one) (refl, same)
      | inl size ↦ elim (Bool-cases (bytes_eq (from_bytes sha b).hash (get_hash d))) [
        | inr wrong ↦ rw (v, size, wrong, put_one) (refl, same)
        | inl hash ↦
            let one : put_one sha st s d b ≡ put_stored sha st s d b =
              ground (arith, v, size, hash) in
            let one' : put_one sha st' s' d b ≡ put_stored sha st' s' d b =
              ground (arith, v, size, hash) in
            let done = put_status-none (st.put s d b).0 (rw one at fine) in
            let done' = put_status-none (st'.put s' d b).0 (rw one' at fine') in
            rw (one, one')
              (ap put_status (done ∙ sym done'), stored-Agree s s' d b v same done done')
      ]
    ]
  ]

  -- Two stores that hold the same blobs under the names that both keep apart, one in memory and one in S3 say, answer a batch upload alike if no
  -- answer of either reports a failure of the store, and then hold the same blobs again.
  pub batch_update_blobs-Agree :
      (s : st.State) (s' : st'.State) (rs : List UpdateRequest)
      → Agree st st' s s'
      → HasNoFailure (batch_update_blobs sha st s rs).0
      → HasNoFailure (batch_update_blobs sha st' s' rs).0
      → ((batch_update_blobs sha st s rs).0 ≡ (batch_update_blobs sha st' s' rs).0)
        × Agree st st' (batch_update_blobs sha st s rs).1 (batch_update_blobs sha st' s' rs).1
  unfolding batch_update_blobs
  batch_update_blobs-Agree s s' [] same fine fine' = (refl, same)
  batch_update_blobs-Agree s s' (r ∷ rs) same (fine, rest) (fine', rest') =
      let (status, same₁) = put_one-Agree s s' r.digest r.content same fine fine' in
      let (answers, same₂) =
        batch_update_blobs-Agree (put_one sha st s r.digest r.content).1
          (put_one sha st' s' r.digest r.content).1 rs same₁ rest rest' in
      (λ i. record { digest = r.digest; status = status i } ∷ answers i, same₂)
