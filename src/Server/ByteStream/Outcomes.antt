-- ===== src/Server/ByteStream/Outcomes.antt =====
-- What Write may do to the store, whatever the client sends and whatever fails.
use aws_build_farm.Prelude.{
  if◌then◌else◌, Bool-cases, Option-cases, length, Result-cases, ℤ, pos, eq_ℤ, eq_ℤ_iff, Bytes,
  Result, ok, err, panic, ◌≡◌, refl, sym, ap, ◌∙◌, ◌≢◌, ◌⊎◌, inl, inr, true, some, List, [], ◌∷◌,
}
use mathlib.Core.Path.{subst}
use aws_build_farm.Digest.{Digest}
use aws_build_farm.Cas.Interface.{Store, hits}
use aws_build_farm.Server.Resource.{parse_write_resource}
use aws_build_farm.Server.Status.{Code, status, resource_error}
use aws_build_farm.Server.ByteStream.{
  StreamError, refused, WriteRequest, TempFile, Incoming, receive, store_upload, write_digest,
  write_messages, write,
}
use aws_build_farm.Server.ByteStream.Upload.{
  payload, IsFor, IsFor-IsName, file, flatten_one, blob-stored, receive-payload, committed-ok,
}

module _ (st : Store) where
  -- The only change of the store that an upload of `w` for `d` may make: `w`, which has the declared size, under the hash.
  abbrev pub IsUntouchedOr : st.State → st.State → Digest → Bytes → Type 0
  IsUntouchedOr s s' d w =
      (s' ≡ s)
      ⊎ ((d.size_bytes ≡ pos (length w))
          × ((k : Bytes)
              → st.IsName k
              → (st.blob s' k ≡ st.blob s k)
                ⊎ ((hits (some d) k ≡ true) × (st.blob s' k ≡ some w))))

  store_upload-any :
      (s : st.State) (tmp : TempFile) (incoming : Incoming) (d : Digest) (w : Bytes)
      → st.IsName d.hash
      → IsUntouchedOr s (store_upload st s tmp incoming d w).1 d w
        × ((n : ℤ)
            → (store_upload st s tmp incoming d w).0 ≡ ok n
            → (d.size_bytes ≡ pos (length w))
              × (n ≡ d.size_bytes)
              × ((k : Bytes)
                  → st.IsName k
                  → st.blob (store_upload st s tmp incoming d w).1 k
                    ≡ (if hits (some d) k then some w else st.blob s k)))
  unfolding store_upload
  store_upload-any s tmp incoming d w named =
      elim (Bool-cases (eq_ℤ (pos (length w)) d.size_bytes)) [
        | inr wrong ↦ rw (wrong, store_upload) (inl refl, λ n h. cc)
        | inl right ↦
            let size : d.size_bytes ≡ pos (length w) =
              sym ((eq_ℤ_iff (pos (length w)) d.size_bytes).0 right) in
            elim (Bool-cases tmp.seek_fails) [
              | inl fails ↦ rw (right, fails, store_upload) (inl refl, λ n h. cc)
              | inr rewound ↦
                  let any = λ (k : Bytes) (named' : st.IsName k). rw (flatten_one st) at (
                    st.put_stream_any s (some d) (pos (length w)) (file st tmp w) k named named') in
                  elim (Option-cases
                    (st.put_stream s (some d) (pos (length w)) (file st tmp w)).0) [
                      | inr (e, failed) ↦
                          rw (right, rewound, failed, store_upload) (inr (size, any), λ n h. cc)
                      | inl stored ↦
                          rw (right, rewound, stored, store_upload)
                            (
                              inr (size, any),
                              λ n h. (
                                size,
                                sym (committed-ok incoming.close_error (pos (length w)) n h)
                                    ∙ sym size,
                                λ k named'. blob-stored st s tmp d w k named named' stored,
                              ),
                            )
                    ]
            ]
      ]

  -- What holds of the answer and the store after the messages of an upload.
  abbrev pub IsUploaded : st.State → List WriteRequest → Result StreamError ℤ × st.State → Type 0
  IsUploaded s ms (answer, s') =
      ((s' ≡ s) ⊎ ((d : Digest) × IsFor st d ms × IsUntouchedOr s s' d (payload ms)))
      × ((n : ℤ)
          → answer ≡ ok n
          → (d : Digest) × IsFor st d ms
            × (d.size_bytes ≡ pos (length (payload ms)))
            × (n ≡ d.size_bytes)
            × ((k : Bytes)
                → st.IsName k
                → st.blob s' k ≡ (if hits (some d) k then some (payload ms) else st.blob s k)))

  refused_upload :
      (s : st.State) (ms : List WriteRequest) (x : Result StreamError ℤ)
      → ((n : ℤ) → x ≢ ok n)
      → IsUploaded s ms (x, s)
  refused_upload s ms x h = (inl refl, λ n e. absurd (h n e))

  store_upload-IsUploaded :
      (s : st.State) (tmp : TempFile) (incoming : Incoming) (d : Digest) (ms : List WriteRequest)
      (w : Bytes)
      → IsFor st d ms
      → w ≡ payload ms
      → IsUploaded s ms (store_upload st s tmp incoming d w)
  store_upload-IsUploaded s tmp incoming d ms w for same =
      let (any, stored) = store_upload-any s tmp incoming d w (IsFor-IsName st d ms for) in
      (
        inr (d, for, subst (IsUntouchedOr s (store_upload st s tmp incoming d w).1 d) same any),
        λ n h.
            let (size, answer, blobs) = stored n h in
            (
              d,
              for,
              size ∙ ap (λ (x : Bytes). pos (length x)) same,
              answer,
              λ k named. rw (← same) (blobs k named),
            ),
      )

  write_digest-IsUploaded :
      (s : st.State) (tmp : TempFile) (incoming : Incoming) (d : Digest) (r : WriteRequest)
      (rs : List WriteRequest)
      → IsFor st d (r ∷ rs)
      → IsUploaded s (r ∷ rs) (write_digest st s tmp incoming r rs d)
  unfolding write_digest
  write_digest-IsUploaded s tmp incoming d r rs for = elim (Bool-cases tmp.create_fails) [
    | inl fails ↦ rw (fails, write_digest) (refused_upload s (r ∷ rs) _ (λ n e. cc))
    | inr created ↦ elim (Result-cases (receive tmp incoming.after r rs [])) [
      | inr (inl (e, bad)) ↦
          rw (created, bad, write_digest) (refused_upload s (r ∷ rs) _ (λ n e. cc))
      | inr (inr bad) ↦ rw (created, bad, write_digest) (refused_upload s (r ∷ rs) _ (λ n e. cc))
      | inl (w, got) ↦
          rw (created, got, write_digest)
            (store_upload-IsUploaded s tmp incoming d (r ∷ rs) w for
              (receive-payload tmp incoming.after r rs [] w got))
    ]
  ]

  write_messages-IsUploaded :
      (s : st.State) (tmp : TempFile) (incoming : Incoming) (ms : List WriteRequest)
      → IsUploaded s ms (write_messages st s tmp incoming ms)
  unfolding write_messages
  write_messages-IsUploaded s tmp incoming [] = refused_upload s [] _ (λ n e. cc)
  write_messages-IsUploaded s tmp incoming (r ∷ rs) =
      elim (Result-cases (parse_write_resource r.resource_name)) [
        | inl (d, for) ↦
            let same : write_messages st s tmp incoming (r ∷ rs)
                ≡ write_digest st s tmp incoming r rs d =
              rw (for, write_messages) in
            subst (IsUploaded s (r ∷ rs)) (sym same)
              (write_digest-IsUploaded s tmp incoming d r rs for)
        | inr (inl (e, bad)) ↦ refused_name (
          err (refused (status Code.invalid_argument (resource_error e))),
          rw (bad, write_messages),
          λ n h. cc,
        )
        | inr (inr bad) ↦ refused_name (panic, rw (bad, write_messages), λ n h. cc)
      ]
    where
      refused_name :
          (x : Result StreamError ℤ) × (write_messages st s tmp incoming (r ∷ rs) ≡ (x, s))
            × ((n : ℤ) → x ≢ ok n)
          → IsUploaded s (r ∷ rs) (write_messages st s tmp incoming (r ∷ rs))
      refused_name (x, e, h) = subst (IsUploaded s (r ∷ rs)) (sym e) (refused_upload s (r ∷ rs) x h)

  -- Whatever the client sends and whatever fails, Write leaves the store as it was, or it was given
  -- data of the size that the digest of the name declares, and each blob, under a name that the store keeps apart, is the old one or these data
  -- under the hash of that digest. If Write answers with a size, it is the declared one, and the store holds the data.
  pub write-IsUploaded :
      (s : st.State) (tmp : TempFile) (incoming : Incoming)
      → IsUploaded s incoming.messages (write st s tmp incoming)
  unfolding write
  write-IsUploaded s tmp incoming = write_messages-IsUploaded s tmp incoming incoming.messages
