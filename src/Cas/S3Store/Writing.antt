-- ===== src/Cas/S3Store/Writing.antt =====
-- What the store over S3 writes, and what it keeps in the action cache.
use aws_build_farm.Prelude.{
  Sum-cases, if◌then◌else◌, Bool-cases, Option-cases, length, ℤ, pos, Bytes, codes, bytes_eq,
  bytes_eq_iff, ok, err, panic, ◌≡◌, sym, ap, ◌∙◌, ◌≢◌, inl, inr, Option, none, some, [], ◌∷◌,
  flatten, arith,
}
use aws_build_farm.Prelude.Chunks.{flatten-chunks_of}
use aws_build_farm.GoText.Path.{path_join}
use aws_build_farm.GoText.Path.Plain.{IsPlain}
use aws_build_farm.Digest.{DigestRef, get_hash, is_empty}
use aws_build_farm.Proto.{ActionResult, Codec}
use aws_build_farm.Cas.Reader.{StoreError, not_found, Reads, bytes_reader}
use aws_build_farm.Cas.Interface.{IsOldOrNew, hits}
use aws_build_farm.Cas.S3.{S3}
use aws_build_farm.Cas.S3Store.Keys.{keys_apart, blob_key_eq, ac_key_eq}
use aws_build_farm.Cas.S3Store.Reading.{blob, is_not_found-IsAbsent}
use aws_build_farm.Cas.S3Store.{
  S3Store, blob_key, ac_key, is_not_found, read_all_size, part_size, put_stream, put,
  get_action_result, put_action_result,
}

module _ (s3 : S3) (c : S3Store) where
  pub put_stream_ok :
      (s s' : s3.State) (d : DigestRef) (n : ℤ) (r : Reads)
      → IsPlain (get_hash d)
      → put_stream s3 c s d n r ≡ (none, s')
      → (k : Bytes) → IsPlain k
      → blob s3 c s' k ≡ (if hits d k then some (flatten r.chunks) else blob s3 c s k)
  unfolding put_stream blob_key
  put_stream_ok s s' d n r pd h k pk = elim (Bool-cases (is_empty d)) [
    | inl empty ↦
        ground (arith, empty, h, ap (λ (x : Option StoreError × s3.State). blob s3 c x.1 k) h)
    | inr some_size ↦
        let up = s3.upload s c.bucket (blob_key c d) r in
        elim (Option-cases up.0) [
          | inl done ↦
              let written =
                s3.upload_done s up.1 c.bucket (blob_key c d) r (λ i. (done i, up.1))
                  (path_join (c.prefix ∷ codes "cas" ∷ k ∷ [])) in
              let after : up.1 ≡ s' =
                ground (arith, some_size, done, ap (λ (x : Option StoreError × s3.State). x.1) h) in
              rw (← after)
                (ground (arith, some_size, written, blob_key_eq c.prefix (get_hash d) k pd pk))
          | inr (e, failed) ↦
              ground (arith, some_size, failed, ap (λ (x : Option StoreError × s3.State). x.0) h)
        ]
  ]

  pub put_stream_any :
      (s : s3.State) (d : DigestRef) (n : ℤ) (r : Reads) (k : Bytes)
      → IsPlain (get_hash d)
      → IsPlain k
      → IsOldOrNew
          (blob s3 c (put_stream s3 c s d n r).1 k)
          (blob s3 c s k)
          (hits d k)
          (flatten r.chunks)
  unfolding put_stream blob_key
  put_stream_any s d n r k pd pk = elim (Bool-cases (is_empty d)) [
    | inl empty ↦ inl (rw (empty, put_stream))
    | inr some_size ↦
        let same = blob_key_eq c.prefix (get_hash d) k pd pk in
        elim (s3.upload_tried s c.bucket (blob_key c d) r
          (path_join (c.prefix ∷ codes "cas" ∷ k ∷ []))) [
            | inl old ↦ inl (ground (arith, some_size, old))
            | inr (hit, new) ↦
                inr (ground (arith, some_size, hit, same), ground (arith, some_size, new))
          ]
  ]

  put-stream :
      (s : s3.State) (d : DigestRef) (b : Bytes)
      → put s3 c s d b ≡ put_stream s3 c s d (pos (length b)) (bytes_reader b part_size)
  unfolding put put_stream
  put-stream s d b = elim (Bool-cases (is_empty d)) [
    | inl empty ↦ ground (arith, empty)
    | inr some_size ↦ ground (arith, some_size)
  ]

  parts : (b : Bytes) → flatten (bytes_reader b part_size).chunks ≡ b
  parts b = flatten-chunks_of part_size b (omega arith)

  pub put_ok :
      (s s' : s3.State) (d : DigestRef) (b : Bytes)
      → IsPlain (get_hash d)
      → put s3 c s d b ≡ (none, s')
      → (k : Bytes) → IsPlain k
      → blob s3 c s' k ≡ (if hits d k then some b else blob s3 c s k)
  put_ok s s' d b pd h k pk =
      put_stream_ok s s' d (pos (length b)) (bytes_reader b part_size) pd
        (sym (put-stream s d b) ∙ h) k pk
      ∙ ap (λ (x : Bytes). if hits d k then some x else blob s3 c s k) (parts b)

  pub put_any :
      (s : s3.State) (d : DigestRef) (b k : Bytes)
      → IsPlain (get_hash d)
      → IsPlain k
      → IsOldOrNew (blob s3 c (put s3 c s d b).1 k) (blob s3 c s k) (hits d k) b
  put_any s d b k pd pk =
      let any = put_stream_any s d (pos (length b)) (bytes_reader b part_size) k pd pk in
      rw put-stream (rw (parts b) at any)

  module _ (codec : Codec ActionResult) where
    abbrev pub decode_some : Option Bytes → Option ActionResult
    decode_some none = none
    decode_some (some b) = codec.unmarshal b

    abbrev pub cached : s3.State → Bytes → Option ActionResult
    cached s k = decode_some (s3.object s c.bucket (path_join (c.prefix ∷ codes "ac" ∷ k ∷ [])))

    pub get_action_result_no_panic :
        (s : s3.State) (d : DigestRef) → get_action_result s3 c codec s d ≢ panic
    unfolding get_action_result
    get_action_result_no_panic s d h =
        elim (Sum-cases (s3.get_object s c.bucket (ac_key c d) none)) [
          | inl (e, failed) ↦ ground (arith, failed, h)
          | inr (body, got) ↦ elim (Option-cases body.error) [
            | inl quiet ↦
                elim (Option-cases (codec.unmarshal (flatten (body.chunks read_all_size)))) [
                  | inl bad ↦ ground (arith, got, quiet, bad, h)
                  | inr (ar, good) ↦ ground (arith, got, quiet, good, h)
                ]
            | inr (t, broken) ↦ ground (arith, got, broken, h)
          ]
        ]

    pub get_action_result_ok :
        (s : s3.State) (d : DigestRef) (ar : ActionResult)
        → get_action_result s3 c codec s d ≡ ok ar
        → cached s (get_hash d) ≡ some ar
    unfolding get_action_result ac_key
    get_action_result_ok s d ar h = elim (Sum-cases (s3.get_object s c.bucket (ac_key c d) none)) [
      | inl (e, failed) ↦ ground (arith, failed, h)
      | inr (body, got) ↦ elim (Option-cases body.error) [
        | inl quiet ↦
            let held =
              s3.get_whole s c.bucket (ac_key c d) body got read_all_size (omega arith) quiet in
            elim (Option-cases (codec.unmarshal (flatten (body.chunks read_all_size)))) [
              | inl bad ↦ ground (arith, got, quiet, bad, h)
              | inr (x, good) ↦ ground (arith, got, quiet, good, h, held)
            ]
        | inr (t, broken) ↦ ground (arith, got, broken, h)
      ]
    ]

    pub get_action_result_not_found :
        (s : s3.State) (d : DigestRef)
        → get_action_result s3 c codec s d ≡ err not_found
        → cached s (get_hash d) ≡ none
    unfolding get_action_result ac_key
    get_action_result_not_found s d h =
        elim (Sum-cases (s3.get_object s c.bucket (ac_key c d) none)) [
          | inl (e, failed) ↦ elim (Bool-cases (is_not_found e)) [
            | inl absent ↦ ap decode_some (
                s3.get_absent s c.bucket (ac_key c d) none e failed
                  (is_not_found-IsAbsent e absent))
            | inr other ↦ ground (arith, failed, other, h)
          ]
          | inr (body, got) ↦ elim (Option-cases body.error) [
            | inl quiet ↦
                elim (Option-cases (codec.unmarshal (flatten (body.chunks read_all_size)))) [
                  | inl bad ↦ ground (arith, got, quiet, bad, h)
                  | inr (x, good) ↦ ground (arith, got, quiet, good, h)
                ]
            | inr (t, broken) ↦ ground (arith, got, broken, h)
          ]
        ]

    pub put_action_result_ok :
        (s s' : s3.State) (d : DigestRef) (ar : ActionResult)
        → IsPlain (get_hash d)
        → put_action_result s3 c codec s d ar ≡ (none, s')
        → (k : Bytes) → IsPlain k
        → cached s' k ≡ (if bytes_eq (get_hash d) k then some ar else cached s k)
    unfolding put_action_result ac_key
    put_action_result_ok s s' d ar pd h k pk = elim (Option-cases (codec.marshal ar)) [
      | inl bad ↦ ground (arith, bad, h)
      | inr (b, good) ↦
          let put = s3.put_object s c.bucket (ac_key c d) b in
          elim (Option-cases put.0) [
            | inl done ↦
                let written =
                  s3.put_done s put.1 c.bucket (ac_key c d) b (λ i. (done i, put.1))
                    (path_join (c.prefix ∷ codes "ac" ∷ k ∷ [])) in
                let after : put.1 ≡ s' =
                  ground (arith, good, done, ap (λ (x : Option StoreError × s3.State). x.1) h) in
                rw (← after) (
                  ground (
                    arith,
                    written,
                    ac_key_eq c.prefix (get_hash d) k pd pk,
                    codec.round_trip ar b good,
                  ))
            | inr (e, failed) ↦
                ground (arith, good, failed, ap (λ (x : Option StoreError × s3.State). x.0) h)
          ]
    ]

    pub put_action_result_any :
        (s : s3.State) (d : DigestRef) (ar : ActionResult) (k : Bytes)
        → IsPlain (get_hash d)
        → IsPlain k
        → IsOldOrNew
            (cached (put_action_result s3 c codec s d ar).1 k)
            (cached s k)
            (bytes_eq (get_hash d) k)
            ar
    unfolding put_action_result ac_key
    put_action_result_any s d ar k pd pk = elim (Option-cases (codec.marshal ar)) [
      | inl bad ↦ inl (rw (bad, put_action_result))
      | inr (b, good) ↦
          elim (s3.put_tried s c.bucket (ac_key c d) b
            (path_join (c.prefix ∷ codes "ac" ∷ k ∷ []))) [
              | inl old ↦ inl (ground (arith, good, ap decode_some old))
              | inr (hit, new) ↦ inr (
                ground (arith, hit, ac_key_eq c.prefix (get_hash d) k pd pk),
                ground (arith, good, ap decode_some new, codec.round_trip ar b good),
              )
            ]
    ]

    pub put_action_result_blob :
        (s : s3.State) (d : DigestRef) (ar : ActionResult) (k : Bytes)
        → IsPlain (get_hash d)
        → IsPlain k
        → blob s3 c (put_action_result s3 c codec s d ar).1 k ≡ blob s3 c s k
    unfolding put_action_result ac_key
    put_action_result_blob s d ar k pd pk = elim (Option-cases (codec.marshal ar)) [
      | inl bad ↦ rw (bad, put_action_result)
      | inr (b, good) ↦
          let j = path_join (c.prefix ∷ codes "cas" ∷ k ∷ []) in
          elim (s3.put_tried s c.bucket (ac_key c d) b j) [
            | inl old ↦ ground (arith, good, old)
            | inr (hit, new) ↦ absurd (
                keys_apart c.prefix k (get_hash d) pk pd
                  (sym ((bytes_eq_iff (ac_key c d) j).0 hit)))
          ]
    ]
