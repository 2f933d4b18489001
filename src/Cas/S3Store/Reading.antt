-- ===== src/Cas/S3Store/Reading.antt =====
-- What the store over S3 reads is the content of its bucket.
use aws_build_farm.Prelude.{
  Sum-cases, if◌then◌else◌, Bool-cases, Option-cases, is_some, length, drop, All, All-imp,
  Result-cases, ℤ, pos, negsuc, wrap_int64-last, Bytes, codes, ok, err, panic, ℕ, zero, suc, ◌+◌,
  ◌≤◌, ◌<◌, ◌≡◌, refl, sym, ap, ◌∙◌, ◌≢◌, inl, inr, Bool, true, false, ◌||◌, Option, none, some, [],
  ◌∷◌, flatten, arith,
}
use mathlib.Core.Path.{subst}
use aws_build_farm.Prelude.Chunks.{flatten-chunks_of, chunks_of-IsChunked, chunks_of}
use aws_build_farm.GoText.Path.{path_join}
use aws_build_farm.Digest.{DigestRef, get_hash, is_empty}
use aws_build_farm.Cas.Reader.{not_found, Reader, bytes_reader}
use aws_build_farm.Cas.Interface.{slice, IsInRange}
use aws_build_farm.Cas.S3.{
  S3Error, no_such_key, not_found_type, api_error, other_error, Body, IsAbsent, S3, range_from,
  range_between,
}
use aws_build_farm.Cas.S3Store.{
  S3Store, blob_key, is_not_found, byte_range, body_reader, read_all_size, contains, reader, get,
}

pub is_not_found-IsAbsent : (e : S3Error) → is_not_found e ≡ true → IsAbsent e
unfolding is_not_found
is_not_found-IsAbsent (no_such_key t) h = tt
is_not_found-IsAbsent (not_found_type t) h = tt
is_not_found-IsAbsent (api_error c t) h = h
is_not_found-IsAbsent (other_error t) h = cc

abbrev no_bytes : Bytes
no_bytes = []

drop_nil : (n : ℕ) → drop n no_bytes ≡ no_bytes
drop_nil zero = refl
drop_nil (suc n) = refl

slice_nil : (offset : ℕ) (limit : ℤ) → slice offset limit [] ≡ []
unfolding slice
slice_nil offset (pos zero) = drop_nil offset
slice_nil offset (pos (suc n)) = ground (arith, drop_nil offset)
slice_nil offset (negsuc n) = drop_nil offset

empty_slice :
    (n offset : ℕ) (limit : ℤ) → 0 < n → flatten (bytes_reader [] n).chunks ≡ slice offset limit []
empty_slice n offset limit p = flatten-chunks_of n [] p ∙ sym (slice_nil offset limit)

module _ (s3 : S3) (c : S3Store) where
  abbrev pub blob : s3.State → Bytes → Option Bytes
  blob s k = s3.object s c.bucket (path_join (c.prefix ∷ codes "cas" ∷ k ∷ []))

  pub contains_ok :
      (s : s3.State) (d : DigestRef) (b : Bool)
      → contains s3 c s d ≡ (b, none)
      → b ≡ (is_empty d || is_some (blob s (get_hash d)))
  unfolding contains blob_key
  contains_ok s d b h =
      let k = blob_key c d in
      elim (Option-cases (s3.head_object s c.bucket k)) [
        | inl found ↦ ground (arith, found, s3.head_found s c.bucket k found)
        | inr (e, failed) ↦ elim (Bool-cases (is_not_found e)) [
          | inl absent ↦ ground (
            arith,
            failed,
            absent,
            s3.head_absent s c.bucket k e failed (is_not_found-IsAbsent e absent),
          )
          | inr other ↦ ground (arith, failed, other)
        ]
      ]

  -- What the reader of a blob that is not empty comes of.
  reader-eq-ok :
      (s : s3.State) (d : DigestRef) (offset limit : ℤ) (r : Reader)
      → is_empty d ≡ false
      → reader s3 c s d offset limit ≡ ok r
      → (body : Body) × (s3.get_object s c.bucket (blob_key c d) (byte_range offset limit)
          ≡ inr body)
        × (r ≡ body_reader body)
  unfolding reader
  reader-eq-ok s d offset limit r some_size h =
      elim (Sum-cases (s3.get_object s c.bucket (blob_key c d) (byte_range offset limit))) [
        | inl (e, failed) ↦ ground (arith, some_size, failed)
        | inr (body, got) ↦ (body, got, ground (arith, some_size, got))
      ]

  body_end-none : (body : Body) (n : ℕ) → (body_reader body n).error ≡ none → body.error ≡ none
  body_end-none body n h = ground arith

  body_slice :
      (s : s3.State) (k : Bytes) (offset : ℕ) (limit : ℤ) (body : Body)
      → IsInRange offset limit
      → s3.get_object s c.bucket k (byte_range (pos offset) limit) ≡ inr body
      → (n : ℕ) → 0 < n
      → body.error ≡ none
      → (b : Bytes) × (s3.object s c.bucket k ≡ some b)
        × (flatten (body.chunks n) ≡ slice offset limit b)
  unfolding byte_range slice
  body_slice s k zero (pos zero) body within got n p e =
      (flatten (body.chunks n), s3.get_whole s c.bucket k body got n p e, refl)
  body_slice s k (suc offset) (pos zero) body within got n p e =
      let range : byte_range (pos (suc offset)) (pos 0) ≡ some (range_from (pos (suc offset))) =
        ground arith in
      s3.get_from s c.bucket k (suc offset) body (ap (s3.get_object s c.bucket k) (sym range) ∙ got)
        n p e
  body_slice s k zero (negsuc m) body within got n p e =
      (flatten (body.chunks n), s3.get_whole s c.bucket k body got n p e, refl)
  body_slice s k (suc offset) (negsuc m) body within got n p e =
      let range : byte_range (pos (suc offset)) (negsuc m) ≡ some (range_from (pos (suc offset))) =
        ground arith in
      s3.get_from s c.bucket k (suc offset) body (ap (s3.get_object s c.bucket k) (sym range) ∙ got)
        n p e
  body_slice s k offset (pos (suc m)) body within got n p e =
      let range : byte_range (pos offset) (pos (suc m))
          ≡ some (range_between (pos offset) (pos (offset + m))) =
        ground (
          arith,
          ap (λ (x : ℤ). some (range_between (pos offset) x)) (wrap_int64-last offset m within),
        ) in
      s3.get_between s c.bucket k offset m body (ap (s3.get_object s c.bucket k) (sym range) ∙ got)
        n p e

  pub reader_ok :
      (s : s3.State) (d : DigestRef) (offset : ℕ) (limit : ℤ) (r : Reader)
      → IsInRange offset limit
      → reader s3 c s d (pos offset) limit ≡ ok r
      → (n : ℕ) → 0 < n
      → (r n).error ≡ none
      → (b : Bytes) × ((if is_empty d then some [] else blob s (get_hash d)) ≡ some b)
        × (flatten (r n).chunks ≡ slice offset limit b)
  unfolding reader blob_key slice
  reader_ok s d offset limit r within h n p e = elim (Bool-cases (is_empty d)) [
    | inl empty ↦
        let same : bytes_reader [] ≡ r = ground (arith, empty, h) in
        (
          [],
          rw empty,
          subst (λ (t : Reader). flatten (t n).chunks ≡ slice offset limit []) same
              (empty_slice n offset limit p),
        )
    | inr some_size ↦
        let (body, got, same) = reader-eq-ok s d (pos offset) limit r some_size h in
        let (b, held, part) =
          body_slice s (blob_key c d) offset limit body within got n p
            (body_end-none body n (ap (λ (t : Reader). (t n).error) (sym same) ∙ e)) in
        (b, rw some_size held, ap (λ (t : Reader). flatten (t n).chunks) same ∙ part)
  ]

  pub reader_fits :
      (s : s3.State) (d : DigestRef) (offset limit : ℤ) (r : Reader)
      → reader s3 c s d offset limit ≡ ok r
      → (n : ℕ) → 0 < n
      → All (λ x. length x ≤ n) (r n).chunks
  unfolding reader
  reader_fits s d offset limit r h n p = elim (Bool-cases (is_empty d)) [
    | inl empty ↦
        let same : bytes_reader [] ≡ r = ground (arith, empty, h) in
        subst (λ (t : Reader). All (λ x. length x ≤ n) (t n).chunks) same
          (All-imp _ _ (chunks_of n []) (λ x k. k.1) (chunks_of-IsChunked n [] p))
    | inr some_size ↦
        let (body, got, same) = reader-eq-ok s d offset limit r some_size h in
        subst (λ (t : Reader). All (λ x. length x ≤ n) (t n).chunks) (sym same)
          (s3.body_fits s c.bucket (blob_key c d) (byte_range offset limit) body got n p)
  ]

  get-reader :
      (s : s3.State) (d : DigestRef) (b : Bytes)
      → is_empty d ≡ false
      → get s3 c s d ≡ ok b
      → (r : Reader) × (reader s3 c s d (pos 0) (pos 0) ≡ ok r)
        × ((r read_all_size).error ≡ none)
        × (flatten (r read_all_size).chunks ≡ b)
  unfolding get
  get-reader s d b some_size h = elim (Result-cases (reader s3 c s d (pos 0) (pos 0))) [
    | inl (r, fine) ↦ elim (Option-cases (r read_all_size).error) [
      | inl quiet ↦ (r, fine, quiet, ground (arith, some_size, fine, quiet, h))
      | inr (e, broken) ↦ ground (arith, some_size, fine, broken, h)
    ]
    | inr (inl (e, failed)) ↦ ground (arith, some_size, failed, h)
    | inr (inr crash) ↦ ground (arith, some_size, crash, h)
  ]

  pub get_ok :
      (s : s3.State) (d : DigestRef) (b : Bytes)
      → get s3 c s d ≡ ok b
      → (if is_empty d then some [] else blob s (get_hash d)) ≡ some b
  unfolding get slice
  get_ok s d b h = elim (Bool-cases (is_empty d)) [
    | inl empty ↦ ground (arith, empty, h)
    | inr some_size ↦
        let (r, fine, quiet, whole) = get-reader s d b some_size h in
        let (x, held, same) =
          reader_ok s d 0 (pos 0) r (omega arith) fine read_all_size (omega arith) quiet in
        held ∙ ap some (sym same ∙ whole)
  ]

  pub get_not_found :
      (s : s3.State) (d : DigestRef)
      → get s3 c s d ≡ err not_found
      → (is_empty d ≡ false) × (blob s (get_hash d) ≡ none)
  unfolding get reader blob_key
  get_not_found s d h = elim (Bool-cases (is_empty d)) [
    | inl empty ↦ ground (arith, empty, h)
    | inr some_size ↦
        elim (Sum-cases (s3.get_object s c.bucket (blob_key c d) (byte_range (pos 0) (pos 0)))) [
          | inl (e, failed) ↦ elim (Bool-cases (is_not_found e)) [
            | inl absent ↦ (
              some_size,
              s3.get_absent s c.bucket (blob_key c d) (byte_range (pos 0) (pos 0)) e failed
                  (is_not_found-IsAbsent e absent),
            )
            | inr other ↦ ground (arith, some_size, failed, other, h)
          ]
          | inr (body, got) ↦ elim (Option-cases body.error) [
            | inl quiet ↦ ground (arith, some_size, got, quiet, h)
            | inr (t, broken) ↦ ground (arith, some_size, got, broken, h)
          ]
        ]
  ]

  pub get_no_panic : (s : s3.State) (d : DigestRef) → get s3 c s d ≢ panic
  unfolding get reader
  get_no_panic s d h = elim (Bool-cases (is_empty d)) [
    | inl empty ↦ ground (arith, empty, h)
    | inr some_size ↦
        elim (Sum-cases (s3.get_object s c.bucket (blob_key c d) (byte_range (pos 0) (pos 0)))) [
          | inl (e, failed) ↦ ground (arith, some_size, failed, h)
          | inr (body, got) ↦ elim (Option-cases body.error) [
            | inl quiet ↦ ground (arith, some_size, got, quiet, h)
            | inr (t, broken) ↦ ground (arith, some_size, got, broken, h)
          ]
        ]
  ]
