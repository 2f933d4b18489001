-- ===== src/Cas/MemStore/Laws.antt =====
-- The in-memory store keeps what the interface `Store` promises.
use aws_build_farm.Prelude.{
  ltb, if◌then◌else◌, Bool-cases, Option-cases, is_some, length, drop, All, take-eq_self,
  drop-length, All-imp, >>=-eq-ok, ℤ, pos, negsuc, Bytes, bytes_eq, ok, err, panic, ℕ, zero, suc,
  ◌≤◌, ◌<◌, ◌≡◌, refl, sym, ◌≢◌, inl, inr, Bool, false, ◌||◌, Option, none, some, [], flatten,
  arith,
}
use mathlib.Core.Path.{subst}
use aws_build_farm.Prelude.Chunks.{chunks_of, flatten-chunks_of, chunks_of-IsChunked}
use aws_build_farm.Prelude.Dict.{lookup, lookup-insert}
use aws_build_farm.Digest.{DigestRef, get_hash, is_empty}
use aws_build_farm.Proto.{ActionResult, Codec}
use aws_build_farm.Cas.Reader.{not_found, Reads, Reader, bytes_reader}
use aws_build_farm.Cas.Interface.{Store, slice, IsOldOrNew, hits}
use aws_build_farm.Cas.MemStore
use aws_build_farm.Cas.MemStore.{
  MemStore, contains, get, reader, put, put_stream, get_action_result, put_action_result,
}

abbrev pub blob : MemStore → Bytes → Option Bytes
blob m k = lookup k m.blobs

pub contains_ok :
    (s : MemStore) (d : DigestRef) (b : Bool)
    → contains s d ≡ (b, none)
    → b ≡ (is_empty d || is_some (blob s (get_hash d)))
unfolding contains
contains_ok s d b h = ground arith

pub get_ok :
    (s : MemStore) (d : DigestRef) (b : Bytes)
    → get s d ≡ ok b
    → (if is_empty d then some [] else blob s (get_hash d)) ≡ some b
unfolding get
get_ok s d b h = ground arith

pub get_not_found :
    (s : MemStore) (d : DigestRef)
    → get s d ≡ err not_found
    → (is_empty d ≡ false) × (blob s (get_hash d) ≡ none)
unfolding get
get_not_found s d h = ground arith

pub put_ok :
    (s s' : MemStore) (d : DigestRef) (b : Bytes)
    → put s d b ≡ (none, s')
    → (k : Bytes) → blob s' k ≡ (if hits d k then some b else blob s k)
unfolding put
put_ok s s' d b h k = ground (arith, lookup-insert (get_hash d) k b s.blobs)

pub put_any :
    (s : MemStore) (d : DigestRef) (b k : Bytes)
    → IsOldOrNew (blob (put s d b).1 k) (blob s k) (hits d k) b
unfolding put
put_any s d b k = ground (arith, lookup-insert (get_hash d) k b s.blobs)

pub put_stream_ok :
    (s s' : MemStore) (d : DigestRef) (n : ℤ) (r : Reads)
    → put_stream s d n r ≡ (none, s')
    → (k : Bytes) → blob s' k ≡ (if hits d k then some (flatten r.chunks) else blob s k)
unfolding put_stream
put_stream_ok s s' d n r h k =
    ground (arith, lookup-insert (get_hash d) k (flatten r.chunks) s.blobs)

pub put_stream_any :
    (s : MemStore) (d : DigestRef) (n : ℤ) (r : Reads) (k : Bytes)
    → IsOldOrNew (blob (put_stream s d n r).1 k) (blob s k) (hits d k) (flatten r.chunks)
unfolding put_stream
put_stream_any s d n r k = ground (arith, lookup-insert (get_hash d) k (flatten r.chunks) s.blobs)

pub get_no_panic : (s : MemStore) (d : DigestRef) → get s d ≢ panic
unfolding get
get_no_panic s d h = ground arith

slice-cut :
    (limit : ℤ) (offset : ℕ) (b : Bytes) → MemStore.cut limit (drop offset b) ≡ slice offset limit b
unfolding slice
slice-cut (pos zero) offset b = refl
slice-cut (pos (suc n)) offset b = elim (Bool-cases (ltb (suc n) (length (drop offset b)))) [
  | inl short ↦ rw short (ground arith)
  | inr long ↦ rw long (ground (arith, take-eq_self (suc n) (drop offset b)))
]
slice-cut (negsuc n) offset b = refl

drop-clamp :
    (offset : ℕ) (b : Bytes)
    → (if ltb (length b) offset then drop (length b) b else drop offset b) ≡ drop offset b
drop-clamp offset b = ground (arith, drop-length offset b, drop-length (length b) b)

reader_at_lem :
    (offset : ℕ) (limit : ℤ) (b : Bytes)
    → MemStore.reader_at (pos offset) limit b ≡ ok (bytes_reader (slice offset limit b))
unfolding MemStore.reader_at
reader_at_lem offset limit b =
    ground (arith, slice-cut limit offset b, slice-cut limit (length b) b, drop-clamp offset b)

pub reader_ok :
    (s : MemStore) (d : DigestRef) (offset : ℕ) (limit : ℤ) (r : Reader)
    → reader s d (pos offset) limit ≡ ok r
    → (n : ℕ) → 0 < n
    → (r n).error ≡ none
    → (b : Bytes) × ((if is_empty d then some [] else blob s (get_hash d)) ≡ some b)
      × (flatten (r n).chunks ≡ slice offset limit b)
unfolding reader
reader_ok s d offset limit r h n p e =
    let (b, g, q) = >>=-eq-ok (get s d) (MemStore.reader_at (pos offset) limit) h in
    let same : bytes_reader (slice offset limit b) ≡ r = cc (reader_at_lem offset limit b) in
    (
      b,
      get_ok s d b g,
      subst (λ t. flatten (t n).chunks ≡ slice offset limit b) same
          (flatten-chunks_of n (slice offset limit b) p),
    )

reader_at_negative :
    (o : ℕ) (limit : ℤ) (b : Bytes) (r : Reader) → MemStore.reader_at (negsuc o) limit b ≢ ok r
unfolding MemStore.reader_at
reader_at_negative o limit b r h = cc

-- A reader comes of an offset that is not negative.
reader_at-eq-ok :
    (offset limit : ℤ) (b : Bytes) (r : Reader)
    → MemStore.reader_at offset limit b ≡ ok r
    → (x : Bytes) × (r ≡ bytes_reader x)
reader_at-eq-ok (pos o) limit b r h = (slice o limit b, cc (reader_at_lem o limit b))
reader_at-eq-ok (negsuc o) limit b r h = absurd (reader_at_negative o limit b r h)

pub reader_fits :
    (s : MemStore) (d : DigestRef) (offset limit : ℤ) (r : Reader)
    → reader s d offset limit ≡ ok r
    → (n : ℕ) → 0 < n
    → All (λ c. length c ≤ n) (r n).chunks
unfolding reader
reader_fits s d offset limit r h n p =
    let (b, g, q) = >>=-eq-ok (get s d) (MemStore.reader_at offset limit) h in
    let (x, e) = reader_at-eq-ok offset limit b r q in
    subst (λ t. All (λ c. length c ≤ n) (t n).chunks) (sym e)
      (All-imp _ _ (chunks_of n x) (λ c k. k.1) (chunks_of-IsChunked n x p))

module _ (codec : Codec ActionResult) where
  abbrev pub decode_some : Option Bytes → Option ActionResult
  decode_some none = none
  decode_some (some b) = codec.unmarshal b

  abbrev pub cached : MemStore → Bytes → Option ActionResult
  cached m k = decode_some (lookup k m.action)

  pub get_action_result_no_panic :
      (s : MemStore) (d : DigestRef) → get_action_result codec s d ≢ panic
  unfolding get_action_result
  get_action_result_no_panic s d h = ground arith

  pub get_action_result_ok :
      (s : MemStore) (d : DigestRef) (ar : ActionResult)
      → get_action_result codec s d ≡ ok ar
      → cached s (get_hash d) ≡ some ar
  unfolding get_action_result
  get_action_result_ok s d ar h = ground arith

  pub get_action_result_not_found :
      (s : MemStore) (d : DigestRef)
      → get_action_result codec s d ≡ err not_found
      → cached s (get_hash d) ≡ none
  unfolding get_action_result
  get_action_result_not_found s d h = ground arith

  pub put_action_result_ok :
      (s s' : MemStore) (d : DigestRef) (ar : ActionResult)
      → put_action_result codec s d ar ≡ (none, s')
      → (k : Bytes) → cached s' k ≡ (if bytes_eq (get_hash d) k then some ar else cached s k)
  unfolding put_action_result
  put_action_result_ok s s' d ar h k = elim (Option-cases (codec.marshal ar)) [
    | inl e ↦ ground arith
    | inr (b, e) ↦
        ground (arith, e, codec.round_trip ar b e, lookup-insert (get_hash d) k b s.action)
  ]

  pub put_action_result_any :
      (s : MemStore) (d : DigestRef) (ar : ActionResult) (k : Bytes)
      → IsOldOrNew
          (cached (put_action_result codec s d ar).1 k)
          (cached s k)
          (bytes_eq (get_hash d) k)
          ar
  unfolding put_action_result
  put_action_result_any s d ar k = elim (Option-cases (codec.marshal ar)) [
    | inl e ↦ rw e (inl refl)
    | inr (b, e) ↦
        ground (arith, e, codec.round_trip ar b e, lookup-insert (get_hash d) k b s.action)
  ]

  pub put_action_result_blob :
      (s : MemStore) (d : DigestRef) (ar : ActionResult) (k : Bytes)
      → blob (put_action_result codec s d ar).1 k ≡ blob s k
  unfolding put_action_result
  put_action_result_blob s d ar k = ground arith

  -- The in-memory store implements the interface `Store`.
  abbrev pub mem_store : Store
  mem_store = record {
    State = MemStore;
    contains = contains;
    get = get;
    reader = reader;
    put = put;
    put_stream = put_stream;
    get_action_result = get_action_result codec;
    put_action_result = put_action_result codec;
    blob = blob;
    cached = cached;
    IsName = λ k. Unit {0};
    valid_IsName = λ d v. tt;
    contains_ok = contains_ok;
    get_ok = get_ok;
    get_not_found = get_not_found;
    get_no_panic = get_no_panic;
    get_action_result_no_panic = get_action_result_no_panic;
    reader_ok = λ s d offset limit r fits. reader_ok s d offset limit r;
    reader_fits = reader_fits;
    put_ok = λ s s' d b name h k name'. put_ok s s' d b h k;
    put_any = λ s d b k name name'. put_any s d b k;
    put_stream_ok = λ s s' d n r name h k name'. put_stream_ok s s' d n r h k;
    put_stream_any = λ s d n r k name name'. put_stream_any s d n r k;
    get_action_result_ok = get_action_result_ok;
    get_action_result_not_found = get_action_result_not_found;
    put_action_result_ok = λ s s' d ar name h k name'. put_action_result_ok s s' d ar h k;
    put_action_result_any = λ s d ar k name name'. put_action_result_any s d ar k;
    put_action_result_blob = λ s d ar k name name'. put_action_result_blob s d ar k;
  }
