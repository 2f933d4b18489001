-- ===== src/Cas/Interface.antt =====
-- The interface `Store` of internal/cas/cas.go: its operations, and the laws that clients rely on.
-- A store's reads are functions of its state, whose transient failures are part of that state.
use aws_build_farm.Prelude.{
  ◌^◌, ◌+◌, if◌then◌else◌, is_some, length, take, drop, All, ℤ, pos, negsuc, Bytes, bytes_eq,
  Result, ok, err, panic, ℕ, zero, suc, ◌≤◌, ◌<◌, ◌≡◌, ◌≢◌, ◌⊎◌, Bool, true, false, not, ◌&&◌, ◌||◌,
  Option, none, some, [], flatten,
}
use aws_build_farm.Digest.{Digest, validate, DigestRef, get_hash, is_empty}
use aws_build_farm.Proto.{ActionResult}
use aws_build_farm.Cas.Reader.{StoreError, not_found, Reads, Reader}

-- The bytes that a read asks for: from the offset on, as many as a positive limit says.
unfoldable pub slice : ℕ → ℤ → Bytes → Bytes
slice offset (pos zero) b = drop offset b
slice offset (pos (suc n)) b = take (suc n) (drop offset b)
slice offset (negsuc n) b = drop offset b

-- What a key holds after a write of `v` was tried, which may have failed: the old value or, if the
-- write was of this key, the new one.
abbrev pub IsOldOrNew : {A : Type 0} → Option A → Option A → Bool → A → Type 0
IsOldOrNew after before hit v = (after ≡ before) ⊎ ((hit ≡ true) × (after ≡ some v))

-- The key that a write of a blob changes.
abbrev pub hits : DigestRef → Bytes → Bool
hits d k = not (is_empty d) && bytes_eq (get_hash d) k

-- The bytes that a read asks for end within an `int64`.
abbrev pub IsInRange : ℕ → ℤ → Type 0
IsInRange offset (pos n) = offset + n ≤ 2 ^ 63
IsInRange offset (negsuc n) = Unit {0}

-- `IsName` holds of the hashes that a store keeps apart, among them those of all valid digests: the
-- content under other hashes may change with a write, or be the one of another hash.
-- `blob` and `cached` are the abstract content: the blobs by their hashes, and the results of
-- actions by the hashes of the actions.
pub record Store : Type 1 where
  pub State : Type 0
  pub contains : State → DigestRef → Bool × Option StoreError
  pub get : State → DigestRef → Result StoreError Bytes
  pub reader : State → DigestRef → ℤ → ℤ → Result StoreError Reader
  pub put : State → DigestRef → Bytes → Option StoreError × State
  pub put_stream : State → DigestRef → ℤ → Reads → Option StoreError × State
  pub get_action_result : State → DigestRef → Result StoreError ActionResult
  pub put_action_result : State → DigestRef → ActionResult → Option StoreError × State
  pub blob : State → Bytes → Option Bytes
  pub cached : State → Bytes → Option ActionResult
  pub IsName : Bytes → Type 0
  pub valid_IsName : (d : Digest) → validate (some d) ≡ none → IsName d.hash
  pub contains_ok :
      (s : State) (d : DigestRef) (b : Bool)
      → contains s d ≡ (b, none)
      → b ≡ (is_empty d || is_some (blob s (get_hash d)))
  pub get_ok :
      (s : State) (d : DigestRef) (b : Bytes)
      → get s d ≡ ok b
      → (if is_empty d then some [] else blob s (get_hash d)) ≡ some b
  pub get_not_found :
      (s : State) (d : DigestRef)
      → get s d ≡ err not_found
      → (is_empty d ≡ false) × (blob s (get_hash d) ≡ none)
  pub get_no_panic : (s : State) (d : DigestRef) → get s d ≢ panic
  pub get_action_result_no_panic : (s : State) (d : DigestRef) → get_action_result s d ≢ panic
  pub reader_ok :
      (s : State) (d : DigestRef) (offset : ℕ) (limit : ℤ) (r : Reader)
      → IsInRange offset limit
      → reader s d (pos offset) limit ≡ ok r
      → (n : ℕ) → 0 < n
      → (r n).error ≡ none
      → (b : Bytes) × ((if is_empty d then some [] else blob s (get_hash d)) ≡ some b)
        × (flatten (r n).chunks ≡ slice offset limit b)
  pub reader_fits :
      (s : State) (d : DigestRef) (offset limit : ℤ) (r : Reader)
      → reader s d offset limit ≡ ok r
      → (n : ℕ) → 0 < n
      → All (λ c. length c ≤ n) (r n).chunks
  pub put_ok :
      (s s' : State) (d : DigestRef) (b : Bytes)
      → IsName (get_hash d)
      → put s d b ≡ (none, s')
      → (k : Bytes) → IsName k
      → blob s' k ≡ (if hits d k then some b else blob s k)
  pub put_any :
      (s : State) (d : DigestRef) (b k : Bytes)
      → IsName (get_hash d)
      → IsName k
      → IsOldOrNew (blob (put s d b).1 k) (blob s k) (hits d k) b
  pub put_stream_ok :
      (s s' : State) (d : DigestRef) (n : ℤ) (r : Reads)
      → IsName (get_hash d)
      → put_stream s d n r ≡ (none, s')
      → (k : Bytes) → IsName k
      → blob s' k ≡ (if hits d k then some (flatten r.chunks) else blob s k)
  pub put_stream_any :
      (s : State) (d : DigestRef) (n : ℤ) (r : Reads) (k : Bytes)
      → IsName (get_hash d)
      → IsName k
      → IsOldOrNew (blob (put_stream s d n r).1 k) (blob s k) (hits d k) (flatten r.chunks)
  pub get_action_result_ok :
      (s : State) (d : DigestRef) (ar : ActionResult)
      → get_action_result s d ≡ ok ar
      → cached s (get_hash d) ≡ some ar
  pub get_action_result_not_found :
      (s : State) (d : DigestRef)
      → get_action_result s d ≡ err not_found
      → cached s (get_hash d) ≡ none
  pub put_action_result_ok :
      (s s' : State) (d : DigestRef) (ar : ActionResult)
      → IsName (get_hash d)
      → put_action_result s d ar ≡ (none, s')
      → (k : Bytes) → IsName k
      → cached s' k ≡ (if bytes_eq (get_hash d) k then some ar else cached s k)
  pub put_action_result_any :
      (s : State) (d : DigestRef) (ar : ActionResult) (k : Bytes)
      → IsName (get_hash d)
      → IsName k
      → IsOldOrNew (cached (put_action_result s d ar).1 k) (cached s k) (bytes_eq (get_hash d) k) ar
  pub put_action_result_blob :
      (s : State) (d : DigestRef) (ar : ActionResult) (k : Bytes)
      → IsName (get_hash d)
      → IsName k
      → blob (put_action_result s d ar).1 k ≡ blob s k

module _ (st : Store) where
  -- The hash of a digest that `Validate` accepts is such a name.
  pub validate-IsName : (d : DigestRef) → validate d ≡ none → st.IsName (get_hash d)
  unfolding validate
  validate-IsName none v = cc
  validate-IsName (some d) v = st.valid_IsName d v
