-- ===== src/Cas/S3.antt =====
-- The parts of the S3 API and of its upload manager that internal/cas/cas.go calls, as a parameter: the
-- operations, and what is documented of them. The buckets are disjoint spaces of objects under keys.
use aws_build_farm.Prelude.{
  if◌then◌else◌, is_some, length, take, drop, All, ℤ, pos, Bytes, codes, bytes_eq, ℕ, suc, ◌+◌, ◌≤◌,
  ◌<◌, ◌≡◌, ◌⊎◌, inl, inr, Bool, true, ◌||◌, Option, none, some, List, ◌++◌, flatten,
}
use aws_build_farm.GoText.Decimal.{show_int}
use aws_build_farm.Cas.Reader.{Reads}
use aws_build_farm.Cas.Interface.{IsOldOrNew}

-- An error of the client: the two types of errors that stand for an absent object, any other error of the
-- API by its code, or an error that is not of the API.
pub data S3Error : Type 0 where
  no_such_key : Bytes → S3Error
  not_found_type : Bytes → S3Error
  api_error : Bytes → Bytes → S3Error
  other_error : Bytes → S3Error

-- The body of an answer, read with a buffer of the given size: the data, and the error that ends them.
pub record Body : Type 0 where
  pub chunks : ℕ → List Bytes
  pub error : Option Bytes

-- The values of the header `Range` that the program sends: from an offset on, or between two offsets.
abbrev pub range_from : ℤ → Bytes
range_from offset = codes "bytes=" ++ (show_int offset ++ codes "-")

abbrev pub range_between : ℤ → ℤ → Bytes
range_between offset last = codes "bytes=" ++ (show_int offset ++ (codes "-" ++ show_int last))

-- The codes that say that an object is absent.
abbrev pub is_absent_code : Bytes → Bool
is_absent_code c =
    bytes_eq c (codes "NoSuchKey") || bytes_eq c (codes "NotFound") || bytes_eq c (codes "404")

-- The errors that say that an object is absent.
abbrev pub IsAbsent : S3Error → Type 0
IsAbsent (no_such_key text) = Unit
IsAbsent (not_found_type text) = Unit
IsAbsent (api_error code text) = is_absent_code code ≡ true
IsAbsent (other_error text) = ⊥

-- `object` is the content: an object by its bucket and its key. A range is answered with the bytes at the
-- offsets that it names, of those that the object has. A body is read to its end in pieces that fit the buffer.
pub record S3 : Type 1 where
  pub State : Type 0
  pub head_object : State → Bytes → Bytes → Option S3Error
  pub get_object : State → Bytes → Bytes → Option Bytes → S3Error ⊎ Body
  pub put_object : State → Bytes → Bytes → Bytes → Option S3Error × State
  pub upload : State → Bytes → Bytes → Reads → Option S3Error × State
  pub object : State → Bytes → Bytes → Option Bytes
  pub head_found :
      (s : State) (bucket k : Bytes)
      → head_object s bucket k ≡ none
      → is_some (object s bucket k) ≡ true
  pub head_absent :
      (s : State) (bucket k : Bytes) (e : S3Error)
      → head_object s bucket k ≡ some e
      → IsAbsent e
      → object s bucket k ≡ none
  pub get_absent :
      (s : State) (bucket k : Bytes) (range : Option Bytes) (e : S3Error)
      → get_object s bucket k range ≡ inl e
      → IsAbsent e
      → object s bucket k ≡ none
  pub get_whole :
      (s : State) (bucket k : Bytes) (body : Body)
      → get_object s bucket k none ≡ inr body
      → (n : ℕ) → 0 < n
      → body.error ≡ none
      → object s bucket k ≡ some (flatten (body.chunks n))
  pub get_from :
      (s : State) (bucket k : Bytes) (offset : ℕ) (body : Body)
      → get_object s bucket k (some (range_from (pos offset))) ≡ inr body
      → (n : ℕ) → 0 < n
      → body.error ≡ none
      → (b : Bytes) × (object s bucket k ≡ some b) × (flatten (body.chunks n) ≡ drop offset b)
  pub get_between :
      (s : State) (bucket k : Bytes) (offset count : ℕ) (body : Body)
      → get_object s bucket k (some (range_between (pos offset) (pos (offset + count)))) ≡ inr body
      → (n : ℕ) → 0 < n
      → body.error ≡ none
      → (b : Bytes) × (object s bucket k ≡ some b)
        × (flatten (body.chunks n) ≡ take (suc count) (drop offset b))
  pub body_fits :
      (s : State) (bucket k : Bytes) (range : Option Bytes) (body : Body)
      → get_object s bucket k range ≡ inr body
      → (n : ℕ) → 0 < n
      → All (λ c. length c ≤ n) (body.chunks n)
  pub put_done :
      (s s' : State) (bucket k b : Bytes)
      → put_object s bucket k b ≡ (none, s')
      → (j : Bytes) → object s' bucket j ≡ (if bytes_eq k j then some b else object s bucket j)
  pub put_tried :
      (s : State) (bucket k b j : Bytes)
      → IsOldOrNew
          (object (put_object s bucket k b).1 bucket j)
          (object s bucket j)
          (bytes_eq k j)
          b
  pub upload_done :
      (s s' : State) (bucket k : Bytes) (r : Reads)
      → upload s bucket k r ≡ (none, s')
      → (j : Bytes)
      → object s' bucket j ≡ (if bytes_eq k j then some (flatten r.chunks) else object s bucket j)
  pub upload_tried :
      (s : State) (bucket k : Bytes) (r : Reads) (j : Bytes)
      → IsOldOrNew
          (object (upload s bucket k r).1 bucket j)
          (object s bucket j)
          (bytes_eq k j)
          (flatten r.chunks)
