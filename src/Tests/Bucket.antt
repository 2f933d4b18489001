-- ===== src/Tests/Bucket.antt =====
-- The store over a bucket in memory, and the theorems about it.
use mathlib.Core.Path.{subst}
use aws_build_farm.Prelude.{
  if◌then◌else◌, Bool-cases, is_some, length, All, All-imp, pos, negsuc, Bytes, codes, bytes_eq, ok,
  ℕ, ◌+◌, ◌-◌, ◌^◌, ◌≤◌, ◌<◌, ◌≡◌, refl, sym, ap, ◌∙◌, ◌⊎◌, inl, inr, true, Option, none, some, [],
  ◌∷◌, flatten, arith,
}
use aws_build_farm.GoText.Hex.{encode, decode}
use aws_build_farm.GoText.Split.{split_on, join_on}
use aws_build_farm.GoText.Path.{path_join, clean, elements, render, push, join_with}
use aws_build_farm.GoText.Path.Plain.{IsPlain}
use aws_build_farm.Prelude.Dict.{Dict, lookup, insert, lookup-insert}
use aws_build_farm.Prelude.Chunks.{chunks_of, flatten-chunks_of, chunks_of-IsChunked}
use aws_build_farm.Digest.{Digest, from_bytes, validate, is_empty}
use aws_build_farm.Cas.Interface.{IsOldOrNew}
use aws_build_farm.Cas.MemStore
use aws_build_farm.Cas.MemStore.{new_mem_store}
use aws_build_farm.Cas.S3.{
  S3, S3Error, no_such_key, other_error, Body, IsAbsent, range_from, range_between,
}
use aws_build_farm.Cas.S3Store
use aws_build_farm.Cas.S3Store.{S3Store as S3Bucket, ac_key, byte_range}
use aws_build_farm.Cas.S3Store.Laws.{s3_store}
use aws_build_farm.Cas.S3Store.Bounds.{byte_range_lem}
use aws_build_farm.Cas.S3Store.Traversal.{climb}
use aws_build_farm.Server.Status.{status_ok}
use aws_build_farm.Server.Blobs.{batch_read_blobs, batch_update_blobs, put_one}
use aws_build_farm.Server.Blobs.Outside.{batch_read_blobs-outside}
use aws_build_farm.Server.Blobs.Agreement.{Agree, HasNoFailure, batch_update_blobs-Agree}
use aws_build_farm.Tests.Sample.{toy_sha, store, result_codec, hello}
use aws_build_farm.Tests.Blobs.{good_request}

abbrev head : Option Bytes → Option S3Error
head none = some (no_such_key [])
head (some b) = none

abbrev served : Bytes → Body
served b = record { chunks = λ n. chunks_of n b; error = none }

abbrev whole : Option Bytes → S3Error ⊎ Body
whole none = inl (no_such_key [])
whole (some b) = inr (served b)

-- Requests for a range are answered with an error of the connection.
abbrev object_get : Option Bytes → Option Bytes → S3Error ⊎ Body
object_get none o = whole o
object_get (some r) o = inl (other_error [])

inl-injective : {a b : S3Error} → ◌≡◌ {A = S3Error ⊎ Body} (inl a) (inl b) → a ≡ b
inl-injective h = cc

inr-injective : {a b : Body} → ◌≡◌ {A = S3Error ⊎ Body} (inr a) (inr b) → a ≡ b
inr-injective h = cc

pub head-found : (o : Option Bytes) → head o ≡ none → is_some o ≡ true
head-found none h = absurd (cc)
head-found (some b) h = refl

pub head-absent : (o : Option Bytes) (e : S3Error) → head o ≡ some e → o ≡ none
head-absent none e h = refl
head-absent (some b) e h = absurd (cc)

pub get-absent : (r o : Option Bytes) (e : S3Error) → object_get r o ≡ inl e → IsAbsent e → o ≡ none
get-absent none none e h a = refl
get-absent none (some b) e h a = absurd (cc)
get-absent (some r) o e h a = absurd (subst IsAbsent (sym (inl-injective {a = other_error []} h)) a)

pub get-whole :
    (o : Option Bytes) (body : Body)
    → object_get none o ≡ inr body
    → (n : ℕ) → 0 < n
    → o ≡ some (flatten (body.chunks n))
get-whole none body h n p = absurd (cc)
get-whole (some b) body h n p =
    ap (λ t. some t) (sym (flatten-chunks_of n b p))
    ∙ ap (λ (x : Body). some (flatten (x.chunks n))) (inr-injective {a = served b} h)

pub get-range : (r : Bytes) (o : Option Bytes) (body : Body) → object_get (some r) o ≡ inr body → ⊥
get-range r o body h = cc

pub body-fits :
    (r o : Option Bytes) (body : Body)
    → object_get r o ≡ inr body
    → (n : ℕ) → 0 < n
    → All (λ c. length c ≤ n) (body.chunks n)
body-fits none none body h n p = absurd (cc)
body-fits none (some b) body h n p =
    subst (λ (x : Body). All (λ c. length c ≤ n) (x.chunks n)) (inr-injective {a = served b} h)
      (All-imp (λ c. (0 < length c) × (length c ≤ n)) (λ c. length c ≤ n) (chunks_of n b)
        (λ c q. q.1) (chunks_of-IsChunked n b p))
body-fits (some r) o body h n p = absurd (cc)

pub tried :
    (s : Dict Bytes) (k b j : Bytes)
    → IsOldOrNew (lookup j (insert k b s)) (lookup j s) (bytes_eq k j) b
tried s k b j = elim (Bool-cases (bytes_eq k j)) [
  | inl hit ↦ inr (hit, lookup-insert k j b s ∙ ground (arith, hit))
  | inr miss ↦ inl (lookup-insert k j b s ∙ ground (arith, miss))
]

pub done :
    (s s' : Dict Bytes) (k b : Bytes)
    → ◌≡◌ {A = Option S3Error × Dict Bytes} (none, insert k b s) (none, s')
    → (j : Bytes) → lookup j s' ≡ (if bytes_eq k j then some b else lookup j s)
done s s' k b h j = ap (λ t. lookup j t.1) (sym h) ∙ lookup-insert k j b s

-- One bucket, whose writes succeed.
abbrev pub bucket : S3
bucket = record {
  State = Dict Bytes;
  head_object = λ s c k. head (lookup k s);
  get_object = λ s c k r. object_get r (lookup k s);
  put_object = λ s c k b. (none, insert k b s);
  upload = λ s c k r. (none, insert k (flatten r.chunks) s);
  object = λ s c k. lookup k s;
  head_found = λ s c k h. head-found (lookup k s) h;
  head_absent = λ s c k e h a. head-absent (lookup k s) e h;
  get_absent = λ s c k r e h a. get-absent r (lookup k s) e h a;
  get_whole = λ s c k body h n p fine. get-whole (lookup k s) body h n p;
  get_from = λ s c k offset body h n p fine.
      absurd (get-range (range_from (pos offset)) (lookup k s) body h);
  get_between = λ s c k offset count body h n p fine.
      absurd (get-range (range_between (pos offset) (pos (offset + count))) (lookup k s) body h);
  body_fits = λ s c k r body h n p. body-fits r (lookup k s) body h n p;
  put_done = λ s s' c k b h j. done s s' k b h j;
  put_tried = λ s c k b j. tried s k b j;
  upload_done = λ s s' c k r h j. done s s' k (flatten r.chunks) h j;
  upload_tried = λ s c k r j. tried s k (flatten r.chunks) j;
}

abbrev farm : S3Bucket
farm = record { bucket = codes "farm"; prefix = codes "v1" }

byte_range_lem_example :
    ((5 + 9 < 2 ^ 63) × (byte_range (pos 5) (pos 10) ≡ some (range_between (pos 5) (pos (5 + 9)))))
    ⊎ ((2 ^ 63 ≤ 5 + 9)
        × (byte_range (pos 5) (pos 10)
            ≡ some (range_between (pos 5) (negsuc (2 ^ 64 - 1 - (5 + 9))))))
byte_range_lem_example = byte_range_lem 5 9 (omega arith) (omega arith)

empty_stores-Agree : Agree store (s3_store bucket farm result_codec) new_mem_store []
unfolding lookup
empty_stores-Agree k named named' = refl

no_failure : HasNoFailure (batch_update_blobs toy_sha store new_mem_store (good_request ∷ [])).0
unfolding batch_update_blobs put_one validate decode from_bytes encode bytes_eq MemStore.put
    is_empty
no_failure = (λ h. cc, tt)

no_failure_s3 :
    HasNoFailure
      (batch_update_blobs toy_sha (s3_store bucket farm result_codec) [] (good_request ∷ [])).0
unfolding batch_update_blobs put_one validate decode from_bytes encode bytes_eq S3Store.put
    S3Store.put_stream is_empty
no_failure_s3 = (λ h. cc, tt)

batch_update_blobs-Agree_example :
    ((batch_update_blobs toy_sha store new_mem_store (good_request ∷ [])).0
      ≡ (batch_update_blobs toy_sha (s3_store bucket farm result_codec) [] (good_request ∷ [])).0)
    × Agree store
        (s3_store bucket farm result_codec)
        (batch_update_blobs toy_sha store new_mem_store (good_request ∷ [])).1
        (batch_update_blobs toy_sha (s3_store bucket farm result_codec) [] (good_request ∷ [])).1
batch_update_blobs-Agree_example =
    batch_update_blobs-Agree toy_sha store (s3_store bucket farm result_codec) new_mem_store []
      (good_request ∷ []) empty_stores-Agree no_failure no_failure_s3

abbrev action_digest : Digest
action_digest = record { hash = codes "abc"; size_bytes = pos 3 }

abbrev climbing_digest : Digest
climbing_digest = record { hash = climb (codes "abc"); size_bytes = pos 3 }

abbrev cached : Dict Bytes
cached = (codes "v1/ac/abc", hello) ∷ []

abc-IsPlain : IsPlain (codes "abc")
unfolding bytes_eq
abc-IsPlain = record {
  no_slash = (omega arith, (omega arith, (omega arith, tt)));
  not_empty = refl;
  not_dot = refl;
  not_dot_dot = refl;
}

kept :
    bucket.get_object cached farm.bucket (ac_key farm (some action_digest)) none
    ≡ inr (served hello)
unfolding ac_key path_join clean elements render push split_on join_with lookup bytes_eq join_on
kept = refl

batch_read_blobs-outside_example :
    (b : Bytes) × (lookup (ac_key farm (some action_digest)) cached ≡ some b)
    × (batch_read_blobs (s3_store bucket farm result_codec) cached (some climbing_digest ∷ [])
        ≡ ok (record { digest = some climbing_digest; content = b; status = status_ok } ∷ []))
batch_read_blobs-outside_example =
    batch_read_blobs-outside bucket farm result_codec cached climbing_digest action_digest
      (served hello) abc-IsPlain refl kept refl
