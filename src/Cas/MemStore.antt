-- ===== src/Cas/MemStore.antt =====
-- internal/cas/memstore.go: the in-memory store. A method runs under the lock of its store, and the
-- slices that go in and out are copied, so a method is a function of the two maps.
pub mod Laws
use aws_build_farm.Prelude.{
  ltb, if◌then◌else◌, is_some, length, take, drop, ℤ, pos, negsuc, ltb_ℤ, Bytes, codes, Result, ok,
  err, panic, ◌>>=◌, Bool, true, ◌&&◌, Option, none, some, [],
}
use aws_build_farm.Prelude.Dict.{Dict, lookup, insert}
use aws_build_farm.Digest.{DigestRef, get_hash, is_empty}
use aws_build_farm.Proto.{ActionResult, Codec}
use aws_build_farm.Cas.Reader.{
  StoreError, not_found, failure, Reads, Reader, bytes_reader, read_all,
}

pub record MemStore : Type 0 where
  pub blobs : Dict Bytes
  pub action : Dict Bytes

abbrev pub new_mem_store : MemStore
new_mem_store = record { blobs = []; action = [] }

unfoldable pub contains : MemStore → DigestRef → Bool × Option StoreError
contains m d = if is_empty d then (true, none) else (is_some (lookup (get_hash d) m.blobs), none)

abbrev found : {A : Type 0} → Option A → Result StoreError A
found none = err not_found
found (some b) = ok b

unfoldable pub get : MemStore → DigestRef → Result StoreError Bytes
get m d = if is_empty d then ok [] else found (lookup (get_hash d) m.blobs)

-- `b[offset:]`, which panics at a negative offset; the caller has cut the offset to the length.
abbrev slice_from : ℤ → Bytes → Result StoreError Bytes
slice_from (pos n) b = ok (drop n b)
slice_from (negsuc n) b = panic

-- `if limit > 0 && limit < int64(len(b)) { b = b[:limit] }`
abbrev cut : ℤ → Bytes → Bytes
cut (pos n) b = if ltb 0 n && ltb n (length b) then take n b else b
cut (negsuc n) b = b

-- The content from the offset on, cut to its end, and then cut to the limit.
unfoldable pub reader_at : ℤ → ℤ → Bytes → Result StoreError Reader
reader_at offset limit b =
    let offset' = if ltb_ℤ (pos (length b)) offset then pos (length b) else offset in
    slice_from offset' b >>= λ rest. ok (bytes_reader (cut limit rest))

unfoldable pub reader : MemStore → DigestRef → ℤ → ℤ → Result StoreError Reader
unfolding reader_at
reader m d offset limit = get m d >>= reader_at offset limit

unfoldable pub put : MemStore → DigestRef → Bytes → Option StoreError × MemStore
put m d b =
    if is_empty d then (none, m) else (none, record m { blobs = insert (get_hash d) b m.blobs })

abbrev put_read : MemStore → DigestRef → Bytes × Option StoreError → Option StoreError × MemStore
put_read m d (b, none) = put m d b
put_read m d (b, some e) = (some e, m)

unfoldable pub put_stream : MemStore → DigestRef → ℤ → Reads → Option StoreError × MemStore
unfolding put
put_stream m d size r = put_read m d (read_all r)

module _ (codec : Codec ActionResult) where
  abbrev decoded : Option ActionResult → Result StoreError ActionResult
  decoded none = err (failure (codes "unmarshal"))
  decoded (some ar) = ok ar

  unfoldable pub get_action_result : MemStore → DigestRef → Result StoreError ActionResult
  get_action_result m d = do b ← found (lookup (get_hash d) m.action); decoded (codec.unmarshal b)

  abbrev put_encoded : MemStore → DigestRef → Option Bytes → Option StoreError × MemStore
  put_encoded m d none = (some (failure (codes "marshal")), m)
  put_encoded m d (some b) = (none, record m { action = insert (get_hash d) b m.action })

  unfoldable pub put_action_result :
      MemStore → DigestRef → ActionResult → Option StoreError × MemStore
  put_action_result m d ar = put_encoded m d (codec.marshal ar)
