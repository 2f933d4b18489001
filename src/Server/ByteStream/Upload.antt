-- ===== src/Server/ByteStream/Upload.antt =====
-- What Write leaves in the store.
use aws_build_farm.Prelude.{
  if◌then◌else◌, Bool-cases, length, length-append, length_zero, >>=-eq-ok, ℤ, pos, eq_ℤ_iff, Bytes,
  ok, ℕ, ◌+◌, ◌≡◌, sym, ap, ◌∙◌, ◌⊎◌, inl, inr, true, false, Option, none, some, List, [], ◌∷◌,
  ◌++◌, flatten, append-nil, append_assoc, arith,
}
use mathlib.Core.Path.{subst}
use aws_build_farm.Digest.{Digest}
use aws_build_farm.Cas.Reader.{Reads}
use aws_build_farm.Cas.Interface.{Store, hits}
use aws_build_farm.Server.Resource.RoundTrip.{parse-valid}
use aws_build_farm.Server.Resource.{parse_write_resource}
use aws_build_farm.Server.Status.{Status}
use aws_build_farm.Server.ByteStream.{
  committed, RecvError, eof, WriteRequest, TempFile, Incoming, append_data, receive, store_upload,
  write_digest, write_messages, write,
}

-- The data of the messages, up to the first one that finishes the upload.
abbrev pub payload : List WriteRequest → Bytes
payload [] = []
payload (r ∷ rs) = if r.finish_write then r.content else r.content ++ payload rs

-- Each message with data, up to the one that finishes, says the offset at which its data belong.
abbrev pub IsContiguous : ℕ → List WriteRequest → Type 0
IsContiguous n [] = Unit
IsContiguous n (r ∷ rs) =
    ((length r.content ≡ 0) ⊎ (r.write_offset ≡ pos n))
    × ((r.finish_write ≡ true) ⊎ IsContiguous (n + length r.content) rs)

-- The upload ends: by a message that finishes it, or by the end of the messages.
abbrev pub IsEnded : RecvError → List WriteRequest → Type 0
IsEnded after [] = after ≡ eof
IsEnded after (r ∷ rs) = (r.finish_write ≡ true) ⊎ IsEnded after rs

pub record HasNoFault (tmp : TempFile) : Type 0 where
  pub created : tmp.create_fails ≡ false
  pub written : (n : ℕ) → tmp.write_fails n ≡ false
  pub rewound : tmp.seek_fails ≡ false
  pub read : tmp.read_error ≡ none

append_data-ok :
    (tmp : TempFile) (r : WriteRequest) (w x : Bytes)
    → append_data tmp r w ≡ ok x
    → x ≡ w ++ r.content
unfolding append_data
append_data-ok tmp r w x h = ground (arith, length_zero r.content, append-nil w)

append_data-accepts :
    (tmp : TempFile) (r : WriteRequest) (w : Bytes)
    → HasNoFault tmp
    → (length r.content ≡ 0) ⊎ (r.write_offset ≡ pos (length w))
    → append_data tmp r w ≡ ok (w ++ r.content)
unfolding append_data
append_data-accepts tmp r w f h = ground (
  arith,
  length_zero r.content,
  append-nil w,
  f.written (length w),
  eq_ℤ_iff r.write_offset (pos (length w)),
)

-- What was received is the payload.
pub receive-payload :
    (tmp : TempFile) (after : RecvError) (r : WriteRequest) (rs : List WriteRequest) (w x : Bytes)
    → receive tmp after r rs w ≡ ok x
    → x ≡ w ++ payload (r ∷ rs)
unfolding receive
receive-payload tmp after r [] w x h =
    let (y, e, k) = >>=-eq-ok (append_data tmp r w) _ h in
    ground (arith, append_data-ok tmp r w y e, append-nil r.content)
receive-payload tmp after r (next ∷ more) w x h =
    let (y, e, k) = >>=-eq-ok (append_data tmp r w) _ h in
    ground (
      arith,
      append_data-ok tmp r w y e,
      receive-payload tmp after next more y x,
      append_assoc w r.content (payload (next ∷ more)),
    )

receive-accepts :
    (tmp : TempFile) (after : RecvError) (r : WriteRequest) (rs : List WriteRequest) (w : Bytes)
    → HasNoFault tmp
    → IsContiguous (length w) (r ∷ rs)
    → IsEnded after (r ∷ rs)
    → receive tmp after r rs w ≡ ok (w ++ payload (r ∷ rs))
unfolding receive
receive-accepts tmp after r [] w f (here, c) e =
    rw (append_data-accepts tmp r w f here) (ground (arith, append-nil r.content))
receive-accepts tmp after r (next ∷ more) w f (here, c) e =
    rw (append_data-accepts tmp r w f here) (elim (Bool-cases r.finish_write) [
      | inl done ↦ rw done
      | inr going ↦
          let tail =
            receive-accepts tmp after next more (w ++ r.content) f
              (subst (λ n. IsContiguous n (next ∷ more)) (sym (length-append w r.content))
                (going_on going c))
              (going_on going e) in
          rw going (tail ∙ ap ok (append_assoc w r.content (payload (next ∷ more))))
    ])
  where
    going_on : {B : Type 0} → r.finish_write ≡ false → (r.finish_write ≡ true) ⊎ B → B
    going_on p (inl q) = cc
    going_on p (inr b) = b

pub committed-ok : (e : Option Status) (n m : ℤ) → committed e n ≡ ok m → n ≡ m
unfolding committed
committed-ok e n m h = ground arith

module _ (st : Store) where
  -- What the handler relies on of the messages: a first one, whose name is that of the digest.
  abbrev pub IsFor : Digest → List WriteRequest → Type 0
  IsFor d [] = ⊥
  IsFor d (r ∷ rs) = parse_write_resource r.resource_name ≡ ok d

  abbrev pub file : TempFile → Bytes → Reads
  file tmp w = record { chunks = w ∷ []; error = tmp.read_error }

  pub flatten_one : (w : Bytes) → flatten (w ∷ []) ≡ w
  unfolding flatten
  flatten_one w = append-nil w

  -- The hash of such a digest is one that the store keeps apart.
  pub IsFor-IsName : (d : Digest) (ms : List WriteRequest) → IsFor d ms → st.IsName d.hash
  IsFor-IsName d [] for = absurd for
  IsFor-IsName d (r ∷ rs) for = st.valid_IsName d (parse-valid r.resource_name d (inr for))

  pub blob-stored :
      (s : st.State) (tmp : TempFile) (d : Digest) (w k : Bytes)
      → let stored = st.put_stream s (some d) (pos (length w)) (file tmp w) in
        st.IsName d.hash
        → st.IsName k
        → stored.0 ≡ none
        → st.blob stored.1 k ≡ (if hits (some d) k then some w else st.blob s k)
  blob-stored s tmp d w k named named' h =
      let stored = st.put_stream s (some d) (pos (length w)) (file tmp w) in
      rw flatten_one at (
        st.put_stream_ok s stored.1 (some d) (pos (length w)) (file tmp w) named
          (λ i. (h i, stored.1)) k named')

  store_upload-ok :
      (s : st.State) (tmp : TempFile) (incoming : Incoming) (d : Digest) (w : Bytes)
      → HasNoFault tmp
      → incoming.close_error ≡ none
      → d.size_bytes ≡ pos (length w)
      → (st.put_stream s (some d) (pos (length w)) (file tmp w)).0 ≡ none
      → store_upload st s tmp incoming d w
        ≡ (ok (pos (length w)), (st.put_stream s (some d) (pos (length w)) (file tmp w)).1)
  unfolding store_upload
  store_upload-ok s tmp incoming d w f close size stored =
      rw ((eq_ℤ_iff (pos (length w)) d.size_bytes).1 (sym size), f.rewound, stored, store_upload)
        (rw close)

  write-eq :
      (s : st.State) (tmp : TempFile) (incoming : Incoming) (d : Digest) (ms : List WriteRequest)
      → IsFor d ms
      → HasNoFault tmp
      → IsContiguous 0 ms
      → IsEnded incoming.after ms
      → write_messages st s tmp incoming ms ≡ store_upload st s tmp incoming d (payload ms)
  unfolding write_messages write_digest
  write-eq s tmp incoming d [] for f c e = absurd for
  write-eq s tmp incoming d (r ∷ rs) for f c e =
      rw (for, write_messages)
        (rw (f.created, receive-accepts tmp incoming.after r rs [] f c e, write_digest))

  -- Write, of messages that are for a digest and contiguous, that end, and whose data have the size
  -- that the digest declares, with no fault of the temporary file, the store or the connection,
  -- answers with the size; the store then holds the data under the hash, unless it is the empty
  -- digest, and every other blob, under a name that the store keeps apart, is as before.
  pub write-stores :
      (s : st.State) (tmp : TempFile) (incoming : Incoming) (d : Digest)
      → IsFor d incoming.messages
      → HasNoFault tmp
      → IsContiguous 0 incoming.messages
      → IsEnded incoming.after incoming.messages
      → incoming.close_error ≡ none
      → d.size_bytes ≡ pos (length (payload incoming.messages))
      → (st.put_stream s
          (some d)
          d.size_bytes
          (record { chunks = payload incoming.messages ∷ []; error = none })).0
        ≡ none
      → let (answer, s') = write st s tmp incoming in
        (answer ≡ ok d.size_bytes)
        × ((k : Bytes)
            → st.IsName k
            → st.blob s' k
              ≡ (if hits (some d) k then some (payload incoming.messages) else st.blob s k))
  unfolding write
  write-stores s tmp incoming d for f c e close size stored =
      let w = payload incoming.messages in
      let stored' : (st.put_stream s (some d) (pos (length w)) (file tmp w)).0 ≡ none =
        rw (← size, f.read) stored in
      let done =
        write-eq s tmp incoming d incoming.messages for f c e
        ∙ store_upload-ok s tmp incoming d w f close size stored' in
      rw done (
        ap ok (sym size),
        λ k named. blob-stored s tmp d w k (IsFor-IsName d incoming.messages for) named stored',
      )
