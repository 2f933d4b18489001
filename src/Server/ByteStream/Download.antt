-- ===== src/Server/ByteStream/Download.antt =====
-- What Read sends to a client.
use aws_build_farm.Prelude.{
  length, All, ℤ, pos, Bytes, ok, ℕ, ◌≤◌, ◌<◌, ◌≡◌, refl, ap, ◌∙◌, none, some, List, [], ◌∷◌, ◌++◌,
  flatten, append-nil, append_assoc, arith,
}
use aws_build_farm.Digest.{Digest, DigestRef}
use aws_build_farm.Cas.Reader.{Reader}
use aws_build_farm.Cas.Interface.{IsInRange, Store, slice}
use aws_build_farm.Server.Resource.{parse_read_resource}
use aws_build_farm.Server.Status.{Stream, send_ok, IsReliable}
use aws_build_farm.Server.Blobs.Batch.{content}
use aws_build_farm.Server.ByteStream.{read_chunk_size, send_chunks, read_digest, read}

-- The pieces that carry data.
abbrev nonempty : List Bytes → List Bytes
nonempty [] = []
nonempty ([] ∷ cs) = nonempty cs
nonempty ((x ∷ c) ∷ cs) = (x ∷ c) ∷ nonempty cs

flatten-nonempty : (cs : List Bytes) → flatten (nonempty cs) ≡ flatten cs
unfolding flatten
flatten-nonempty [] = refl
flatten-nonempty ([] ∷ cs) = flatten-nonempty cs
flatten-nonempty ((x ∷ c) ∷ cs) = ap (λ t. (x ∷ c) ++ t) (flatten-nonempty cs)

nonempty-fits :
    (n : ℕ) (cs : List Bytes)
    → All (λ c. length c ≤ n) cs
    → All (λ c. (0 < length c) × (length c ≤ n)) (nonempty cs)
nonempty-fits n [] h = tt
nonempty-fits n ([] ∷ cs) h = nonempty-fits n cs h.1
nonempty-fits n ((x ∷ c) ∷ cs) h = ((omega arith, h.0), nonempty-fits n cs h.1)

-- To a reliable client the loop sends the pieces that carry data, in order.
send_chunks-sent :
    (d : DigestRef) (cs : List Bytes) (s : Stream Bytes)
    → IsReliable s
    → send_chunks d cs none s ≡ (ok tt, record s { sent = s.sent ++ nonempty cs })
unfolding send_chunks
send_chunks-sent d [] s h = rw append-nil
send_chunks-sent d ([] ∷ cs) s h = send_chunks-sent d cs s h
send_chunks-sent d ((x ∷ c) ∷ cs) s h =
    let s' : Stream Bytes = record s { sent = s.sent ++ (x ∷ c) ∷ [] } in
    let sent = send_ok s (x ∷ c) (h (length s.sent)) in
    rw (ap (λ p. p.0) sent, send_chunks)
      (rw (ap (λ p. p.1) sent) (rw (send_chunks-sent d cs s' h) (rw append_assoc)))

module _ (st : Store) where
  read_sent :
      (s : st.State) (name : Bytes) (offset limit : ℤ) (stream : Stream Bytes) (d : Digest)
      (r : Reader)
      → parse_read_resource name ≡ ok d
      → st.reader s (some d) offset limit ≡ ok r
      → (r read_chunk_size).error ≡ none
      → IsReliable stream
      → read st s name offset limit stream
        ≡ (ok tt, record stream { sent = stream.sent ++ nonempty (r read_chunk_size).chunks })
  unfolding read
  read_sent s name offset limit stream d r hp hr he hs =
      rw (hp, read)
        (rw (hr, read_digest)
          (rw he (send_chunks-sent (some d) (r read_chunk_size).chunks stream hs)))

  -- Read, of bytes that end within an `int64`, from an offset that is not negative, of a name that parses, by a store whose reader does not
  -- fail, to a client that stays connected: the handler returns no error, and the messages are
  -- non-empty, of at most 1 MiB, and make up the slice of the stored blob that the offset and the
  -- limit ask for.
  pub read-sends_slice :
      (s : st.State) (name : Bytes) (offset : ℕ) (limit : ℤ) (stream : Stream Bytes) (d : Digest)
      (r : Reader)
      → IsInRange offset limit
      → parse_read_resource name ≡ ok d
      → st.reader s (some d) (pos offset) limit ≡ ok r
      → (r read_chunk_size).error ≡ none
      → IsReliable stream
      → stream.sent ≡ []
      → let answer = read st s name (pos offset) limit stream in
        (answer.0 ≡ ok tt)
        × All (λ c. (0 < length c) × (length c ≤ read_chunk_size)) answer.1.sent
        × ((b : Bytes) × (content st s (some d) ≡ some b)
            × (flatten answer.1.sent ≡ slice offset limit b))
  read-sends_slice s name offset limit stream d r within hp hr he hs empty =
      let positive : 0 < read_chunk_size = omega arith in
      let (b, held, same) =
        st.reader_ok s (some d) offset limit r within hr read_chunk_size positive he in
      let fits = st.reader_fits s (some d) (pos offset) limit r hr read_chunk_size positive in
      rw (read_sent s name (pos offset) limit stream d r hp hr he hs) (
        rw empty (
          refl,
          nonempty-fits read_chunk_size (r read_chunk_size).chunks fits,
          (b, held, flatten-nonempty (r read_chunk_size).chunks ∙ same),
        ))
