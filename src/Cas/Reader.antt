-- ===== src/Cas/Reader.antt =====
-- `io.Reader` as the reads that it answers, `bytes.NewReader`, and `io.ReadAll`.
use aws_build_farm.Prelude.Chunks.{chunks_of}
use aws_build_farm.Prelude.{Bytes, ℕ, Option, none, List, flatten}

-- `cas.ErrNotFound`, or any other error, known by its text.
pub data StoreError : Type 0 where
  not_found : StoreError
  failure : Bytes → StoreError

-- The data of the reads that succeed, and how the sequence ends: `none` is `io.EOF`.
pub record Reads : Type 0 where
  pub chunks : List Bytes
  pub error : Option StoreError

-- A reader, read with a buffer of the given size until its end.
abbrev pub Reader : Type 0
Reader = ℕ → Reads

-- `bytes.NewReader(b)`: each read fills the buffer while data is left.
abbrev pub bytes_reader : Bytes → Reader
bytes_reader b n = record { chunks = chunks_of n b; error = none }

-- `io.ReadAll`: the data read, and the error that ended it.
abbrev pub read_all : Reads → Bytes × Option StoreError
read_all r = (flatten r.chunks, r.error)
