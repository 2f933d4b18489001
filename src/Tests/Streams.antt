-- ===== src/Tests/Streams.antt =====
-- Downloads and uploads, over the in-memory store.
use aws_build_farm.Prelude.{
  negsuc, panic, if◌then◌else◌, length, All, pos, Bytes, codes, bytes_eq, bytes_eq_iff, ok, ◌≤◌,
  ◌<◌, ◌≡◌, refl, ◌≢◌, inl, inr, true, false, none, some, List, [], ◌∷◌, ◌++◌, flatten, arith,
}
use aws_build_farm.Digest.{Digest, from_bytes, validate, is_empty}
use aws_build_farm.GoText.Hex.{encode, decode}
use aws_build_farm.GoText.Decimal.{show_int, parse_int}
use aws_build_farm.GoText.Split.{split_on, HasNoSlash}
use aws_build_farm.Cas.Reader.{bytes_reader}
use aws_build_farm.Cas.Interface.{hits, slice}
use aws_build_farm.Cas.MemStore.{MemStore, new_mem_store, put_stream, reader, reader_at, get}
use aws_build_farm.Prelude.Dict.{lookup}
use aws_build_farm.Server.Status.{Stream}
use aws_build_farm.Server.Blobs.Integrity.{IsIntact}
use aws_build_farm.Server.Blobs.Batch.{content}
use aws_build_farm.Server.Resource.{
  digest_from, blobs, uploads, parse_read_resource, parse_write_resource,
}
use aws_build_farm.Server.Resource.RoundTrip.{path, parse_resource-path, IsInstancePart}
use aws_build_farm.Server.ByteStream.{
  WriteRequest, TempFile, Incoming, eof, write, read, read_chunk_size,
}
use aws_build_farm.Server.ByteStream.Upload.{
  payload, IsContiguous, IsEnded, HasNoFault, IsFor, write-stores,
}
use aws_build_farm.Server.ByteStream.Unchecked.{read_negative_offset, write-not-IsIntact}
use aws_build_farm.Server.ByteStream.Outcomes.{IsUploaded, write-IsUploaded}
use aws_build_farm.Server.ByteStream.Download.{read-sends_slice}
use aws_build_farm.Tests.Sample.{result_codec, toy_sha, store, hello}

-- A hash of 64 digits that is not the one of `hello`, with its size.
abbrev target : Digest
target = record {
  hash = codes "0123456789abcdef0123456789abcdef0123456789abcdef0123456789abcdef";
  size_bytes = pos 5;
}

abbrev upload_name : Bytes
upload_name =
    codes "main/uploads/u1/blobs/0123456789abcdef0123456789abcdef0123456789abcdef0123456789abcdef/5"

abbrev first_part : WriteRequest
first_part = record {
  resource_name = upload_name;
  write_offset = pos 0;
  content = codes "he";
  finish_write = false;
}

abbrev second_part : WriteRequest
second_part = record {
  resource_name = [];
  write_offset = pos 2;
  content = codes "llo";
  finish_write = true;
}

abbrev parts : List WriteRequest
parts = first_part ∷ second_part ∷ []

abbrev incoming : Incoming
incoming = record { messages = parts; after = eof; close_error = none }

abbrev good_file : TempFile
good_file = record {
  create_fails = false;
  write_fails = λ n. false;
  seek_fails = false;
  read_error = none;
}

good_file-HasNoFault : HasNoFault good_file
good_file-HasNoFault = record { created = refl; written = λ n. refl; rewound = refl; read = refl }

parts-IsFor : IsFor store target parts
unfolding parse_write_resource split_on parse_int validate decode bytes_eq digest_from
parts-IsFor = refl

parts-IsContiguous : IsContiguous 0 parts
parts-IsContiguous = (inr refl, inr (inr refl, inl refl))

parts-IsEnded : IsEnded eof parts
parts-IsEnded = inr (inl refl)

parts_stored :
    (store.put_stream new_mem_store
      (some target)
      (pos 5)
      (record { chunks = payload parts ∷ []; error = none })).0
    ≡ none
unfolding put_stream is_empty
parts_stored = refl

write-stores_example :
    let (answer, s') = write store new_mem_store good_file incoming in
    (answer ≡ ok (pos 5))
    × ((k : Bytes)
        → store.IsName k
        → store.blob s' k
          ≡ (if hits (some target) k then some (payload parts) else store.blob new_mem_store k))
write-stores_example =
    write-stores store new_mem_store good_file incoming target parts-IsFor good_file-HasNoFault
      parts-IsContiguous parts-IsEnded refl refl parts_stored

write-IsUploaded_example :
    IsUploaded store new_mem_store parts (write store new_mem_store good_file incoming)
write-IsUploaded_example = write-IsUploaded store new_mem_store good_file incoming

target_not_empty : is_empty (some target) ≡ false
unfolding is_empty
target_not_empty = refl

bytes_differ : bytes_eq (from_bytes toy_sha (payload parts)).hash target.hash ≡ false
unfolding from_bytes encode bytes_eq
bytes_differ = refl

other_hash : (from_bytes toy_sha (payload parts)).hash ≢ target.hash
other_hash h =
    cc (bytes_differ, (bytes_eq_iff (from_bytes toy_sha (payload parts)).hash target.hash).1 h)

write-not-IsIntact_example :
    ((write store new_mem_store good_file incoming).0 ≡ ok (pos 5))
    × (¬ IsIntact toy_sha store (write store new_mem_store good_file incoming).1)
write-not-IsIntact_example =
    write-not-IsIntact toy_sha store new_mem_store good_file incoming target parts-IsFor
      good_file-HasNoFault parts-IsContiguous parts-IsEnded refl refl parts_stored target_not_empty
      other_hash

target_valid : validate (some target) ≡ none
unfolding validate decode
target_valid = refl

abbrev instance_parts : List Bytes
instance_parts = codes "main" ∷ codes "a" ∷ []

words_differ : All IsInstancePart instance_parts
words_differ =
    ((omega arith, λ h. cc, λ h. cc, λ h. cc), ((omega arith, λ h. cc, λ h. cc, λ h. cc), tt))

parse_resource-path_example :
    (parse_read_resource (path (instance_parts ++ blobs ∷ target.hash ∷ show_int (pos 5) ∷ []))
      ≡ ok target)
    × ((uuid : Bytes)
        → HasNoSlash uuid
        → parse_write_resource
            (path (instance_parts ++ uploads ∷ uuid ∷ blobs ∷ target.hash ∷ show_int (pos 5) ∷ []))
          ≡ ok target)
parse_resource-path_example =
    parse_resource-path instance_parts [] target words_differ tt target_valid (omega arith)

abbrev held : MemStore
held = record { blobs = (target.hash, hello) ∷ []; action = [] }

abbrev read_name : Bytes
read_name = codes "blobs/0123456789abcdef0123456789abcdef0123456789abcdef0123456789abcdef/5"

abbrev client : Stream Bytes
client = record { sent = []; fault = λ n. none }

read_name_parsed : parse_read_resource read_name ≡ ok target
unfolding parse_read_resource split_on parse_int validate decode bytes_eq digest_from
read_name_parsed = refl

held_reader : store.reader held (some target) (pos 1) (pos 3) ≡ ok (bytes_reader (codes "ell"))
unfolding reader get reader_at is_empty lookup bytes_eq
held_reader = refl

read-sends_slice_example :
    let answer = read store held read_name (pos 1) (pos 3) client in
    (answer.0 ≡ ok tt)
    × All (λ c. (0 < length c) × (length c ≤ read_chunk_size)) answer.1.sent
    × ((b : Bytes) × (content store held (some target) ≡ some b)
        × (flatten answer.1.sent ≡ slice 1 (pos 3) b))
read-sends_slice_example =
    read-sends_slice store held read_name 1 (pos 3) client target (bytes_reader (codes "ell"))
      (omega arith) read_name_parsed held_reader refl (λ n. refl) refl

held_content : content store held (some target) ≡ some hello
unfolding is_empty lookup bytes_eq
held_content = refl

read_negative_offset_example : read store held read_name (negsuc 0) (pos 0) client ≡ (panic, client)
read_negative_offset_example =
    read_negative_offset result_codec held read_name 0 (pos 0) client target hello read_name_parsed
      held_content
