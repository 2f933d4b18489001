-- ===== src/Tests/Sample.antt =====
-- Concrete parameters: a toy hash function, toy encodings of messages, and a store.
use aws_build_farm.Prelude.{
  ◌==◌, if◌then◌else◌, is_some, length, replicate, All, length_zero, ℤ, pos, negsuc, Bytes, codes,
  Result, ok, ℕ, suc, ◌%◌, ◌≡◌, refl, not, ◌&&◌, Option, none, some, [], ◌∷◌, arith,
}
use aws_build_farm.GoText.Hex.{encode, IsByte}
use aws_build_farm.Digest.{Digest, Sha256, empty_hash, from_bytes}
use aws_build_farm.Proto.{ActionResult, Command, Codec}
use aws_build_farm.Cas.Interface.{Store}
use aws_build_farm.Cas.MemStore.Laws.{mem_store}
use aws_build_farm.Server.Execution.{Runner, NeverPanics, RunError}

abbrev empty_sum : Bytes
empty_sum =
    0xe3 ∷ 0xb0 ∷ 0xc4 ∷ 0x42 ∷ 0x98 ∷ 0xfc ∷ 0x1c ∷ 0x14 ∷ 0x9a ∷ 0xfb ∷ 0xf4 ∷ 0xc8 ∷ 0x99 ∷ 0x6f
    ∷ 0xb9 ∷ 0x24 ∷ 0x27 ∷ 0xae ∷ 0x41 ∷ 0xe4 ∷ 0x64 ∷ 0x9b ∷ 0x93 ∷ 0x4c ∷ 0xa4 ∷ 0x95 ∷ 0x99
    ∷ 0x1b ∷ 0x78 ∷ 0x52 ∷ 0xb8 ∷ 0x55 ∷ []

-- The hash of no bytes as SHA-256 has it; else the length and the first byte, and zeros.
abbrev pub toy_sum : Bytes → Bytes
toy_sum [] = empty_sum
toy_sum (x ∷ b) = suc (length b) % 256 ∷ x % 256 ∷ replicate 30 0

pub length-toy_sum : (b : Bytes) → length (toy_sum b) ≡ 32
length-toy_sum [] = refl
length-toy_sum (x ∷ b) = refl

pub toy_sum-bytes : (b : Bytes) → All IsByte (toy_sum b)
toy_sum-bytes [] = omega arith
toy_sum-bytes (x ∷ b) = omega arith

pub toy_sum_empty : encode (toy_sum []) ≡ empty_hash
unfolding encode empty_hash
toy_sum_empty = refl

abbrev pub toy_sha : Sha256
toy_sha = record {
  sum = toy_sum;
  length_sum = length-toy_sum;
  sum_bytes = toy_sum-bytes;
  sum_empty = toy_sum_empty;
}

-- A result with nothing but its exit code.
abbrev pub bare_result : ℕ → ActionResult
bare_result n = record {
  output_files = [];
  output_directories = [];
  output_symlinks = [];
  exit_code = pos n;
  stdout_digest = none;
  stderr_digest = none;
}

abbrev exit_byte : ℤ → Option Bytes
exit_byte (pos n) = some (n ∷ [])
exit_byte (negsuc n) = none

abbrev bare_marshal : ActionResult → Option Bytes
bare_marshal r =
    if length r.output_files == 0
      && length r.output_directories == 0
      && length r.output_symlinks == 0
      && not (is_some r.stdout_digest)
      && not (is_some r.stderr_digest)
    then exit_byte r.exit_code
    else none

abbrev bare_unmarshal : Bytes → Option ActionResult
bare_unmarshal [] = none
bare_unmarshal (n ∷ b) = some (bare_result n)

pub bare_round_trip :
    (r : ActionResult) (b : Bytes) → bare_marshal r ≡ some b → bare_unmarshal b ≡ some r
bare_round_trip r b h = ground (
  arith,
  length_zero r.output_files,
  length_zero r.output_directories,
  length_zero r.output_symlinks,
)

abbrev pub result_codec : Codec ActionResult
result_codec = record {
  marshal = bare_marshal;
  unmarshal = bare_unmarshal;
  round_trip = bare_round_trip;
}

abbrev pub sample_command : Command
sample_command = record {
  arguments = codes "true" ∷ [];
  environment_variables = [];
  output_files = [];
  output_directories = [];
  output_paths = [];
  working_directory = [];
}

pub no_encoding : (c : Command) (b : Bytes) → none ≡ some b → some sample_command ≡ some c
no_encoding c b h = cc

-- Every content is the sample command, which cannot be encoded.
abbrev pub command_codec : Codec Command
command_codec = record {
  marshal = λ c. none;
  unmarshal = λ b. some sample_command;
  round_trip = no_encoding;
}

abbrev pub store : Store
store = mem_store result_codec

abbrev pub true_run : store.State → Result RunError ActionResult × store.State
true_run s = (ok (bare_result 0), s)

-- A run that ends with the exit code 0 and stores nothing.
abbrev pub true_runner : Runner store
true_runner = record { run = λ s c root timeout. true_run s }

pub true_runner-NeverPanics : NeverPanics store true_runner
true_runner-NeverPanics s c root timeout h = cc

abbrev pub hello : Bytes
hello = codes "hello"

abbrev pub hello_digest : Digest
hello_digest = from_bytes toy_sha hello
