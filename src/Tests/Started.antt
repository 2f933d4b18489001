-- ===== src/Tests/Started.antt =====
-- A server that starts, its connectors, and the list of its operations.
use aws_build_farm.Prelude.{
  Bool-cases, is_some, All, ℤ, pos, Bytes, codes, bytes_eq, bytes_eq_iff, ok, err, ℕ, ◌≡◌, refl,
  ◌≢◌, ◌↔◌, inl, inr, not, none, some, List, [], ◌∷◌, map, arith,
}
use mathlib.Core.List.{Memᴰ}
use aws_build_farm.Digest.{DigestRef}
use aws_build_farm.GoText.Split.{split_on, join_on}
use aws_build_farm.GoText.Trim.{trim_space, front_space, back_space}
use aws_build_farm.Prelude.Dict.{Dict, lookup}
use aws_build_farm.Farm.{
  Flags, Platform, connectors, execution_enabled, serving, start, run, region_option,
  bucket_required,
}
use aws_build_farm.Farm.Connectors.{Part, IsPart, text, given, connectors-join}
use aws_build_farm.Farm.Started.{start-executes}
use aws_build_farm.Microvm.{Config, task_of}
use aws_build_farm.Server.Capabilities.{get_capabilities}
use aws_build_farm.Server.Operation.{Operation, new_entry, publish}
use aws_build_farm.Server.Operations.{Manager, get_operation, list_operations}
use aws_build_farm.Server.Operations.Entries.{IsManager}
use aws_build_farm.Server.Operations.Listing.{
  IsVisit, answers, values, list_operations-get_operation,
}
use aws_build_farm.Tests.Operations.{last_operation}
use aws_build_farm.Cas.S3.{S3}
use aws_build_farm.Cas.S3Store.{new_s3_store}
use aws_build_farm.Cas.S3Store.Laws.{s3_store}
use aws_build_farm.Agent.Work.{run_task}
use aws_build_farm.Agent.Remote.{run_remote}
use aws_build_farm.Tests.Sample.{toy_sha, result_codec}
use aws_build_farm.Tests.Host.{host, directories, trees}
use aws_build_farm.Tests.Tasks.{commands, no_error}
use aws_build_farm.Tests.Bucket.{bucket}

abbrev first : Part
first = record { before = 0; name = codes "arn:a"; after = 2 }

abbrev nothing : Part
nothing = record { before = 1; name = []; after = 0 }

abbrev second : Part
second = record { before = 1; name = codes "b"; after = 0 }

parts-IsPart : All IsPart (first ∷ nothing ∷ second ∷ [])
unfolding front_space back_space
parts-IsPart =
    (((refl, refl), ground arith), (((refl, refl), tt), (((refl, refl), ground arith), tt)))

some_flag : join_on b',' (text first) (map text (nothing ∷ second ∷ [])) ≢ []
unfolding join_on
some_flag h = cc

named :
    connectors (join_on b',' (text first) (map text (nothing ∷ second ∷ []))) []
    ≡ codes "arn:a" ∷ codes "b" ∷ []
unfolding connectors join_on split_on trim_space bytes_eq
named = refl

-- The flag is `arn:a  , , b`.
connectors-join_example :
    connectors (join_on b',' (text first) (map text (nothing ∷ second ∷ []))) []
    ≡ given (first ∷ nothing ∷ second ∷ [])
connectors-join_example = connectors-join first (nothing ∷ second ∷ []) [] parts-IsPart some_flag

abbrev platform : Platform
platform = record {
  load_config = λ region. ok (codes "eu-west-1");
  listen = λ address. none;
  serve = λ served. none;
}

abbrev flags : Flags
flags = record {
  listen = codes ":8980";
  bucket = codes "blobs";
  prefix = codes "farm";
  region = [];
  instance_name = [];
  image = codes "agent";
  image_version = [];
  execution_role = [];
  ingress = [];
  egress = codes "x, y";
  max_duration = pos 3600;
  agent_port = pos 8080;
}

started : start platform flags ≡ ok (serving flags (codes "eu-west-1"))
unfolding start bytes_eq
started = refl

-- Without an image nothing is executed, and without a bucket nothing starts.
without_bucket : run platform (record flags { bucket = [] }) ≡ err bucket_required
unfolding run bytes_eq
without_bucket = refl

-- The bucket is the same one in every region.
abbrev one_client : Bytes → S3
one_client region = bucket

start-executes_example :
    let served = serving flags (codes "eu-west-1") in
    (execution_enabled served.server ≡ not (bytes_eq flags.image []))
    × (is_some (get_capabilities (execution_enabled served.server)).execution_capabilities
        ≡ not (bytes_eq flags.image []))
    × ((cfg : Config)
        → served.server.executor ≡ some cfg
        → (command : Bytes) (root : DigestRef) (timeout : ℤ)
        → let task = task_of cfg command root timeout in
          (new_s3_store task.bucket task.prefix ≡ served.server.store)
          × (platform.load_config (region_option flags.region) ≡ ok task.region)
          × ((w : List Bytes × Dict Bytes)
              → run_remote one_client result_codec toy_sha host directories trees commands no_error
                  3 task w
                ≡ run_task toy_sha
                    (s3_store bucket served.server.store result_codec)
                    host
                    directories
                    trees
                    commands
                    no_error
                    3
                    task
                    w))
start-executes_example =
    start-executes platform flags (serving flags (codes "eu-west-1")) one_client result_codec
      toy_sha host directories trees commands no_error 3 started

-- One operation was published, and one has no state.
abbrev manager : Manager
manager = record {
  ops = (codes "a", 0) ∷ (codes "b", 1) ∷ [];
  entries = publish new_entry last_operation ∷ new_entry ∷ [];
}

manager-IsManager : IsManager manager
unfolding lookup
manager-IsManager = record {
  in_range = λ k i h. ground arith;
  own = λ k j i h g. ground (
    arith,
    bytes_eq_iff (codes "a") k,
    bytes_eq_iff (codes "b") k,
    bytes_eq_iff (codes "a") j,
    bytes_eq_iff (codes "b") j,
  );
}

-- The map is visited from its end.
abbrev order : Dict ℕ
order = (codes "b", 1) ∷ (codes "a", 0) ∷ []

order-visited : (name : Bytes) (i : ℕ) → lookup name manager.ops ≡ some i → Memᴰ (name, i) order
unfolding lookup
order-visited name i h = elim (Bool-cases (bytes_eq (codes "a") name)) [
  | inl e ↦
      let n : name ≡ codes "a" = ground (arith, e, bytes_eq_iff (codes "a") name) in
      let k : i ≡ 0 = ground (arith, e, h) in Memᴰ.tail (Memᴰ.head (λ j. (n j, k j)))
  | inr e ↦
      let n : name ≡ codes "b" = ground (arith, e, h, bytes_eq_iff (codes "b") name) in
      let k : i ≡ 1 = ground (arith, e, h) in Memᴰ.head (λ j. (n j, k j))
]

order-IsVisit : IsVisit manager order
unfolding lookup bytes_eq
order-IsVisit = record { only = (refl, (refl, tt)); visited = order-visited }

list_operations-get_operation_example :
    (ops : List Operation) × (list_operations manager order ≡ ok ops)
    × (ops ≡ values (answers manager order))
    × ((op : Operation) → Memᴰ op ops ↔ ((name : Bytes) × (get_operation manager name ≡ ok op)))
list_operations-get_operation_example =
    list_operations-get_operation manager order manager-IsManager order-IsVisit
