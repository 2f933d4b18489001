-- ===== src/Tests/Trees.antt =====
-- Trees of directories, and the manager of operations.
use aws_build_farm.Prelude.{
  Bytes, codes, bytes_eq, ok, err, ◌≡◌, refl, ◌≢◌, true, false, Option, none, some, List, [], ◌∷◌,
  arith,
}
use mathlib.Core.List.{foldl}
use aws_build_farm.Digest.{from_bytes, validate, empty, empty_hash, is_empty}
use aws_build_farm.GoText.Hex.{encode, decode}
use aws_build_farm.Proto.{Action, Directory, Codec}
use aws_build_farm.Prelude.Dict.{lookup, insert}
use aws_build_farm.Cas.MemStore.{MemStore, get}
use aws_build_farm.Server.Status.{Code, status, no_operation, Stream}
use aws_build_farm.Server.Tree.{fetch_directory, get_tree}
use aws_build_farm.Server.Tree.Pages.{Visits, IsSent, get_tree-IsSent}
use aws_build_farm.Server.Operation.{Operation, completed}
use aws_build_farm.Server.Execution.{ExecuteRequest, start_execute, fetch, run_action}
use aws_build_farm.Server.Operations.{
  Manager, new_manager, new_operation, get_operation, delete_operation, publish_at, execute,
}
use aws_build_farm.Server.Operations.Entries.{
  IsManager, execute-get_operation, delete_operation-get,
}
use aws_build_farm.Tests.Sample.{
  store, command_codec, true_runner, true_runner-NeverPanics, hello, hello_digest,
}

abbrev leaf : Directory
leaf = record { files = []; directories = []; symlinks = [] }

abbrev top : Directory
top = record {
  files = [];
  directories = record { name = codes "sub"; digest = some empty } ∷ [];
  symlinks = [];
}

-- No content is a leaf, and any other one a directory that names the leaf.
abbrev decoded : Bytes → Option Directory
decoded [] = some leaf
decoded (x ∷ b) = some top

no_directory : (dir : Directory) (b : Bytes) → none ≡ some b → decoded b ≡ some dir
no_directory dir b h = cc

abbrev directory_codec : Codec Directory
directory_codec = record { marshal = λ dir. none; unmarshal = decoded; round_trip = no_directory }

abbrev with_hello : MemStore
with_hello = record { blobs = (hello_digest.hash, hello) ∷ []; action = [] }

top_fetched : fetch_directory store directory_codec with_hello (some hello_digest) ≡ ok top
unfolding fetch_directory get lookup is_empty from_bytes encode bytes_eq
top_fetched = refl

leaf_fetched : fetch_directory store directory_codec with_hello (some empty) ≡ ok leaf
unfolding fetch_directory get is_empty bytes_eq empty_hash
leaf_fetched = refl

both_visited : Visits store directory_codec with_hello (some hello_digest ∷ []) (top ∷ leaf ∷ [])
both_visited = Visits.visit top_fetched (Visits.visit leaf_fetched Visits.finished)

abbrev client : Stream (List Directory)
client = record { sent = []; fault = λ n. none }

get_tree-IsSent_example :
    IsSent
      (top ∷ leaf ∷ [])
      (get_tree store directory_codec 3 with_hello (some hello_digest) client)
get_tree-IsSent_example =
    get_tree-IsSent store directory_codec with_hello 3 (some hello_digest) (top ∷ leaf ∷ []) client
      both_visited (omega arith) (λ n. refl) refl

abbrev sample_action : Action
sample_action = record {
  command_digest = some hello_digest;
  input_root_digest = none;
  timeout = none;
  do_not_cache = false;
}

no_action : (a : Action) (b : Bytes) → none ≡ some b → some sample_action ≡ some a
no_action a b h = cc

abbrev action_codec : Codec Action
action_codec = record {
  marshal = λ a. none;
  unmarshal = λ b. some sample_action;
  round_trip = no_action;
}

abbrev request : ExecuteRequest
request = record { action_digest = some hello_digest; skip_cache_lookup = false }

accepted :
    (execute store action_codec true (codes "op") with_hello new_manager request).0
    ≡ ok (sample_action, 0)
unfolding execute start_execute fetch new_operation validate decode get lookup is_empty from_bytes
    encode bytes_eq
accepted = refl

new_manager-IsManager : IsManager new_manager
unfolding lookup
new_manager-IsManager = record { in_range = λ k i h. cc; own = λ k j i h h'. cc }

abbrev after_execute : Manager
after_execute = (execute store action_codec true (codes "op") with_hello new_manager request).1

abbrev updates : List Operation
updates =
    (run_action store command_codec true_runner (codes "op") (some hello_digest) with_hello false
      sample_action).0

execute-get_operation_example :
    (IsManager after_execute)
    × ((op : Operation) × (get_operation (foldl (publish_at 0) after_execute updates) (codes "op")
          ≡ ok op)
        × (op.done ≡ true)
        × (op.stage ≡ completed))
    × ((other : Bytes)
        → other ≢ codes "op"
        → get_operation (foldl (publish_at 0) after_execute updates) other
          ≡ get_operation new_manager other)
execute-get_operation_example =
    execute-get_operation store action_codec command_codec true_runner true_runner-NeverPanics true
      (codes "op") with_hello with_hello new_manager request sample_action 0 new_manager-IsManager
      accepted

abbrev two_names : Manager
two_names = (new_operation (codes "b") (new_operation (codes "a") new_manager).1).1

deleted : (delete_operation two_names (codes "a")).0 ≡ ok tt
unfolding delete_operation new_operation insert lookup bytes_eq
deleted = refl

delete_operation-get_example :
    let m' = (delete_operation two_names (codes "a")).1 in
    (get_operation m' (codes "a") ≡ err (status Code.not_found (no_operation (codes "a"))))
    × ((other : Bytes) → other ≢ codes "a" → get_operation m' other ≡ get_operation two_names other)
    × (m'.entries ≡ two_names.entries)
delete_operation-get_example = delete_operation-get two_names (codes "a") deleted
