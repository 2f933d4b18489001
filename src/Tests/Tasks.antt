-- ===== src/Tests/Tasks.antt =====
-- An agent on a host whose calls all succeed, and the theorems about its tasks.
use mathlib.Core.Path.{subst}
use aws_build_farm.Prelude.{
  take, All, some-injective, after, Returns, Keeps, pos, Bytes, codes, bytes_eq, Result, ok, err,
  ◌≡◌, refl, true, false, Option, none, some, List, [], ◌∷◌, arith,
}
use native.Mathlib.Decide.{ℕ_discrete}
use aws_build_farm.GoText.Hex.{encode}
use aws_build_farm.GoText.Path.Plain.{IsPlain}
use aws_build_farm.GoText.Path.Absolute.{absolute}
use aws_build_farm.Digest.{empty, empty_hash, from_bytes, is_empty}
use aws_build_farm.Proto.{ActionResult, DirectoryNode, Directory, Tree, Command, Codec}
use aws_build_farm.GoText.Utf8.{is_valid}
use aws_build_farm.Task.{TaskCodec, IsTextTask, ExecuteTask, ExecuteResult}
use aws_build_farm.Os.{OsError, finished, Os}
use aws_build_farm.Cas.MemStore
use aws_build_farm.Cas.MemStore.{new_mem_store, MemStore}
use aws_build_farm.Casfs.Materialize.{materialize}
use aws_build_farm.Casfs.Materialize.Inside.{materialize-Keeps}
use aws_build_farm.Casfs.Materialize.Levels.{HasDepth, materialize-Returns}
use aws_build_farm.Agent.Outputs.{AgentError, no_arguments}
use aws_build_farm.Agent.Work.{run_task}
use aws_build_farm.Agent.Work.Complete.{IsComplete}
use aws_build_farm.Agent.Work.Complete.Reported.{run_task-IsComplete}
use aws_build_farm.Agent.Work.Kept.{StoreIntact, run_task-IsIntact, run_task-removes}
use aws_build_farm.Agent.Handler.{handle_execute}
use aws_build_farm.Microvm.{Response, execution_failed}
use aws_build_farm.Microvm.Run.{dispatch}
use aws_build_farm.Microvm.Run.Delivery.{dispatch-delivers, dispatch-reports}
use aws_build_farm.Tests.Sample.{toy_sha, store, bare_result, sample_command}
use aws_build_farm.Tests.Blobs.{new_mem_store-IsIntact}
use aws_build_farm.Tests.Machines.{
  json, single, single-marshal, world, config, ExecuteTask-discrete, ExecuteResult-discrete,
  ActionResult-discrete, Command-discrete,
}

unfoldable pub Directory-discrete : Discrete Directory
Directory-discrete = hlevel ℕ_discrete

unfoldable pub Tree-discrete : Discrete Tree
Tree-discrete = hlevel ℕ_discrete

abbrev pub fine : Result OsError (Unit {0})
fine = ok tt

abbrev pub missing : OsError
missing = record { is_not_exist = true; text = codes "no such file" }

-- The host is the list of the paths that were made or written. A command ends with the exit code 0 and writes
-- nothing.
abbrev pub os : Os
os = record {
  State = List Bytes;
  mkdir_all = λ s p. (fine, p ∷ s);
  write_file = λ s p content x. (fine, p ∷ s);
  symlink = λ s target p. (fine, p ∷ s);
  mkdir_temp = λ s. (ok (codes "/tmp/action"), codes "/tmp/action" ∷ s);
  remove_all = λ s dir. [];
  create = λ s p. (fine, p ∷ s);
  run = λ s p. ((finished, false), s);
  read_file = λ s p. ok [];
  read_dir = λ s p. ok [];
  read_link = λ s p. err missing;
  lstat = λ s p. err missing;
  getenv = λ s name. [];
}

-- A file with no data, and a symbolic link to it.
abbrev listing : Directory
listing = record {
  files = record { name = codes "a.txt"; digest = some empty; is_executable = true } ∷ [];
  directories = [];
  symlinks = record { name = codes "b"; target = codes "a.txt" } ∷ [];
}

abbrev directories : Codec Directory
directories = single Directory-discrete listing

abbrev trees : Codec Tree
trees = single Tree-discrete (record { root = listing; children = [] })

work_dir-IsPlain : All IsPlain (codes "tmp" ∷ codes "action" ∷ [])
unfolding bytes_eq
work_dir-IsPlain = (
  record {
    no_slash = (omega arith, (omega arith, (omega arith, tt)));
    not_empty = refl;
    not_dot = refl;
    not_dot_dot = refl;
  },
  (
    record {
      no_slash = (
        omega arith,
        (omega arith, (omega arith, (omega arith, (omega arith, (omega arith, tt))))),
      );
      not_empty = refl;
      not_dot = refl;
      not_dot_dot = refl;
    },
    tt,
  ),
)

-- Every path stands below the temporary directory.
abbrev IsTemporary : List Bytes → Type 0
IsTemporary = All (λ p. take 5 p ≡ codes "/tmp/")

materialize-Keeps_example :
    Keeps IsTemporary
      (materialize store os directories new_mem_store 3 (some empty) (codes "/tmp/action") [])
unfolding absolute
materialize-Keeps_example =
    materialize-Keeps store os directories new_mem_store (codes "tmp") (codes "action" ∷ [])
      work_dir-IsPlain IsTemporary (λ s ps h g. (refl, g)) (λ s ps name content x h hn g. (refl, g))
      (λ s ps name target h hn g. (refl, g)) 3 [] tt (some empty) [] tt

empty-HasDepth : HasDepth store os directories new_mem_store 1 (some empty)
empty-HasDepth b d got made =
    subst
      (λ (x : Directory).
        All (λ (sub : DirectoryNode). HasDepth store os directories new_mem_store 0 sub.digest)
          x.directories)
      (some-injective made) tt

materialize-Returns_example :
    Returns (materialize store os directories new_mem_store 1 (some empty) (codes "/tmp/action") [])
materialize-Returns_example =
    materialize-Returns store os directories new_mem_store 1 (some empty) (codes "/tmp/action") []
      empty-HasDepth

abbrev pub commands : Codec Command
commands = single Command-discrete sample_command

abbrev pub task : ExecuteTask
task = record {
  region = [];
  bucket = [];
  prefix = [];
  command_proto = [];
  input_root_hash = empty_hash;
  input_root_size = pos 0;
  timeout_seconds = pos 5;
}

abbrev pub no_error : Bytes → Option Bytes
no_error region = none

run_task-IsIntact_example :
    Keeps
      (StoreIntact toy_sha store os directories trees commands no_error 3)
      (run_task toy_sha store os directories trees commands no_error 3 task ([], new_mem_store))
run_task-IsIntact_example =
    run_task-IsIntact toy_sha store os directories trees commands no_error 3 task
      ([], new_mem_store) new_mem_store-IsIntact

-- The result of the sample command: both streams are empty.
abbrev ended_well : ActionResult
ended_well = record (bare_result 0) { stdout_digest = some empty; stderr_digest = some empty }

worked :
    run_task toy_sha store os directories trees commands no_error 3 task ([], new_mem_store)
    ≡ some (ok ended_well, ([], new_mem_store))
unfolding run_task after MemStore.get is_empty bytes_eq empty_hash MemStore.put from_bytes encode
worked = refl

run_task-IsComplete_example : IsComplete toy_sha store ended_well new_mem_store
run_task-IsComplete_example =
    run_task-IsComplete toy_sha store os directories trees 3 commands no_error task
      ([], new_mem_store) ([], new_mem_store) ended_well worked

run_task-removes_example : (s : List Bytes) × (◌≡◌ {A = List Bytes} [] [])
run_task-removes_example =
    run_task-removes toy_sha store os directories trees commands no_error 3 task sample_command
      (codes "true") [] (codes "/tmp/action") ([], new_mem_store) ([], new_mem_store)
      (ok ended_well) refl refl refl refl worked

abbrev tasks : TaskCodec
tasks = json (single ExecuteTask-discrete task)

task-IsTextTask : IsTextTask task
unfolding is_valid from_bytes encode empty_hash
task-IsTextTask = (refl, refl, refl, refl)

abbrev text_of : AgentError → Bytes
text_of e = codes "no"

abbrev answer : Response
answer = record { status = 200; body = [] }

abbrev good_result : ExecuteResult
good_result = record { action_result = []; error = [] }

abbrev bad_result : ExecuteResult
bad_result = record { action_result = []; error = codes "no" }

abbrev actions : Codec ActionResult
actions = single ActionResult-discrete ended_well

handled :
    handle_execute tasks
      (json (single ExecuteResult-discrete good_result))
      actions
      text_of
      (λ b. [])
      []
      toy_sha
      store
      os
      directories
      trees
      commands
      no_error
      3
      (codes "POST")
      []
      ([], new_mem_store)
    ≡ some (some answer, ([], new_mem_store))
unfolding handle_execute run_task after MemStore.get is_empty bytes_eq empty_hash MemStore.put
    from_bytes encode ExecuteResult-discrete ActionResult-discrete ℕ_discrete
handled = refl

dispatch-delivers_example :
    (dispatch world config tasks
      (json (single ExecuteResult-discrete good_result))
      commands
      actions
      0
      (codes "https://vm.example")
      (codes "secret")
      task).0
    ≡ ok ended_well
dispatch-delivers_example =
    dispatch-delivers world config tasks (json (single ExecuteResult-discrete good_result)) commands
      actions text_of (λ b. []) [] toy_sha store os directories trees no_error 3 0
      (codes "https://vm.example") (codes "secret") task [] ([], new_mem_store) ([], new_mem_store)
      ended_well [] [] answer task-IsTextTask (single-marshal ExecuteTask-discrete task) refl worked
      (single-marshal ActionResult-discrete ended_well)
      (single-marshal ExecuteResult-discrete good_result) (omega arith) handled refl

abbrev empty_commands : Codec Command
empty_commands = single Command-discrete (record sample_command { arguments = [] })

refused :
    run_task toy_sha store os directories trees empty_commands no_error 3 task ([], new_mem_store)
    ≡ some (err no_arguments, ([], new_mem_store))
unfolding run_task
refused = refl

refusal_handled :
    handle_execute tasks
      (json (single ExecuteResult-discrete bad_result))
      actions
      text_of
      (λ b. [])
      []
      toy_sha
      store
      os
      directories
      trees
      empty_commands
      no_error
      3
      (codes "POST")
      []
      ([], new_mem_store)
    ≡ some (some answer, ([], new_mem_store))
unfolding handle_execute run_task bytes_eq ExecuteResult-discrete ℕ_discrete
refusal_handled = refl

dispatch-reports_example :
    (dispatch world config tasks
      (json (single ExecuteResult-discrete bad_result))
      empty_commands
      actions
      0
      (codes "https://vm.example")
      (codes "secret")
      task).0
    ≡ err (execution_failed (codes "no"))
unfolding is_valid
dispatch-reports_example =
    dispatch-reports world config tasks (json (single ExecuteResult-discrete bad_result))
      empty_commands actions text_of (λ b. []) [] toy_sha store os directories trees no_error 3 0
      (codes "https://vm.example") (codes "secret") task [] ([], new_mem_store) ([], new_mem_store)
      no_arguments [] answer task-IsTextTask (single-marshal ExecuteTask-discrete task) refl refused
      (λ h. cc) refl (single-marshal ExecuteResult-discrete bad_result) (omega arith)
      refusal_handled refl
