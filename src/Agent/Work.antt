-- ===== src/Agent/Work.antt =====
-- cmd/executor-agent/main.go: a task is run in a directory of its own, and its result is sent back.
pub mod Intact
pub mod Kept
pub mod Complete
pub mod Ends
use aws_build_farm.Prelude.{
  ltb, if◌then◌else◌, after, map_err, ℤ, pos, negsuc, wrap_int64, Bytes, codes, bytes_eq, Result,
  ok, err, panic, ℕ, zero, suc, ◌-◌, ◌*◌, ◌%◌, ◌^◌, Bool, true, false, Option, none, some, List, [],
  ◌∷◌,
}
use aws_build_farm.GoText.Path.{path_join}
use aws_build_farm.Digest.{Sha256}
use aws_build_farm.Proto.{ActionResult, Directory, Tree, Command, Codec}
use aws_build_farm.Task.{ExecuteTask}
use aws_build_farm.Os.{OsError, Process, RunError, finished, exit_error, other_error, Os}
use aws_build_farm.Cas.Interface.{Store}
use aws_build_farm.Casfs.Materialize.{materialize}
use aws_build_farm.Agent.{AttachError, attach_stream, build_env, path_name}
use aws_build_farm.Agent.Outputs.{
  AgentError, config_failed, bad_command, no_arguments, not_prepared, not_materialized, not_started,
  not_attached, capture_outputs,
}

-- The `int32` that an integer wraps around to.
unfoldable pub wrap_int32 : ℤ → ℤ
wrap_int32 (pos n) = let m = n % 2 ^ 32 in if ltb m (2 ^ 31) then pos m else negsuc (2 ^ 32 - 1 - m)
wrap_int32 (negsuc n) =
    let m = n % 2 ^ 32 in if ltb m (2 ^ 31) then negsuc m else pos (2 ^ 32 - 1 - m)

-- The exit code of the result, from what `Cmd.Run` answers and whether the context's deadline has passed.
unfoldable pub exit_code : RunError → Bool → Result AgentError ℤ
unfolding wrap_int32
exit_code finished late = ok (pos 0)
exit_code (exit_error n) late = ok (wrap_int32 n)
exit_code (other_error t) late = if late then ok (pos 124) else err (not_started t)

-- The context's time, where the task has one: `time.Duration(t.TimeoutSeconds) * time.Second`.
unfoldable pub run_timeout : ℤ → Option ℤ
run_timeout (pos zero) = none
run_timeout (pos (suc n)) = some (wrap_int64 (pos (suc n * 1000000000)))
run_timeout (negsuc n) = none

unfoldable pub exec_dir_of : Bytes → Command → Bytes
exec_dir_of work_dir command =
    if bytes_eq command.working_directory []
    then work_dir
    else path_join (work_dir ∷ command.working_directory ∷ [])

abbrev pub attached :
    {S : Type 0} → Result AttachError ActionResult × S → Option (Result AgentError ActionResult × S)
attached (ok ar, c) = some (ok ar, c)
attached (err e, c) = some (err (not_attached e), c)
attached (panic, c) = some (panic, c)

abbrev readable : Result OsError Bytes → Option Bytes
readable (ok b) = some b
readable (err e) = none
readable panic = none

module _ (sha : Sha256) (st : Store) (os : Os) (directories : Codec Directory) (trees : Codec Tree)
    (commands : Codec Command) (config_error : Bytes → Option Bytes) (fuel : ℕ) where
  -- What a step of `runTask` leaves: the host and the store.
  abbrev pub Both : Type 0
  Both = os.State × st.State

  unfoldable pub host :
      {A : Type 0}
      → st.State
      → Option (Result AgentError A × os.State)
      → Option (Result AgentError A × Both)
  host c none = none
  host c (some (r, s)) = some (r, (s, c))

  unfoldable pub remote :
      {A : Type 0}
      → os.State
      → Option (Result AgentError A × st.State)
      → Option (Result AgentError A × Both)
  remote s none = none
  remote s (some (r, c)) = some (r, (s, c))

  unfoldable pub prepared :
      {A : Type 0} → Result OsError A × os.State → Option (Result AgentError A × os.State)
  prepared (r, s) = map_err not_prepared (some (r, s))

  abbrev pub no_result : ActionResult
  no_result = record {
    output_files = [];
    output_directories = [];
    output_symlinks = [];
    exit_code = pos 0;
    stdout_digest = none;
    stderr_digest = none;
  }

  -- The part of `runTask` after the command has ended.
  unfoldable pub report :
      Command → Bytes → Bytes → Bytes → ℤ → Both → Option (Result AgentError ActionResult × Both)
  unfolding attach_stream capture_outputs remote
  report command exec_dir stdout stderr code (s, c) = remote s (
      after
        (attached (
          attach_stream sha st c (record no_result { exit_code = code })
            (readable (os.read_file s stdout)) false))
        (λ ar c₁.
          after (attached (attach_stream sha st c₁ ar (readable (os.read_file s stderr)) true))
            (λ ar' c₂. capture_outputs sha st os directories trees fuel s command exec_dir ar' c₂)))

  unfoldable pub process :
      ExecuteTask → Command → Bytes → List Bytes → Bytes → Bytes → Bytes → os.State → Process
  unfolding build_env run_timeout
  process t command name arguments exec_dir stdout stderr s = record {
    path = name;
    arguments = arguments;
    dir = exec_dir;
    env = build_env (os.getenv s path_name) command.environment_variables;
    stdout = stdout;
    stderr = stderr;
    timeout = run_timeout t.timeout_seconds;
  }

  unfoldable pub ended : (RunError × Bool) × os.State → Option (Result AgentError ℤ × os.State)
  unfolding exit_code
  ended ((e, late), s) = some (exit_code e late, s)

  -- The part of `runTask` in the work directory.
  unfoldable pub work :
      ExecuteTask
      → Command
      → Bytes
      → List Bytes
      → Bytes
      → Both
      → Option (Result AgentError ActionResult × Both)
  unfolding materialize exec_dir_of process report host prepared ended
  work t command name arguments dir (s, c) =
      let root = some (record { hash = t.input_root_hash; size_bytes = t.input_root_size }) in
      let exec_dir = exec_dir_of dir command in
      let stdout = path_join (dir ∷ codes ".stdout" ∷ []) in
      let stderr = path_join (dir ∷ codes ".stderr" ∷ []) in
      after (host c (map_err not_materialized (materialize st os directories c fuel root dir s)))
        (λ _ w₁. after (host w₁.1 (prepared (os.create w₁.0 stdout))) (λ _ w₂.
          after (host w₂.1 (prepared (os.create w₂.0 stderr))) (λ _ w₃.
            after
              (host w₃.1 (
                ended (os.run w₃.0 (process t command name arguments exec_dir stdout stderr w₁.0))))
              (λ code w₄. report command exec_dir stdout stderr code w₄))))

  -- The deferred call: the work directory is removed, however the work went.
  unfoldable pub removing :
      {A : Type 0}
      → Bytes
      → Option (Result AgentError A × Both)
      → Option (Result AgentError A × Both)
  removing dir none = none
  removing dir (some (r, (s, c))) = some (r, (os.remove_all s dir, c))

  unfoldable pub in_work_dir :
      ExecuteTask → Command → List Bytes → Both → Option (Result AgentError ActionResult × Both)
  unfolding work host prepared removing
  in_work_dir t command [] w = some (err no_arguments, w)
  in_work_dir t command (name ∷ arguments) (s, c) =
      after (host c (prepared (os.mkdir_temp s)))
        (λ dir w. removing dir (work t command name arguments dir w))

  abbrev pub with_command :
      ExecuteTask → Option Command → Both → Option (Result AgentError ActionResult × Both)
  with_command t none w = some (err bad_command, w)
  with_command t (some command) w = in_work_dir t command command.arguments w

  -- `runTask` in a given store; the one that it makes is the `task_store` of `Agent.Remote`.
  unfoldable pub run_task : ExecuteTask → Both → Option (Result AgentError ActionResult × Both)
  unfolding in_work_dir
  run_task t w = elim (config_error t.region) [
    | some e ↦ some (err (config_failed e), w)
    | none ↦ with_command t (commands.unmarshal t.command_proto) w
  ]
