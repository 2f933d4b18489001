-- ===== src/Agent/Work/Complete/Reported.antt =====
-- What the result of a task names is in the store when the task ends.
use aws_build_farm.Prelude.{
  Ensures, Ensures-ok, after-Ensures, last-Ensures, Ensures, after-Ensures, last-Ensures, ℤ, Bytes,
  Result, ok, err, panic, ℕ, ◌≡◌, sym, ap, ◌∙◌, true, false, Option, none, some, List, [], ◌∷◌,
}
use mathlib.Core.Path.{subst}
use aws_build_farm.Digest.{Sha256}
use aws_build_farm.Proto.{ActionResult, Directory, Tree, Command, Codec}
use aws_build_farm.Os.{Os}
use aws_build_farm.Task.{ExecuteTask}
use aws_build_farm.Cas.Interface.{Store}
use aws_build_farm.Agent.Outputs.{AgentError, config_failed}
use aws_build_farm.Agent.Work.{
  readable, remote, report, work, removing, in_work_dir, with_command, run_task,
}
use aws_build_farm.Agent.Work.Complete.{
  IsComplete, Attached, with_stream, attached_stream-Ensures, capture_outputs-Ensures,
}

module _ (sha : Sha256) (st : Store) (os : Os) (directories : Codec Directory) (trees : Codec Tree)
    (fuel : ℕ) (commands : Codec Command) (config_error : Bytes → Option Bytes) where
  abbrev Finished : ActionResult → os.State × st.State → Type 0
  Finished ar w = IsComplete sha st ar w.1

  remote-Ensures :
      (s : os.State) (m : Option (Result AgentError ActionResult × st.State))
      → Ensures (IsComplete sha st) m
      → Ensures Finished (remote sha st os directories trees commands config_error fuel s m)
  unfolding Ensures remote
  remote-Ensures s none h = tt
  remote-Ensures s (some (ok ar, c)) h = h
  remote-Ensures s (some (err e, c)) h = tt
  remote-Ensures s (some (panic, c)) h = tt

  report-Ensures :
      (command : Command) (exec_dir stdout stderr : Bytes) (code : ℤ) (w : os.State × st.State)
      → Ensures Finished (
          report sha st os directories trees commands config_error fuel command exec_dir stdout
            stderr code w)
  unfolding report Attached
  report-Ensures command exec_dir stdout stderr code (s, c) = remote-Ensures s _ (
      after-Ensures _ _ _ _
        (attached_stream-Ensures sha st c _ (readable (os.read_file s stdout)) false)
        (λ ar c₁ (d, eq, later, has).
          after-Ensures _ _ _ _
            (attached_stream-Ensures sha st c₁ ar (readable (os.read_file s stderr)) true)
            (λ ar' c₂ (d', eq', later', has').
              capture_outputs-Ensures sha st os directories trees fuel s command exec_dir ar' c₂ (
                subst (λ q. IsComplete sha st q c₂)
                  (sym (eq' ∙ ap (λ q. with_stream sha st true q d') eq))
                  (record {
                    has_files = tt;
                    has_directories = tt;
                    has_stdout = later' d has;
                    has_stderr = has';
                  })))))

  removing-Ensures :
      (dir : Bytes) (m : Option (Result AgentError ActionResult × (os.State × st.State)))
      → Ensures Finished m
      → Ensures Finished (removing sha st os directories trees commands config_error fuel dir m)
  unfolding Ensures removing
  removing-Ensures dir none h = tt
  removing-Ensures dir (some (ok ar, w)) h = h
  removing-Ensures dir (some (err e, w)) h = tt
  removing-Ensures dir (some (panic, w)) h = tt

  work-Ensures :
      (t : ExecuteTask) (command : Command) (name : Bytes) (arguments : List Bytes) (dir : Bytes)
      (w : os.State × st.State)
      → Ensures Finished (
          work sha st os directories trees commands config_error fuel t command name arguments dir
            w)
  unfolding work
  work-Ensures t command name arguments dir (s, c) = last-Ensures _ _ _ (λ _ w₁.
      last-Ensures _ _ _ (λ _ w₂.
        last-Ensures _ _ _
          (λ _ w₃. last-Ensures _ _ _ (λ code w₄. report-Ensures command _ _ _ code w₄))))

  in_work_dir-Ensures :
      (t : ExecuteTask) (command : Command) (arguments : List Bytes) (w : os.State × st.State)
      → Ensures Finished
          (in_work_dir sha st os directories trees commands config_error fuel t command arguments w)
  unfolding in_work_dir Ensures
  in_work_dir-Ensures t command [] w = tt
  in_work_dir-Ensures t command (name ∷ arguments) (s, c) =
      last-Ensures _ _ _
        (λ dir w. removing-Ensures dir _ (work-Ensures t command name arguments dir w))

  with_command-Ensures :
      (t : ExecuteTask) (command : Option Command) (w : os.State × st.State)
      → Ensures Finished
          (with_command sha st os directories trees commands config_error fuel t command w)
  unfolding Ensures
  with_command-Ensures t none w = tt
  with_command-Ensures t (some command) w = in_work_dir-Ensures t command command.arguments w

  run_task-Ensures :
      (t : ExecuteTask) (w : os.State × st.State)
      → Ensures Finished (run_task sha st os directories trees commands config_error fuel t w)
  unfolding run_task
  run_task-Ensures t w =
      elim (config_error t.region)
        as (λ o.
          Ensures Finished
            (elim o as (λ _. Option (Result AgentError ActionResult × (os.State × st.State))) [
              | some e ↦ some (err (config_failed e), w)
              | none ↦
                  with_command sha st os directories trees commands config_error fuel t
                    (commands.unmarshal t.command_proto) w
            ])) [
              | some e ↦ unfold Ensures in tt
              | none ↦ with_command-Ensures t (commands.unmarshal t.command_proto) w
            ]

  -- A task that ends in an action result has stored what the result names, whatever the store answered on the way:
  -- the output files, the Tree messages and the roots of the output directories, and both standard streams.
  pub run_task-IsComplete :
      (t : ExecuteTask) (w w' : os.State × st.State) (ar : ActionResult)
      → run_task sha st os directories trees commands config_error fuel t w ≡ some (ok ar, w')
      → IsComplete sha st ar w'.1
  run_task-IsComplete t w w' ar h = Ensures-ok Finished _ ar w' (run_task-Ensures t w) h
