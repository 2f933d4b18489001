-- ===== src/Agent/Work/Kept.antt =====
-- A task as a whole: what it leaves of the store, and of its work directory.
use aws_build_farm.Prelude.{
  Option-cases, some-injective, after, Keeps, some-Keeps, after-Keeps, ℤ, Bytes, codes, Result, ok,
  ℕ, ◌≡◌, sym, ap, ◌∙◌, inl, inr, true, false, Option, none, some, List, [], ◌∷◌,
}
use aws_build_farm.GoText.Path.{path_join}
use aws_build_farm.Digest.{Sha256}
use aws_build_farm.Proto.{ActionResult, Directory, Tree, Command, Codec}
use aws_build_farm.Task.{ExecuteTask}
use aws_build_farm.Os.{Os}
use aws_build_farm.Cas.Interface.{Store}
use aws_build_farm.Server.Blobs.Integrity.{IsIntact}
use aws_build_farm.Agent.Outputs.{AgentError}
use aws_build_farm.Agent.Work.Intact.{attached_stream-IsIntact, capture_outputs-IsIntact}
use aws_build_farm.Agent.Work.{
  host, remote, prepared, report, process, ended, work, removing, in_work_dir, with_command,
  run_task, no_result, readable, exec_dir_of,
}

module _ (sha : Sha256) (st : Store) (os : Os) (directories : Codec Directory) (trees : Codec Tree)
    (commands : Codec Command) (config_error : Bytes → Option Bytes) (fuel : ℕ) where
  -- The store of a pair of states is intact.
  abbrev pub StoreIntact : os.State × st.State → Type 0
  StoreIntact w = IsIntact sha st w.1

  host-Keeps :
      {A : Type 0} (c : st.State) (m : Option (Result AgentError A × os.State))
      → IsIntact sha st c
      → Keeps StoreIntact (host sha st os directories trees commands config_error fuel c m)
  unfolding Keeps host
  host-Keeps c none h = tt
  host-Keeps c (some (r, s)) h = h

  remote-Keeps :
      {A : Type 0} (s : os.State) (m : Option (Result AgentError A × st.State))
      → Keeps (IsIntact sha st) m
      → Keeps StoreIntact (remote sha st os directories trees commands config_error fuel s m)
  unfolding Keeps remote
  remote-Keeps s none h = tt
  remote-Keeps s (some (r, c)) h = h

  removing-Keeps :
      {A : Type 0} (dir : Bytes) (m : Option (Result AgentError A × (os.State × st.State)))
      → Keeps StoreIntact m
      → Keeps StoreIntact (removing sha st os directories trees commands config_error fuel dir m)
  unfolding Keeps removing
  removing-Keeps dir none h = tt
  removing-Keeps dir (some (r, (s, c))) h = h

  report-IsIntact :
      (command : Command) (exec_dir stdout stderr : Bytes) (code : ℤ) (w : os.State × st.State)
      → StoreIntact w
      → Keeps StoreIntact (
          report sha st os directories trees commands config_error fuel command exec_dir stdout
            stderr code w)
  unfolding report
  report-IsIntact command exec_dir stdout stderr code (s, c) h = remote-Keeps s _ (
      after-Keeps _ _ _
        (attached_stream-IsIntact sha st c
          (record (no_result sha st os directories trees commands config_error fuel) {
            exit_code = code;
          })
          (readable (os.read_file s stdout)) false h)
        (λ ar c₁ h₁.
          after-Keeps _ _ _
            (attached_stream-IsIntact sha st c₁ ar (readable (os.read_file s stderr)) true h₁)
            (λ ar' c₂ h₂.
              capture_outputs-IsIntact sha st os directories trees fuel s command exec_dir ar' c₂
                h₂)))

  work-IsIntact :
      (t : ExecuteTask) (command : Command) (name : Bytes) (arguments : List Bytes) (dir : Bytes)
      (w : os.State × st.State)
      → StoreIntact w
      → Keeps StoreIntact (
          work sha st os directories trees commands config_error fuel t command name arguments dir
            w)
  unfolding work
  work-IsIntact t command name arguments dir (s, c) h =
      after-Keeps _ _ _ (host-Keeps c _ h) (λ _ w₁ h₁.
        after-Keeps _ _ _ (host-Keeps w₁.1 _ h₁) (λ _ w₂ h₂.
          after-Keeps _ _ _ (host-Keeps w₂.1 _ h₂) (λ _ w₃ h₃.
            after-Keeps _ _ _
              (host-Keeps w₃.1
                (ended sha st os directories trees commands config_error fuel (
                  os.run w₃.0 (
                    process sha st os directories trees commands config_error fuel t command name
                      arguments (exec_dir_of dir command) (path_join (dir ∷ codes ".stdout" ∷ []))
                      (path_join (dir ∷ codes ".stderr" ∷ [])) w₁.0)))
                h₃)
              (λ code w₄ h₄. report-IsIntact command (exec_dir_of dir command) _ _ code w₄ h₄))))

  in_work_dir-IsIntact :
      (t : ExecuteTask) (command : Command) (arguments : List Bytes) (w : os.State × st.State)
      → StoreIntact w
      → Keeps StoreIntact
          (in_work_dir sha st os directories trees commands config_error fuel t command arguments w)
  unfolding in_work_dir
  in_work_dir-IsIntact t command [] w h = some-Keeps _ _ w h
  in_work_dir-IsIntact t command (name ∷ arguments) (s, c) h =
      after-Keeps _ _ _ (host-Keeps c _ h)
        (λ dir w₁ h₁. removing-Keeps dir _ (work-IsIntact t command name arguments dir w₁ h₁))

  with_command-IsIntact :
      (t : ExecuteTask) (command : Option Command) (w : os.State × st.State)
      → StoreIntact w
      → Keeps StoreIntact
          (with_command sha st os directories trees commands config_error fuel t command w)
  with_command-IsIntact t none w h = some-Keeps _ _ w h
  with_command-IsIntact t (some command) w h = in_work_dir-IsIntact t command command.arguments w h

  -- Whatever the command does and wherever the task fails, every blob that the store keeps under a name of
  -- its own keeps the hash that is its key: the standard streams and the outputs that the agent uploads are kept under their own hashes.
  pub run_task-IsIntact :
      (t : ExecuteTask) (w : os.State × st.State)
      → IsIntact sha st w.1
      → Keeps StoreIntact (run_task sha st os directories trees commands config_error fuel t w)
  unfolding run_task
  run_task-IsIntact t w h = elim (Option-cases (config_error t.region)) [
    | inl fine ↦
        rw (fine, run_task) (with_command-IsIntact t (commands.unmarshal t.command_proto) w h)
    | inr (e, failed) ↦ rw (failed, run_task) (some-Keeps _ _ w h)
  ]

  removing-removes :
      (dir : Bytes) (m : Option (Result AgentError ActionResult × (os.State × st.State)))
      (r : Result AgentError ActionResult) (w' : os.State × st.State)
      → removing sha st os directories trees commands config_error fuel dir m ≡ some (r, w')
      → (s : os.State) × (w'.0 ≡ os.remove_all s dir)
  unfolding removing
  removing-removes dir none r w' h = absurd (cc)
  removing-removes dir (some (x, (s, c))) r w' h =
      let same : ◌≡◌ {A = Result AgentError ActionResult × (os.State × st.State)}
          (x, (os.remove_all s dir, c)) (r, w') =
        some-injective h in
      (s, sym (ap (λ t. t.1.0) same))

  -- The last thing that a task does, once it has a directory of its own, is to remove that directory, however
  -- the work in it ends.
  pub run_task-removes :
      (t : ExecuteTask) (command : Command) (name : Bytes) (arguments : List Bytes) (dir : Bytes)
      (w w' : os.State × st.State) (r : Result AgentError ActionResult)
      → config_error t.region ≡ none
      → commands.unmarshal t.command_proto ≡ some command
      → command.arguments ≡ name ∷ arguments
      → (os.mkdir_temp w.0).0 ≡ ok dir
      → run_task sha st os directories trees commands config_error fuel t w ≡ some (r, w')
      → (s : os.State) × (w'.0 ≡ os.remove_all s dir)
  unfolding run_task in_work_dir host prepared after
  run_task-removes t command name arguments dir (s, c) w' r fine decoded given made h =
      removing-removes dir
        (work sha st os directories trees commands config_error fuel t command name arguments dir
          ((os.mkdir_temp s).1, c))
        r w' (sym (rw (fine, decoded, given, made, run_task)) ∙ h)
