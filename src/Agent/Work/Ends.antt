-- ===== src/Agent/Work/Ends.antt =====
-- A task ends, on a host whose directories are not too deep.
use aws_build_farm.Prelude.{
  some-injective, Returns, after-Returns, ℤ, Bytes, Result, ok, err, panic, ℕ, ◌≡◌, ap, true, false,
  Option, none, some, List, [], ◌∷◌,
}
use mathlib.Core.Path.{subst}
use aws_build_farm.Digest.{Sha256, DigestRef}
use aws_build_farm.Proto.{ActionResult, Directory, Tree, Command, Codec}
use aws_build_farm.Os.{OsError, Os}
use aws_build_farm.Task.{ExecuteTask}
use aws_build_farm.Cas.Interface.{Store}
use aws_build_farm.Casfs.Materialize.Levels.{HasDepth, materialize-Returns}
use aws_build_farm.Casfs.Trees.Ends.{some-Returns}
use aws_build_farm.Agent.{AttachError, attach_stream}
use aws_build_farm.Agent.Outputs.{AgentError, config_failed}
use aws_build_farm.Agent.Work.{
  attached, readable, host, remote, prepared, ended, report, work, removing, in_work_dir,
  with_command, run_task,
}
use aws_build_farm.Agent.Outputs.Ends.{IsShallow, map_err-Returns, capture_outputs-Returns}

attached-Returns : {S : Type 0} (r : Result AttachError ActionResult × S) → Returns (attached r)
attached-Returns (ok ar, c) = some-Returns _
attached-Returns (err e, c) = some-Returns _
attached-Returns (panic, c) = some-Returns _

module _ (sha : Sha256) (st : Store) (os : Os) (directories : Codec Directory) (trees : Codec Tree)
    (n : ℕ) (shallow : IsShallow os n) (commands : Codec Command)
    (config_error : Bytes → Option Bytes) where
  remote-Returns :
      {A : Type 0} (s : os.State) (m : Option (Result AgentError A × st.State))
      → Returns m
      → Returns (remote sha st os directories trees commands config_error n s m)
  unfolding Returns remote
  remote-Returns s m (r, e) =
      (_, ap (remote sha st os directories trees commands config_error n s) e)

  host-Returns :
      {A : Type 0} (c : st.State) (m : Option (Result AgentError A × os.State))
      → Returns m
      → Returns (host sha st os directories trees commands config_error n c m)
  unfolding Returns host
  host-Returns c m (r, e) = (_, ap (host sha st os directories trees commands config_error n c) e)

  prepared-Returns :
      {A : Type 0} (r : Result OsError A × os.State)
      → Returns (prepared sha st os directories trees commands config_error n r)
  unfolding prepared
  prepared-Returns (r, s) = map_err-Returns _ _ (some-Returns (r, s))

  host-state :
      {A : Type 0} (c : st.State) (m : Option (Result AgentError A × os.State))
      (r : Result AgentError A) (w : os.State × st.State)
      → host sha st os directories trees commands config_error n c m ≡ some (r, w)
      → c ≡ w.1
  unfolding host
  host-state c none r w h = cc
  host-state c (some (q, s)) r w h = ap (λ p. p.1.1) (some-injective h)

  report-Returns :
      (command : Command) (exec_dir stdout stderr : Bytes) (code : ℤ) (w : os.State × st.State)
      → Returns (
          report sha st os directories trees commands config_error n command exec_dir stdout stderr
            code w)
  unfolding report
  report-Returns command exec_dir stdout stderr code (s, c) = remote-Returns s _ (
      after-Returns _ _
        (attached-Returns (attach_stream sha st c _ (readable (os.read_file s stdout)) false))
        (λ ar c₁ _.
          after-Returns _ _
            (attached-Returns (attach_stream sha st c₁ ar (readable (os.read_file s stderr)) true))
            (λ ar' c₂ _.
              capture_outputs-Returns sha st os directories trees n shallow s command exec_dir ar'
                c₂)))

  -- The input root of the task.
  abbrev pub root_of : ExecuteTask → DigestRef
  root_of t = some (record { hash = t.input_root_hash; size_bytes = t.input_root_size })

  work-Returns :
      (t : ExecuteTask) (command : Command) (name : Bytes) (arguments : List Bytes) (dir : Bytes)
      (w : os.State × st.State)
      → HasDepth st os directories w.1 n (root_of t)
      → Returns
          (work sha st os directories trees commands config_error n t command name arguments dir w)
  unfolding work ended
  work-Returns t command name arguments dir (s, c) deep =
      after-Returns _ _
        (host-Returns c _
          (map_err-Returns _ _ (materialize-Returns st os directories c n (root_of t) dir s deep)))
        (λ _ w₁ _. after-Returns _ _ (host-Returns w₁.1 _ (prepared-Returns _)) (λ _ w₂ _.
          after-Returns _ _ (host-Returns w₂.1 _ (prepared-Returns _)) (λ _ w₃ _.
            after-Returns _ _ (host-Returns w₃.1 _ (some-Returns _))
              (λ code w₄ _. report-Returns command _ _ _ code w₄))))

  removing-Returns :
      (dir : Bytes) (m : Option (Result AgentError ActionResult × (os.State × st.State)))
      → Returns m
      → Returns (removing sha st os directories trees commands config_error n dir m)
  unfolding Returns removing
  removing-Returns dir m (r, e) =
      (_, ap (removing sha st os directories trees commands config_error n dir) e)

  with_command-Returns :
      (t : ExecuteTask) (command : Option Command) (w : os.State × st.State)
      → HasDepth st os directories w.1 n (root_of t)
      → Returns (with_command sha st os directories trees commands config_error n t command w)
  unfolding in_work_dir
  with_command-Returns t none w deep = some-Returns _
  with_command-Returns t (some command) (s, c) deep =
      elim command.arguments
        as (λ a.
          Returns
            (in_work_dir sha st os directories trees commands config_error n t command a (s, c))) [
              | [] ↦ some-Returns _
              | name ∷ arguments ↦
                  after-Returns _ _ (host-Returns c _ (prepared-Returns (os.mkdir_temp s)))
                    (λ dir w' made. removing-Returns dir _ (
                      work-Returns t command name arguments dir w' (
                        subst (λ q. HasDepth st os directories q n (root_of t))
                          (host-state c _ _ w' made) deep)))
            ]

  -- A task returns, whatever the store and the calls of the host answer, successes and failures, if the
  -- directories of its input root have at most `n` levels, and so have those that the host has at any time, as
  -- far as they can be listed.
  pub run_task-Returns :
      (t : ExecuteTask) (w : os.State × st.State)
      → HasDepth st os directories w.1 n (root_of t)
      → Returns (run_task sha st os directories trees commands config_error n t w)
  unfolding run_task
  run_task-Returns t w deep =
      elim (config_error t.region)
        as (λ o.
          Returns
            (elim o as (λ _. Option (Result AgentError ActionResult × (os.State × st.State))) [
              | some e ↦ some (err (config_failed e), w)
              | none ↦
                  with_command sha st os directories trees commands config_error n t
                    (commands.unmarshal t.command_proto) w
            ])) [
              | some e ↦ some-Returns _
              | none ↦ with_command-Returns t (commands.unmarshal t.command_proto) w deep
            ]
