-- ===== src/Agent/Outputs.antt =====
-- cmd/executor-agent/main.go: the capture of the outputs that a command asks for.
pub mod Ends
use aws_build_farm.Prelude.{
  if◌then◌else◌, after, map_err, fold_calls, Bytes, Result, ok, err, panic, ℕ, Option, some, [],
  ◌∷◌, ◌++◌,
}
use aws_build_farm.GoText.Path.{path_join}
use aws_build_farm.Digest.{Sha256}
use aws_build_farm.Proto.{ActionResult, Directory, Tree, Command, Codec}
use aws_build_farm.Os.{OsError, FileInfo, Os}
use aws_build_farm.Cas.Interface.{Store}
use aws_build_farm.Casfs.Materialize.{MaterializeError}
use aws_build_farm.Casfs.Capture.{CaptureError, capture_file, capture_directory}
use aws_build_farm.Agent.{AttachError, output_paths}

-- The errors of `runTask`.
pub data AgentError : Type 0 where
  config_failed : Bytes → AgentError
  bad_command : AgentError
  no_arguments : AgentError
  not_prepared : OsError → AgentError
  not_materialized : MaterializeError → AgentError
  not_started : Bytes → AgentError
  not_attached : AttachError → AgentError
  not_stat : Bytes → OsError → AgentError
  link_not_read : OsError → AgentError
  directory_not_captured : Bytes → CaptureError → AgentError
  file_not_captured : Bytes → CaptureError → AgentError

module _ (sha : Sha256) (st : Store) (os : Os) (directories : Codec Directory) (trees : Codec Tree)
    (fuel : ℕ) (files : os.State) where
  abbrev pub with_symlink :
      ActionResult
      → Bytes
      → Result OsError Bytes
      → st.State
      → Option (Result AgentError ActionResult × st.State)
  with_symlink ar p (ok target) c = some (
    ok (record ar {
      output_symlinks = ar.output_symlinks ++ record { path = p; target = target } ∷ [];
    }),
    c,
  )
  with_symlink ar p (err e) c = some (err (link_not_read e), c)
  with_symlink ar p panic c = some (panic, c)

  unfoldable pub capture_found :
      ActionResult
      → Bytes
      → Bytes
      → FileInfo
      → st.State
      → Option (Result AgentError ActionResult × st.State)
  unfolding capture_directory capture_file
  capture_found ar p full info c =
      if info.is_symlink
      then with_symlink ar p (os.read_link files full) c
      else if info.is_dir
      then after
          (map_err (directory_not_captured p)
            (capture_directory sha st os directories trees files fuel p full c))
          (λ od c₁.
            some (ok (record ar { output_directories = ar.output_directories ++ od ∷ [] }), c₁))
      else after
          (map_err (file_not_captured p)
            (capture_file sha st os directories trees files p full info.is_executable c))
          (λ of c₁. some (ok (record ar { output_files = ar.output_files ++ of ∷ [] }), c₁))

  -- The body of the loop of `captureOutputs`, with what `os.Lstat` answers.
  unfoldable pub capture_output :
      ActionResult
      → Bytes
      → Bytes
      → Result OsError FileInfo
      → st.State
      → Option (Result AgentError ActionResult × st.State)
  unfolding capture_found
  capture_output ar p full (ok info) c = capture_found ar p full info c
  capture_output ar p full (err e) c =
      if e.is_not_exist then some (ok ar, c) else some (err (not_stat p e), c)
  capture_output ar p full panic c = some (panic, c)

  -- `captureOutputs`.
  unfoldable pub capture_outputs :
      Command → Bytes → ActionResult → st.State → Option (Result AgentError ActionResult × st.State)
  unfolding capture_output output_paths
  capture_outputs command exec_dir ar c =
      fold_calls
        (λ ar' p c₁.
          let full = path_join (exec_dir ∷ p ∷ []) in
          capture_output ar' p full (os.lstat files full) c₁)
        ar (output_paths command) c
