-- ===== src/Agent/Work/Intact.antt =====
-- A task keeps the store intact: each blob has the hash under which it is kept.
use aws_build_farm.Prelude.{
  Option-cases, Keeps, some-Keeps, if-Keeps, after-Keeps, map_err-Keeps, fold_calls-Keeps, Bytes,
  Result, ok, err, panic, ℕ, ◌≡◌, Bool, true, false, Option, none, some, [], ◌∷◌, arith,
}
use mathlib.Core.Path.{subst}
use aws_build_farm.GoText.Path.{path_join}
use aws_build_farm.Digest.{Sha256, from_bytes}
use aws_build_farm.Proto.{ActionResult, Directory, Tree, Command, Codec}
use aws_build_farm.Os.{OsError, FileInfo, Os}
use aws_build_farm.Cas.Interface.{Store}
use aws_build_farm.Server.Blobs.Integrity.{IsIntact, put-IsIntact}
use aws_build_farm.Casfs.Capture.Intact.{
  from_bytes-IsGenuine, capture_file-IsIntact, capture_directory-IsIntact,
}
use aws_build_farm.Agent.{AttachError, attach_stream, attach_data, output_paths}
use aws_build_farm.Agent.Outputs.{
  with_symlink, capture_found, capture_output, capture_outputs, directory_not_captured,
  file_not_captured,
}
use aws_build_farm.Agent.Work.{attached}

module _ (sha : Sha256) (st : Store) where
  attached-Keeps :
      (I : st.State → Type 0) (r : Result AttachError ActionResult × st.State)
      → I r.1
      → Keeps I (attached r)
  unfolding Keeps
  attached-Keeps I (ok ar, c) h = h
  attached-Keeps I (err e, c) h = h
  attached-Keeps I (panic, c) h = h

  attach_stream-IsIntact :
      (c : st.State) (ar : ActionResult) (b : Option Bytes) (is_stderr : Bool)
      → IsIntact sha st c
      → IsIntact sha st (attach_stream sha st c ar b is_stderr).1
  unfolding attach_stream attach_data
  attach_stream-IsIntact c ar none x h = h
  attach_stream-IsIntact c ar (some b) x h =
      subst (IsIntact sha st) (same x)
        (put-IsIntact sha st c (some (from_bytes sha b)) b (from_bytes-IsGenuine sha b) h)
    where
      same :
          (x : Bool)
          → (st.put c (some (from_bytes sha b)) b).1 ≡ (attach_stream sha st c ar (some b) x).1
      same true = ground (arith, Option-cases (st.put c (some (from_bytes sha b)) b).0)
      same false = ground (arith, Option-cases (st.put c (some (from_bytes sha b)) b).0)

  pub attached_stream-IsIntact :
      (c : st.State) (ar : ActionResult) (b : Option Bytes) (is_stderr : Bool)
      → IsIntact sha st c
      → Keeps (IsIntact sha st) (attached (attach_stream sha st c ar b is_stderr))
  attached_stream-IsIntact c ar b x h =
      attached-Keeps (IsIntact sha st) (attach_stream sha st c ar b x)
        (attach_stream-IsIntact c ar b x h)

  module _ (os : Os) (directories : Codec Directory) (trees : Codec Tree) (fuel : ℕ)
      (files : os.State) where
    with_symlink-Keeps :
        (I : st.State → Type 0) (ar : ActionResult) (p : Bytes) (r : Result OsError Bytes)
        (c : st.State)
        → I c
        → Keeps I (with_symlink sha st os directories trees fuel files ar p r c)
    unfolding Keeps
    with_symlink-Keeps I ar p (ok t) c h = h
    with_symlink-Keeps I ar p (err e) c h = h
    with_symlink-Keeps I ar p panic c h = h

    capture_found-IsIntact :
        (ar : ActionResult) (p full : Bytes) (info : FileInfo) (c : st.State)
        → IsIntact sha st c
        → Keeps
            (IsIntact sha st)
            (capture_found sha st os directories trees fuel files ar p full info c)
    unfolding capture_found
    capture_found-IsIntact ar p full info c h =
        if-Keeps _ info.is_symlink _ _ (with_symlink-Keeps _ ar p (os.read_link files full) c h) (
          if-Keeps _ info.is_dir _ _
            (after-Keeps _ _ _
              (map_err-Keeps _ (directory_not_captured p) _
                (capture_directory-IsIntact sha st os directories trees files fuel p full c h))
              (λ od c₁ h₁. some-Keeps _ _ c₁ h₁))
            (after-Keeps _ _ _
              (map_err-Keeps _ (file_not_captured p) _ (
                capture_file-IsIntact sha st os directories trees files p full info.is_executable c
                  h))
              (λ of c₁ h₁. some-Keeps _ _ c₁ h₁)))

    capture_output-IsIntact :
        (ar : ActionResult) (p full : Bytes) (r : Result OsError FileInfo) (c : st.State)
        → IsIntact sha st c
        → Keeps
            (IsIntact sha st)
            (capture_output sha st os directories trees fuel files ar p full r c)
    unfolding capture_output
    capture_output-IsIntact ar p full (ok info) c h = capture_found-IsIntact ar p full info c h
    capture_output-IsIntact ar p full (err e) c h =
        if-Keeps _ e.is_not_exist _ _ (some-Keeps _ _ c h) (some-Keeps _ _ c h)
    capture_output-IsIntact ar p full panic c h = some-Keeps _ _ c h

    pub capture_outputs-IsIntact :
        (command : Command) (exec_dir : Bytes) (ar : ActionResult) (c : st.State)
        → IsIntact sha st c
        → Keeps
            (IsIntact sha st)
            (capture_outputs sha st os directories trees fuel files command exec_dir ar c)
    unfolding capture_outputs
    capture_outputs-IsIntact command exec_dir ar c h =
        fold_calls-Keeps _ _
          (λ ar' p c₁ h₁.
            capture_output-IsIntact ar' p (path_join (exec_dir ∷ p ∷ []))
              (os.lstat files (path_join (exec_dir ∷ p ∷ []))) c₁ h₁)
          ar (output_paths command) c h
