-- ===== src/Agent/Outputs/Ends.antt =====
-- The outputs of a task are captured in full, on a host whose directories are not too deep.
use aws_build_farm.Prelude.{
  Returns, after-Returns, if-Returns, map_err, fold_calls-Returns, Bytes, Result, ok, err, panic, ℕ,
  ◌≡◌, refl, ap, Bool, true, false, Option, [], ◌∷◌,
}
use aws_build_farm.GoText.Path.{path_join}
use aws_build_farm.Digest.{Sha256}
use aws_build_farm.Proto.{ActionResult, Directory, Tree, Command, Codec}
use aws_build_farm.Os.{OsError, FileInfo, Os}
use aws_build_farm.Cas.Interface.{Store}
use aws_build_farm.Casfs.Capture.{capture_file}
use aws_build_farm.Casfs.Materialize.Levels.{all}
use aws_build_farm.Casfs.Trees.Ends.{
  IsBounded, if_cases-Returns, reading-Returns, upload-Returns, some-Returns,
  capture_directory-Returns,
}
use aws_build_farm.Agent.{output_paths}
use aws_build_farm.Agent.Outputs.{with_symlink, capture_found, capture_output, capture_outputs}

pub map_err-Returns :
    {S E F A : Type 0} (f : E → F) (m : Option (Result E A × S)) → Returns m → Returns (map_err f m)
unfolding Returns
map_err-Returns f m ((ok a, s), e) = (_, ap (map_err f) e)
map_err-Returns f m ((err x, s), e) = (_, ap (map_err f) e)
map_err-Returns f m ((panic, s), e) = (_, ap (map_err f) e)

-- The directories that the host has at any time have at most `n` levels below themselves, as far as they can
-- be listed, and themselves for one.
abbrev pub IsShallow : Os → ℕ → Type 0
IsShallow os n =
    (s : os.State) (path : Bytes) (info : FileInfo)
    → os.lstat s path ≡ ok info
    → info.is_symlink ≡ false
    → info.is_dir ≡ true
    → IsBounded os s n path

module _ (sha : Sha256) (st : Store) (os : Os) (directories : Codec Directory) (trees : Codec Tree)
    (n : ℕ) (shallow : IsShallow os n) where
  with_symlink-Returns :
      (files : os.State) (ar : ActionResult) (p : Bytes) (r : Result OsError Bytes) (c : st.State)
      → Returns (with_symlink sha st os directories trees n files ar p r c)
  with_symlink-Returns files ar p (ok t) c = some-Returns _
  with_symlink-Returns files ar p (err e) c = some-Returns _
  with_symlink-Returns files ar p panic c = some-Returns _

  capture_file-Returns :
      (files : os.State) (p full : Bytes) (x : Bool) (c : st.State)
      → Returns (capture_file sha st os directories trees files p full x c)
  unfolding capture_file
  capture_file-Returns files p full x c =
      after-Returns _ _ (reading-Returns (os.read_file files full) c) (λ b c₁ _.
        after-Returns _ _ (upload-Returns sha st os directories trees files b c₁)
          (λ d c₂ _. some-Returns _))

  capture_output-Returns :
      (files : os.State) (ar : ActionResult) (p full : Bytes) (r : Result OsError FileInfo)
      (c : st.State)
      → os.lstat files full ≡ r
      → Returns (capture_output sha st os directories trees n files ar p full r c)
  unfolding capture_output capture_found
  capture_output-Returns files ar p full (ok info) c stat =
      if_cases-Returns info.is_symlink _ _
        (λ _. with_symlink-Returns files ar p (os.read_link files full) c)
        (λ no_link.
          if_cases-Returns info.is_dir _ _
            (λ is_dir.
              after-Returns _ _
                (map_err-Returns _ _ (
                  capture_directory-Returns sha st os directories trees files n p full c
                    (shallow files full info stat no_link is_dir)))
                (λ od c₁ _. some-Returns _))
            (λ _.
              after-Returns _ _
                (map_err-Returns _ _ (capture_file-Returns files p full info.is_executable c))
                (λ of c₁ _. some-Returns _)))
  capture_output-Returns files ar p full (err e) c stat =
      if-Returns e.is_not_exist _ _ (some-Returns _) (some-Returns _)
  capture_output-Returns files ar p full panic c stat = some-Returns _

  pub capture_outputs-Returns :
      (files : os.State) (command : Command) (exec_dir : Bytes) (ar : ActionResult) (c : st.State)
      → Returns (capture_outputs sha st os directories trees n files command exec_dir ar c)
  unfolding capture_outputs
  capture_outputs-Returns files command exec_dir ar c =
      fold_calls-Returns _ (output_paths command)
        (all (output_paths command) (λ p ar' c₁.
          capture_output-Returns files ar' p (path_join (exec_dir ∷ p ∷ [])) _ c₁ refl))
        ar c
