-- ===== src/Agent/Work/Complete.antt =====
-- The outputs and the streams that a result names are in the store.
pub mod Reported
use aws_build_farm.Prelude.{
  Ensures, some-Ensures, after-Ensures, if-Ensures, fold_calls-Ensures, map_err-Ensures,
  Option-cases, All, All-append, All-imp, Ensures, after-Ensures, if-Ensures, fold_calls-Ensures,
  map_err-Ensures, Bytes, Result, ok, err, panic, ℕ, ◌≡◌, refl, sym, inl, inr, Bool, true, false,
  Option, none, some, [], ◌∷◌, arith,
}
use mathlib.Core.Path.{subst}
use aws_build_farm.GoText.Path.{path_join}
use aws_build_farm.Digest.{Sha256, DigestRef, from_bytes}
use aws_build_farm.Proto.{
  ActionResult, Directory, Tree, OutputFile, OutputDirectory, Command, Codec,
}
use aws_build_farm.Os.{OsError, FileInfo, Os}
use aws_build_farm.Cas.Reader.{StoreError}
use aws_build_farm.Cas.Interface.{Store}
use aws_build_farm.Casfs.Capture.Complete.{
  Present, Later, put-Later, put-Present, capture_file-Ensures, capture_directory-Ensures,
}
use aws_build_farm.Agent.{not_stored, attach_stream, attach_data, output_paths}
use aws_build_farm.Agent.Outputs.{
  AgentError, directory_not_captured, file_not_captured, with_symlink, capture_found,
  capture_output, capture_outputs,
}
use aws_build_farm.Agent.Work.{attached}

module _ (sha : Sha256) (st : Store) where
  -- The output files, the output directories and the standard streams of a result are in the store.
  pub record IsComplete (ar : ActionResult) (c : st.State) : Type 0 where
    pub has_files : All (λ (f : OutputFile). Present sha st c f.digest) ar.output_files
    pub has_directories :
        All
          (λ (d : OutputDirectory).
            Present sha st c d.tree_digest × Present sha st c d.root_directory_digest)
          ar.output_directories
    pub has_stdout : Present sha st c ar.stdout_digest
    pub has_stderr : Present sha st c ar.stderr_digest

  attach_stream-stored :
      (c : st.State) (ar : ActionResult) (b : Bytes)
      → (st.put c (some (from_bytes sha b)) b).0 ≡ none
      → (attach_stream sha st c ar (some b) false ≡ (
        ok (record ar { stdout_digest = some (from_bytes sha b) }),
        (st.put c (some (from_bytes sha b)) b).1,
      ))
        × (attach_stream sha st c ar (some b) true ≡ (
          ok (record ar { stderr_digest = some (from_bytes sha b) }),
          (st.put c (some (from_bytes sha b)) b).1,
        ))
  unfolding attach_stream attach_data
  attach_stream-stored c ar b h = (ground (arith, h), ground (arith, h))

  attach_stream-failed :
      (c : st.State) (ar : ActionResult) (b : Bytes) (x : Bool) (e : StoreError)
      → (st.put c (some (from_bytes sha b)) b).0 ≡ some e
      → attach_stream sha st c ar (some b) x
        ≡ (err (not_stored e), (st.put c (some (from_bytes sha b)) b).1)
  unfolding attach_stream attach_data
  attach_stream-failed c ar b x e h = ground (arith, h)

  -- The result with the digest of a stream that was attached.
  abbrev pub with_stream : Bool → ActionResult → DigestRef → ActionResult
  with_stream false ar d = record ar { stdout_digest = d }
  with_stream true ar d = record ar { stderr_digest = d }

  unfoldable pub Attached : st.State → ActionResult → Bool → ActionResult → st.State → Type 0
  Attached c ar x ar' c' =
      (d : DigestRef) × (ar' ≡ with_stream x ar d) × Later sha st c c' × Present sha st c' d

  pub attached_stream-Ensures :
      (c : st.State) (ar : ActionResult) (b : Option Bytes) (x : Bool)
      → Ensures (Attached c ar x) (attached (attach_stream sha st c ar b x))
  unfolding Ensures Attached
  attached_stream-Ensures c ar none x = unfold attach_stream in tt
  attached_stream-Ensures c ar (some b) x =
      elim (Option-cases (st.put c (some (from_bytes sha b)) b).0) [
        | inl done ↦
            subst (λ q. Ensures (Attached c ar x) (attached q)) (sym (stored x done))
              (some (from_bytes sha b), refl, put-Later sha st c b, put-Present sha st c b done)
        | inr (e, failed) ↦
            subst (λ q. Ensures (Attached c ar x) (attached q))
              (sym (attach_stream-failed c ar b x e failed)) tt
      ]
    where
      stored :
          (x : Bool)
          → (st.put c (some (from_bytes sha b)) b).0 ≡ none
          → attach_stream sha st c ar (some b) x ≡ (
            ok (with_stream x ar (some (from_bytes sha b))),
            (st.put c (some (from_bytes sha b)) b).1,
          )
      stored false done = (attach_stream-stored c ar b done).0
      stored true done = (attach_stream-stored c ar b done).1

  IsComplete-Later :
      (ar : ActionResult) (c c' : st.State) → Later sha st c c' → IsComplete ar c → IsComplete ar c'
  IsComplete-Later ar c c' later h = record {
    has_files = All-imp _ _ ar.output_files (λ (f : OutputFile) p. later f.digest p) h.has_files;
    has_directories =
        All-imp _ _ ar.output_directories
          (λ (d : OutputDirectory) p. (later d.tree_digest p.0, later d.root_directory_digest p.1))
          h.has_directories;
    has_stdout = later ar.stdout_digest h.has_stdout;
    has_stderr = later ar.stderr_digest h.has_stderr;
  }

  module _ (os : Os) (directories : Codec Directory) (trees : Codec Tree) (fuel : ℕ) where
    module _ (files : os.State) where
      with_symlink-Ensures :
          (ar : ActionResult) (p : Bytes) (r : Result OsError Bytes) (c : st.State)
          → IsComplete ar c
          → Ensures IsComplete (with_symlink sha st os directories trees fuel files ar p r c)
      unfolding Ensures
      with_symlink-Ensures ar p (ok t) c h = record {
        has_files = h.has_files;
        has_directories = h.has_directories;
        has_stdout = h.has_stdout;
        has_stderr = h.has_stderr;
      }
      with_symlink-Ensures ar p (err e) c h = tt
      with_symlink-Ensures ar p panic c h = tt

      capture_found-Ensures :
          (ar : ActionResult) (p full : Bytes) (info : FileInfo) (c : st.State)
          → IsComplete ar c
          → Ensures IsComplete
              (capture_found sha st os directories trees fuel files ar p full info c)
      unfolding capture_found
      capture_found-Ensures ar p full info c h =
          if-Ensures _ info.is_symlink _ _ (with_symlink-Ensures ar p (os.read_link files full) c h)
            (if-Ensures _ info.is_dir _ _
              (after-Ensures _ _ _ _
                (map_err-Ensures _ (directory_not_captured p) _
                  (capture_directory-Ensures sha st os directories trees files fuel p full c))
                (λ od c₁ g.
                  let k = IsComplete-Later ar c c₁ g.0 h in
                  some-Ensures _ _ _ c₁ (record {
                    has_files = k.has_files;
                    has_directories =
                        All-append _ ar.output_directories (od ∷ []) k.has_directories
                          ((g.1, g.2), tt);
                    has_stdout = k.has_stdout;
                    has_stderr = k.has_stderr;
                  })))
              (after-Ensures _ _ _ _
                (map_err-Ensures _ (file_not_captured p) _ (
                  capture_file-Ensures sha st os directories trees files p full info.is_executable
                    c))
                (λ of c₁ g.
                  let k = IsComplete-Later ar c c₁ g.0 h in
                  some-Ensures _ _ _ c₁ (record {
                    has_files = All-append _ ar.output_files (of ∷ []) k.has_files (g.1, tt);
                    has_directories = k.has_directories;
                    has_stdout = k.has_stdout;
                    has_stderr = k.has_stderr;
                  }))))

      capture_output-Ensures :
          (ar : ActionResult) (p full : Bytes) (r : Result OsError FileInfo) (c : st.State)
          → IsComplete ar c
          → Ensures IsComplete (capture_output sha st os directories trees fuel files ar p full r c)
      unfolding capture_output Ensures
      capture_output-Ensures ar p full (ok info) c h = capture_found-Ensures ar p full info c h
      capture_output-Ensures ar p full (err e) c h =
          if-Ensures IsComplete e.is_not_exist _ _ (some-Ensures AgentError IsComplete ar c h) tt
      capture_output-Ensures ar p full panic c h = tt

      pub capture_outputs-Ensures :
          (command : Command) (exec_dir : Bytes) (ar : ActionResult) (c : st.State)
          → IsComplete ar c
          → Ensures IsComplete
              (capture_outputs sha st os directories trees fuel files command exec_dir ar c)
      unfolding capture_outputs
      capture_outputs-Ensures command exec_dir ar c h =
          fold_calls-Ensures _ _
            (λ ar' p c₁ h₁.
              capture_output-Ensures ar' p (path_join (exec_dir ∷ p ∷ []))
                (os.lstat files (path_join (exec_dir ∷ p ∷ []))) c₁ h₁)
            ar (output_paths command) c h
