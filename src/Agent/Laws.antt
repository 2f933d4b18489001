-- ===== src/Agent/Laws.antt =====
-- What the agent's process and its results can rely on.
use aws_build_farm.Prelude.{
  if◌then◌else◌, Bool-cases, Option-cases, length_zero, Bytes, ok, ◌≡◌, refl, ◌≢◌, ◌⊎◌, inl, inr,
  Bool, true, false, not, none, some, List, [], ◌∷◌, ◌++◌, arith,
}
use aws_build_farm.Digest.{DigestRef, Sha256, from_bytes}
use aws_build_farm.Proto.{ActionResult, EnvironmentVariable}
use aws_build_farm.Cas.Interface.{Store}
use aws_build_farm.Server.Blobs.Batch.{content, put-content}
use aws_build_farm.Casfs.Capture.Intact.{from_bytes-IsGenuine}
use aws_build_farm.Agent.{
  attach_stream, attach_data, build_env, entry, entries, has_path, path_name, default_path,
}

List-cases : (b : Bytes) → (b ≡ []) ⊎ (b ≢ [])
List-cases [] = inl refl
List-cases (x ∷ b) = inr (λ h. cc)

-- The environment of the process is that of the command, followed by an entry for `PATH`, which is not
-- empty, exactly if the command sets none.
build_env_lem :
    (own : Bytes) (vars : List EnvironmentVariable)
    → ((has_path vars ≡ true) × (build_env own vars ≡ entries vars))
      ⊎ ((has_path vars ≡ false)
          × ((value : Bytes) × (value ≢ [])
              × (build_env own vars ≡ entries vars ++ entry path_name value ∷ [])))
unfolding build_env
build_env_lem own vars = elim (Bool-cases (has_path vars)) [
  | inl given ↦ inl (given, ground (arith, given))
  | inr unset ↦ elim (List-cases own) [
    | inl none_own ↦ inr (unset, (default_path, λ h. cc, ground (arith, unset, none_own)))
    | inr given ↦ inr (unset, (own, given, ground (arith, unset, given, length_zero own)))
  ]
]

module _ (sha : Sha256) (st : Store) where
  stored-content :
      (s : st.State) (b : Bytes)
      → (st.put s (some (from_bytes sha b)) b).0 ≡ none
      → content st (st.put s (some (from_bytes sha b)) b).1 (some (from_bytes sha b)) ≡ some b
  stored-content s b stored =
      put-content sha st s (some (from_bytes sha b)) b (from_bytes-IsGenuine sha b) stored

  -- What the result names for a standard stream.
  abbrev pub stream_digest : Bool → ActionResult → DigestRef
  stream_digest is_stderr ar = if is_stderr then ar.stderr_digest else ar.stdout_digest

  -- A standard stream that was attached is named in the result by the digest of its data, the store holds
  -- the data for that digest, and the exit code and the other stream of the result are as before.
  attach_stream-content :
      (s : st.State) (ar ar' : ActionResult) (b : Bytes) (is_stderr : Bool)
      → (attach_stream sha st s ar (some b) is_stderr).0 ≡ ok ar'
      → (stream_digest is_stderr ar' ≡ some (from_bytes sha b))
        × (content st (attach_stream sha st s ar (some b) is_stderr).1 (stream_digest is_stderr ar')
            ≡ some b)
        × (stream_digest (not is_stderr) ar' ≡ stream_digest (not is_stderr) ar)
        × (ar'.exit_code ≡ ar.exit_code)
  unfolding attach_stream attach_data
  attach_stream-content s ar ar' b is_stderr h =
      let put = st.put s (some (from_bytes sha b)) b in
      elim (Option-cases put.0) [
        | inr (e, failed) ↦ ground (arith, failed)
        | inl stored ↦
            let named : stream_digest is_stderr ar' ≡ some (from_bytes sha b) =
              ground (arith, stored) in
            let held = stored-content s b stored in
            (
              named,
              rw named (ground (arith, stored, held)),
              ground (arith, stored),
              ground (arith, stored),
            )
      ]
