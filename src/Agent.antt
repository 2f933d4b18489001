-- ===== src/Agent.antt =====
-- cmd/executor-agent/main.go: the outputs that a command asks for, the upload of its captured standard
-- streams, and the environment of its process.
pub mod Laws
pub mod Outputs
pub mod Work
pub mod Handler
mod Routes
pub mod Remote
use aws_build_farm.Prelude.{
  ltb, if◌then◌else◌, length, Bytes, codes, bytes_eq, Result, ok, err, Bool, false, ◌||◌, Option,
  none, some, List, [], ◌∷◌, ◌++◌, map,
}
use aws_build_farm.Digest.{Sha256, from_bytes}
use aws_build_farm.Proto.{ActionResult, EnvironmentVariable, Command}
use aws_build_farm.Cas.Reader.{StoreError}
use aws_build_farm.Cas.Interface.{Store}

-- `outputPaths`.
unfoldable pub output_paths : Command → List Bytes
output_paths command =
    if ltb 0 (length command.output_paths)
    then command.output_paths
    else command.output_files ++ command.output_directories

-- The errors of `attachStream`: the file is not read, or the store does not take the data.
pub data AttachError : Type 0 where
  unreadable : AttachError
  not_stored : StoreError → AttachError

module _ (sha : Sha256) (st : Store) where
  attach_data : st.State → ActionResult → Bool → Bytes → Result AttachError ActionResult × st.State
  attach_data s ar is_stderr b =
      let d = from_bytes sha b in
      let put = st.put s (some d) b in
      elim put.0 [
        | some e ↦ (err (not_stored e), put.1)
        | none ↦
            if is_stderr
            then (ok (record ar { stderr_digest = some d }), put.1)
            else (ok (record ar { stdout_digest = some d }), put.1)
      ]

  -- `attachStream`, with what `os.ReadFile` gives of the file.
  unfoldable pub attach_stream :
      st.State → ActionResult → Option Bytes → Bool → Result AttachError ActionResult × st.State
  unfolding attach_data
  attach_stream s ar none is_stderr = (err unreadable, s)
  attach_stream s ar (some b) is_stderr = attach_data s ar is_stderr b

abbrev pub path_name : Bytes
path_name = codes "PATH"

abbrev pub default_path : Bytes
default_path = codes "/usr/local/sbin:/usr/local/bin:/usr/sbin:/usr/bin:/sbin:/bin"

-- `name + "=" + value`
abbrev pub entry : Bytes → Bytes → Bytes
entry name value = name ++ b'=' ∷ value

abbrev pub entries : List EnvironmentVariable → List Bytes
entries = map (λ (v : EnvironmentVariable). entry v.name v.value)

abbrev pub has_path : List EnvironmentVariable → Bool
has_path [] = false
has_path (v ∷ vars) = bytes_eq v.name path_name || has_path vars

-- `buildEnv`, in an agent whose own `PATH` is the first argument, empty if it is not set.
unfoldable pub build_env : Bytes → List EnvironmentVariable → List Bytes
build_env own vars =
    if has_path vars
    then entries vars
    else if ltb 0 (length own)
    then entries vars ++ entry path_name own ∷ []
    else entries vars ++ entry path_name default_path ∷ []
