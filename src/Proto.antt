-- ===== src/Proto.antt =====
-- The messages of the remote execution protocol that the program reads or writes field by field.
-- The generated Go types and `proto.Marshal` are code of other packages: a message is a record of
-- the fields that the program names, and the encoding is the parameter `Codec`.
use aws_build_farm.Prelude.{ℤ, Bytes, ◌≡◌, Bool, Option, some, List}
use aws_build_farm.Digest.{DigestRef}

pub record FileNode : Type 0 where
  pub name : Bytes
  pub digest : DigestRef
  pub is_executable : Bool

pub record DirectoryNode : Type 0 where
  pub name : Bytes
  pub digest : DigestRef

pub record SymlinkNode : Type 0 where
  pub name : Bytes
  pub target : Bytes

pub record Directory : Type 0 where
  pub files : List FileNode
  pub directories : List DirectoryNode
  pub symlinks : List SymlinkNode

-- The message `repb.Tree`.
pub record Tree : Type 0 where
  pub root : Directory
  pub children : List Directory

pub record OutputFile : Type 0 where
  pub path : Bytes
  pub digest : DigestRef
  pub is_executable : Bool

pub record OutputDirectory : Type 0 where
  pub path : Bytes
  pub tree_digest : DigestRef
  pub root_directory_digest : DigestRef

pub record OutputSymlink : Type 0 where
  pub path : Bytes
  pub target : Bytes

pub record ActionResult : Type 0 where
  pub output_files : List OutputFile
  pub output_directories : List OutputDirectory
  pub output_symlinks : List OutputSymlink
  pub exit_code : ℤ
  pub stdout_digest : DigestRef
  pub stderr_digest : DigestRef

-- `timeout` is in nanoseconds, and `none` where the field is not set.
pub record Action : Type 0 where
  pub command_digest : DigestRef
  pub input_root_digest : DigestRef
  pub timeout : Option ℤ
  pub do_not_cache : Bool

pub record EnvironmentVariable : Type 0 where
  pub name : Bytes
  pub value : Bytes

pub record Command : Type 0 where
  pub arguments : List Bytes
  pub environment_variables : List EnvironmentVariable
  pub output_files : List Bytes
  pub output_directories : List Bytes
  pub output_paths : List Bytes
  pub working_directory : Bytes

-- `proto.Marshal` and `proto.Unmarshal` at one type of messages: either may fail, and what was
-- encoded is decoded to the same message.
pub record Codec (M : Type 0) : Type 0 where
  pub marshal : M → Option Bytes
  pub unmarshal : Bytes → Option M
  pub round_trip : (m : M) (b : Bytes) → marshal m ≡ some b → unmarshal b ≡ some m
