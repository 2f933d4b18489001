-- ===== src/Os.antt =====
-- The calls of Go's packages os and os/exec that internal/casfs and cmd/executor-agent make, over one state of
-- the host: the files, what runs, and the clock. Their results are a parameter.
use aws_build_farm.Prelude.{ℤ, Bytes, Result, Bool, Option, List}

-- An error of a call: whether it is `os.ErrNotExist`, and its text.
pub record OsError : Type 0 where
  pub is_not_exist : Bool
  pub text : Bytes

-- What the program reads of an `fs.FileInfo`: two bits of the mode and whether one of the three execute bits
-- is set.
pub record FileInfo : Type 0 where
  pub is_symlink : Bool
  pub is_dir : Bool
  pub is_executable : Bool

-- An entry that `os.ReadDir` gives: its name, its type at that time, and what `Info` answers.
pub record DirEntry : Type 0 where
  pub name : Bytes
  pub is_dir : Bool
  pub info : Result OsError FileInfo

-- An `exec.Cmd`, with the files that its streams go to and the nanoseconds that its
-- context has, if any.
pub record Process : Type 0 where
  pub path : Bytes
  pub arguments : List Bytes
  pub dir : Bytes
  pub env : List Bytes
  pub stdout : Bytes
  pub stderr : Bytes
  pub timeout : Option ℤ

-- What `Cmd.Run` answers: nil, an `exec.ExitError` with its code, or another error.
pub data RunError : Type 0 where
  finished : RunError
  exit_error : ℤ → RunError
  other_error : Bytes → RunError

-- Reads do not change the state. `write_file` gives the mode 0755 to what is executable, and 0644 to the rest.
-- `run` also says whether the context's deadline has passed.
pub record Os : Type 1 where
  pub State : Type 0
  pub mkdir_all : State → Bytes → Result OsError (Unit {0}) × State
  pub write_file : State → Bytes → Bytes → Bool → Result OsError (Unit {0}) × State
  pub symlink : State → Bytes → Bytes → Result OsError (Unit {0}) × State
  pub mkdir_temp : State → Result OsError Bytes × State
  pub remove_all : State → Bytes → State
  pub create : State → Bytes → Result OsError (Unit {0}) × State
  pub run : State → Process → (RunError × Bool) × State
  pub read_file : State → Bytes → Result OsError Bytes
  pub read_dir : State → Bytes → Result OsError (List DirEntry)
  pub read_link : State → Bytes → Result OsError Bytes
  pub lstat : State → Bytes → Result OsError FileInfo
  pub getenv : State → Bytes → Bytes
