-- ===== src/Casfs/Trees.antt =====
-- Directories of a file system as data: what a directory shows to those who read it, the messages and the
-- blobs that stand for it in the store, and the calls that make it. The code of internal/casfs/casfs.go is
-- compared with these.
pub mod Order
pub mod Captured
pub mod Restored
pub mod RoundTrip
pub mod Ends
pub mod Served
use aws_build_farm.Prelude.{
  All, after, Bytes, Result, ok, ℕ, zero, suc, ◌≡◌, Bool, true, false, Option, none, some, List, [],
  ◌∷◌, ◌++◌,
}
use aws_build_farm.GoText.Path.{path_join}
use aws_build_farm.Digest.{Sha256, from_bytes}
use aws_build_farm.Proto.{Directory, Codec}
use aws_build_farm.Os.{FileInfo, DirEntry, Os}
use aws_build_farm.Casfs.Materialize.{MaterializeError, check_name, called}
use aws_build_farm.Casfs.Capture.{bytes_lt, sorted}

-- The entries of a directory, in the order in which it is listed: a file with its data and whether it is
-- executable, a symbolic link with its target, and a directory with its entries.
pub data Entries : Type 0 where
  end : Entries
  file : Bytes → Bytes → Bool → Entries → Entries
  link : Bytes → Bytes → Entries → Entries
  dir : Bytes → Entries → Entries → Entries

abbrev pub names : Entries → List Bytes
names end = []
names (file name b x es) = name ∷ names es
names (link name target es) = name ∷ names es
names (dir name sub es) = name ∷ names es

-- How deep the directories go.
abbrev pub HasLevels : Entries → ℕ → Type 0
HasLevels end n = Unit {0}
HasLevels (file name b x es) n = HasLevels es n
HasLevels (link name target es) n = HasLevels es n
HasLevels (dir name sub es) zero = ⊥
HasLevels (dir name sub es) (suc n) = HasLevels sub n × HasLevels es (suc n)

-- The names are those of entries, as all that `os.ReadDir` gives: not empty, not `.` or `..`, and without a
-- slash.
abbrev pub IsNamed : Entries → Type 0
IsNamed end = Unit {0}
IsNamed (file name b x es) = (check_name name ≡ none) × IsNamed es
IsNamed (link name target es) = (check_name name ≡ none) × IsNamed es
IsNamed (dir name sub es) = (check_name name ≡ none) × (IsNamed sub × IsNamed es)

-- Every directory is listed by strictly ascending names, as `os.ReadDir` documents.
abbrev pub IsListed : Entries → Type 0
IsListed end = Unit {0}
IsListed (file name b x es) = All (λ m. bytes_lt name m ≡ true) (names es) × IsListed es
IsListed (link name target es) = All (λ m. bytes_lt name m ≡ true) (names es) × IsListed es
IsListed (dir name sub es) =
    All (λ m. bytes_lt name m ≡ true) (names es) × (IsListed sub × IsListed es)

module _ (sha : Sha256) where
  -- No two blobs of a class have one hash.
  abbrev pub IsFree : (Bytes → Type 0) → Type 0
  IsFree P = (a b : Bytes) → P a → P b → (from_bytes sha a).hash ≡ (from_bytes sha b).hash → a ≡ b

abbrev pub bytes_of : Option Bytes → Bytes
bytes_of none = []
bytes_of (some b) = b

module _ (directories : Codec Directory) where
  -- The encoding of a directory, or no bytes where there is none.
  unfoldable pub blob_of : Directory → Bytes
  blob_of m = bytes_of (directories.marshal (sorted m))

module _ (sha : Sha256) (directories : Codec Directory) where
  -- The message of a directory, its entries of each kind in the order of the listing.
  unfoldable pub message : Entries → Directory
  message end = record { files = []; directories = []; symlinks = [] }
  message (file name b x es) =
      let rest = message es in
      record rest {
        files =
            record { name = name; digest = some (from_bytes sha b); is_executable = x }
            ∷ rest.files;
      }
  message (link name target es) =
      let rest = message es in
      record rest { symlinks = record { name = name; target = target } ∷ rest.symlinks }
  message (dir name sub es) =
      let rest = message es in
      record rest {
        directories =
            record {
              name = name;
              digest = some (from_bytes sha (blob_of directories (message sub)));
            }
            ∷ rest.directories;
      }

  -- The messages of the directories below a directory, each before those below it.
  unfoldable pub below : Entries → List Directory
  below end = []
  below (file name b x es) = below es
  below (link name target es) = below es
  below (dir name sub es) = sorted (message sub) ∷ (below sub ++ below es)

  -- The blobs of the files and of the directories below a directory.
  abbrev pub blobs : Entries → List Bytes
  blobs end = []
  blobs (file name b x es) = b ∷ blobs es
  blobs (link name target es) = blobs es
  blobs (dir name sub es) = blobs sub ++ (blob_of directories (message sub) ∷ blobs es)

  -- All messages have encodings.
  abbrev pub IsEncoded : Entries → Type 0
  IsEncoded end = Unit {0}
  IsEncoded (file name b x es) = IsEncoded es
  IsEncoded (link name target es) = IsEncoded es
  IsEncoded (dir name sub es) =
      (directories.marshal (sorted (message sub)) ≡ some (blob_of directories (message sub)))
      × (IsEncoded sub × IsEncoded es)

module _ (os : Os) (files : os.State) where
  -- What the reads of a directory at a path answer: an entry of the listing is a file whose data are read,
  -- a link whose target is read, or a directory that shows its entries.
  abbrev pub Lists : Bytes → List DirEntry → Entries → Type 0
  Lists path listing end = listing ≡ []
  Lists path listing (file name b x es) =
      (e : DirEntry) × (info : FileInfo) × (rest : List DirEntry) × (listing ≡ e ∷ rest)
      × (e.name ≡ name)
      × (e.info ≡ ok info)
      × (info.is_symlink ≡ false)
      × (e.is_dir ≡ false)
      × (info.is_executable ≡ x)
      × (os.read_file files (path_join (path ∷ name ∷ [])) ≡ ok b)
      × Lists path rest es
  Lists path listing (link name target es) =
      (e : DirEntry) × (info : FileInfo) × (rest : List DirEntry) × (listing ≡ e ∷ rest)
      × (e.name ≡ name)
      × (e.info ≡ ok info)
      × (info.is_symlink ≡ true)
      × (os.read_link files (path_join (path ∷ name ∷ [])) ≡ ok target)
      × Lists path rest es
  Lists path listing (dir name sub es) =
      (e : DirEntry) × (info : FileInfo) × (rest inner : List DirEntry) × (listing ≡ e ∷ rest)
      × (e.name ≡ name)
      × (e.info ≡ ok info)
      × (info.is_symlink ≡ false)
      × (e.is_dir ≡ true)
      × (os.read_dir files (path_join (path ∷ name ∷ [])) ≡ ok inner)
      × Lists (path_join (path ∷ name ∷ [])) inner sub
      × Lists path rest es

  -- A directory with these entries is at the path.
  abbrev pub Shows : Bytes → Entries → Type 0
  Shows path es =
      (listing : List DirEntry) × (os.read_dir files path ≡ ok listing) × Lists path listing es

module _ (os : Os) where
  abbrev pub Made : Type 0
  Made = Option (Result MaterializeError (Unit {0}) × os.State)

  unfoldable pub make_files : Entries → Bytes → os.State → Made
  make_files end path s = some (ok tt, s)
  make_files (file name b x es) path s =
      after (called (os.write_file s (path_join (path ∷ name ∷ [])) b x))
        (λ _ s₁. make_files es path s₁)
  make_files (link name target es) path s = make_files es path s
  make_files (dir name sub es) path s = make_files es path s

  unfoldable pub make_links : Entries → Bytes → os.State → Made
  make_links end path s = some (ok tt, s)
  make_links (file name b x es) path s = make_links es path s
  make_links (link name target es) path s =
      after (called (os.symlink s target (path_join (path ∷ name ∷ []))))
        (λ _ s₁. make_links es path s₁)
  make_links (dir name sub es) path s = make_links es path s

  -- A directory is made, then its files, its links, and what is below it.
  abbrev pub make_one : Entries → Bytes → (os.State → Made) → os.State → Made
  make_one es path rest s = after (called (os.mkdir_all s path)) (λ _ s₁.
      after (make_files es path s₁) (λ _ s₂. after (make_links es path s₂) (λ _ s₃. rest s₃)))

  unfoldable pub make_directories : Entries → Bytes → os.State → Made
  make_directories end path s = some (ok tt, s)
  make_directories (file name b x es) path s = make_directories es path s
  make_directories (link name target es) path s = make_directories es path s
  make_directories (dir name sub es) path s =
      let full = path_join (path ∷ name ∷ []) in
      after (make_one sub full (make_directories sub full) s) (λ _ s₁. make_directories es path s₁)

  -- The calls that make a directory at a path, up to the first that fails.
  unfoldable pub make : Entries → Bytes → os.State → Made
  unfolding make_directories
  make es path s = make_one es path (make_directories es path) s
