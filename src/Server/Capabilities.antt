-- ===== src/Server/Capabilities.antt =====
-- internal/server/server.go: what GetCapabilities advertises.
use aws_build_farm.Prelude.{ℕ, ◌*◌, Bool, true, false, Option, none, some, List, [], ◌∷◌}

pub data DigestFunction : Type 0 where
  sha256 : DigestFunction

pub data SymlinkStrategy : Type 0 where
  allowed : SymlinkStrategy

pub record CacheCapabilities : Type 0 where
  pub digest_functions : List DigestFunction
  pub update_enabled : Bool
  pub max_batch_total_size_bytes : ℕ
  pub symlink_absolute_path_strategy : SymlinkStrategy

pub record ExecutionCapabilities : Type 0 where
  pub digest_function : DigestFunction
  pub exec_enabled : Bool
  pub digest_functions : List DigestFunction

-- The fields of the message that the server sets; a version is its major and its minor number.
pub record ServerCapabilities : Type 0 where
  pub cache_capabilities : CacheCapabilities
  pub execution_capabilities : Option ExecutionCapabilities
  pub low_api_version : ℕ × ℕ
  pub high_api_version : ℕ × ℕ

-- `maxBatchSize`.
abbrev max_batch_size : ℕ
max_batch_size = 4 * 1024 * 1024

abbrev execution_of : Bool → Option ExecutionCapabilities
execution_of false = none
execution_of true =
    some (record { digest_function = sha256; exec_enabled = true; digest_functions = sha256 ∷ [] })

-- `GetCapabilities`, of a server with an executor or without one, as `ExecutionEnabled` says.
abbrev pub get_capabilities : Bool → ServerCapabilities
get_capabilities execution_enabled = record {
  cache_capabilities = record {
    digest_functions = sha256 ∷ [];
    update_enabled = true;
    max_batch_total_size_bytes = max_batch_size;
    symlink_absolute_path_strategy = allowed;
  };
  execution_capabilities = execution_of execution_enabled;
  low_api_version = (2, 0);
  high_api_version = (2, 3);
}
