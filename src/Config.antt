-- ===== src/Config.antt =====
-- internal/config/config.go: the settings of the server, from its flags and its environment. The
-- package flag has parsed the arguments; `Flags` is what it gives.
mod Numbers
pub mod Valid
pub mod Lists
mod Tests
use obsidian_mcp_server.Prelude.{
  ℕ, ◌≡◌, Bool, true, false, not, ◌&&◌, ◌||◌, Option, none, some, List, [], ◌∷◌, if◌then◌else◌, leb,
}
use obsidian_mcp_server.Prelude.Exec.{Result, ok, err, check, bind}
use obsidian_mcp_server.Prelude.Int.{ℤ, pos, negsuc}
use obsidian_mcp_server.Strings.{Bytes, codes, eq_bytes, split}
use obsidian_mcp_server.Strings.Space.{trim_space}
use obsidian_mcp_server.Vault.FilePath.{base}
use obsidian_mcp_server.Config.Numbers.{one_of, parse_bool, atoi}

pub record Config : Type 0 where
  pub vault_path : Bytes
  pub extensions : List Bytes
  pub ignore_patterns : List Bytes
  pub pretty_print : Bool
  pub max_batch : ℤ
  pub max_results : ℤ
  pub log_level : Bytes
  pub invalid_log_level : Bytes
  pub read_only : Bool
  pub trash_retention_days : ℤ
  pub vault_name : Bytes
  pub transport : Bytes
  pub http_bind : Bytes
  pub http_port : ℤ
  pub allow_non_loopback : Bool
  pub allowed_hosts : List Bytes
  pub allowed_origins : List Bytes
  pub client_ca_path : Bytes

-- The values of the flags, given or by default, and the names of those that were given.
pub record Flags : Type 0 where
  pub show_version : Bool
  pub vault : Bytes
  pub extensions : Bytes
  pub ignore : Bytes
  pub pretty : Bool
  pub max_batch : ℤ
  pub max_results : ℤ
  pub log_level : Bytes
  pub read_only : Bool
  pub trash_retention_days : ℤ
  pub vault_name : Bytes
  pub transport : Bytes
  pub http_bind : Bytes
  pub http_port : ℤ
  pub allow_non_loopback : Bool
  pub allowed_hosts : Bytes
  pub allowed_origins : Bytes
  pub client_ca : Bytes
  pub explicit : Bytes → Bool

pub data ConfigError : Type 0 where
  version_requested vault_required vault_missing max_batch_range max_results_range : ConfigError
  trash_retention_days_range unknown_transport http_port_range hosts_required : ConfigError
  origins_required : ConfigError
  invalid_env : Bytes → Bytes → ConfigError

unfoldable pub trim_each : List Bytes → List Bytes
trim_each [] = []
trim_each (p ∷ ps) =
    let rest = trim_each ps in if eq_bytes (trim_space p) [] then rest else trim_space p ∷ rest

-- splitTrimmed
unfoldable pub split_trimmed : Bytes → List Bytes
unfolding trim_each
split_trimmed s = trim_each (split b',' s)

abbrev unless_empty : Bytes → Option Bytes
unless_empty [] = none
unless_empty (x ∷ v) = some (x ∷ v)

-- The variable that stands for a flag that was not given; an empty one counts as not set.
env_value : (Bytes → Bool) → (Bytes → Bytes) → Bytes → Bytes → Option Bytes
env_value explicit getenv flag env = if explicit flag then none else unless_empty (getenv env)

-- envString and envStringSlice
abbrev or_text : Bytes → Option Bytes → Bytes
or_text dst none = dst
or_text dst (some v) = v

abbrev or_slice : List Bytes → Option Bytes → List Bytes
or_slice dst none = dst
or_slice dst (some v) = split_trimmed v

abbrev parsed {ℓ} : {A : Type ℓ} → Bytes → Bytes → Option A → Result ConfigError A
parsed env v none = err (invalid_env env v)
parsed env v (some a) = ok a

-- envBool and envInt
abbrev or_parsed {ℓ} :
    {A : Type ℓ} → (Bytes → Option A) → Bytes → A → Option Bytes → Result ConfigError A
or_parsed parse env dst none = ok dst
or_parsed parse env dst (some v) = parsed env v (parse v)

infixl 5 ◌>>=◌ ◌>>◌
abbrev ◌>>=◌ {ℓ κ} :
    {A : Type ℓ} {B : Type κ}
    → Result ConfigError A
    → (A → Result ConfigError B)
    → Result ConfigError B
r >>= f = bind r f

abbrev ◌>>◌ {ℓ κ} :
    {A : Type ℓ} {B : Type κ} → Result ConfigError A → Result ConfigError B → Result ConfigError B
r >> k = bind r (λ _. k)

module _ (flags : Flags) (getenv : Bytes → Bytes) where
  unfoldable pub env_string : Bytes → Bytes → Bytes → Bytes
  unfolding env_value
  env_string flag env dst = or_text dst (env_value flags.explicit getenv flag env)

  unfoldable pub env_string_slice : Bytes → Bytes → List Bytes → List Bytes
  unfolding env_value
  env_string_slice flag env dst = or_slice dst (env_value flags.explicit getenv flag env)

  unfoldable pub env_bool : Bytes → Bytes → Bool → Result ConfigError Bool
  unfolding env_value
  env_bool flag env dst = or_parsed parse_bool env dst (env_value flags.explicit getenv flag env)

  unfoldable pub env_int : Bytes → Bytes → ℤ → Result ConfigError ℤ
  unfolding env_value
  env_int flag env dst = or_parsed atoi env dst (env_value flags.explicit getenv flag env)

  -- The settings from the flags, overridden by the environment.
  unfoldable pub overridden : Result ConfigError Config
  unfolding env_string env_string_slice env_bool env_int split_trimmed
  overridden = do
    pretty ← env_bool (codes "pretty") (codes "OBSIDIAN_PRETTY") flags.pretty
    batch ← env_int (codes "max-batch") (codes "OBSIDIAN_MAX_BATCH") flags.max_batch
    results ← env_int (codes "max-results") (codes "OBSIDIAN_MAX_RESULTS") flags.max_results
    only_read ← env_bool (codes "read-only") (codes "OBSIDIAN_READ_ONLY") flags.read_only
    days ←
        env_int (codes "trash-retention-days") (codes "OBSIDIAN_TRASH_RETENTION_DAYS")
          flags.trash_retention_days
    port ← env_int (codes "http-port") (codes "OBSIDIAN_HTTP_PORT") flags.http_port
    non_loopback ←
        env_bool (codes "allow-non-loopback") (codes "OBSIDIAN_ALLOW_NON_LOOPBACK")
          flags.allow_non_loopback
    ok (record {
      vault_path = env_string (codes "vault") (codes "OBSIDIAN_VAULT_PATH") flags.vault;
      extensions =
          env_string_slice (codes "extensions") (codes "OBSIDIAN_EXTENSIONS")
            (split_trimmed flags.extensions);
      ignore_patterns =
          env_string_slice (codes "ignore") (codes "OBSIDIAN_IGNORE") (split_trimmed flags.ignore);
      pretty_print = pretty;
      max_batch = batch;
      max_results = results;
      log_level = env_string (codes "log-level") (codes "OBSIDIAN_LOG_LEVEL") flags.log_level;
      invalid_log_level = [];
      read_only = only_read;
      trash_retention_days = days;
      vault_name = env_string (codes "vault-name") (codes "OBSIDIAN_VAULT_NAME") flags.vault_name;
      transport = env_string (codes "transport") (codes "OBSIDIAN_TRANSPORT") flags.transport;
      http_bind = env_string (codes "http-bind") (codes "OBSIDIAN_HTTP_BIND") flags.http_bind;
      http_port = port;
      allow_non_loopback = non_loopback;
      allowed_hosts =
          env_string_slice (codes "allowed-hosts") (codes "OBSIDIAN_ALLOWED_HOSTS")
            (split_trimmed flags.allowed_hosts);
      allowed_origins =
          env_string_slice (codes "allowed-origins") (codes "OBSIDIAN_ALLOWED_ORIGINS")
            (split_trimmed flags.allowed_origins);
      client_ca_path = env_string (codes "client-ca") (codes "OBSIDIAN_CLIENT_CA") flags.client_ca;
    })

abbrev pub log_levels : List Bytes
log_levels = codes "debug" ∷ codes "info" ∷ codes "warn" ∷ codes "error" ∷ []

abbrev pub transports : List Bytes
transports = codes "stdio" ∷ codes "http" ∷ []

abbrev warned : Config → Config
warned cfg = record cfg { invalid_log_level = cfg.log_level; log_level = codes "warn" }

-- An unknown log level becomes "warn", and is kept to be reported.
unfoldable pub normalize_log_level : Config → Config
normalize_log_level cfg = if one_of cfg.log_level log_levels then cfg else warned cfg

unfoldable pub name_or_base : Bytes → Bytes → Bytes
name_or_base [] vault_path = base vault_path
name_or_base (x ∷ name) vault_path = x ∷ name

abbrev pub at_least : ℕ → ℤ → Bool
at_least n (pos m) = leb n m
at_least n (negsuc m) = false

abbrev pub at_most : ℕ → ℤ → Bool
at_most n (pos m) = leb m n
at_most n (negsuc m) = true

abbrev pub filled : List Bytes → Bool
filled [] = false
filled (x ∷ xs) = true

abbrev when {ℓ} : Bool → Result ConfigError (Unit {ℓ}) → Result ConfigError (Unit {ℓ})
when true r = r
when false r = ok tt

abbrev check_lists : Config → Result ConfigError (Unit {0})
check_lists cfg = do
  check hosts_required (filled cfg.allowed_hosts)
  check origins_required (filled cfg.allowed_origins)

-- The checks on the settings of the transport "http".
check_http : Config → Result ConfigError (Unit {0})
check_http cfg = do
  check http_port_range (at_least 1 cfg.http_port && at_most 65535 cfg.http_port)
  when cfg.allow_non_loopback (check_lists cfg)

-- The checks of Load, on settings whose vault path and log level are normalised. `is_dir` says that
-- os.Stat finds a directory.
unfoldable pub validated : (Bytes → Bool) → Config → Result ConfigError Config
unfolding check_http name_or_base
validated is_dir cfg = do
  check vault_required (not (eq_bytes cfg.vault_path []))
  check vault_missing (is_dir cfg.vault_path)
  check max_batch_range (at_least 1 cfg.max_batch)
  check max_results_range (at_least 1 cfg.max_results)
  check trash_retention_days_range (at_least 0 cfg.trash_retention_days)
  check unknown_transport (one_of cfg.transport transports)
  when (eq_bytes cfg.transport (codes "http")) (check_http cfg)
  ok (record cfg { vault_name = name_or_base (trim_space cfg.vault_name) cfg.vault_path })

abbrev trimmed_path : Config → Config
trimmed_path cfg = record cfg { vault_path = trim_space cfg.vault_path }

-- Load, once the flags are parsed.
unfoldable pub load : Flags → (Bytes → Bytes) → (Bytes → Bool) → Result ConfigError Config
unfolding overridden normalize_log_level validated
load flags getenv is_dir = do
  check version_requested (not flags.show_version)
  cfg ← overridden flags getenv
  validated is_dir (trimmed_path (normalize_log_level cfg))

-- SlogLevel
pub data Level : Type 0 where
  level_debug level_info level_warn level_error : Level

unfoldable pub slog_level : Config → Level
slog_level cfg =
    if eq_bytes cfg.log_level (codes "debug")
    then level_debug
    else if eq_bytes cfg.log_level (codes "info")
    then level_info
    else if eq_bytes cfg.log_level (codes "error")
    then level_error
    else level_warn
