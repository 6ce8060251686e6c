-- ===== src/Config/Valid.antt =====
-- internal/config/config.go, Load: what the settings satisfy that it returns.
use obsidian_mcp_server.Prelude.{
  ℕ, ◌≤◌, ◌≡◌, ◌≢◌, ◌⊎◌, inl, inr, refl, subst, Bool, true, false, not, ◌&&◌, List, [], ◌∷◌, In,
  Bool-cases, arith, if◌then◌else◌,
}
use obsidian_mcp_server.Prelude.Exec.{Result, ok, err, check, bind, bind_ok, check_ok}
use obsidian_mcp_server.Prelude.Int.{ℤ, pos, negsuc, pos_part}
use obsidian_mcp_server.Strings.{Bytes, codes, eq_bytes, eq_bytes_iff}
use obsidian_mcp_server.Strings.Space.{trim_space}
use obsidian_mcp_server.Vault.FilePath.{base-ne-nil}
use obsidian_mcp_server.Config.Numbers.{one_of}
use obsidian_mcp_server.Config.{
  Config, Flags, ConfigError, vault_required, vault_missing, max_batch_range, max_results_range,
  trash_retention_days_range, unknown_transport, http_port_range, hosts_required, origins_required,
  version_requested, overridden, log_levels, warned, transports, normalize_log_level, name_or_base,
  at_least, at_most, filled, when, check_lists, check_http, validated, trimmed_path, load,
}

-- The settings of the transport "http": a port, and allowlists where others than the own host may
-- connect.
pub record IsHttpValid (cfg : Config) : Type 0 where
  pub is_http : cfg.transport ≡ codes "http"
  pub port_from : 1 ≤ pos_part cfg.http_port
  pub port_to : pos_part cfg.http_port ≤ 65535
  pub guarded :
      (cfg.allow_non_loopback ≡ false) ⊎ ((cfg.allowed_hosts ≢ []) × (cfg.allowed_origins ≢ []))

pub record IsValid (is_dir : Bytes → Bool) (cfg : Config) : Type 0 where
  pub vault_given : cfg.vault_path ≢ []
  pub vault_is_dir : is_dir cfg.vault_path ≡ true
  pub named : cfg.vault_name ≢ []
  pub batch : 1 ≤ pos_part cfg.max_batch
  pub results : 1 ≤ pos_part cfg.max_results
  pub days : cfg.trash_retention_days ≡ pos (pos_part cfg.trash_retention_days)
  pub level : In cfg.log_level log_levels
  pub transported : (cfg.transport ≡ codes "stdio") ⊎ IsHttpValid cfg

after_check :
    {A : Type 0} (e : ConfigError) (b : Bool) (k : Result ConfigError A) (a : A)
    → bind (check e b) (λ _. k) ≡ ok a
    → (b ≡ true) × (k ≡ ok a)
after_check e true k a h = (refl, h)
after_check e false k a h = cc

after_result :
    {A : Type 0} (r : Result ConfigError (Unit {0})) (k : Result ConfigError A) (a : A)
    → bind r (λ _. k) ≡ ok a
    → (r ≡ ok tt) × (k ≡ ok a)
after_result (ok u) k a h = (refl, h)
after_result (err e) k a h = cc

one_of-In : (s : Bytes) (ts : List Bytes) → one_of s ts ≡ true → In s ts
unfolding one_of
one_of-In s [] h = cc
one_of-In s (t ∷ ts) h = elim (Bool-cases (eq_bytes s t)) [
  | inl e ↦ inl ((eq_bytes_iff s t).0 e)
  | inr e ↦ inr (one_of-In s ts (ground arith))
]

at_least_one : (n : ℤ) → at_least 1 n ≡ true → 1 ≤ pos_part n
at_least_one (pos n) h = ground arith
at_least_one (negsuc n) h = cc

not_negative : (n : ℤ) → at_least 0 n ≡ true → n ≡ pos (pos_part n)
not_negative (pos n) h = refl
not_negative (negsuc n) h = cc

and_both : (a b : Bool) → (a && b) ≡ true → (a ≡ true) × (b ≡ true)
and_both a b h = ground arith

at_most_lem : (k : ℕ) (n : ℤ) → at_most k n ≡ true → pos_part n ≤ k
at_most_lem k (pos n) h = ground arith
at_most_lem k (negsuc n) h = omega arith

not_empty : (xs : List Bytes) → filled xs ≡ true → xs ≢ []
not_empty [] h = cc
not_empty (x ∷ xs) h = cc

name_or_base-ne-nil : (name p : Bytes) → p ≢ [] → name_or_base name p ≢ []
unfolding name_or_base
name_or_base-ne-nil (x ∷ name) p h = λ e. cc
name_or_base-ne-nil [] [] h = absurd (h refl)
name_or_base-ne-nil [] (x ∷ p) h = base-ne-nil (x ∷ p)

guarded_ok :
    (cfg : Config)
    → when cfg.allow_non_loopback (check_lists cfg) ≡ ok tt
    → (cfg.allow_non_loopback ≡ false) ⊎ ((cfg.allowed_hosts ≢ []) × (cfg.allowed_origins ≢ []))
guarded_ok cfg h = elim (Bool-cases cfg.allow_non_loopback) [
  | inl e ↦ inr (both (subst (λ b. when b (check_lists cfg) ≡ ok tt) e h))
  | inr e ↦ inl e
]
  where
    both : check_lists cfg ≡ ok tt → (cfg.allowed_hosts ≢ []) × (cfg.allowed_origins ≢ [])
    both k =
        let a = after_check hosts_required (filled cfg.allowed_hosts) _ tt k in
        (
          not_empty cfg.allowed_hosts a.0,
          not_empty cfg.allowed_origins
              (check_ok origins_required (filled cfg.allowed_origins) a.1),
        )

check_http_ok :
    (cfg : Config) → cfg.transport ≡ codes "http" → check_http cfg ≡ ok tt → IsHttpValid cfg
unfolding check_http
check_http_ok cfg e h =
    let a =
      after_check http_port_range (at_least 1 cfg.http_port && at_most 65535 cfg.http_port) _ tt
        h in
    let ports = and_both (at_least 1 cfg.http_port) (at_most 65535 cfg.http_port) a.0 in
    record {
      is_http = e;
      port_from = at_least_one cfg.http_port ports.0;
      port_to = at_most_lem 65535 cfg.http_port ports.1;
      guarded = guarded_ok cfg a.1;
    }

transported_ok :
    (cfg : Config)
    → In cfg.transport (codes "stdio" ∷ codes "http" ∷ [])
    → when (eq_bytes cfg.transport (codes "http")) (check_http cfg) ≡ ok tt
    → (cfg.transport ≡ codes "stdio") ⊎ IsHttpValid cfg
transported_ok cfg (inl e) h = inl e
transported_ok cfg (inr (inr e)) h = elim e [ ]
transported_ok cfg (inr (inl e)) h = inr (
    check_http_ok cfg e (
      subst (λ b. when b (check_http cfg) ≡ ok tt) ((eq_bytes_iff cfg.transport (codes "http")).1 e)
        h))

validated_ok :
    (is_dir : Bytes → Bool) (cfg c : Config)
    → In cfg.log_level log_levels
    → validated is_dir cfg ≡ ok c
    → IsValid is_dir c
unfolding validated
validated_ok is_dir cfg c level h =
    let (given, h1) = after_check vault_required (not (eq_bytes cfg.vault_path [])) _ c h in
    let (dir, h2) = after_check vault_missing (is_dir cfg.vault_path) _ c h1 in
    let (batch, h3) = after_check max_batch_range (at_least 1 cfg.max_batch) _ c h2 in
    let (results, h4) = after_check max_results_range (at_least 1 cfg.max_results) _ c h3 in
    let (days, h5) =
      after_check trash_retention_days_range (at_least 0 cfg.trash_retention_days) _ c h4 in
    let (transport, h6) = after_check unknown_transport (one_of cfg.transport transports) _ c h5 in
    let (sent, h7) =
      after_result (when (eq_bytes cfg.transport (codes "http")) (check_http cfg)) _ c h6 in
    subst (IsValid is_dir) (returned h7) (record {
      vault_given = given_ne_nil given;
      vault_is_dir = dir;
      named = name_or_base-ne-nil (trim_space cfg.vault_name) cfg.vault_path (given_ne_nil given);
      batch = at_least_one cfg.max_batch batch;
      results = at_least_one cfg.max_results results;
      days = not_negative cfg.trash_retention_days days;
      level = level;
      transported =
          transported_ok' (transported_ok cfg (one_of-In cfg.transport transports transport) sent);
    })
  where
    given_ne_nil : not (eq_bytes cfg.vault_path []) ≡ true → cfg.vault_path ≢ []
    given_ne_nil h e = ground (arith, eq_bytes_iff cfg.vault_path [])

    transported_ok' :
        (cfg.transport ≡ codes "stdio") ⊎ IsHttpValid cfg
        → (cfg.transport ≡ codes "stdio")
          ⊎ IsHttpValid
              (record cfg { vault_name = name_or_base (trim_space cfg.vault_name) cfg.vault_path })
    transported_ok' (inl e) = inl e
    transported_ok' (inr h) = inr (record {
      is_http = h.is_http;
      port_from = h.port_from;
      port_to = h.port_to;
      guarded = h.guarded;
    })

    returned : {d : Config} → ◌≡◌ {A = Result ConfigError Config} (ok d) (ok c) → d ≡ c
    returned h = cc

level_known :
    (b : Bool) (cfg : Config)
    → one_of cfg.log_level log_levels ≡ b
    → In (if b then cfg else warned cfg).log_level log_levels
level_known true cfg h = one_of-In cfg.log_level log_levels h
level_known false cfg h = inr (inr (inl refl))

normalized_level : (cfg : Config) → In (normalize_log_level cfg).log_level log_levels
unfolding normalize_log_level
normalized_level cfg = level_known (one_of cfg.log_level log_levels) cfg refl

-- The settings that Load returns name a directory, have limits of at least one and no negative number
-- of days, know their log level and their transport, and for http have a port, and allowlists where
-- others than the own host may connect.
pub load-IsValid :
    (flags : Flags) (getenv : Bytes → Bytes) (is_dir : Bytes → Bool) (c : Config)
    → load flags getenv is_dir ≡ ok c
    → IsValid is_dir c
unfolding load
load-IsValid flags getenv is_dir c h =
    let (shown, h1) = after_check version_requested (not flags.show_version) _ c h in
    let (cfg, both) = bind_ok (overridden flags getenv) _ c h1 in
    validated_ok is_dir (trimmed_path (normalize_log_level cfg)) c (normalized_level cfg) both.1
