-- ===== src/Config/Tests.antt =====
-- Settings that Load accepts and refuses, and instances of its theorems.
use obsidian_mcp_server.Prelude.{
  ◌≡◌, inl, inr, refl, true, false, List, [], ◌∷◌, All, map, arith, if◌then◌else◌,
}
use obsidian_mcp_server.Prelude.Exec.{ok, err}
use obsidian_mcp_server.Prelude.Int.{pos}
use obsidian_mcp_server.Strings.{Bytes, codes, eq_bytes, split, join, contains_byte}
use obsidian_mcp_server.Strings.Space.{trim_space, strip_all, strip_first}
use obsidian_mcp_server.Vault.FilePath.{base}
use obsidian_mcp_server.Config.{
  Config, Flags, hosts_required, trim_each, split_trimmed, env_string, env_string_slice, env_bool,
  env_int, overridden, normalize_log_level, name_or_base, validated, load,
}
use obsidian_mcp_server.Config.Numbers.{one_of, parse_bool, digits, atoi}
use obsidian_mcp_server.Strings.Padded.{IsWord}
use obsidian_mcp_server.Config.Lists.{Item, IsItem, written, kept_texts, split_trimmed-join}
use obsidian_mcp_server.Config.Valid.{IsValid, load-IsValid}

abbrev flags : Flags
flags = record {
  show_version = false;
  vault = codes " /v ";
  extensions = codes ".md, .txt,";
  ignore = codes ".git";
  pretty = false;
  max_batch = pos 10;
  max_results = pos 20;
  log_level = codes "loud";
  read_only = false;
  trash_retention_days = pos 30;
  vault_name = [];
  transport = codes "stdio";
  http_bind = codes "127.0.0.1";
  http_port = pos 8443;
  allow_non_loopback = false;
  allowed_hosts = [];
  allowed_origins = [];
  client_ca = [];
  explicit = λ f. eq_bytes f (codes "vault");
}

abbrev getenv : Bytes → Bytes
getenv v = if eq_bytes v (codes "OBSIDIAN_MAX_BATCH") then codes "5" else []

abbrev settings : Config
settings = record {
  vault_path = codes "/v";
  extensions = codes ".md" ∷ codes ".txt" ∷ [];
  ignore_patterns = codes ".git" ∷ [];
  pretty_print = false;
  max_batch = pos 5;
  max_results = pos 20;
  log_level = codes "warn";
  invalid_log_level = codes "loud";
  read_only = false;
  trash_retention_days = pos 30;
  vault_name = codes "v";
  transport = codes "stdio";
  http_bind = codes "127.0.0.1";
  http_port = pos 8443;
  allow_non_loopback = false;
  allowed_hosts = [];
  allowed_origins = [];
  client_ca_path = [];
}

loads : load flags getenv (λ p. true) ≡ ok settings
unfolding load overridden normalize_log_level validated env_string env_string_slice env_bool env_int
    split_trimmed trim_each split trim_space strip_all strip_first base eq_bytes one_of parse_bool
    digits atoi name_or_base
loads = refl

open_to_all :
    load (record flags { transport = codes "http"; allow_non_loopback = true }) getenv (λ p. true)
    ≡ err hosts_required
unfolding load overridden normalize_log_level validated env_string env_string_slice env_bool env_int
    split_trimmed trim_each split trim_space strip_all strip_first base eq_bytes one_of parse_bool
    digits atoi name_or_base
open_to_all = refl

load-IsValid_example : IsValid (λ p. true) settings
load-IsValid_example = load-IsValid flags getenv (λ p. true) settings loads

trimmed_md : trim_space (codes ".md") ≡ codes ".md"
unfolding trim_space strip_all strip_first
trimmed_md = refl

no_comma : contains_byte b',' (codes ".md") ≡ false
unfolding contains_byte
no_comma = refl

-- The setting ` Go , ,x`.
abbrev items : List Item
items =
    record { before = 1; text = codes "Go"; after = 1 }
    ∷ record { before = 1; text = []; after = 0 }
    ∷ record { before = 0; text = codes "x"; after = 0 }
    ∷ []

go-IsWord : IsWord (codes "Go")
go-IsWord = record {
  first = b'G';
  more = codes "o";
  last = b'o';
  before = codes "G";
  begins = refl;
  ends = refl;
  first_visible = (omega arith, omega arith);
  last_visible = (omega arith, omega arith);
}

x-IsWord : IsWord (codes "x")
x-IsWord = record {
  first = b'x';
  more = [];
  last = b'x';
  before = [];
  begins = refl;
  ends = refl;
  first_visible = (omega arith, omega arith);
  last_visible = (omega arith, omega arith);
}

items-IsItem : All IsItem items
unfolding contains_byte
items-IsItem = ((refl, inr go-IsWord), ((refl, inl refl), ((refl, inr x-IsWord), tt)))

split_trimmed-join_example : split_trimmed (join b',' (map written items)) ≡ kept_texts items
split_trimmed-join_example = split_trimmed-join items (λ e. cc) items-IsItem
