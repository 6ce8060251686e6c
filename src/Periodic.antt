-- ===== src/Periodic.antt =====
-- internal/periodic/periodic.go: the paths of periodic notes. A date holds what Go's package time says of
-- it, and `add_date` is time.AddDate. The format is valid UTF-8.
pub mod Resolved
mod Tests
use obsidian_mcp_server.Prelude.{
  ℕ, zero, suc, ◌+◌, ◌-◌, ◌*◌, ◌/◌, ◌%◌, Bool, true, false, not, Option, none, some, List, [], ◌∷◌,
  ◌++◌, ◌==◌, if◌then◌else◌, length, drop, ltb,
}
use obsidian_mcp_server.Prelude.Exec.{Exec, Result, ok, err, bind, pure, ◌>>=◌}
use obsidian_mcp_server.Prelude.Int.{ℤ, pos, negsuc}
use obsidian_mcp_server.Maps.{Map, empty, insert}
use obsidian_mcp_server.Strings.{Bytes, codes, eq_bytes, has_prefix}
use obsidian_mcp_server.Strings.Decimal.{decimal, padded}
use obsidian_mcp_server.Vault.Errors.{OsError, not_exist, other}
use obsidian_mcp_server.Vault.FilePath.{join_paths}
use obsidian_mcp_server.Vault.Links.{span, in_bracket}

pub record Date : Type 0 where
  pub year : ℕ
  pub month : ℕ
  pub day : ℕ
  pub iso_year : ℕ
  pub iso_week : ℕ

-- The tokens of a format with what they stand for, in the order of the switch.
abbrev pub token_table : Date → List (Bytes × Bytes)
token_table t =
    (codes "YYYY", padded 4 t.year)
    ∷ (codes "YY", padded 2 (t.year % 100))
    ∷ (codes "MM", padded 2 t.month)
    ∷ (codes "M", decimal t.month)
    ∷ (codes "DD", padded 2 t.day)
    ∷ (codes "D", decimal t.day)
    ∷ (codes "gggg", padded 4 t.iso_year)
    ∷ (codes "ggg", padded 3 (t.iso_year % 1000))
    ∷ (codes "ww", padded 2 t.iso_week)
    ∷ (codes "w", decimal t.iso_week)
    ∷ (codes "Q", decimal ((t.month - 1) / 3 + 1))
    ∷ []

-- The first token that a text begins with: what it stands for, and the text behind it.
unfoldable pub first_token : List (Bytes × Bytes) → Bytes → Option (Bytes × Bytes)
unfolding has_prefix
first_token [] s = none
first_token ((token, text) ∷ tokens) s =
    if has_prefix s token then some (text, drop (length token) s) else first_token tokens s

abbrev text_or_first : ℕ → Bytes → Option (Bytes × Bytes) → Bytes × Bytes
text_or_first x xs none = (x ∷ [], xs)
text_or_first x xs (some r) = r

-- A round of the loop: what is written, and the format that is left.
unfoldable pub next_part : Date → ℕ → Bytes → Bytes × Bytes
unfolding span first_token
next_part t x xs =
    if x == b'['
    then ((span in_bracket xs).0, drop 1 (span in_bracket xs).1)
    else text_or_first x xs (first_token (token_table t) (x ∷ xs))

-- On fuel; each round takes at least one byte.
unfoldable pub format_parts : ℕ → Date → Bytes → Bytes
unfolding next_part
format_parts zero t s = []
format_parts (suc fuel) t [] = []
format_parts (suc fuel) t (x ∷ xs) =
    (next_part t x xs).0 ++ format_parts fuel t (next_part t x xs).1

-- formatMoment
unfoldable pub format_moment : Bytes → Date → Bytes
unfolding format_parts
format_moment format t = format_parts (length format) t format

pub record GranularityConfig : Type 0 where
  pub enabled : Bool
  pub format : Bytes
  pub folder : Bytes
  pub template : Bytes

abbrev pub PeriodicConfig : Type 0
PeriodicConfig = Map GranularityConfig

abbrev granularity_config : Bool → Bytes → Bytes → GranularityConfig
granularity_config enabled format folder = record {
  enabled = enabled;
  format = format;
  folder = folder;
  template = [];
}

abbrev pub default_config : PeriodicConfig
default_config =
    insert (codes "daily") (granularity_config true (codes "YYYY-MM-DD") (codes "Daily Notes")) (
      insert (codes "weekly") (granularity_config true (codes "gggg-[W]ww") (codes "Weekly Notes"))
        (insert (codes "monthly")
          (granularity_config false (codes "YYYY-MM") (codes "Monthly Notes"))
          (insert (codes "quarterly")
            (granularity_config false (codes "YYYY-[Q]Q") (codes "Quarterly Notes"))
            (insert (codes "yearly")
              (granularity_config false (codes "YYYY") (codes "Yearly Notes")) empty))))

pub data PeriodicError : Type 0 where
  read_config parse_config unknown_granularity folder_not_configured negative_count : PeriodicError

-- The cache of the configuration.
abbrev pub Cache : Type 0
Cache = Option PeriodicConfig

module _ (parse : Bytes → Option PeriodicConfig) where
  abbrev cached : Option PeriodicConfig → Result PeriodicError PeriodicConfig × Cache
  cached none = (err parse_config, none)
  cached (some c) = (ok c, some c)

  abbrev loaded : Result OsError Bytes → Result PeriodicError PeriodicConfig × Cache
  loaded (err not_exist) = (ok default_config, some default_config)
  loaded (err other) = (err read_config, none)
  loaded (ok data') = cached (parse data')

  -- LoadConfig; the file is what os.ReadFile gives, `parse` is json.Unmarshal.
  unfoldable pub load_config : Result OsError Bytes → Exec Cache PeriodicError PeriodicConfig
  load_config file (some c) = (ok c, some c)
  load_config file none = loaded file

abbrev pub negated : ℕ → ℤ
negated zero = pos 0
negated (suc n) = negsuc n

-- The number that 64 bits stand for.
abbrev pub signed : ℕ → ℤ
signed u = if ltb u 9223372036854775808 then pos u else negated (18446744073709551616 - u)

-- A product as the 64 bits of an int hold it.
abbrev pub times : ℕ → ℤ → ℤ
times k (pos n) = signed ((n * k) % 18446744073709551616)
times k (negsuc n) =
    signed ((18446744073709551616 - ((n + 1) * k) % 18446744073709551616) % 18446744073709551616)

-- The loop over `i`, from the number of rounds that are left.
unfoldable pub dates_from : (Date → ℤ → Date) → Date → ℕ → ℕ → List Date
dates_from f now i zero = []
dates_from f now i (suc left) = f now (negated i) ∷ dates_from f now (i + 1) left

module _ (add_date : Date → ℤ → ℤ → ℤ → Date) where
  -- granularityOffset
  unfoldable pub granularity_offset : Bytes → Option (Date → ℤ → Date)
  unfolding eq_bytes
  granularity_offset g =
      if eq_bytes g (codes "daily")
      then some (λ t n. add_date t (pos 0) (pos 0) n)
      else if eq_bytes g (codes "weekly")
      then some (λ t n. add_date t (pos 0) (pos 0) (times 7 n))
      else if eq_bytes g (codes "monthly")
      then some (λ t n. add_date t (pos 0) n (pos 0))
      else if eq_bytes g (codes "quarterly")
      then some (λ t n. add_date t (pos 0) (times 3 n) (pos 0))
      else if eq_bytes g (codes "yearly")
      then some (λ t n. add_date t n (pos 0) (pos 0))
      else none

  abbrev offset_by : Option (Date → ℤ → Date) → Date → ℤ → Result PeriodicError Date
  offset_by none t n = err unknown_granularity
  offset_by (some f) t n = ok (f t n)

  -- applyOffset
  unfoldable pub apply_offset : Bytes → Date → ℤ → Result PeriodicError Date
  unfolding granularity_offset
  apply_offset g t n = offset_by (granularity_offset g) t n

  abbrev note_path : GranularityConfig → Date → Bytes
  note_path gc t = join_paths (gc.folder ∷ (format_moment gc.format t ++ codes ".md") ∷ [])

  abbrev pub path_in : Bytes → ℤ → Date → Option GranularityConfig → Result PeriodicError Bytes
  path_in g n now none = err unknown_granularity
  path_in g n now (some gc) =
      if eq_bytes gc.folder []
      then err folder_not_configured
      else bind (apply_offset g now n) (λ t. ok (note_path gc t))

  -- Resolve; `now` is the clock.
  unfoldable pub resolve :
      (Bytes → Option PeriodicConfig)
      → Result OsError Bytes
      → Date
      → Bytes
      → ℤ
      → Exec Cache PeriodicError Bytes
  unfolding load_config format_moment apply_offset
  resolve parse file now g n = do cfg ← load_config parse file; λ s. (path_in g n now (cfg g), s)

  abbrev pub dates_of : Option (Date → ℤ → Date) → Date → ℕ → Result PeriodicError (List Date)
  dates_of none now count = err unknown_granularity
  dates_of (some f) now count = ok (dates_from f now 0 count)

  -- RecentDates
  unfoldable pub recent_dates : Date → Bytes → ℤ → Result PeriodicError (List Date)
  unfolding granularity_offset dates_from
  recent_dates now g (negsuc n) = err negative_count
  recent_dates now g (pos count) = dates_of (granularity_offset g) now count
