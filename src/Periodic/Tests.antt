-- ===== src/Periodic/Tests.antt =====
-- Formats of one date, and instances of the theorems on periodic notes.
use obsidian_mcp_server.Prelude.{◌≡◌, refl, none, some, ◌∷◌, ◌++◌}
use obsidian_mcp_server.Prelude.Exec.{ok, err}
use obsidian_mcp_server.Prelude.Int.{ℤ, pos}
use obsidian_mcp_server.Strings.{
  codes, eq_bytes, split, join, contains_byte, has_prefix, trim_right,
}
use obsidian_mcp_server.Strings.Decimal.{digits_before, decimal, padded}
use obsidian_mcp_server.Vault.Errors.{not_exist, other}
use obsidian_mcp_server.Vault.FilePath.{clean, join_paths}
use obsidian_mcp_server.Vault.Links.{span}
use obsidian_mcp_server.Periodic.{
  Date, first_token, next_part, format_parts, format_moment, default_config, load_config,
  granularity_offset, apply_offset, resolve,
}
use obsidian_mcp_server.Periodic.Resolved.{daily_format, format_moment_daily, resolve_cached}

abbrev date : Date
date = record { year = 2024; month = 1; day = 15; iso_year = 2024; iso_week = 3 }

-- A date that the same day may not have, since its week is another.
abbrev other_week : Date
other_week = record { year = 2024; month = 1; day = 15; iso_year = 2024; iso_week = 4 }

abbrev same_date : Date → ℤ → ℤ → ℤ → Date
same_date t y m d = t

weekly : format_moment (codes "gggg-[W]ww") date ≡ codes "2024-W03"
unfolding format_moment format_parts next_part first_token span has_prefix padded decimal
    digits_before
weekly = refl

quarterly : format_moment (codes "YY [Q]Q M/D") date ≡ codes "24 Q1 1/15"
unfolding format_moment format_parts next_part first_token span has_prefix padded decimal
    digits_before
quarterly = refl

resolves :
    resolve same_date (λ d. none) (err not_exist) date (codes "daily") (pos 0) none
    ≡ (ok (codes "Daily Notes/2024-01-15.md"), some default_config)
unfolding resolve load_config apply_offset granularity_offset format_moment format_parts next_part
    first_token span has_prefix padded decimal digits_before join_paths clean split join
    contains_byte trim_right eq_bytes
resolves = refl

format_moment_daily_example :
    (format_moment daily_format date ≡ padded 4 2024 ++ b'-' ∷ (padded 2 1 ++ b'-' ∷ padded 2 15))
    × (format_moment daily_format date ≡ format_moment daily_format other_week
        → (date.year ≡ other_week.year)
          × (date.month ≡ other_week.month)
          × (date.day ≡ other_week.day))
format_moment_daily_example = format_moment_daily date other_week

resolve_cached_example :
    resolve same_date (λ d. none) (err other) date (codes "daily") (pos 0) (some default_config)
    ≡ (ok (codes "Daily Notes/2024-01-15.md"), some default_config)
resolve_cached_example =
    resolve_cached (λ d. none) same_date date (codes "daily") (pos 0) (err not_exist) (err other)
      (codes "Daily Notes/2024-01-15.md") none (some default_config) resolves
