-- ===== src/Periodic/Resolved.antt =====
-- internal/periodic/periodic.go: the cache of the configuration, the daily notes, and recent dates.
use obsidian_mcp_server.Prelude.{
  ℕ, zero, suc, ◌+◌, ◌<◌, ◌≡◌, refl, subst, sym, ap, ◌∙◌, Option, none, some, List, [], ◌∷◌, ◌++◌,
  length, get_elem?, append-nil, arith,
}
use obsidian_mcp_server.Prelude.Exec.{Result, ok, err, continue}
use obsidian_mcp_server.Prelude.Int.{ℤ, pos}
use obsidian_mcp_server.Strings.{Bytes, codes, split, join}
use obsidian_mcp_server.Strings.Decimal.{padded, value, value-padded, padded-Lacks}
use obsidian_mcp_server.Strings.Split.{split-join}
use obsidian_mcp_server.Vault.Errors.{OsError, not_exist, other}
use obsidian_mcp_server.Periodic.{
  Date, format_moment, PeriodicConfig, PeriodicError, Cache, cached, loaded, load_config, negated,
  path_in, resolve, granularity_offset, dates_from, dates_of, recent_dates,
}

abbrev pub daily_format : Bytes
daily_format = codes "YYYY-MM-DD"

abbrev daily_parts : Date → List Bytes
daily_parts t = padded 4 t.year ∷ padded 2 t.month ∷ padded 2 t.day ∷ []

daily_lem : (t : Date) → format_moment daily_format t ≡ join b'-' (daily_parts t)
unfolding format_moment join
daily_lem t =
    ap (λ d. padded 4 t.year ++ b'-' ∷ (padded 2 t.month ++ b'-' ∷ d)) (append-nil (padded 2 t.day))

parts_of : (t : Date) → split b'-' (join b'-' (daily_parts t)) ≡ daily_parts t
parts_of t =
    split-join b'-' (daily_parts t) (λ e. cc)
      (padded-Lacks 4 t.year, (padded-Lacks 2 t.month, (padded-Lacks 2 t.day, tt)))

padded_injective : (w a b : ℕ) → padded w a ≡ padded w b → a ≡ b
padded_injective w a b e = sym (value-padded w a) ∙ ap (value 0) e ∙ value-padded w b

same_day :
    (t u : Date)
    → format_moment daily_format t ≡ format_moment daily_format u
    → (t.year ≡ u.year) × (t.month ≡ u.month) × (t.day ≡ u.day)
same_day t u e =
    let same : daily_parts t ≡ daily_parts u =
      sym (parts_of t) ∙ ap (split b'-') (sym (daily_lem t) ∙ e ∙ daily_lem u) ∙ parts_of u in
    (
      padded_injective 4 t.year u.year cc,
      padded_injective 2 t.month u.month cc,
      padded_injective 2 t.day u.day cc,
    )

-- In the default format of the daily notes, YYYY-MM-DD, a date is its year, month and day in decimal,
-- with zeros to four, two and two digits, joined by dashes; and two dates that it makes the same text
-- are the same day.
pub format_moment_daily :
    (t u : Date)
    → (format_moment daily_format t
        ≡ padded 4 t.year ++ b'-' ∷ (padded 2 t.month ++ b'-' ∷ padded 2 t.day))
      × (format_moment daily_format t ≡ format_moment daily_format u
          → (t.year ≡ u.year) × (t.month ≡ u.month) × (t.day ≡ u.day))
unfolding join
format_moment_daily t u = (daily_lem t, same_day t u)

module _ (parse : Bytes → Option PeriodicConfig) where
  -- An outcome that holds a configuration also in the cache.
  abbrev IsCached : Result PeriodicError PeriodicConfig × Cache → Type 0
  IsCached (ok c, cache) = cache ≡ some c
  IsCached (err e, cache) = Unit

  cached-IsCached : (o : Option PeriodicConfig) → IsCached (cached parse o)
  cached-IsCached none = tt
  cached-IsCached (some c) = refl

  loaded-IsCached : (file : Result OsError Bytes) → IsCached (loaded parse file)
  loaded-IsCached (err not_exist) = refl
  loaded-IsCached (err other) = tt
  loaded-IsCached (ok d) = cached-IsCached (parse d)

  load_config-IsCached :
      (file : Result OsError Bytes) (cache : Cache) → IsCached (load_config parse file cache)
  unfolding load_config
  load_config-IsCached file (some c) = refl
  load_config-IsCached file none = loaded-IsCached file

  module _ (add_date : Date → ℤ → ℤ → ℤ → Date) (now : Date) (g : Bytes) (n : ℤ) where
    resolved_again :
        (o : Result PeriodicError PeriodicConfig × Cache) (p : Bytes) (cache : Cache)
        (file : Result OsError Bytes)
        → IsCached o
        → continue o.0 (λ cfg s. (path_in add_date g n now (cfg g), s)) o.1 ≡ (ok p, cache)
        → resolve add_date parse file now g n cache ≡ (ok p, cache)
    unfolding resolve load_config
    resolved_again (ok c, s) p cache file h e =
        subst (λ s. resolve add_date parse file now g n s ≡ (ok p, s)) (sym h ∙ ap (λ o. o.1) e)
          (ap (λ r. (r, some c)) (ap (λ o. o.0) e))
    resolved_again (err x, s) p cache file h e = cc

    -- Once a path was resolved, the file of the configuration is not looked at again: with the same
    -- clock the same path is resolved, whatever becomes of the file.
    pub resolve_cached :
        (file later : Result OsError Bytes) (p : Bytes) (cache cache' : Cache)
        → resolve add_date parse file now g n cache ≡ (ok p, cache')
        → resolve add_date parse later now g n cache' ≡ (ok p, cache')
    unfolding resolve
    resolve_cached file later p cache cache' e =
        resolved_again (load_config parse file cache) p cache' later
          (load_config-IsCached file cache) e

module _ (f : Date → ℤ → Date) (now : Date) where
  length-dates_from : (i left : ℕ) → length (dates_from f now i left) ≡ left
  unfolding dates_from
  length-dates_from i zero = refl
  length-dates_from i (suc left) = ap suc (length-dates_from (i + 1) left)

  get_elem?-dates_from :
      (i left j : ℕ)
      → j < left
      → get_elem? (dates_from f now i left) j ≡ some (f now (negated (i + j)))
  unfolding dates_from
  get_elem?-dates_from i zero j h = absurd (omega (arith, h))
  get_elem?-dates_from i (suc left) zero h = ap (λ k. some (f now (negated k))) (omega arith)
  get_elem?-dates_from i (suc left) (suc j) h =
      get_elem?-dates_from (i + 1) left j (omega (arith, h))
      ∙ ap (λ k. some (f now (negated k))) (omega arith)

-- The recent dates of a granularity are as many as asked for, the one at a place being the present
-- date moved back by as many units as there are before it.
pub recent_dates-get_elem? :
    (add_date : Date → ℤ → ℤ → ℤ → Date) (now : Date) (g : Bytes) (f : Date → ℤ → Date)
    (count j : ℕ)
    → granularity_offset add_date g ≡ some f
    → j < count
    → (dates : List Date) × ((recent_dates add_date now g (pos count) ≡ ok dates)
        × ((length dates ≡ count) × (get_elem? dates j ≡ some (f now (negated j)))))
unfolding recent_dates
recent_dates-get_elem? add_date now g f count j e h = (
  dates_from f now 0 count,
  (
    ap (λ o. dates_of add_date o now count) e,
    (
      length-dates_from f now 0 count,
      get_elem?-dates_from f now 0 count j h ∙ ap (λ k. some (f now (negated k))) (omega arith),
    ),
  ),
)
