-- ===== src/Search/Regex/Bounded.antt =====
-- internal/search/regex.go: how many results SearchRegex gives, and which.
use obsidian_mcp_server.Prelude.{
  ℕ, ◌+◌, ◌≤◌, ◌<◌, ◌≡◌, ◌⊎◌, refl, sym, ap, ◌∙◌, subst, Bool, true, false, not, ◌&&◌, Option, some,
  List, [], ◌∷◌, ◌++◌, if◌then◌else◌, leb, length, get_elem?, suc, All, All-append, arith,
  length-append,
}
use obsidian_mcp_server.Prelude.Exec.{Result, ok, err}
use obsidian_mcp_server.Strings.{Bytes, split}
use obsidian_mcp_server.Strings.Space.{trim_space}
use obsidian_mcp_server.Vault.FilePath.{join_path}
use obsidian_mcp_server.Vault.Errors.{OsError, cancelled, scan_failed, PathError}
use obsidian_mcp_server.Vault.Os.{Os, OpenFile}
use obsidian_mcp_server.Vault.Guards.{Service, path_error}
use obsidian_mcp_server.Vault.Links.{max_scan_token_size, drop_return}
use obsidian_mcp_server.Vault.Walk.{Nodes, skip_all}
use obsidian_mcp_server.Vault.Walk.Keeps.{walk_notes_keeps_at}
use obsidian_mcp_server.Search.Regex.{
  Scope, scans_path, scans_content, RegexOptions, RegexMatch, RegexResult, result_limit,
  matches_per_file, scan, match_of, scan_matches, file_scanned, content_scanned, scan_file_matches,
  no_matches, add_result, add_scanned, search_note, all_results, search_with, glob_to_regex,
  search_regex,
}

-- No more matches than asked for, each of which is as `P` says.
abbrev AtMost : ℕ → (RegexMatch → Type 0) → Result PathError (List RegexMatch) → Type 0
AtMost max P (ok found) = (length found ≤ max) × All P found
AtMost max P (err e) = Unit

-- A match that a line of the text gives: the line passes the test, and the match has its number, from 1,
-- and its text less the white space around it.
abbrev pub IsMatchOf : (Bytes → Bool) → List Bytes → RegexMatch → Type 0
IsMatchOf test lines m =
    (j : ℕ) × (line : Bytes) × (get_elem? lines j ≡ some line)
    × (test (drop_return line) ≡ true)
    × (m.line ≡ j + 1)
    × (m.snippet ≡ trim_space (drop_return line))

module _ (test : Bytes → Bool) (is_cancelled : ℕ → Bool) (max : ℕ) (rel : Bytes)
    (P : RegexMatch → Type 0) where
  module _ (found : List RegexMatch) (h : length found < max) (all : All P found) (m : RegexMatch)
      (e e' : PathError) (rest : List RegexMatch → Result PathError (List RegexMatch))
      (later : (next : List RegexMatch)
        → length next < max
        → All P next
        → AtMost max P (rest next)) where
    next : List RegexMatch
    next = found ++ m ∷ []

    hit-AtMost :
        P m
        → (full : Bool) → leb max (length next) ≡ full
        → AtMost max P (if full then ok next else rest next)
    unfolding next
    hit-AtMost p true k =
        (ground (arith, h, length-append found (m ∷ [])), All-append P found (m ∷ []) all (p, tt))
    hit-AtMost p false k = later next (ground (arith, k)) (All-append P found (m ∷ []) all (p, tt))

    round-AtMost :
        (a b hit : Bool)
        → (hit ≡ true → P m)
        → AtMost max P (
            if a
            then err e
            else if b
            then err e'
            else if hit && leb max (length (if hit then found ++ m ∷ [] else found))
            then ok (if hit then found ++ m ∷ [] else found)
            else rest (if hit then found ++ m ∷ [] else found))
    unfolding next
    round-AtMost true b hit p = tt
    round-AtMost false true hit p = tt
    round-AtMost false false true p = hit-AtMost (p refl) (leb max (length next)) refl
    round-AtMost false false false p = later found h all

  -- What is asked of the lines that are left, from the line numbered `i + 1` on.
  abbrev AllGood : ℕ → List Bytes → Type 0
  AllGood i lines =
      (j : ℕ) (line : Bytes)
      → get_elem? lines j ≡ some line
      → test (drop_return line) ≡ true
      → P (match_of test is_cancelled max rel (i + j) (drop_return line))

  AllGood-later : (i : ℕ) (l : Bytes) (ls : List Bytes) → AllGood i (l ∷ ls) → AllGood (i + 1) ls
  AllGood-later i l ls good j line at e =
      subst (λ n. P (match_of test is_cancelled max rel n (drop_return line))) (omega arith)
        (good (suc j) line at e)

  AllGood-first :
      (i : ℕ) (l : Bytes) (ls : List Bytes)
      → AllGood i (l ∷ ls)
      → test (drop_return l) ≡ true
      → P (match_of test is_cancelled max rel i (drop_return l))
  AllGood-first i l ls good e =
      subst (λ n. P (match_of test is_cancelled max rel n (drop_return l))) (omega arith)
        (good 0 l refl e)

  scan_matches-AtMost :
      (i : ℕ) (found : List RegexMatch) (lines : List Bytes)
      → length found < max
      → All P found
      → AllGood i lines
      → AtMost max P (scan_matches test is_cancelled max rel i found lines)
  unfolding scan_matches
  scan_matches-AtMost i found [] h all good = (omega (arith, h), all)
  scan_matches-AtMost i found ([] ∷ []) h all good = (omega (arith, h), all)
  scan_matches-AtMost i found ([] ∷ l ∷ ls) h all good =
      round-AtMost found h all (match_of test is_cancelled max rel i (drop_return []))
        (path_error scan rel scan_failed) (path_error scan rel cancelled)
        (λ next. scan_matches test is_cancelled max rel (i + 1) next (l ∷ ls))
        (λ next k a.
          scan_matches-AtMost (i + 1) next (l ∷ ls) k a (AllGood-later i [] (l ∷ ls) good))
        (leb max_scan_token_size (length {A = ℕ} [])) (is_cancelled i) (test (drop_return []))
        (AllGood-first i [] (l ∷ ls) good)
  scan_matches-AtMost i found ((x ∷ xs) ∷ ls) h all good =
      round-AtMost found h all (match_of test is_cancelled max rel i (drop_return (x ∷ xs)))
        (path_error scan rel scan_failed) (path_error scan rel cancelled)
        (λ next. scan_matches test is_cancelled max rel (i + 1) next ls)
        (λ next k a. scan_matches-AtMost (i + 1) next ls k a (AllGood-later i (x ∷ xs) ls good))
        (leb max_scan_token_size (length (x ∷ xs))) (is_cancelled i) (test (drop_return (x ∷ xs)))
        (AllGood-first i (x ∷ xs) ls good)

module _ (os : Os) (v : Service) (s : os.State) (during : Bytes → ℕ → Bool) where
  -- A match in the file at a path of the disk.
  abbrev pub MatchIn : (Bytes → Bool) → Bytes → RegexMatch → Type 0
  MatchIn test abs m =
      (f : OpenFile) × (data' : Bytes) × (os.open_file abs s ≡ ok f)
      × (f.content ≡ ok data')
      × IsMatchOf test (split b'\n' data') m

  module _ (test : Bytes → Bool) (max : ℕ) (rel abs : Bytes) (some_allowed : 0 < max) where
    content_scanned-AtMost :
        (f : OpenFile) (r : Result OsError Bytes)
        → os.open_file abs s ≡ ok f
        → f.content ≡ r
        → AtMost max (MatchIn test abs) (content_scanned os v s during test max rel r)
    content_scanned-AtMost f (err e) o c = tt
    content_scanned-AtMost f (ok d) o c =
        scan_matches-AtMost test (during rel) max rel (MatchIn test abs) 0 [] (split b'\n' d)
          some_allowed tt (λ j line at e. (f, d, o, c, (j, line, at, e, omega arith, refl)))

    file_scanned-AtMost :
        (r : Result OsError OpenFile)
        → os.open_file abs s ≡ r
        → AtMost max (MatchIn test abs) (file_scanned os v s during test max rel r)
    file_scanned-AtMost (err e) o = (omega arith, tt)
    file_scanned-AtMost (ok f) o = content_scanned-AtMost f f.content o refl

    scanned-AtMost :
        (b : Bool)
        → AtMost max
            (MatchIn test abs)
            (if b then scan_file_matches os v s during test max rel abs else ok [])
    unfolding scan_file_matches
    scanned-AtMost true = file_scanned-AtMost (os.open_file abs s) refl
    scanned-AtMost false = (omega arith, tt)

  module _ (test : Bytes → Bool) (scope : Scope) (limit max : ℕ) where
    -- A result: its path matches, where paths are looked at, or it has matches in its lines; there are no
    -- more of these than the most for a note, and each is one of the file at its path.
    abbrev pub IsResult : RegexResult → Type 0
    IsResult r =
        (length r.matches ≤ max)
        × All (MatchIn test (join_path v.root r.path)) r.matches
        × (((scans_path scope && test r.path) ≡ true)
            ⊎ (no_matches os v s during r.matches ≡ false))

    abbrev pub Within : List RegexResult → Type 0
    Within results = (length results ≤ limit) × All IsResult results

    added-Within :
        (path_hit : Bool) (rel : Bytes) (found : List RegexMatch) (results : List RegexResult)
        → (scans_path scope && test rel) ≡ path_hit
        → (length found ≤ max) × All (MatchIn test (join_path v.root rel)) found
        → leb limit (length results) ≡ false
        → Within results
        → Within (add_result os v s during path_hit rel found results)
    added-Within path_hit rel found results e k room w =
        by_test (not path_hit && no_matches os v s during found) refl
      where
        by_test :
            (b : Bool)
            → not path_hit && no_matches os v s during found ≡ b
            → Within (if b then results else results ++ record { path = rel; matches = found } ∷ [])
        by_test true q = w
        by_test false q = (
          ground (arith, room, length-append results (record { path = rel; matches = found } ∷ [])),
          All-append IsResult results (_ ∷ []) w.1 ((k.0, k.1, ground (arith, q, e)), tt),
        )

    add_scanned-Within :
        (rel : Bytes) (found : Result PathError (List RegexMatch)) (results : List RegexResult)
        → AtMost max (MatchIn test (join_path v.root rel)) found
        → leb limit (length results) ≡ false
        → Within results
        → Within (add_scanned os v s during (scans_path scope && test rel) rel found results).1
    add_scanned-Within rel (err e) results k room w = w
    add_scanned-Within rel (ok found) results k room w =
        added-Within (scans_path scope && test rel) rel found results refl k room w

    search_note-Within :
        0 < max
        → (rel : Bytes) (results : List RegexResult) → Within results
        → Within
            (search_note os v s during test scope limit max rel (join_path v.root rel) results).1
    unfolding search_note
    search_note-Within some_allowed rel results w = by_room (leb limit (length results)) refl
      where
        found : Result PathError (List RegexMatch)
        found =
            if scans_content scope
            then scan_file_matches os v s during test max rel (join_path v.root rel)
            else ok []

        by_room :
            (b : Bool)
            → leb limit (length results) ≡ b
            → Within
                (if b
                  then (err skip_all, results)
                  else add_scanned os v s during (scans_path scope && test rel) rel found results).1
        by_room true e = w
        by_room false e =
            add_scanned-Within rel found results
              (scanned-AtMost test max rel (join_path v.root rel) some_allowed
                (scans_content scope))
              e w

  matches_per_file-positive : (o : RegexOptions) → 0 < matches_per_file o
  unfolding matches_per_file
  matches_per_file-positive o = ground arith

  all_results-Within :
      (o : RegexOptions) (test : Bytes → Bool)
      (out : Result PathError (Unit {0}) × List RegexResult) (results : List RegexResult)
      → Within test o.scope (result_limit o) (matches_per_file o) out.1
      → all_results os v s during out ≡ ok results
      → Within test o.scope (result_limit o) (matches_per_file o) results
  all_results-Within o test (ok u, rs) results w h =
      subst (Within test o.scope (result_limit o) (matches_per_file o)) (ok_same h) w
    where
      ok_same : ◌≡◌ {A = Result PathError (List RegexResult)} (ok rs) (ok results) → rs ≡ results
      ok_same q = cc
  all_results-Within o test (err e, rs) results w h = cc

  -- A search whose expression compiles to `test` and that does not fail gives no more results than its
  -- limit. Each has a path that passes the test, where paths are looked at, or at least one match; it has
  -- no more matches than the most for a note, and each of them is a line of the file at that path that
  -- passes the test, with its number, from 1, and its text less the white space around it.
  pub search_regex-Within :
      (to_lower : Bytes → Bytes) (is_cancelled : ℕ → Bool) (tree : Result OsError Nodes)
      (compile : Bytes → Option (Bytes → Bool)) (o : RegexOptions) (test : Bytes → Bool)
      (results : List RegexResult)
      → compile (if o.is_glob then glob_to_regex o.pattern else o.pattern) ≡ some test
      → search_regex os v s during to_lower is_cancelled tree compile o ≡ ok results
      → Within test o.scope (result_limit o) (matches_per_file o) results
  unfolding search_regex
  search_regex-Within to_lower is_cancelled tree compile o test results e h =
      all_results-Within o test _ results
        (walk_notes_keeps_at (Within test o.scope (result_limit o) (matches_per_file o))
          (search_note os v s during test o.scope (result_limit o) (matches_per_file o)) to_lower v
          is_cancelled tree
          (λ w rs at _ k.
            subst
              (λ abs.
                Within test o.scope (result_limit o) (matches_per_file o)
                  (search_note os v s during test o.scope (result_limit o) (matches_per_file o)
                    w.rel abs rs).1)
              (sym at)
              (search_note-Within test o.scope (result_limit o) (matches_per_file o)
                (matches_per_file-positive o) w.rel rs k))
          [] (omega arith, tt))
        (sym (ap (search_with os v s during to_lower is_cancelled tree o) e) ∙ h)
