-- ===== src/Search/Regex.antt =====
-- internal/search/regex.go: SearchRegex. Compiling an expression is Go's package regexp: `compile` gives
-- the test of an expression, or none. Errors that hold no path in the source are held in a PathError.
pub mod Bounded
mod Tests
use obsidian_mcp_server.Prelude.{
  ℕ, zero, suc, ◌+◌, Bool, true, false, not, ◌&&◌, ◌||◌, Option, none, some, List, [], ◌∷◌, ◌++◌,
  ◌==◌, if◌then◌else◌, ltb, leb, length, is_some,
}
use obsidian_mcp_server.Prelude.Exec.{Exec, Result, ok, err, pure, fail}
use obsidian_mcp_server.Prelude.Int.{ℤ, pos_part}
use obsidian_mcp_server.Strings.{Bytes, codes, contains_byte, split}
use obsidian_mcp_server.Strings.Runes.{rune_of_byte}
use obsidian_mcp_server.Strings.Space.{trim_space}
use obsidian_mcp_server.Vault.Errors.{
  OsError, Fault, os_fault, cancelled, invalid_regex, scan_failed, PathError,
}
use obsidian_mcp_server.Vault.Os.{Os, OpenFile}
use obsidian_mcp_server.Vault.Guards.{Service, path_error}
use obsidian_mcp_server.Vault.Links.{max_scan_token_size, drop_return}
use obsidian_mcp_server.Vault.Walk.{Nodes, Stop, skip_all, failed_with, walk_notes}

-- A part of a glob, by the cases of the loop.
pub data Piece : Type 0 where
  directories everything name_part one_char : Piece
  literal : ℕ → Piece

abbrev pub star_pieces : Bytes → Piece × Bytes
star_pieces (a ∷ b ∷ rest) =
    if a == b'*'
    then if b == b'/' then (directories, rest) else (everything, b ∷ rest)
    else (name_part, a ∷ b ∷ rest)
star_pieces (a ∷ []) = if a == b'*' then (everything, []) else (name_part, a ∷ [])
star_pieces [] = (name_part, [])

-- A round of the loop: the part, and the glob that is left.
unfoldable pub next_piece : ℕ → Bytes → Piece × Bytes
next_piece c rest =
    if c == b'*'
    then star_pieces rest
    else if c == b'?'
    then (one_char, rest)
    else (literal c, rest)

-- On fuel; each round takes at least one byte.
unfoldable pub pieces : ℕ → Bytes → List Piece
unfolding next_piece
pieces zero glob = []
pieces (suc fuel) [] = []
pieces (suc fuel) (c ∷ rest) = let piece = next_piece c rest in piece.0 ∷ pieces fuel piece.1

-- regexp.QuoteMeta of the character of a byte.
abbrev pub is_meta : ℕ → Bool
is_meta c = contains_byte c (codes "\\.+*?()|[]{}^$")

abbrev pub quoted : ℕ → Bytes
quoted c = if is_meta c then b'\\' ∷ c ∷ [] else rune_of_byte c

unfoldable pub piece_text : Piece → Bytes
unfolding contains_byte
piece_text directories = codes "(.*/)?"
piece_text everything = codes ".*"
piece_text name_part = codes "[^/]*"
piece_text one_char = codes "[^/]"
piece_text (literal c) = quoted c

unfoldable pub pieces_text : List Piece → Bytes
unfolding piece_text
pieces_text [] = []
pieces_text (p ∷ ps) = piece_text p ++ pieces_text ps

-- globToRegex
unfoldable pub glob_to_regex : Bytes → Bytes
unfolding pieces pieces_text
glob_to_regex glob = codes "^" ++ (pieces_text (pieces (length glob) glob) ++ codes "$")

-- The scope, a string of the source; the empty one is content.
pub data Scope : Type 0 where
  path content both no_scope : Scope
  unknown_scope : Bytes → Scope

abbrev pub scans_path : Scope → Bool
scans_path path = true
scans_path both = true
scans_path _ = false

abbrev pub scans_content : Scope → Bool
scans_content content = true
scans_content both = true
scans_content no_scope = true
scans_content _ = false

pub record RegexOptions : Type 0 where
  pub pattern : Bytes
  pub is_glob : Bool
  pub scope : Scope
  pub limit : ℤ
  pub max_results : ℤ
  pub max_matches_per_file : ℤ

pub record RegexMatch : Type 0 where
  pub line : ℕ
  pub snippet : Bytes

pub record RegexResult : Type 0 where
  pub path : Bytes
  pub matches : List RegexMatch

abbrev pub default_regex_limit : ℕ
default_regex_limit = 20

abbrev pub default_max_matches_per_file : ℕ
default_max_matches_per_file = 5

abbrev pub or_default : ℕ → ℕ → ℕ
or_default d n = if n == 0 then d else n

abbrev pub capped : ℕ → ℕ → ℕ
capped max n = if ltb 0 max && ltb max n then max else n

unfoldable pub result_limit : RegexOptions → ℕ
result_limit o = capped (pos_part o.max_results) (or_default default_regex_limit (pos_part o.limit))

unfoldable pub matches_per_file : RegexOptions → ℕ
matches_per_file o = or_default default_max_matches_per_file (pos_part o.max_matches_per_file)

abbrev pub scan : Bytes
scan = codes "scan"

module _ (test : Bytes → Bool) (is_cancelled : ℕ → Bool) (max : ℕ) (rel : Bytes) where
  abbrev pub match_of : ℕ → Bytes → RegexMatch
  match_of i line = record { line = i + 1; snippet = trim_space line }

  -- The loop over the lines that the scanner gives, the lines of the file; a line that does not fit in
  -- the buffer is an error.
  unfoldable pub scan_matches :
      ℕ → List RegexMatch → List Bytes → Result PathError (List RegexMatch)
  unfolding drop_return
  scan_matches i found [] = ok found
  scan_matches i found ([] ∷ []) = ok found
  scan_matches i found (line ∷ lines) =
      let hit = test (drop_return line) in
      let next = if hit then found ++ match_of i (drop_return line) ∷ [] else found in
      let more = scan_matches (i + 1) next lines in
      if leb max_scan_token_size (length line)
      then err (path_error scan rel scan_failed)
      else if is_cancelled i
      then err (path_error scan rel cancelled)
      else if hit && leb max (length next)
      then ok next
      else more

module _ (os : Os) (v : Service) (s : os.State) (during : Bytes → ℕ → Bool) where
  -- A file that cannot be read fails before its first line.
  abbrev content_scanned :
      (Bytes → Bool) → ℕ → Bytes → Result OsError Bytes → Result PathError (List RegexMatch)
  content_scanned test max rel (err e) = err (path_error scan rel scan_failed)
  content_scanned test max rel (ok data') =
      scan_matches test (during rel) max rel 0 [] (split b'\n' data')

  abbrev file_scanned :
      (Bytes → Bool) → ℕ → Bytes → Result OsError OpenFile → Result PathError (List RegexMatch)
  file_scanned test max rel (err e) = ok []
  file_scanned test max rel (ok f) = content_scanned test max rel f.content

  -- scanFileMatches; `during rel i` is the state of the context at a line of the file.
  unfoldable pub scan_file_matches :
      (Bytes → Bool) → ℕ → Bytes → Bytes → Result PathError (List RegexMatch)
  unfolding scan_matches
  scan_file_matches test max rel abs_path = file_scanned test max rel (os.open_file abs_path s)

  abbrev pub no_matches : List RegexMatch → Bool
  no_matches [] = true
  no_matches (m ∷ ms) = false

  -- The result of a note, where there is one.
  abbrev pub add_result : Bool → Bytes → List RegexMatch → List RegexResult → List RegexResult
  add_result path_hit rel found results =
      if not path_hit && no_matches found
      then results
      else results ++ record { path = rel; matches = found } ∷ []

  abbrev pub add_scanned :
      Bool → Bytes → Result PathError (List RegexMatch) → Exec (List RegexResult) Stop (Unit {0})
  add_scanned path_hit rel (err e) results = (err (failed_with e), results)
  add_scanned path_hit rel (ok found) results = (ok tt, add_result path_hit rel found results)

  -- The function that SearchRegex hands to WalkNotes.
  unfoldable pub search_note :
      (Bytes → Bool) → Scope → ℕ → ℕ → Bytes → Bytes → Exec (List RegexResult) Stop (Unit {0})
  unfolding scan_file_matches
  search_note test scope limit max rel abs_path results =
      let found = if scans_content scope then scan_file_matches test max rel abs_path else ok [] in
      if leb limit (length results)
      then (err skip_all, results)
      else add_scanned (scans_path scope && test rel) rel found results

  abbrev pub all_results :
      Result PathError (Unit {0}) × List RegexResult → Result PathError (List RegexResult)
  all_results (ok u, results) = ok results
  all_results (err e, results) = err e

  module _ (to_lower : Bytes → Bytes) (is_cancelled : ℕ → Bool) (tree : Result OsError Nodes) where
    abbrev pub search_with :
        RegexOptions → Option (Bytes → Bool) → Result PathError (List RegexResult)
    search_with o none = err (path_error (codes "SearchRegex") o.pattern invalid_regex)
    search_with o (some test) = all_results (
        walk_notes to_lower v is_cancelled tree
          (search_note test o.scope (result_limit o) (matches_per_file o)) [])

    -- SearchRegex
    unfoldable pub search_regex :
        (Bytes → Option (Bytes → Bool)) → RegexOptions → Result PathError (List RegexResult)
    unfolding glob_to_regex result_limit matches_per_file walk_notes search_note
    search_regex compile o =
        search_with o (compile (if o.is_glob then glob_to_regex o.pattern else o.pattern))
