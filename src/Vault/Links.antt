-- ===== src/Vault/Links.antt =====
-- internal/vault/links.go: the links of a note, and the links to a note. The expression for links is read
-- off the source; its delimiters are ASCII, so that it goes over the bytes of the text.
pub mod Backlinks
pub mod Rewrite
mod Tests
use obsidian_mcp_server.Prelude.{
  ℕ, zero, suc, ◌+◌, Bool, true, false, not, ◌&&◌, ◌||◌, Option, none, some, List, [], ◌∷◌, ◌++◌,
  ◌==◌, if◌then◌else◌, ltb, length, drop, is_some,
}
use obsidian_mcp_server.Prelude.Exec.{Exec, Result, ok, err, asks, ◌>>=◌, ◌>>◌}
use obsidian_mcp_server.Strings.{Bytes, codes, eq_bytes, has_prefix, has_suffix, split}
use obsidian_mcp_server.Strings.Space.{trim_space}
use obsidian_mcp_server.Vault.Errors.{OsError, PathError}
use obsidian_mcp_server.Vault.FilePath.{clean, ext, base}
use obsidian_mcp_server.Vault.Os.{Os, OpenFile}
use obsidian_mcp_server.Vault.PathFilter.{trim_suffix, stem}
use obsidian_mcp_server.Vault.Guards.{Service, sanitize, exists_strict}
use obsidian_mcp_server.Vault.Walk.{Nodes, Stop, walk_notes}

-- The longest prefix of bytes that pass a test, and the rest.
unfoldable pub span : (ℕ → Bool) → Bytes → Bytes × Bytes
span test [] = ([], [])
span test (x ∷ xs) =
    let more = span test xs in if test x then (x ∷ more.0, more.1) else ([], x ∷ xs)

-- [^\]|#], [^\]|], [^\]] and [^)]
abbrev pub in_target : ℕ → Bool
in_target c = not (c == b']') && (not (c == b'|') && not (c == b'#'))

abbrev pub in_anchor : ℕ → Bool
in_anchor c = not (c == b']') && not (c == b'|')

abbrev pub in_bracket : ℕ → Bool
in_bracket c = not (c == b']')

abbrev pub in_paren : ℕ → Bool
in_paren c = not (c == b')')

-- A part that is only there behind its mark.
abbrev pub part : ℕ → (ℕ → Bool) → Bytes → Bytes × Bytes
part mark test [] = ([], [])
part mark test (x ∷ xs) = if x == mark then span test (x ∷ xs) else ([], x ∷ xs)

-- A wikilink: its parts, and the text behind it.
pub record Wiki : Type 0 where
  pub bang : Bytes
  pub target : Bytes
  pub anchor : Bytes
  pub alias : Bytes
  pub rest : Bytes

abbrev pub closed_wiki : Bytes → Bytes → Bytes → Bytes → Bytes → Option Wiki
closed_wiki bang target anchor alias s =
    if not (eq_bytes target []) && has_prefix s (codes "]]")
    then some
        (record { bang = bang; target = target; anchor = anchor; alias = alias; rest = drop 2 s })
    else none

-- What is behind `[[`. The parts end where a byte stands that they may not hold, so no other match of
-- the expression is possible.
unfoldable pub wiki_body : Bytes → Bytes → Option Wiki
unfolding span eq_bytes has_prefix
wiki_body bang s =
    let target = span in_target s in
    let anchor = part b'#' in_anchor target.1 in
    let alias = part b'|' in_bracket anchor.1 in closed_wiki bang target.0 anchor.0 alias.0 alias.1

abbrev pub opened_wiki : Bytes → Bytes → Option Wiki
opened_wiki bang s = if has_prefix s (codes "[[") then wiki_body bang (drop 2 s) else none

-- (!?)\[\[([^\]|#]+?)((?:#[^\]|]*)?)(\|[^\]]*)?\]\] at the beginning of a text.
unfoldable pub wiki_at : Bytes → Option Wiki
unfolding wiki_body has_prefix
wiki_at [] = none
wiki_at (x ∷ xs) = if x == b'!' then opened_wiki (x ∷ []) xs else opened_wiki [] (x ∷ xs)

-- What is behind `[`: the text up to `](`, with that, and what follows.
abbrev pub link_text : Bytes → Option (Bytes × Bytes)
link_text s =
    let t = span in_bracket s in
    if has_prefix t.1 (codes "](") then some ((b'[' ∷ t.0) ++ codes "](", drop 2 t.1) else none

-- A path of at least one byte before `.md`.
abbrev pub is_md_path : Bytes → Bool
is_md_path path = ltb 3 (length path) && has_suffix path (codes ".md")

abbrev closed_path : Bytes × Bytes → Option (Bytes × Bytes)
closed_path (path, []) = none
closed_path (path, x ∷ rest) = if is_md_path path then some (path, rest) else none

abbrev path_behind : Option (Bytes × Bytes) → Option (Bytes × Bytes)
path_behind none = none
path_behind (some (prefix, s)) = closed_path (span in_paren s)

-- \[[^\]]*\]\(([^)]+\.md)\) at the beginning of a text: the path, and the text behind.
unfoldable pub md_path_at : Bytes → Option (Bytes × Bytes)
unfolding span has_prefix has_suffix
md_path_at [] = none
md_path_at (x ∷ xs) = if x == b'[' then path_behind (link_text xs) else none

abbrev wiki_or_md : Option Wiki → Option (Bytes × Bytes) → Option (Bytes × Bytes)
wiki_or_md (some w) o = some (trim_space w.target, w.rest)
wiki_or_md none none = none
wiki_or_md none (some (path, rest)) = some (trim_space path, rest)

-- combinedLinkRegex at the beginning of a text, with linkTarget.
unfoldable pub link_at : Bytes → Option (Bytes × Bytes)
unfolding wiki_at md_path_at
link_at s = wiki_or_md (wiki_at s) (md_path_at s)

-- The targets of all links, on fuel; each round takes at least one byte.
unfoldable pub link_targets : ℕ → Bytes → List Bytes
unfolding link_at
link_targets zero s = []
link_targets (suc fuel) [] = []
link_targets (suc fuel) (x ∷ xs) = elim (link_at (x ∷ xs)) [
  | some (target, rest) ↦ target ∷ link_targets fuel rest
  | none ↦ link_targets fuel xs
]

-- The strings of a set.
unfoldable pub is_member : Bytes → List Bytes → Bool
unfolding eq_bytes
is_member t [] = false
is_member t (u ∷ us) = eq_bytes u t || is_member t us

abbrev pub add_link : Bytes → List Bytes → List Bytes
add_link t out = if eq_bytes t [] then out else if is_member t out then out else out ++ t ∷ []

unfoldable pub add_links : List Bytes → List Bytes → List Bytes
unfolding eq_bytes is_member
add_links out [] = out
add_links out (t ∷ ts) = add_links (add_link t out) ts

-- ExtractLinks
unfoldable pub extract_links : Bytes → List Bytes
unfolding link_targets add_links
extract_links content = add_links [] (link_targets (length content) content)

-- strings.TrimSuffix(path, filepath.Ext(path))
abbrev pub no_ext : Bytes → Bytes
no_ext path = trim_suffix path (ext path)

-- buildMatchTargets, and the same set in GetBacklinks.
unfoldable pub build_match_targets : Bytes → List Bytes
build_match_targets path = stem path ∷ base path ∷ no_ext path ∷ path ∷ []

unfoldable pub is_match : List Bytes → Bytes → Bool
unfolding is_member
is_match targets t = is_member t targets || is_member (no_ext t) targets

pub record Backlink : Type 0 where
  pub path : Bytes
  pub line : ℕ
  pub snippet : Bytes

-- Whether a line has a link to one of the targets.
unfoldable pub any_match : List Bytes → List Bytes → Bool
unfolding is_match eq_bytes
any_match targets [] = false
any_match targets (t ∷ ts) = (not (eq_bytes t []) && is_match targets t) || any_match targets ts

unfoldable pub links_to : List Bytes → Bytes → Bool
unfolding any_match link_targets
links_to targets line = any_match targets (link_targets (length line) line)

-- The loop over the lines, whose numbers begin at 1.
unfoldable pub note_backlinks : List Bytes → Bytes → ℕ → List Bytes → List Backlink
unfolding links_to
note_backlinks targets rel i [] = []
note_backlinks targets rel i (line ∷ lines) =
    let more = note_backlinks targets rel (i + 1) lines in
    if links_to targets line
    then record { path = rel; line = i + 1; snippet = trim_space line } ∷ more
    else more

-- A bufio.Scanner gives up at a line that does not fit in its buffer.
abbrev pub max_scan_token_size : ℕ
max_scan_token_size = 65536

unfoldable pub drop_return : Bytes → Bytes
drop_return [] = []
drop_return (x ∷ []) = if x == b'\r' then [] else x ∷ []
drop_return (x ∷ z ∷ xs) = x ∷ drop_return (z ∷ xs)

unfoldable pub scanned : List Bytes → List Bytes
unfolding drop_return
scanned [] = []
scanned ([] ∷ []) = []
scanned (line ∷ lines) =
    let more = scanned lines in
    if ltb (length line) max_scan_token_size then drop_return line ∷ more else []

-- The lines that the scanner gives.
unfoldable pub scan_lines : Bytes → List Bytes
unfolding scanned
scan_lines content = scanned (split b'\n' content)

module _ (os : Os) (v : Service) (s : os.State) where
  abbrev lines_of_file : Result OsError OpenFile → List Bytes
  lines_of_file (err e) = []
  lines_of_file (ok f) = elim f.content [ ok d ↦ scan_lines d | err e ↦ [] ]

  -- The function that GetBacklinks hands to WalkNotes.
  unfoldable pub backlinks_of_note :
      Bytes → List Bytes → Bytes → Bytes → Exec (List Backlink) Stop (Unit {0})
  unfolding note_backlinks scan_lines
  backlinks_of_note abs_target targets rel abs_path found =
      if eq_bytes (clean abs_path) (clean abs_target)
      then (ok tt, found)
      else (ok tt, found ++ note_backlinks targets rel 0 (lines_of_file (os.open_file abs_path s)))

  abbrev all_found : Result PathError (Unit {0}) × List Backlink → Result PathError (List Backlink)
  all_found (ok u, found) = ok found
  all_found (err e, found) = err e

  abbrev walked :
      (Bytes → Bytes)
      → (ℕ → Bool)
      → Result OsError Nodes
      → Bytes
      → Bytes
      → Result PathError (List Backlink)
  walked to_lower is_cancelled tree path abs_target = all_found (
      walk_notes to_lower v is_cancelled tree
        (backlinks_of_note abs_target (build_match_targets path)) [])

  abbrev if_there :
      Result PathError (Unit {0})
      → Result PathError (List Backlink)
      → Result PathError (List Backlink)
  if_there (ok u) r = r
  if_there (err e) r = err e

  abbrev backlinks_op : Bytes
  backlinks_op = codes "get_backlinks"

  abbrev sanitized :
      (Bytes → Bytes)
      → (ℕ → Bool)
      → Result OsError Nodes
      → Bytes
      → Result PathError (Bytes × Bytes)
      → Result PathError (List Backlink)
  sanitized to_lower is_cancelled tree path (err e) = err e
  sanitized to_lower is_cancelled tree path (ok t) =
      if_there (exists_strict os v backlinks_op path t.1 s)
        (walked to_lower is_cancelled tree path t.1)

  -- GetBacklinks, which changes nothing.
  unfoldable pub get_backlinks :
      (Bytes → Bytes) → (ℕ → Bool) → Result OsError Nodes → Bytes → Result PathError (List Backlink)
  unfolding build_match_targets walk_notes backlinks_of_note exists_strict
  get_backlinks to_lower is_cancelled tree path =
      sanitized to_lower is_cancelled tree path (sanitize os v backlinks_op path)
