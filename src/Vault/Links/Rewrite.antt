-- ===== src/Vault/Links/Rewrite.antt =====
-- internal/vault/linkrewrite.go: the links of one line. An occurrence of a link is held with the text
-- before it; the offsets of the source are the sums of the lengths.
pub mod Parts
pub mod Spliced
pub mod Replaced
pub mod Notes
pub mod Preview
pub mod Fuel
use obsidian_mcp_server.Prelude.{
  ℕ, zero, suc, ◌+◌, ◌-◌, Bool, true, false, not, ◌&&◌, ◌||◌, Option, none, some, List, [], ◌∷◌,
  ◌++◌, ◌==◌, map, if◌then◌else◌, ltb, leb, length, take, drop,
}
use obsidian_mcp_server.Maps.{Map}
use obsidian_mcp_server.Strings.{Bytes, codes, eq_bytes, contains_byte, has_prefix, split, join}
use obsidian_mcp_server.Strings.Escape.{path_escape, path_unescape}
use obsidian_mcp_server.Vault.FilePath.{ext, base}
use obsidian_mcp_server.Vault.PathFilter.{stem}
use obsidian_mcp_server.Vault.Links.{
  span, part, in_paren, Wiki, wiki_at, link_text, is_md_path, no_ext, is_match,
}

-- [^)#]
abbrev pub in_path : ℕ → Bool
in_path c = not (c == b')') && not (c == b'#')

-- A Markdown link: its parts, and the text behind it.
pub record MdLink : Type 0 where
  pub prefix : Bytes
  pub path : Bytes
  pub fragment : Bytes
  pub rest : Bytes

abbrev closed_md : Bytes → Bytes → Bytes × Bytes → Option MdLink
closed_md prefix path (fragment, []) = none
closed_md prefix path (fragment, x ∷ rest) =
    if is_md_path path
    then some (record { prefix = prefix; path = path; fragment = fragment; rest = rest })
    else none

-- What stands where the path ends, a fragment or the closing parenthesis.
abbrev md_parts : Option (Bytes × Bytes) → Option MdLink
md_parts none = none
md_parts (some (prefix, s)) =
    let path = span in_path s in closed_md prefix path.0 (part b'#' in_paren path.1)

-- (\[[^\]]*\]\()([^)#]+\.md)((?:#[^)]*)?)(\)) at the beginning of a text.
unfoldable pub md_at : Bytes → Option MdLink
unfolding span has_prefix
md_at [] = none
md_at (x ∷ xs) = if x == b'[' then md_parts (link_text xs) else none

-- rewriteTarget
unfoldable pub rewrite_target : Bytes → Bytes → Bytes
rewrite_target old_target new_path =
    if contains_byte b'/' old_target
    then if not (eq_bytes (ext old_target) []) then new_path else no_ext new_path
    else if not (eq_bytes (ext old_target) [])
    then base new_path
    else stem new_path

abbrev decoded_or : Bytes → Option Bytes → Bytes
decoded_or path none = path
decoded_or path (some decoded) = decoded

-- decodeMarkdownPath
unfoldable pub decode_markdown_path : Bytes → Bytes
decode_markdown_path path = decoded_or path (path_unescape path)

-- encodeMarkdownPath
unfoldable pub encode_markdown_path : Bytes → Bytes → Bytes
encode_markdown_path new_path original_raw =
    if not (contains_byte b'%' original_raw)
    then new_path
    else join b'/' (map path_escape (split b'/' new_path))

-- LinkRewrite, less the path and the line, which the caller fills in.
pub record LinkRewrite : Type 0 where
  pub old_text : Bytes
  pub new_text : Bytes
  pub ambiguous : Bool

-- What basenameIndex gives.
abbrev pub Index : Type 0
Index = Map (List Bytes)

abbrev pub paths_of : Option (List Bytes) → List Bytes
paths_of none = []
paths_of (some paths) = paths

-- Whether a target that is a name alone is the name of several notes.
unfoldable pub is_ambiguous : Index → Bytes → Bool
unfolding contains_byte
is_ambiguous index target =
    not (contains_byte b'/' target) && ltb 1 (length (paths_of (index (no_ext target))))

abbrev pub ambiguous_or : Bool → Bytes → Bytes → LinkRewrite
ambiguous_or true old_text new_text = record {
  old_text = old_text;
  new_text = [];
  ambiguous = true;
}
ambiguous_or false old_text new_text = record {
  old_text = old_text;
  new_text = new_text;
  ambiguous = false;
}

-- The text of a wikilink with another target.
abbrev pub wiki_text : Wiki → Bytes → Bytes
wiki_text w target = w.bang ++ codes "[[" ++ target ++ w.anchor ++ w.alias ++ codes "]]"

module _ (targets : List Bytes) (index : Index) (new_path : Bytes) where
  -- A round of the loop over the wikilinks; `none` is `continue`.
  unfoldable pub rewrite_wiki : Bytes → Wiki → Option LinkRewrite
  unfolding is_match is_ambiguous rewrite_target
  rewrite_wiki old_text w =
      if not (is_match targets w.target)
      then none
      else some (
          ambiguous_or (is_ambiguous index w.target) old_text
            (wiki_text w (rewrite_target w.target new_path)))

  abbrev new_md_text : MdLink → Bytes → Bytes
  new_md_text l decoded =
      l.prefix
      ++ encode_markdown_path (rewrite_target decoded new_path) l.path
      ++ l.fragment
      ++ codes ")"

  -- A round of the loop over the Markdown links.
  unfoldable pub rewrite_md : Bytes → MdLink → Option LinkRewrite
  unfolding is_match is_ambiguous rewrite_target decode_markdown_path encode_markdown_path
  rewrite_md old_text l =
      let decoded = decode_markdown_path l.path in
      if not (is_match targets decoded)
      then none
      else some (ambiguous_or (is_ambiguous index decoded) old_text (new_md_text l decoded))

-- An occurrence of a link: the text since the last one, and its own.
pub record Occurrence (L : Type 0) : Type 0 where
  pub before : Bytes
  pub text : Bytes
  pub link : L

module _ {L : Type 0} (at : Bytes → Option L) (rest_of : L → Bytes) where
  -- The text of a link that begins a text.
  abbrev pub text_of : Bytes → L → Bytes
  text_of s l = take (length s - length (rest_of l)) s

  -- FindAllStringSubmatchIndex, on fuel; each round takes at least one byte.
  unfoldable pub occurrences : ℕ → Bytes → Bytes → List (Occurrence L)
  occurrences zero before s = []
  occurrences (suc fuel) before [] = []
  occurrences (suc fuel) before (x ∷ xs) = elim (at (x ∷ xs)) [
    | some l ↦
        record { before = before; text = text_of (x ∷ xs) l; link = l }
        ∷ occurrences fuel [] (rest_of l)
    | none ↦ occurrences fuel (before ++ x ∷ []) xs
  ]

-- A match of rewriteLine: the offsets, and what becomes of it.
pub record Match : Type 0 where
  pub start : ℕ
  pub stop : ℕ
  pub rewrite : LinkRewrite

module _ {L : Type 0} (f : Bytes → L → Option LinkRewrite) where
  abbrev pub unless_skipped : ℕ → ℕ → Option LinkRewrite → List Match → List Match
  unless_skipped start stop none more = more
  unless_skipped start stop (some r) more =
      record { start = start; stop = stop; rewrite = r } ∷ more

  unfoldable pub matches : ℕ → List (Occurrence L) → List Match
  matches pos [] = []
  matches pos (o ∷ os) =
      let start = pos + length o.before in
      let stop = start + length o.text in
      unless_skipped start stop (f o.text o.link) (matches stop os)

-- result[:m.start] + m.rewrite.NewText + result[m.end:]; `none` is a panic of the slices.
unfoldable pub splice_match : Match → Bytes → Option Bytes
splice_match m result =
    if m.rewrite.ambiguous
    then some result
    else if leb m.start (length result) && leb m.stop (length result)
    then some (take m.start result ++ m.rewrite.new_text ++ drop m.stop result)
    else none

abbrev pub splice_into : Match → Option Bytes → Option Bytes
splice_into m none = none
splice_into m (some result) = splice_match m result

-- The loop over the matches, from the last to the first.
unfoldable pub splice_all : List Match → Bytes → Option Bytes
unfolding splice_match
splice_all [] result = some result
splice_all (m ∷ ms) result = splice_into m (splice_all ms result)

abbrev pub rewrites_of : List Match → List LinkRewrite
rewrites_of [] = []
rewrites_of (m ∷ ms) = m.rewrite ∷ rewrites_of ms

abbrev pub wiki_rest : Wiki → Bytes
wiki_rest w = w.rest

abbrev pub md_rest : MdLink → Bytes
md_rest l = l.rest

module _ (targets : List Bytes) (index : Index) (new_path : Bytes) where
  unfoldable pub wiki_matches : Bytes → List Match
  unfolding wiki_at rewrite_wiki occurrences matches
  wiki_matches line =
      matches (rewrite_wiki targets index new_path) 0
        (occurrences wiki_at wiki_rest (length line) [] line)

  unfoldable pub md_matches : Bytes → List Match
  unfolding md_at rewrite_md occurrences matches
  md_matches line =
      matches (rewrite_md targets index new_path) 0
        (occurrences md_at md_rest (length line) [] line)

  abbrev pub with_rewrites : List Match → Option Bytes → Option (Bytes × List LinkRewrite)
  with_rewrites ms none = none
  with_rewrites ms (some result) = some (result, rewrites_of ms)

  -- rewriteLine; `none` is a panic.
  unfoldable pub rewrite_line : Bytes → Option (Bytes × List LinkRewrite)
  unfolding wiki_matches md_matches splice_all
  rewrite_line line =
      let ms = wiki_matches line ++ md_matches line in with_rewrites ms (splice_all ms line)
