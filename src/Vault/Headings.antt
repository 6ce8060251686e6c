-- ===== src/Vault/Headings.antt =====
-- internal/vault/mutators.go and outline.go: headings, the patch of a section, the outline of a note
-- and ranges of its lines. A note is the list of its lines here; reading and writing are in Files.
pub mod Sections
pub mod Ranges
pub mod Tests
use obsidian_mcp_server.Prelude.{
  ℕ, zero, suc, ◌+◌, ◌-◌, Bool, true, false, not, ◌&&◌, ◌||◌, Option, none, some, List, [], ◌∷◌,
  ◌++◌, ◌==◌, if◌then◌else◌, ltb, leb, length, take, drop,
}
use obsidian_mcp_server.Prelude.Exec.{Result, ok, err}
use obsidian_mcp_server.Prelude.Int.{ℤ, pos_part}
use obsidian_mcp_server.Strings.{Bytes, codes, eq_bytes, trim_left, split, join}
use obsidian_mcp_server.Strings.Space.{trim_space}

abbrev pub is_hash : ℕ → Bool
is_hash c = c == b'#'

abbrev starts_otherwise : Bytes → Bool
starts_otherwise [] = false
starts_otherwise (x ∷ xs) = not (x == b' ')

-- headingLevel: the `#` prefix, empty for a line that is no heading.
unfoldable pub heading_level : Bytes → Bytes
unfolding trim_left
heading_level line =
    let trimmed = trim_left is_hash line in
    if length trimmed == length line || starts_otherwise trimmed
    then []
    else take (length line - length trimmed) line

-- isHeadingLine
unfoldable pub is_heading_line : Bytes → Bytes → Bool
unfolding heading_level trim_left
is_heading_line line heading =
    not (eq_bytes (heading_level line) []) && eq_bytes (trim_space (trim_left is_hash line)) heading

drop_last_empty : List Bytes → List Bytes
drop_last_empty [] = []
drop_last_empty (p ∷ []) = if eq_bytes p [] then [] else p ∷ []
drop_last_empty (p ∷ q ∷ ps) = p ∷ drop_last_empty (q ∷ ps)

-- splitLines
unfoldable pub split_lines : Bytes → List Bytes
unfolding drop_last_empty
split_lines [] = []
split_lines (x ∷ xs) = drop_last_empty (split b'\n' (x ∷ xs))

-- The first loop of PatchNote: the index of the heading line.
unfoldable pub find_heading : Bytes → ℕ → List Bytes → Option ℕ
find_heading heading i [] = none
find_heading heading i (line ∷ lines) =
    let later = find_heading heading (i + 1) lines in
    if is_heading_line line heading then some i else later

-- A line that ends a section of the level: a heading of the same or a higher level.
unfoldable pub ends_section : ℕ → Bytes → Bool
ends_section level line =
    not (eq_bytes (heading_level line) []) && leb (length (heading_level line)) level

-- The second loop of PatchNote, over the lines from `i` on.
unfoldable pub body_end : ℕ → ℕ → List Bytes → ℕ
body_end level i [] = i
body_end level i (line ∷ lines) =
    let later = body_end level (i + 1) lines in if ends_section level line then i else later

pub data Position : Type 0 where
  before after replace_body unknown : Position

pub data PatchError : Type 0 where
  heading_not_found unknown_position : PatchError

-- The three ways to put lines together, with the indices of the heading and of the body's end.
patch_at : Position → List Bytes → ℕ → ℕ → List Bytes → Result PatchError (List Bytes)
patch_at before lines h e content = ok (take h lines ++ (content ++ drop h lines))
patch_at after lines h e content = ok (take e lines ++ (content ++ drop e lines))
patch_at replace_body lines h e content = ok (take (h + 1) lines ++ (content ++ drop e lines))
patch_at unknown lines h e content = err unknown_position

abbrev line_at : ℕ → List Bytes → Bytes
line_at i [] = []
line_at zero (l ∷ ls) = l
line_at (suc i) (l ∷ ls) = line_at i ls

patch_found : Position → List Bytes → List Bytes → Option ℕ → Result PatchError (List Bytes)
unfolding patch_at
patch_found pos content lines none = err heading_not_found
patch_found pos content lines (some h) =
    patch_at pos lines h
      (body_end (length (heading_level (line_at h lines))) (h + 1) (drop (h + 1) lines)) content

-- PatchNote on the lines of a note.
unfoldable pub patch_lines :
    Bytes → Position → List Bytes → List Bytes → Result PatchError (List Bytes)
unfolding patch_found find_heading body_end ends_section
patch_lines heading pos content lines = patch_found pos content lines (find_heading heading 0 lines)

pub record HeadingInfo : Type 0 where
  pub level : ℕ
  pub text : Bytes
  pub line : ℕ

-- The loop of GetNoteOutline.
unfoldable pub outline_from : ℕ → List Bytes → List HeadingInfo
outline_from i [] = []
outline_from i (line ∷ lines) =
    let later = outline_from (i + 1) lines in
    if eq_bytes (heading_level line) []
    then later
    else record {
      level = length (heading_level line);
      text = trim_space (drop (length (heading_level line)) line);
      line = i + 1;
    }
      ∷ later

-- GetNoteOutline on the lines of a note.
abbrev pub outline : List Bytes → List HeadingInfo
outline = outline_from 0

-- The result of ReadNoteLines, but for the path.
pub record NoteLines : Type 0 where
  pub start_line : ℕ
  pub end_line : ℕ
  pub total_lines : ℕ
  pub content : Bytes

-- An argument below 1 counts as 1.
abbrev pub at_least_one : ℤ → ℕ
at_least_one n = if ltb (pos_part n) 1 then 1 else pos_part n

-- `end` as an int of 64 bits: a sum that does not fit is negative, and a slice up to it is a panic.
abbrev pub end_fits : ℕ → ℕ → Bool
end_fits start count = ltb (start + count - 1) 9223372036854775808

abbrev pub range : ℕ → ℕ → List Bytes → NoteLines
range start end lines = record {
  start_line = start;
  end_line = end;
  total_lines = length lines;
  content = join b'\n' (drop (start - 1) (take end lines));
}

lines_between : ℕ → ℕ → List Bytes → Option NoteLines
lines_between start count lines =
    if ltb (length lines) start
    then some (record {
      start_line = start;
      end_line = start - 1;
      total_lines = length lines;
      content = [];
    })
    else if not (end_fits start count)
    then none
    else if ltb (length lines) (start + count - 1)
    then some (range start (length lines) lines)
    else some (range start (start + count - 1) lines)

-- ReadNoteLines on the lines of a note; `none` is a panic.
unfoldable pub read_note_lines : ℤ → ℤ → List Bytes → Option NoteLines
unfolding lines_between
read_note_lines start count lines = lines_between (at_least_one start) (at_least_one count) lines
