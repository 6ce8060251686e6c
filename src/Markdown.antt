-- ===== src/Markdown.antt =====
-- internal/markdown/fence.go: fenced code blocks and inline code spans. A line is the list of its
-- bytes; the loop over the lines is `strip_lines`, whose state is the open fence, if any.
pub mod Fence
pub mod Strip
pub mod Tokens
pub mod Tests
use obsidian_mcp_server.Prelude.{
  ℕ, zero, suc, ◌+◌, Bool, true, false, not, ◌&&◌, ◌||◌, Option, none, some, List, [], ◌∷◌, ◌++◌,
  ◌==◌, if◌then◌else◌, ltb, leb, length, take, drop, is_some,
}
use obsidian_mcp_server.Strings.{Bytes, contains_byte, run_length, trim_right, split, join}

-- One round of the loop of FenceOpener, for the fence character `ch`.
fence_run : ℕ → Bytes → Option (ℕ × ℕ)
fence_run ch (a ∷ b ∷ c ∷ rest) =
    if a == ch && b == ch && c == ch then some (ch, 3 + run_length ch rest) else none
fence_run ch _ = none

abbrev or_else : Option (ℕ × ℕ) → Option (ℕ × ℕ) → Option (ℕ × ℕ)
or_else none o = o
or_else (some r) o = some r

-- FenceOpener: the character and the length of the run, or `none` for `false`.
unfoldable pub fence_opener : Bytes → Option (ℕ × ℕ)
unfolding fence_run run_length
fence_opener line = or_else (fence_run b'`' line) (fence_run b'~' line)

all_spaces : Bytes → Bool
all_spaces [] = true
all_spaces (x ∷ xs) = x == b' ' && all_spaces xs

-- IsFenceCloser
unfoldable pub is_fence_closer : Bytes → ℕ → ℕ → Bool
unfolding run_length all_spaces
is_fence_closer line fence_char fence_len =
    if ltb (length line) fence_len
    then false
    else if ltb (run_length fence_char line) fence_len
    then false
    else all_spaces (drop (run_length fence_char line) line)

-- What stands behind the next backtick, the loop over `j` of stripInlineCode.
after_backtick : Bytes → Option Bytes
after_backtick [] = none
after_backtick (x ∷ xs) = if x == b'`' then some xs else after_backtick xs

abbrev close_span : Bytes → Option Bytes → Bytes × Bytes
close_span rest none = (b'`' ∷ [], rest)
close_span rest (some behind) = (b' ' ∷ [], behind)

-- One round of the loop over `i` of stripInlineCode: what it writes, and the text left.
inline_round : ℕ → Bytes → Bytes × Bytes
unfolding after_backtick run_length
inline_round x xs =
    if x == b'`'
    then if ltb 0 (run_length b'`' xs)
      then (b'`' ∷ take (run_length b'`' xs) xs, drop (run_length b'`' xs) xs)
      else close_span xs (after_backtick xs)
    else (x ∷ [], xs)

-- The loop, on fuel; each round shortens the text.
strip_spans : ℕ → Bytes → Bytes
unfolding inline_round
strip_spans zero line = []
strip_spans (suc fuel) [] = []
strip_spans (suc fuel) (x ∷ xs) = (inline_round x xs).0 ++ strip_spans fuel (inline_round x xs).1

-- stripInlineCode
unfoldable pub strip_inline_code : Bytes → Bytes
unfolding strip_spans contains_byte
strip_inline_code line =
    if not (contains_byte b'`' line) then line else strip_spans (length line) line

abbrev pub is_return : ℕ → Bool
is_return c = c == b'\r'

-- The open fence: its character and the length of the opening run.
abbrev pub FenceState : Type 0
FenceState = Option (ℕ × ℕ)

-- The fence that is open behind a line, the same state machine in StripCodeFences, RemoveTag and
-- renameInlineTag.
unfoldable pub next_fence : FenceState → Bytes → FenceState
unfolding fence_opener is_fence_closer trim_right
next_fence none line = fence_opener (trim_right is_return line)
next_fence (some (ch, n)) line =
    if is_fence_closer (trim_right is_return line) ch n then none else some (ch, n)

-- What StripCodeFences writes for a line.
strip_line : FenceState → Bytes → Bytes
unfolding next_fence strip_inline_code
strip_line (some f) line = b' ' ∷ []
strip_line none line = if is_some (next_fence none line) then b' ' ∷ [] else strip_inline_code line

unfoldable pub strip_lines : FenceState → List Bytes → List Bytes
unfolding strip_line next_fence
strip_lines st [] = []
strip_lines st (line ∷ lines) = strip_line st line ∷ strip_lines (next_fence st line) lines

-- StripCodeFences
unfoldable pub strip_code_fences : Bytes → Bytes
unfolding strip_lines split join
strip_code_fences content = join b'\n' (strip_lines none (split b'\n' content))
