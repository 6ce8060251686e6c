-- ===== src/Markdown/Tests.antt =====
-- Runs of the fence scanner on small texts, and instances of its theorems.
use obsidian_mcp_server.Prelude.{◌≡◌, refl, none, List, [], ◌∷◌, ◌++◌, replicate, length}
use obsidian_mcp_server.Strings.{Bytes, codes}
use obsidian_mcp_server.Markdown.{strip_inline_code, strip_code_fences, strip_lines, next_fence}
use obsidian_mcp_server.Markdown.Strip.{strip_lines_fence}

abbrev note : Bytes
note = codes "a `b` c\n```go\n#x ``\n````\nend `"

note_stripped : strip_code_fences note ≡ codes "a   c\n \n \n \nend `"
unfolding strip_code_fences
note_stripped = refl

double_ticks : strip_inline_code (codes "a ``b`` `c") ≡ codes "a ``b`` `c"
unfolding strip_inline_code
double_ticks = refl

abbrev fenced : List Bytes
fenced = codes "#todo" ∷ codes "``" ∷ []

strip_lines_fence_example :
    strip_lines none (codes "```" ∷ (fenced ++ codes "```\r" ∷ codes "#x" ∷ []))
    ≡ codes " "
      ∷ (replicate (length fenced) (codes " ") ++ codes " " ∷ strip_lines none (codes "#x" ∷ []))
unfolding next_fence
strip_lines_fence_example =
    strip_lines_fence (codes "```") (codes "```\r") b'`' 3 fenced (codes "#x" ∷ []) refl
      (refl, (refl, tt)) refl
