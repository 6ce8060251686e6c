-- ===== src/Vault/Replace/Tests.antt =====
-- A replacement on files in memory, with expressions that match one byte, and instances of the theorems
-- on ReplaceInNote.
use obsidian_mcp_server.Prelude.{ℕ, ◌+◌, ◌==◌, ◌≡◌, some, List, [], ◌∷◌, if◌then◌else◌}
use obsidian_mcp_server.Strings.{Bytes, codes}
use obsidian_mcp_server.Vault.Disk.{Files}
use obsidian_mcp_server.Vault.Replace.{Regexp, Regexps, ReplaceResult, splice}
use obsidian_mcp_server.Vault.Replace.Splice.{whole, spans, changed, splice-spans}

unfoldable find_byte : ℕ → ℕ → Bytes → List (ℕ × ℕ)
find_byte c i [] = []
find_byte c i (x ∷ xs) =
    let rest = find_byte c (i + 1) xs in if x == c then (i, i + 1) ∷ rest else rest

abbrev byte_regexp : ℕ → Regexp
byte_regexp c = record { find_all = λ s. find_byte c 0 s; replace_all = λ s t. t }

abbrev of_first : Bytes → Regexp
of_first [] = byte_regexp 0
of_first (c ∷ p) = byte_regexp c

abbrev bytes_only : Regexps
bytes_only = record { compile = λ p. some (of_first p); literal = of_first }

abbrev path : Bytes
path = codes "a.md"

abbrev disk : Files
disk = (codes "/v/a.md", codes "banana") ∷ []

abbrev disk' : Files
disk' = (codes "/v/a.md", codes "bonona") ∷ []

abbrev result : ReplaceResult
result = record { path = path; occurrences_found = 3; replaced = 2 }

abbrev found_pieces : List (Bytes × Bytes)
found_pieces = (codes "b", codes "a") ∷ (codes "n", codes "a") ∷ []

splice-spans_example :
    splice (λ m. codes "o") (whole found_pieces (codes "na")) 1 0 (spans 0 found_pieces)
    ≡ changed (λ m. codes "o") 1 found_pieces (codes "na")
splice-spans_example = splice-spans (λ m. codes "o") 1 found_pieces (codes "na")
