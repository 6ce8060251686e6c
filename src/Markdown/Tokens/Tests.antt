-- ===== src/Markdown/Tokens/Tests.antt =====
-- Tokens of small texts, and an instance of the theorem on Tokenize.
use obsidian_mcp_server.Prelude.{
  ◌+◌, ◌≡◌, refl, Bool, false, ◌&&◌, ◌||◌, List, [], ◌∷◌, if◌then◌else◌, leb, arith,
}
use obsidian_mcp_server.Strings.{Bytes, codes, join}
use obsidian_mcp_server.Strings.Runes.{rune_width}
use obsidian_mcp_server.Markdown.Tokens.{tokenize, AllWords, IsWord, long_words, tokenize-join}

abbrev is_letter : Bytes → Bool
is_letter (x ∷ []) = leb b'A' x && leb x b'Z' || leb b'a' x && leb x b'z'
is_letter _ = false

abbrev to_small : Bytes → Bytes
to_small (x ∷ []) = if leb x b'Z' then (x + 32) ∷ [] else x ∷ []
to_small c = c

tokens_of_go : tokenize is_letter to_small (codes "A go-Run, 7") ≡ codes "go" ∷ codes "run" ∷ []
unfolding tokenize rune_width
tokens_of_go = refl

abbrev three_words : List Bytes
three_words = codes "Go" ∷ codes "a" ∷ codes "Run" ∷ []

three_words-AllWords : AllWords is_letter to_small three_words
unfolding AllWords IsWord
three_words-AllWords = (
  (omega arith, refl, (omega arith, refl, tt)),
  (
    (omega arith, refl, tt),
    ((omega arith, refl, (omega arith, refl, (omega arith, refl, tt))), tt),
  ),
)

tokenize-join_example :
    tokenize is_letter to_small (join b' ' three_words) ≡ long_words is_letter to_small three_words
tokenize-join_example = tokenize-join is_letter to_small refl three_words three_words-AllWords
