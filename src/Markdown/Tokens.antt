-- ===== src/Markdown/Tokens.antt =====
-- internal/markdown/fence.go: Tokenize. `is_word` and `to_lower` are Go's tables of letters and digits,
-- over characters in UTF-8.
mod Tests
use obsidian_mcp_server.Prelude.{
  ℕ, zero, suc, ◌+◌, ◌<◌, ◌≡◌, refl, sym, ap, ◌∙◌, inl, inr, Bool, true, false, ◌&&◌, List, [], ◌∷◌,
  ◌++◌, ◌==◌, append-nil, append_assoc, if◌then◌else◌, leb, length, arith, Bool-cases,
}
use obsidian_mcp_server.Strings.{Bytes, codes, join}
use obsidian_mcp_server.Strings.Runes.{rune_width, first_rune, after_rune}

-- The first character as a range over a string gives it: a byte of no character is U+FFFD.
abbrev pub ranged : ℕ → Bytes → Bytes
ranged x xs =
    if rune_width (x ∷ xs) == 1 && leb 0x80 x then 0xEF ∷ 0xBF ∷ 0xBD ∷ [] else first_rune (x ∷ xs)

-- What `flush` adds.
unfoldable pub flush : Bytes → List Bytes
flush cur = if leb 2 (length cur) then cur ∷ [] else []

-- A word of at least two bytes, before other words.
abbrev pub if_long : Bytes → List Bytes → List Bytes
if_long (x ∷ y ∷ w) ws = (x ∷ y ∷ w) ∷ ws
if_long _ ws = ws

two_long : (n : ℕ) → leb 2 (suc (suc n)) ≡ true
two_long n = ground arith

flush-if_long : (w : Bytes) (ws : List Bytes) → flush w ++ ws ≡ if_long w ws
unfolding flush
flush-if_long [] ws = refl
flush-if_long (x ∷ []) ws = refl
flush-if_long (x ∷ y ∷ w) ws = rw (two_long (length w)) refl

module _ (is_word : Bytes → Bool) (to_lower : Bytes → Bytes) where
  -- The loop, with the token that is being read.
  unfoldable pub scan_tokens : ℕ → Bytes → Bytes → List Bytes
  unfolding flush
  scan_tokens zero cur s = flush cur
  scan_tokens (suc fuel) cur [] = flush cur
  scan_tokens (suc fuel) cur (x ∷ xs) =
      let rest = scan_tokens fuel in
      if is_word (ranged x xs)
      then rest (cur ++ to_lower (ranged x xs)) (after_rune (x ∷ xs))
      else flush cur ++ rest [] (after_rune (x ∷ xs))

  unfoldable pub tokenize : Bytes → List Bytes
  unfolding scan_tokens
  tokenize text = scan_tokens (length text) [] text

  -- A word of ASCII letters and digits, and what it is in lower case.
  unfoldable pub IsWord : Bytes → Type 0
  IsWord [] = Unit
  IsWord (x ∷ xs) = (x < 128) × (is_word (x ∷ []) ≡ true) × IsWord xs

  unfoldable pub lowered : Bytes → Bytes
  lowered [] = []
  lowered (x ∷ xs) = to_lower (x ∷ []) ++ lowered xs

  unfoldable pub AllWords : List Bytes → Type 0
  AllWords [] = Unit
  AllWords (w ∷ ws) = IsWord w × AllWords ws

  unfoldable pub long_words : List Bytes → List Bytes
  long_words [] = []
  long_words (w ∷ ws) = if_long (lowered w) (long_words ws)

  rune_width-ascii : (x : ℕ) (xs : Bytes) → x < 128 → rune_width (x ∷ xs) ≡ 1
  unfolding rune_width
  rune_width-ascii x xs h = ground (arith, h)

  not_high : (x : ℕ) → x < 128 → leb 0x80 x ≡ false
  not_high x h = ground (arith, h)

  scan_tokens-word :
      (w cur s : Bytes)
      → IsWord w
      → scan_tokens (length (w ++ s)) cur (w ++ s) ≡ scan_tokens (length s) (cur ++ lowered w) s
  unfolding scan_tokens IsWord lowered
  scan_tokens-word [] cur s h = ap (λ c. scan_tokens (length s) c s) (sym (append-nil cur))
  scan_tokens-word (x ∷ w) cur s h =
      rw (rune_width-ascii x (w ++ s) h.0, not_high x h.0, h.1)
        (scan_tokens-word w (cur ++ to_lower (x ∷ [])) s h.2
          ∙ ap (λ c. scan_tokens (length s) c s) (append_assoc cur (to_lower (x ∷ [])) (lowered w)))

  module _ (blank : is_word (codes " ") ≡ false) where
    scan_tokens-blank :
        (cur s : Bytes)
        → scan_tokens (length (b' ' ∷ s)) cur (b' ' ∷ s) ≡ flush cur ++ scan_tokens (length s) [] s
    unfolding scan_tokens
    scan_tokens-blank cur s = rw (rune_width-ascii b' ' s (omega arith), blank) refl

    -- The tokens of ASCII words with blanks between them are the words of at least two bytes, in lower
    -- case, where a blank is neither a letter nor a digit.
    pub tokenize-join : (ws : List Bytes) → AllWords ws → tokenize (join b' ' ws) ≡ long_words ws
    unfolding tokenize long_words AllWords join scan_tokens
    tokenize-join [] h = refl
    tokenize-join (w ∷ []) h =
        ap tokenize (sym (append-nil w))
        ∙ scan_tokens-word w [] [] h.0
        ∙ sym (append-nil (flush (lowered w)))
        ∙ flush-if_long (lowered w) []
    tokenize-join (w ∷ v ∷ ws) h =
        scan_tokens-word w [] (b' ' ∷ join b' ' (v ∷ ws)) h.0
        ∙ scan_tokens-blank (lowered w) (join b' ' (v ∷ ws))
        ∙ ap (λ ts. flush (lowered w) ++ ts) (tokenize-join (v ∷ ws) h.1)
        ∙ flush-if_long (lowered w) (long_words (v ∷ ws))
