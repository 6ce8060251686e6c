-- ===== src/Config/Lists.antt =====
-- internal/config/config.go, splitTrimmed: lists in one string.
use obsidian_mcp_server.Prelude.{
  ℕ, ◌≡◌, ◌≢◌, ◌⊎◌, inl, inr, refl, sym, ap, ◌∙◌, List, [], ◌∷◌, All, map,
}
use obsidian_mcp_server.Strings.{Bytes, eq_bytes, eq_bytes_ne, join}
use obsidian_mcp_server.Strings.Split.{Lacks, split-join}
use obsidian_mcp_server.Strings.Padded.{
  IsWord, with_blanks, trim_space-with_blanks, trim_space-blanks, with_blanks-Lacks,
}
use obsidian_mcp_server.Config.{trim_each, split_trimmed}

-- An element of a list as it is written: a text with blanks before it and behind it.
pub record Item : Type 0 where
  pub before : ℕ
  pub text : Bytes
  pub after : ℕ

abbrev pub written : Item → Bytes
written i = with_blanks i.before i.text i.after

-- The text of an item has no comma, and is empty or begins and ends with a visible character.
abbrev pub IsItem : Item → Type 0
IsItem i = Lacks b',' i.text × ((i.text ≡ []) ⊎ IsWord i.text)

-- A text before others, unless it is empty.
abbrev pub keep : Bytes → List Bytes → List Bytes
keep [] ts = ts
keep (x ∷ t) ts = (x ∷ t) ∷ ts

unfoldable pub kept_texts : List Item → List Bytes
kept_texts [] = []
kept_texts (i ∷ is) = keep i.text (kept_texts is)

keep_word : (w : Bytes) (ts : List Bytes) → IsWord w → keep w ts ≡ w ∷ ts
keep_word w ts h = ap (λ w. keep w ts) h.begins ∙ ap (λ w. w ∷ ts) (sym h.begins)

word_ne : (w : Bytes) → IsWord w → w ≢ []
word_ne w h e = not_empty (sym h.begins ∙ e)
  where
    not_empty : h.first ∷ h.more ≢ []
    not_empty q = cc

trim_each-written : (is : List Item) → All IsItem is → trim_each (map written is) ≡ kept_texts is
unfolding trim_each kept_texts eq_bytes
trim_each-written [] h = refl
trim_each-written (i ∷ is) h = elim h.0.1 [
  | inl e ↦ rw e (rw (trim_space-blanks i.before i.after, trim_each-written is h.1) refl)
  | inr w ↦
      rw
        (
          trim_space-with_blanks i.before i.after i.text w,
          eq_bytes_ne i.text [] (word_ne i.text w),
          trim_each-written is h.1,
        )
        (sym (keep_word i.text (kept_texts is) w))
]

all_lack : (is : List Item) → All IsItem is → All (Lacks b',') (map written is)
all_lack [] h = tt
all_lack (i ∷ is) h = (with_blanks-Lacks i.before i.after i.text h.0.0, all_lack is h.1)

some_written : (is : List Item) → is ≢ [] → map written is ≢ []
some_written [] n = absurd (n refl)
some_written (i ∷ is) n = λ e. cc

-- A list of items that is written with commas between them and blanks around them is read back as the
-- items that are not empty, without the blanks. An item has no comma, and is empty or begins and ends
-- with a visible character of ASCII.
pub split_trimmed-join :
    (is : List Item)
    → is ≢ []
    → All IsItem is
    → split_trimmed (join b',' (map written is)) ≡ kept_texts is
unfolding split_trimmed
split_trimmed-join is n h =
    ap trim_each (split-join b',' (map written is) (some_written is n) (all_lack is h))
    ∙ trim_each-written is h
