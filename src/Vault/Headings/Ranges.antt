-- ===== src/Vault/Headings/Ranges.antt =====
-- The outline against the headings that a patch finds, and ranges of lines.
use obsidian_mcp_server.Prelude.{
  ℕ, zero, suc, ◌+◌, ◌-◌, ◌≤◌, ◌<◌, ◌≡◌, ◌≢◌, inl, inr, refl, ap, sym, ◌∙◌, Bool, false, ◌||◌,
  Option, none, some, List, [], ◌∷◌, ◌++◌, ◌==◌, if◌then◌else◌, length, ltb, take, drop, arith,
  Bool-cases, min, length-take, length-drop, append_assoc, take_all,
}
use mathlib.Core.Bool.{false≢true}
use obsidian_mcp_server.Prelude.Int.{pos}
use obsidian_mcp_server.Strings.{Bytes, eq_bytes, eq_bytes_refl, trim_left, join}
use obsidian_mcp_server.Vault.Headings.{
  is_hash, starts_otherwise, heading_level, is_heading_line, find_heading, HeadingInfo,
  outline_from, outline, range, NoteLines, read_note_lines,
}

length-trim_left : (cut : ℕ → Bool) (s : Bytes) → length (trim_left cut s) ≤ length s
unfolding trim_left
length-trim_left cut [] = omega arith
length-trim_left cut (x ∷ s) = ground (arith, length-trim_left cut s)

trim_left-drop :
    (cut : ℕ → Bool) (s : Bytes) → drop (length s - length (trim_left cut s)) s ≡ trim_left cut s
unfolding trim_left
trim_left-drop cut [] = refl
trim_left-drop cut (x ∷ s) = elim (Bool-cases (cut x)) [
  | inl c ↦ rw c (
      let n : suc (length s) - length (trim_left cut s)
          ≡ suc (length s - length (trim_left cut s)) =
        omega (arith, length-trim_left cut s) in
      rw n (trim_left-drop cut s))
  | inr o ↦ rw o (let n : suc (length s) - suc (length s) ≡ 0 = omega arith in rw n refl)
]

-- The text of a heading line stands behind its prefix.
heading_level-drop :
    (line : Bytes)
    → eq_bytes (heading_level line) [] ≡ false
    → drop (length (heading_level line)) line ≡ trim_left is_hash line
unfolding heading_level
heading_level-drop line h =
    elim (Bool-cases (length trimmed == length line || starts_otherwise trimmed)) [
      | inl none_found ↦ absurd (false≢true (sym (rw none_found at h) ∙ eq_bytes_refl []))
      | inr found ↦ rw found (rw (length-take n line) (rw cut (trim_left-drop is_hash line)))
    ]
  where
    trimmed : Bytes
    trimmed = trim_left is_hash line

    n : ℕ
    n = length line - length trimmed

    cut : min n (length line) ≡ n
    cut = omega arith

-- The line number of the first entry with the text.
abbrev pub first_titled : Bytes → List HeadingInfo → Option ℕ
first_titled text [] = none
first_titled text (h ∷ hs) = if eq_bytes h.text text then some h.line else first_titled text hs

abbrev pub next_number : Option ℕ → Option ℕ
next_number none = none
next_number (some i) = some (i + 1)

outline_from-find_heading :
    (heading : Bytes) (i : ℕ) (lines : List Bytes)
    → first_titled heading (outline_from i lines) ≡ next_number (find_heading heading i lines)
unfolding outline_from find_heading is_heading_line
outline_from-find_heading heading i [] = refl
outline_from-find_heading heading i (l ∷ lines) =
    elim (Bool-cases (eq_bytes (heading_level l) [])) [
      | inl plain ↦ rw plain (outline_from-find_heading heading (i + 1) lines)
      | inr titled ↦ rw titled (
          rw (heading_level-drop l titled)
            (ground (arith, outline_from-find_heading heading (i + 1) lines)))
    ]

-- The outline and the patch agree on what a heading is: the line that a patch of a heading is
-- anchored at is the first entry of the outline with this text, and there is none for one exactly
-- if there is none for the other.
pub outline-find_heading :
    (heading : Bytes) (lines : List Bytes)
    → first_titled heading (outline lines) ≡ next_number (find_heading heading 0 lines)
outline-find_heading heading lines = outline_from-find_heading heading 0 lines

drop-take-append :
    (a b c : ℕ) (lines : List Bytes)
    → a ≤ b
    → b ≤ c
    → drop a (take b lines) ++ drop b (take c lines) ≡ drop a (take c lines)
drop-take-append zero zero c lines h k = refl
drop-take-append zero (suc b) zero lines h k = absurd (omega arith)
drop-take-append zero (suc b) (suc c) [] h k = refl
drop-take-append zero (suc b) (suc c) (l ∷ lines) h k =
    ap (◌∷◌ l) (drop-take-append zero b c lines (omega arith) (omega arith))
drop-take-append (suc a) zero c lines h k = absurd (omega arith)
drop-take-append (suc a) (suc b) zero lines h k = absurd (omega arith)
drop-take-append (suc a) (suc b) (suc c) [] h k = refl
drop-take-append (suc a) (suc b) (suc c) (l ∷ lines) h k =
    drop-take-append a b c lines (omega arith) (omega arith)

join-append :
    (c : ℕ) (xs ys : List Bytes)
    → xs ≢ []
    → ys ≢ []
    → join c (xs ++ ys) ≡ join c xs ++ c ∷ join c ys
unfolding join
join-append c [] ys h k = absurd (h refl)
join-append c (x ∷ []) [] h k = absurd (k refl)
join-append c (x ∷ []) (y ∷ ys) h k = refl
join-append c (x ∷ z ∷ xs) ys h k =
    ap (λ r. x ++ c ∷ r) (join-append c (z ∷ xs) ys (λ e. cc) k)
    ∙ sym (append_assoc x (c ∷ join c (z ∷ xs)) (c ∷ join c ys))

drop-take-ne-nil :
    (a b : ℕ) (lines : List Bytes) → a < b → a < length lines → drop a (take b lines) ≢ []
drop-take-ne-nil a b lines h k e =
    absurd (omega (arith, ap length e, length-drop a (take b lines), length-take b lines))

-- A range that begins in the note, with its text.
abbrev pub HasLines : ℕ → ℕ → List Bytes → Bytes → Type 0
HasLines start count lines text =
    (r : NoteLines) × (read_note_lines (pos start) (pos count) lines ≡ some r) × (r.content ≡ text)

lines_between-content :
    (start m : ℕ) (lines : List Bytes)
    → 1 ≤ start
    → 1 ≤ m
    → start ≤ length lines
    → start + m ≤ 9223372036854775808
    → HasLines start m lines (join b'\n' (drop (start - 1) (take (start + m - 1) lines)))
unfolding read_note_lines
lines_between-content start m lines hs hm h fits =
    elim (Bool-cases (ltb (length lines) (start + m - 1))) [
      | inl e ↦ (
        range start (length lines) lines,
        ground (arith, hs, hm, h, fits, e),
        ap (λ k. join b'\n' (drop (start - 1) k))
            (take_all (length lines) lines (omega arith)
              ∙ sym (take_all (start + m - 1) lines (ground (arith, e)))),
      )
      | inr e ↦ (range start (start + m - 1) lines, ground (arith, hs, hm, h, fits, e), refl)
    ]

-- Two ranges that follow each other hold the text of the range that covers both, with the newline
-- between them; the second one begins in the note, and its end is an int of 64 bits.
pub read_note_lines-append :
    (start m n : ℕ) (lines : List Bytes)
    → 1 ≤ start
    → 1 ≤ m
    → 1 ≤ n
    → start + m ≤ length lines
    → start + m + n ≤ 9223372036854775808
    → (first second : Bytes) × HasLines start m lines first
      × HasLines (start + m) n lines second
      × HasLines start (m + n) lines (first ++ b'\n' ∷ second)
read_note_lines-append start m n lines hs hm hn h fits =
    let first = drop (start - 1) (take (start + m - 1) lines) in
    let second = drop (start + m - 1) (take (start + m + n - 1) lines) in
    let whole =
      lines_between-content start (m + n) lines hs (omega arith) (omega arith) (omega arith) in
    (
      join b'\n' first,
      join b'\n' second,
      lines_between-content start m lines hs hm (omega arith) (omega arith),
      lines_between-content (start + m) n lines (omega arith) hn h fits,
      (
        whole.0,
        whole.1,
        whole.2
            ∙ ap (λ k. join b'\n' (drop (start - 1) (take k lines))) (omega arith)
            ∙ ap (join b'\n') (
                sym (
                  drop-take-append (start - 1) (start + m - 1) (start + m + n - 1) lines
                    (omega arith) (omega arith)))
            ∙ join-append b'\n' first second
                (drop-take-ne-nil (start - 1) (start + m - 1) lines (omega arith) (omega arith))
                (drop-take-ne-nil (start + m - 1) (start + m + n - 1) lines (omega arith)
                  (omega arith)),
      ),
    )
