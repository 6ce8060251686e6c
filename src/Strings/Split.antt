-- ===== src/Strings/Split.antt =====
-- `strings.Split` and `strings.Join` undo one another.
use obsidian_mcp_server.Prelude.{
  ℕ, ◌≡◌, ◌≢◌, refl, ap, ◌∙◌, sym, false, ◌||◌, List, [], ◌∷◌, ◌++◌, ◌==◌, if◌then◌else◌, arith,
  append_assoc, Bool-cases, inl, inr, All, ==_iff,
}
use mathlib.Core.List.{reverse, reverse-append}
use obsidian_mcp_server.Strings.{Bytes, contains_byte, cons_head, split, join}

abbrev pub Lacks : ℕ → Bytes → Type 0
Lacks c l = contains_byte c l ≡ false

pub contains_byte-append :
    (c : ℕ) (s t : Bytes) → contains_byte c (s ++ t) ≡ (contains_byte c s || contains_byte c t)
unfolding contains_byte
contains_byte-append c [] t = refl
contains_byte-append c (x ∷ s) t = ground (arith, contains_byte-append c s t)

contains_byte_last :
    (c x : ℕ) (s t : Bytes)
    → contains_byte c s ≡ contains_byte c t
    → (contains_byte c s || contains_byte c (x ∷ [])) ≡ contains_byte c (x ∷ t)
unfolding contains_byte
contains_byte_last c x s t e = ground arith

pub contains_byte-reverse : (c : ℕ) (s : Bytes) → contains_byte c (reverse s) ≡ contains_byte c s
contains_byte-reverse c [] = refl
contains_byte-reverse c (x ∷ s) = rw (reverse-append (x ∷ []) s) (
    contains_byte-append c (reverse s) (x ∷ [])
    ∙ contains_byte_last c x (reverse s) s (contains_byte-reverse c s))

pub split-ne-nil : (c : ℕ) (s : Bytes) → split c s ≢ []
unfolding split
split-ne-nil c [] h = cc
split-ne-nil c (x ∷ xs) h = ground (arith, split-ne-nil c xs)

join-cons_head : (c x : ℕ) (ls : List Bytes) → join c (cons_head x ls) ≡ x ∷ join c ls
unfolding join
join-cons_head c x [] = refl
join-cons_head c x (l ∷ []) = refl
join-cons_head c x (l ∷ m ∷ ls) = refl

join_nil_cons : (c : ℕ) (ls : List Bytes) → ls ≢ [] → join c ([] ∷ ls) ≡ c ∷ join c ls
unfolding join
join_nil_cons c [] h = absurd (h refl)
join_nil_cons c (l ∷ ls) h = refl

-- Joining the parts of a split gives the text back.
pub join-split : (c : ℕ) (s : Bytes) → join c (split c s) ≡ s
unfolding split
join-split c [] = unfold join in refl
join-split c (x ∷ xs) = elim (Bool-cases (x == c)) [
  | inl same ↦ rw same (
      join_nil_cons c (split c xs) (split-ne-nil c xs)
      ∙ ap (λ r. c ∷ r) (join-split c xs)
      ∙ ap (λ y. y ∷ xs) (sym ((==_iff x c).0 same)))
  | inr other ↦ rw other (join-cons_head c x (split c xs) ∙ ap (◌∷◌ x) (join-split c xs))
]

pub split-line : (c : ℕ) (l : Bytes) → Lacks c l → split c l ≡ l ∷ []
unfolding split contains_byte
split-line c [] h = refl
split-line c (x ∷ l) h = ground (arith, split-line c l)

pub split_line_cons :
    (c : ℕ) (l rest : Bytes) → Lacks c l → split c (l ++ c ∷ rest) ≡ l ∷ split c rest
unfolding split contains_byte
split_line_cons c [] rest h = ground arith
split_line_cons c (x ∷ l) rest h = ground (arith, split_line_cons c l rest)

-- Splitting joined parts gives the parts back, where no part holds the separator.
pub split-join : (c : ℕ) (ls : List Bytes) → ls ≢ [] → All (Lacks c) ls → split c (join c ls) ≡ ls
unfolding join
split-join c [] h a = absurd (h refl)
split-join c (l ∷ []) h a = split-line c l a.0
split-join c (l ∷ m ∷ ls) h a =
    split_line_cons c l (join c (m ∷ ls)) a.0 ∙ ap (◌∷◌ l) (split-join c (m ∷ ls) (λ e. cc) a.1)

-- No part of a split holds the separator.
pub split-Lacks : (c : ℕ) (s : Bytes) → All (Lacks c) (split c s)
unfolding split contains_byte
split-Lacks c [] = (refl, tt)
split-Lacks c (x ∷ xs) = split_cons_Lacks c x (split c xs) (split-Lacks c xs)
  where
    split_cons_Lacks :
        (c x : ℕ) (ls : List Bytes)
        → All (Lacks c) ls
        → All (Lacks c) (if x == c then [] ∷ ls else cons_head x ls)
    split_cons_Lacks c x [] h = ground arith
    split_cons_Lacks c x (l ∷ ls) h = ground arith

-- Joined parts in front of a separator are split off again.
pub split-join-append :
    (c : ℕ) (ls : List Bytes) (t : Bytes)
    → ls ≢ []
    → All (Lacks c) ls
    → split c (join c ls ++ c ∷ t) ≡ ls ++ split c t
unfolding join
split-join-append c [] t h a = absurd (h refl)
split-join-append c (l ∷ []) t h a = split_line_cons c l t a.0
split-join-append c (l ∷ m ∷ ls) t h a =
    ap (split c) (append_assoc l (c ∷ join c (m ∷ ls)) (c ∷ t))
    ∙ split_line_cons c l (join c (m ∷ ls) ++ c ∷ t) a.0
    ∙ ap (◌∷◌ l) (split-join-append c (m ∷ ls) t (λ e. cc) a.1)
