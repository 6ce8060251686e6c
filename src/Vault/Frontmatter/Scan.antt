-- ===== src/Vault/Frontmatter/Scan.antt =====
-- The lines of a note, and what the loop of SplitFrontmatter finds in them.
use obsidian_mcp_server.Prelude.{
  ℕ, zero, suc, ◌≡◌, ◌≢◌, ◌⊎◌, inl, inr, refl, ap, sym, ◌∙◌, false, Option, none, some, List, [],
  ◌∷◌, ◌++◌, ◌==◌, if◌then◌else◌, arith, All, Bool-cases, ==_iff, subst, append_assoc, append-nil,
}
use mathlib.Core.Bool.{false≢true}
use obsidian_mcp_server.Strings.{Bytes, codes, eq_bytes, eq_bytes_iff, contains_byte}
use obsidian_mcp_server.Strings.Split.{Lacks}
use obsidian_mcp_server.Vault.Frontmatter.{dashes, line_cons, next_line, or_empty, scan_close}

-- Lines, each with its newline.
abbrev pub unlines : List Bytes → Bytes
unlines [] = []
unlines (l ∷ ls) = l ++ b'\n' ∷ unlines ls

-- A line of the frontmatter: no newline in it, and not the closing line.
abbrev pub IsInner : Bytes → Type 0
IsInner l = Lacks b'\n' l × (l ≢ codes "---")

-- What stands behind the closing dashes: a newline and the body, or the end of the note.
abbrev pub Closes : Bytes → Bytes → Type 0
Closes tail body = (tail ≡ b'\n' ∷ body) ⊎ ((tail ≡ []) × (body ≡ []))

pub next_line-some :
    (l rest : Bytes) → Lacks b'\n' l → next_line (l ++ b'\n' ∷ rest) ≡ (l, some rest)
unfolding next_line contains_byte
next_line-some [] rest h = refl
next_line-some (x ∷ l) rest h = ground (arith, next_line-some l rest)

pub next_line-none : (l : Bytes) → Lacks b'\n' l → next_line l ≡ (l, none)
unfolding next_line contains_byte
next_line-none [] h = refl
next_line-none (x ∷ l) h = ground (arith, next_line-none l)

-- The text that a line and what is behind it come from.
abbrev Restores : Bytes → Bytes → Option Bytes → Type 0
Restores s line none = s ≡ line
Restores s line (some rest) = s ≡ line ++ b'\n' ∷ rest

Restores-cons :
    (x : ℕ) (xs line : Bytes) (o : Option Bytes)
    → (x == b'\n') ≡ false
    → Restores xs line o × Lacks b'\n' line
    → Restores (x ∷ xs) (line_cons x (line, o)).0 (line_cons x (line, o)).1 × Lacks b'\n' (x ∷ line)
unfolding contains_byte
Restores-cons x xs line none n (r, l) = (ap (◌∷◌ x) r, rw n l)
Restores-cons x xs line (some rest) n (r, l) = (ap (◌∷◌ x) r, rw n l)

next_line-Restores :
    (s : Bytes) → Restores s (next_line s).0 (next_line s).1 × Lacks b'\n' (next_line s).0
unfolding next_line
next_line-Restores [] = (refl, unfold contains_byte in refl)
next_line-Restores (x ∷ xs) = elim (Bool-cases (x == b'\n')) [
  | inl e ↦ rw e (ap (λ y. y ∷ xs) ((==_iff x b'\n').0 e), unfold contains_byte in refl)
  | inr n ↦ rw n (Restores-cons x xs (next_line xs).0 (next_line xs).1 n (next_line-Restores xs))
]

-- A closing line found in `rest`, behind the lines `raw`.
pub record Found (raw rest r body : Bytes) : Type 0 where
  pub lines : List Bytes
  pub tail : Bytes
  pub inner : All IsInner lines
  pub raw_is : r ≡ raw ++ unlines lines
  pub rest_is : rest ≡ unlines lines ++ (dashes ++ tail)
  pub closes : Closes tail body

Found-here :
    (raw rest line body : Bytes) (o : Option Bytes)
    → Restores rest line o
    → line ≡ dashes
    → or_empty o ≡ body
    → Found raw rest raw body
unfolding or_empty
Found-here raw rest line body none e d b = record {
  lines = [];
  tail = [];
  inner = tt;
  raw_is = sym (append-nil raw);
  rest_is = e ∙ d;
  closes = inr (refl, sym b);
}
Found-here raw rest line body (some behind) e d b = record {
  lines = [];
  tail = b'\n' ∷ behind;
  inner = tt;
  raw_is = sym (append-nil raw);
  rest_is = e ∙ ap (λ l. l ++ b'\n' ∷ behind) d;
  closes = inl (ap (◌∷◌ b'\n') b);
}

Found-later :
    (raw rest line behind r body : Bytes)
    → rest ≡ line ++ b'\n' ∷ behind
    → IsInner line
    → Found (raw ++ (line ++ b'\n' ∷ [])) behind r body
    → Found raw rest r body
Found-later raw rest line behind r body e i f = record {
  lines = line ∷ f.lines;
  tail = f.tail;
  inner = (i, f.inner);
  raw_is = f.raw_is ∙ simp append_assoc;
  rest_is = e ∙ ap (λ s. line ++ b'\n' ∷ s) f.rest_is ∙ simp append_assoc;
  closes = f.closes;
}

pair_injective :
    (a b c d : Bytes)
    → ◌≡◌ {A = Option (Bytes × Bytes)} (some (a, c)) (some (b, d))
    → (a ≡ b) × (c ≡ d)
pair_injective a b c d p = (ground arith, ground arith)

-- The search behind a line that does not close the frontmatter.
abbrev scan_behind : ℕ → Bytes → Option Bytes → Option (Bytes × Bytes)
scan_behind fuel raw none = none
scan_behind fuel raw (some behind) = scan_close fuel raw behind

Found-step :
    (fuel : ℕ) (raw rest line r body : Bytes) (o : Option Bytes)
    → Restores rest line o
    → Lacks b'\n' line
    → ((raw' rest' : Bytes) → scan_close fuel raw' rest' ≡ some (r, body) → Found raw' rest' r body)
    → (if eq_bytes line dashes
        then some (raw, or_empty o)
        else scan_behind fuel (raw ++ (line ++ b'\n' ∷ [])) o)
      ≡ some (r, body)
    → Found raw rest r body
Found-step fuel raw rest line r body o e l ih h = elim (Bool-cases (eq_bytes line dashes)) [
  | inl closing ↦
      let p = pair_injective raw r (or_empty o) body (rw closing at h) in
      subst (λ x. Found raw rest x body) p.0
        (Found-here raw rest line body o e ((eq_bytes_iff line dashes).0 closing) p.1)
  | inr other ↦
      behind o e (rw other at h) (λ d. false≢true (sym other ∙ (eq_bytes_iff line dashes).1 d))
]
  where
    behind :
        (o : Option Bytes)
        → Restores rest line o
        → scan_behind fuel (raw ++ (line ++ b'\n' ∷ [])) o ≡ some (r, body)
        → line ≢ dashes
        → Found raw rest r body
    behind none e h n = cc
    behind (some s) e h n =
        Found-later raw rest line s r body e (l, n) (ih (raw ++ (line ++ b'\n' ∷ [])) s h)

pub scan_close_lem :
    (fuel : ℕ) (raw : Bytes) (x : ℕ) (xs : Bytes)
    → scan_close (suc fuel) raw (x ∷ xs) ≡ (
        if eq_bytes (next_line (x ∷ xs)).0 dashes
        then some (raw, or_empty (next_line (x ∷ xs)).1)
        else scan_behind fuel
            (raw ++ ((next_line (x ∷ xs)).0 ++ b'\n' ∷ []))
            (next_line (x ∷ xs)).1)
unfolding scan_close
scan_close_lem fuel raw x xs = ground arith

pub scan_close-Found :
    (fuel : ℕ) (raw rest r body : Bytes)
    → scan_close fuel raw rest ≡ some (r, body)
    → Found raw rest r body
scan_close-Found zero raw rest r body h = unfold scan_close in cc h
scan_close-Found (suc fuel) raw [] r body h = unfold scan_close in cc h
scan_close-Found (suc fuel) raw (x ∷ xs) r body h =
    let line = next_line-Restores (x ∷ xs) in
    Found-step fuel raw (x ∷ xs) (next_line (x ∷ xs)).0 r body (next_line (x ∷ xs)).1 line.0 line.1
      (λ raw' rest'. scan_close-Found fuel raw' rest' r body)
      (sym (scan_close_lem fuel raw x xs) ∙ h)
