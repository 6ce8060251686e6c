-- ===== src/Vault/Frontmatter/Spec.antt =====
-- SplitFrontmatter against a description of the notes that have frontmatter.
use obsidian_mcp_server.Prelude.{
  ℕ, zero, suc, ◌≤◌, ◌<◌, ◌≡◌, ◌↔◌, inl, inr, refl, ap, sym, ◌∙◌, true, false, Option, none, some,
  List, [], ◌∷◌, ◌++◌, length, drop, arith, All, Bool-cases, append_assoc, append-nil,
  length-append,
}
use obsidian_mcp_server.Strings.{
  Bytes, eq_bytes_refl, eq_bytes_ne, has_prefix-drop, has_prefix, contains_byte,
}
use obsidian_mcp_server.Strings.Split.{Lacks}
use obsidian_mcp_server.Vault.Frontmatter.{
  opening, dashes, next_line, or_empty, scan_close, whole_or, split_frontmatter,
}
use obsidian_mcp_server.Vault.Frontmatter.Scan.{
  unlines, IsInner, Closes, next_line-some, next_line-none, scan_close_lem, scan_close-Found,
}

dashes-Lacks : Lacks b'\n' dashes
unfolding contains_byte
dashes-Lacks = refl

-- The closing line, read with what stands behind it.
closing_line :
    (tail body : Bytes)
    → Closes tail body
    → (o : Option Bytes) × (next_line (dashes ++ tail) ≡ (dashes, o)) × (or_empty o ≡ body)
unfolding or_empty
closing_line tail body (inl e) =
    (some body, ap (λ t. next_line (dashes ++ t)) e ∙ next_line-some dashes body dashes-Lacks, refl)
closing_line tail body (inr (e, b)) =
    (none, ap (λ t. next_line (dashes ++ t)) e ∙ next_line-none dashes dashes-Lacks, sym b)

scan_close_done :
    (fuel : ℕ) (raw tail body : Bytes)
    → Closes tail body
    → scan_close (suc fuel) raw (dashes ++ tail) ≡ some (raw, body)
scan_close_done fuel raw tail body c =
    let (o, n, b) = closing_line tail body c in
    scan_close_lem fuel raw b'-' (b'-' ∷ b'-' ∷ tail)
    ∙ rw n (rw (eq_bytes_refl dashes) (ap (λ x. some (raw, x)) b))

scan_close_inner :
    (fuel : ℕ) (raw line rest : Bytes)
    → IsInner line
    → scan_close (suc fuel) raw (line ++ b'\n' ∷ rest)
      ≡ scan_close fuel (raw ++ (line ++ b'\n' ∷ [])) rest
scan_close_inner fuel raw [] rest i =
    scan_close_lem fuel raw b'\n' rest
    ∙ rw (next_line-some [] rest i.0) (rw (eq_bytes_ne [] dashes i.1) refl)
scan_close_inner fuel raw (x ∷ l) rest i =
    scan_close_lem fuel raw x (l ++ b'\n' ∷ rest)
    ∙ rw (next_line-some (x ∷ l) rest i.0) (rw (eq_bytes_ne (x ∷ l) dashes i.1) refl)

scan_close_complete :
    (ls : List Bytes) (fuel : ℕ) (raw tail body : Bytes)
    → All IsInner ls
    → Closes tail body
    → length ls < fuel
    → scan_close fuel raw (unlines ls ++ (dashes ++ tail)) ≡ some (raw ++ unlines ls, body)
scan_close_complete ls zero raw tail body h c f = absurd (omega arith)
scan_close_complete [] (suc fuel) raw tail body h c f =
    scan_close_done fuel raw tail body c ∙ ap (λ x. some (x, body)) (sym (append-nil raw))
scan_close_complete (l ∷ ls) (suc fuel) raw tail body h c f =
    ap (scan_close (suc fuel) raw) (append_assoc l (b'\n' ∷ unlines ls) (dashes ++ tail))
    ∙ scan_close_inner fuel raw l (unlines ls ++ (dashes ++ tail)) h.0
    ∙ scan_close_complete ls fuel (raw ++ (l ++ b'\n' ∷ [])) tail body h.1 c (omega arith)
    ∙ ap (λ x. some (x, body)) (simp append_assoc)

length-unlines : (ls : List Bytes) → length ls ≤ length (unlines ls)
length-unlines [] = omega arith
length-unlines (l ∷ ls) = omega (arith, length-append l (b'\n' ∷ unlines ls), length-unlines ls)

whole_or-true :
    (content raw body : Bytes) (o : Option (Bytes × Bytes))
    → whole_or content o ≡ (raw, body, true)
    → o ≡ some (raw, body)
whole_or-true content raw body none h = cc
whole_or-true content raw body (some (r, b)) h = ground arith

split_frontmatter_scan :
    (content raw body : Bytes)
    → split_frontmatter content ≡ (raw, body, true)
    → (has_prefix content opening ≡ true)
      × (scan_close (length (drop 4 content)) [] (drop 4 content) ≡ some (raw, body))
unfolding split_frontmatter
split_frontmatter_scan content raw body h = elim (Bool-cases (has_prefix content opening)) [
  | inl starts ↦ (starts, whole_or-true content raw body _ (rw starts at h))
  | inr other ↦ cc (rw other at h)
]

split_frontmatter_complete :
    (ls : List Bytes) (tail body : Bytes)
    → All IsInner ls
    → Closes tail body
    → split_frontmatter (opening ++ (unlines ls ++ (dashes ++ tail))) ≡ (unlines ls, body, true)
unfolding split_frontmatter
split_frontmatter_complete ls tail body i c =
    ap (whole_or (opening ++ (unlines ls ++ (dashes ++ tail)))) (
      scan_close_complete ls (length (unlines ls ++ (dashes ++ tail))) [] tail body i c
        (omega (arith, length-append (unlines ls) (dashes ++ tail), length-unlines ls)))

-- A note has frontmatter `raw` and the body `body` exactly if it is the opening line, lines that are
-- not the closing line and together are `raw`, and the closing line, at the end of the note with an
-- empty body or with a newline and the body behind it.
pub split_frontmatter_iff :
    (content raw body : Bytes)
    → (split_frontmatter content ≡ (raw, body, true)) ↔ (
        (ls : List Bytes) × (tail : Bytes) × All IsInner ls
        × (raw ≡ unlines ls)
        × Closes tail body
        × (content ≡ opening ++ (unlines ls ++ (dashes ++ tail))))
split_frontmatter_iff content raw body = (
  λ h.
      let (starts, scan) = split_frontmatter_scan content raw body h in
      let f = scan_close-Found (length (drop 4 content)) [] (drop 4 content) raw body scan in
      (
        f.lines,
        f.tail,
        f.inner,
        f.raw_is,
        f.closes,
        has_prefix-drop content opening starts ∙ ap (λ s. opening ++ s) f.rest_is,
      ),
  λ (ls, tail, i, r, c, e).
      ap split_frontmatter e
      ∙ split_frontmatter_complete ls tail body i c
      ∙ ap (λ x. (x, body, true)) (sym r),
)

-- Without both delimiters the body is the whole note and the raw text is empty.
pub split_frontmatter_none :
    (content : Bytes)
    → (split_frontmatter content).2 ≡ false
    → split_frontmatter content ≡ ([], content, false)
unfolding split_frontmatter
split_frontmatter_none content h = elim (Bool-cases (has_prefix content opening)) [
  | inl starts ↦ rw starts (whole_or_false content _ (rw starts at h))
  | inr other ↦ rw other refl
]
  where
    whole_or_false :
        (content : Bytes) (o : Option (Bytes × Bytes))
        → (whole_or content o).2 ≡ false
        → whole_or content o ≡ ([], content, false)
    whole_or_false content none h = refl
    whole_or_false content (some rb) h = cc
