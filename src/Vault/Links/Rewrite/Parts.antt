-- ===== src/Vault/Links/Rewrite/Parts.antt =====
-- internal/vault/linkrewrite.go: a wikilink and the parts that its expression takes it apart into.
use obsidian_mcp_server.Prelude.{
  ℕ, ◌≡◌, inl, inr, refl, sym, ap, ◌∙◌, subst, Bool, true, false, not, ◌&&◌, none, some, [], ◌∷◌,
  ◌++◌, ◌==◌, if◌then◌else◌, drop, arith, Bool-cases, append_assoc,
}
use obsidian_mcp_server.Strings.{Bytes, codes, eq_bytes, has_prefix, has_prefix-drop}
use obsidian_mcp_server.Vault.Links.{
  span, part, in_target, in_anchor, in_bracket, Wiki, closed_wiki, wiki_body, opened_wiki, wiki_at,
}
use obsidian_mcp_server.Vault.Links.Rewrite.{wiki_text}

span_lem : (test : ℕ → Bool) (s : Bytes) → (span test s).0 ++ (span test s).1 ≡ s
unfolding span
span_lem test [] = refl
span_lem test (x ∷ xs) = elim (Bool-cases (test x)) [
  | inl e ↦ rw e (ap (◌∷◌ x) (span_lem test xs))
  | inr e ↦ rw e refl
]

part_lem :
    (mark : ℕ) (test : ℕ → Bool) (s : Bytes) → (part mark test s).0 ++ (part mark test s).1 ≡ s
part_lem mark test [] = refl
part_lem mark test (x ∷ xs) = elim (Bool-cases (x == mark)) [
  | inl e ↦ rw e (span_lem test (x ∷ xs))
  | inr e ↦ rw e refl
]

some_injective : {A : Type 0} {a b : A} → some a ≡ some b → a ≡ b
some_injective h = cc

regroup : (b t a l r : Bytes) → b ++ (t ++ (a ++ (l ++ r))) ≡ (((b ++ t) ++ a) ++ l) ++ r
regroup b t a l r = simp append_assoc refl

closed_wiki_lem :
    (bang t a l s : Bytes) (w : Wiki)
    → closed_wiki bang t a l s ≡ some w
    → bang ++ codes "[[" ++ t ++ a ++ l ++ s ≡ wiki_text w w.target ++ w.rest
closed_wiki_lem bang t a l s w = by_test (not (eq_bytes t []) && has_prefix s (codes "]]")) refl
  where
    by_test :
        (b : Bool)
        → not (eq_bytes t []) && has_prefix s (codes "]]") ≡ b
        → (if b
            then some (record { bang = bang; target = t; anchor = a; alias = l; rest = drop 2 s })
            else none)
          ≡ some w
        → bang ++ codes "[[" ++ t ++ a ++ l ++ s ≡ wiki_text w w.target ++ w.rest
    by_test true e h =
        subst (λ w. bang ++ codes "[[" ++ t ++ a ++ l ++ s ≡ wiki_text w w.target ++ w.rest)
          (some_injective h)
          (ap (λ r. bang ++ codes "[[" ++ t ++ a ++ l ++ r)
              (has_prefix-drop s (codes "]]") (ground (arith, e)))
            ∙ sym (append_assoc (bang ++ codes "[[" ++ t ++ a ++ l) (codes "]]") (drop 2 s)))
    by_test false e h = cc

wiki_body_lem :
    (bang s : Bytes) (w : Wiki)
    → wiki_body bang s ≡ some w
    → bang ++ codes "[[" ++ s ≡ wiki_text w w.target ++ w.rest
unfolding wiki_body
wiki_body_lem bang s w h =
    let t = span in_target s in
    let a = part b'#' in_anchor t.1 in
    let l = part b'|' in_bracket a.1 in
    ap (λ r. bang ++ codes "[[" ++ r)
      (sym (
        ap (λ r. t.0 ++ r)
          (ap (λ r. a.0 ++ r) (part_lem b'|' in_bracket a.1) ∙ part_lem b'#' in_anchor t.1)
        ∙ span_lem in_target s))
    ∙ regroup (bang ++ codes "[[") t.0 a.0 l.0 l.1
    ∙ closed_wiki_lem bang t.0 a.0 l.0 l.1 w h

opened_wiki_lem :
    (bang s : Bytes) (w : Wiki)
    → opened_wiki bang s ≡ some w
    → bang ++ s ≡ wiki_text w w.target ++ w.rest
opened_wiki_lem bang s w = by_prefix (has_prefix s (codes "[[")) refl
  where
    by_prefix :
        (b : Bool)
        → has_prefix s (codes "[[") ≡ b
        → (if b then wiki_body bang (drop 2 s) else none) ≡ some w
        → bang ++ s ≡ wiki_text w w.target ++ w.rest
    by_prefix true e h =
        ap (λ r. bang ++ r) (has_prefix-drop s (codes "[[") e)
        ∙ sym (append_assoc bang (codes "[[") (drop 2 s))
        ∙ wiki_body_lem bang (drop 2 s) w h
    by_prefix false e h = cc

-- A text that begins with a wikilink is what its parts make together, and what stands behind it.
pub wiki_at_text : (s : Bytes) (w : Wiki) → wiki_at s ≡ some w → s ≡ wiki_text w w.target ++ w.rest
unfolding wiki_at
wiki_at_text [] w h = cc
wiki_at_text (x ∷ xs) w h = by_bang (x == b'!') h
  where
    by_bang :
        (b : Bool)
        → (if b then opened_wiki (x ∷ []) xs else opened_wiki [] (x ∷ xs)) ≡ some w
        → x ∷ xs ≡ wiki_text w w.target ++ w.rest
    by_bang true h = opened_wiki_lem (x ∷ []) xs w h
    by_bang false h = opened_wiki_lem [] (x ∷ xs) w h
