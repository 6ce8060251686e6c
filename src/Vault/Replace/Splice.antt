-- ===== src/Vault/Replace/Splice.antt =====
-- internal/vault/replace.go, ReplaceInNote: the new text, read off the text between the matches.
use obsidian_mcp_server.Prelude.{
  ℕ, zero, suc, ◌+◌, ◌-◌, ◌≡◌, refl, sym, ap, ◌∙◌, List, [], ◌∷◌, ◌++◌, append_assoc, length, take,
  drop, length-append, take-length-append, drop-length-append, arith,
}
use obsidian_mcp_server.Strings.{Bytes}
use obsidian_mcp_server.Vault.Replace.{slice, splice}

-- A text as pieces, each the text before a match and the match, and the text behind the last.
unfoldable pub whole : List (Bytes × Bytes) → Bytes → Bytes
whole [] behind = behind
whole (p ∷ ps) behind = p.0 ++ (p.1 ++ whole ps behind)

-- The ranges of the matches, from the index `n` on.
unfoldable pub spans : ℕ → List (Bytes × Bytes) → List (ℕ × ℕ)
spans n [] = []
spans n (p ∷ ps) =
    (n + length p.0, n + length p.0 + length p.1) ∷ spans (n + length p.0 + length p.1) ps

-- The first `limit` matches changed.
unfoldable pub changed : (Bytes → Bytes) → ℕ → List (Bytes × Bytes) → Bytes → Bytes
unfolding whole
changed f zero ps behind = whole ps behind
changed f (suc limit) [] behind = behind
changed f (suc limit) (p ∷ ps) behind = p.0 ++ (f p.1 ++ changed f limit ps behind)

drop-append : (n : ℕ) (xs ys : Bytes) → n ≡ length xs → drop n (xs ++ ys) ≡ ys
drop-append n xs ys h = ap (λ k. drop k (xs ++ ys)) h ∙ drop-length-append xs ys

slice_between :
    (content xs ys zs : Bytes) (a b : ℕ)
    → content ≡ xs ++ (ys ++ zs)
    → a ≡ length xs
    → b ≡ a + length ys
    → slice content a b ≡ ys
slice_between content xs ys zs a b e ha hb =
    ap (λ c. slice c a b) e
    ∙ (ap (take (b - a)) (drop-append a xs (ys ++ zs) ha)
        ∙ (ap (λ k. take k (ys ++ zs)) (omega (arith, hb)) ∙ take-length-append ys zs))

splice_from :
    (f : Bytes → Bytes) (limit : ℕ) (content before : Bytes) (n : ℕ) (ps : List (Bytes × Bytes))
    (behind : Bytes)
    → content ≡ before ++ whole ps behind
    → n ≡ length before
    → splice f content limit n (spans n ps) ≡ changed f limit ps behind
unfolding splice whole spans changed
splice_from f zero content before n ps behind e h =
    ap (drop n) e ∙ drop-append n before (whole ps behind) h
splice_from f (suc limit) content before n [] behind e h =
    ap (drop n) e ∙ drop-append n before behind h
splice_from f (suc limit) content before n (p ∷ ps) behind e h =
    let rest = whole ps behind in
    let e' = e ∙ sym (append_assoc before p.0 (p.1 ++ rest)) in
    let gap = slice_between content before p.0 (p.1 ++ rest) n (n + length p.0) e h refl in
    let found =
      slice_between content (before ++ p.0) p.1 rest (n + length p.0) (n + length p.0 + length p.1)
        e' (omega (arith, h, length-append before p.0)) refl in
    let later =
      splice_from f limit content ((before ++ p.0) ++ p.1) (n + length p.0 + length p.1) ps behind
        (e' ∙ sym (append_assoc (before ++ p.0) p.1 rest))
        (omega (arith, h, length-append before p.0, length-append (before ++ p.0) p.1)) in
    cc (gap, found, later)

-- Where the matches are what stands between other texts, the new text has the first `limit` of them
-- changed and everything else as it was, in order.
pub splice-spans :
    (f : Bytes → Bytes) (limit : ℕ) (ps : List (Bytes × Bytes)) (behind : Bytes)
    → splice f (whole ps behind) limit 0 (spans 0 ps) ≡ changed f limit ps behind
splice-spans f limit ps behind = splice_from f limit (whole ps behind) [] 0 ps behind refl refl
