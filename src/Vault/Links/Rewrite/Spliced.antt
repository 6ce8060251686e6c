-- ===== src/Vault/Links/Rewrite/Spliced.antt =====
-- internal/vault/linkrewrite.go, rewriteLine: what becomes of a line.
use obsidian_mcp_server.Prelude.{
  ℕ, zero, suc, ◌+◌, ◌-◌, ◌≡◌, refl, sym, ap, ◌∙◌, Bool, true, false, ◌&&◌, Option, none, some,
  List, [], ◌∷◌, ◌++◌, if◌then◌else◌, leb, length, take, drop, arith, append_assoc, length-append,
  take-length-append, drop-length-append,
}
use obsidian_mcp_server.Strings.{Bytes}
use obsidian_mcp_server.Vault.Links.{Wiki, wiki_at}
use obsidian_mcp_server.Vault.Links.Rewrite.{
  LinkRewrite, wiki_text, Occurrence, text_of, occurrences, unless_skipped, matches, splice_match,
  splice_into, splice_all, wiki_rest,
}
use obsidian_mcp_server.Vault.Links.Rewrite.Parts.{wiki_at_text}

-- The text of the occurrences and of what stands behind the last.
module _ {L : Type 0} where
  unfoldable pub whole : (Occurrence L → Bytes) → List (Occurrence L) → Bytes → Bytes
  whole text [] tail = tail
  whole text (o ∷ os) tail = o.before ++ text o ++ whole text os tail

  abbrev pub own_text : Occurrence L → Bytes
  own_text o = o.text

  module _ (f : Bytes → L → Option LinkRewrite) where
    abbrev pub text_or : Bytes → Option LinkRewrite → Bytes
    text_or text none = text
    text_or text (some r) = if r.ambiguous then text else r.new_text

    -- What is to stand in the place of an occurrence.
    abbrev pub new_text_of : Occurrence L → Bytes
    new_text_of o = text_or o.text (f o.text o.link)

    splice_middle :
        (i j : ℕ) (p t q : Bytes) (r : LinkRewrite)
        → i ≡ length p
        → j ≡ length p + length t
        → splice_match (record { start = i; stop = j; rewrite = r }) (p ++ (t ++ q))
          ≡ some (p ++ ((if r.ambiguous then t else r.new_text) ++ q))
    unfolding splice_match
    splice_middle i j p t q r hi hj = by_ambiguous r.ambiguous
      where
        end_of : drop j (p ++ (t ++ q)) ≡ q
        end_of =
            ap (λ n. drop n (p ++ (t ++ q))) (hj ∙ sym (length-append p t))
            ∙ ap (drop (length (p ++ t))) (sym (append_assoc p t q))
            ∙ drop-length-append (p ++ t) q

        inside : leb i (length (p ++ (t ++ q))) && leb j (length (p ++ (t ++ q))) ≡ true
        inside = ground (arith, hi, hj, length-append p (t ++ q), length-append t q)

        by_ambiguous :
            (b : Bool)
            → (if b
                then some (p ++ (t ++ q))
                else if leb i (length (p ++ (t ++ q))) && leb j (length (p ++ (t ++ q)))
                then some (take i (p ++ (t ++ q)) ++ r.new_text ++ drop j (p ++ (t ++ q)))
                else none)
              ≡ some (p ++ ((if b then t else r.new_text) ++ q))
        by_ambiguous true = refl
        by_ambiguous false =
            rw (inside, end_of, hi, take-length-append p (t ++ q))
              (ap some (append_assoc p r.new_text q))

    pub splice_all-matches :
        (pre : Bytes) (pos : ℕ) (os : List (Occurrence L)) (tail : Bytes)
        → pos ≡ length pre
        → splice_all (matches f pos os) (pre ++ whole own_text os tail)
          ≡ some (pre ++ whole new_text_of os tail)
    unfolding matches splice_all whole
    splice_all-matches pre pos [] tail h = refl
    splice_all-matches pre pos (o ∷ os) tail h = by_rewrite (f o.text o.link) (
        ap (splice_all (matches f (pos + length o.before + length o.text) os))
          (three pre o.before o.text (whole own_text os tail))
        ∙ splice_all-matches (pre ++ o.before ++ o.text) (pos + length o.before + length o.text) os
            tail
            (omega (arith, h, length-append (pre ++ o.before) o.text, length-append pre o.before)))
      where
        three : (a b c d : Bytes) → a ++ (b ++ c ++ d) ≡ (a ++ b ++ c) ++ d
        three a b c d = simp append_assoc refl

        four : (a b c d : Bytes) → (a ++ b ++ c) ++ d ≡ (a ++ b) ++ (c ++ d)
        four a b c d = simp append_assoc refl

        back : (a b c d : Bytes) → (a ++ b) ++ (c ++ d) ≡ a ++ (b ++ c ++ d)
        back a b c d = simp append_assoc refl

        by_rewrite :
            (x : Option LinkRewrite)
            → splice_all
                (matches f (pos + length o.before + length o.text) os)
                (pre ++ (o.before ++ o.text ++ whole own_text os tail))
              ≡ some ((pre ++ o.before ++ o.text) ++ whole new_text_of os tail)
            → splice_all
                (unless_skipped f
                  (pos + length o.before)
                  (pos + length o.before + length o.text)
                  x
                  (matches f (pos + length o.before + length o.text) os))
                (pre ++ (o.before ++ o.text ++ whole own_text os tail))
              ≡ some (pre ++ (o.before ++ text_or o.text x ++ whole new_text_of os tail))
        by_rewrite none later = later ∙ ap some (sym (three pre o.before o.text _))
        by_rewrite (some r) later =
            ap
              (splice_into (record {
                start = pos + length o.before;
                stop = pos + length o.before + length o.text;
                rewrite = r;
              }))
              (later ∙ ap some (four pre o.before o.text _))
            ∙ splice_middle (pos + length o.before) (pos + length o.before + length o.text)
                (pre ++ o.before) o.text _ r (omega (arith, h, length-append pre o.before))
                (omega (arith, h, length-append pre o.before))
            ∙ ap some (back pre o.before (if r.ambiguous then o.text else r.new_text) _)

-- A text that is a link and what stands behind it.
abbrev pub EndsIn : Bytes → Bytes → Type 0
EndsIn s rest = (text : Bytes) × (s ≡ text ++ rest)

take_front : (s rest : Bytes) → EndsIn s rest → take (length s - length rest) s ++ rest ≡ s
take_front s rest (text, e) =
    ap (λ t. t ++ rest)
      (ap (λ n. take n s) (omega (arith, length-append text rest, ap length e))
        ∙ ap (take (length text)) e
        ∙ take-length-append text rest)
    ∙ sym e

module _ {L : Type 0} (at : Bytes → Option L) (rest_of : L → Bytes)
    (ends : (s : Bytes) (l : L) → at s ≡ some l → EndsIn s (rest_of l)) where
  -- The occurrences are parts of the line.
  pub occurrences_whole :
      (fuel : ℕ) (before s : Bytes)
      → (tail : Bytes) × (whole own_text (occurrences at rest_of fuel before s) tail ≡ before ++ s)
  unfolding occurrences whole
  occurrences_whole zero before s = (before ++ s, refl)
  occurrences_whole (suc fuel) before [] = (before ++ [], refl)
  occurrences_whole (suc fuel) before (x ∷ xs) = by_link (at (x ∷ xs)) refl (occurrences_whole fuel)
    where
      by_link :
          (o : Option L)
          → at (x ∷ xs) ≡ o
          → ((before s : Bytes)
              → (tail : Bytes) × (whole own_text (occurrences at rest_of fuel before s) tail
                  ≡ before ++ s))
          → (tail : Bytes) × (whole own_text
                (elim o as (λ _. List (Occurrence L)) [
                  | some l ↦
                      record { before = before; text = text_of at rest_of (x ∷ xs) l; link = l }
                      ∷ occurrences at rest_of fuel [] (rest_of l)
                  | none ↦ occurrences at rest_of fuel (before ++ x ∷ []) xs
                ])
                tail
              ≡ before ++ (x ∷ xs))
      by_link none e later =
          let r = later (before ++ x ∷ []) xs in (r.0, r.1 ∙ append_assoc before (x ∷ []) xs)
      by_link (some l) e later =
          let r = later [] (rest_of l) in
          (
            r.0,
            ap (λ t. before ++ text_of at rest_of (x ∷ xs) l ++ t) r.1
                ∙ append_assoc before (text_of at rest_of (x ∷ xs) l) (rest_of l)
                ∙ ap (λ t. before ++ t) (take_front (x ∷ xs) (rest_of l) (ends (x ∷ xs) l e)),
          )

pub wiki_at-EndsIn : (s : Bytes) (w : Wiki) → wiki_at s ≡ some w → EndsIn s (wiki_rest w)
wiki_at-EndsIn s w h = (wiki_text w w.target, wiki_at_text s w h)

-- The wikilinks of a line.
abbrev pub wikilinks : Bytes → List (Occurrence Wiki)
wikilinks line = occurrences wiki_at wiki_rest (length line) [] line
