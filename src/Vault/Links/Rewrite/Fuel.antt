-- ===== src/Vault/Links/Rewrite/Fuel.antt =====
-- internal/vault/linkrewrite.go: the search for the wikilinks of a line comes to its end.
use obsidian_mcp_server.Prelude.{
  ℕ, zero, suc, ◌≤◌, ◌<◌, ◌≡◌, refl, ap, Option, none, some, List, [], ◌∷◌, ◌++◌, length, arith,
  length-append,
}
use obsidian_mcp_server.Strings.{Bytes, codes}
use obsidian_mcp_server.Vault.Links.{Wiki, wiki_at}
use obsidian_mcp_server.Vault.Links.Rewrite.{wiki_text, Occurrence, text_of, occurrences, wiki_rest}
use obsidian_mcp_server.Vault.Links.Rewrite.Parts.{wiki_at_text}

-- A wikilink takes at least its brackets.
wiki_rest_shorter : (s : Bytes) (w : Wiki) → wiki_at s ≡ some w → length (wiki_rest w) < length s
wiki_rest_shorter s w h = omega (
  arith,
  ap length (wiki_at_text s w h),
  length-append (wiki_text w w.target) w.rest,
  length-append (w.bang ++ codes "[[" ++ w.target ++ w.anchor ++ w.alias) (codes "]]"),
)

module _ {L : Type 0} (at : Bytes → Option L) (rest_of : L → Bytes)
    (shorter : (s : Bytes) (l : L) → at s ≡ some l → length (rest_of l) < length s) where
  enough :
      (fuel more : ℕ) (before s : Bytes)
      → length s ≤ fuel
      → length s ≤ more
      → occurrences at rest_of fuel before s ≡ occurrences at rest_of more before s
  unfolding occurrences
  enough zero zero before s h k = refl
  enough zero (suc more) before [] h k = refl
  enough zero (suc more) before (x ∷ xs) h k = absurd (omega (arith, h))
  enough (suc fuel) zero before [] h k = refl
  enough (suc fuel) zero before (x ∷ xs) h k = absurd (omega (arith, k))
  enough (suc fuel) (suc more) before [] h k = refl
  enough (suc fuel) (suc more) before (x ∷ xs) h k = by_link (at (x ∷ xs)) refl (enough fuel more)
    where
      by_link :
          (o : Option L)
          → at (x ∷ xs) ≡ o
          → ((before s : Bytes)
              → length s ≤ fuel
              → length s ≤ more
              → occurrences at rest_of fuel before s ≡ occurrences at rest_of more before s)
          → ◌≡◌ {A = List (Occurrence L)}
              (elim o as (λ _. List (Occurrence L)) [
                | some l ↦
                    record { before = before; text = text_of at rest_of (x ∷ xs) l; link = l }
                    ∷ occurrences at rest_of fuel [] (rest_of l)
                | none ↦ occurrences at rest_of fuel (before ++ x ∷ []) xs
              ])
              (elim o as (λ _. List (Occurrence L)) [
                | some l ↦
                    record { before = before; text = text_of at rest_of (x ∷ xs) l; link = l }
                    ∷ occurrences at rest_of more [] (rest_of l)
                | none ↦ occurrences at rest_of more (before ++ x ∷ []) xs
              ])
      by_link none e later = later (before ++ x ∷ []) xs (omega (arith, h)) (omega (arith, k))
      by_link (some l) e later =
          ap (λ os. record { before = before; text = text_of at rest_of (x ∷ xs) l; link = l } ∷ os)
            (later [] (rest_of l) (omega (arith, h, shorter (x ∷ xs) l e))
              (omega (arith, k, shorter (x ∷ xs) l e)))

-- The length of the line is fuel enough to find every wikilink of it: with more, no other is found.
pub occurrences_enough :
    (fuel : ℕ) (line : Bytes)
    → length line ≤ fuel
    → occurrences wiki_at wiki_rest fuel [] line
      ≡ occurrences wiki_at wiki_rest (length line) [] line
occurrences_enough fuel line h =
    enough wiki_at wiki_rest wiki_rest_shorter fuel (length line) [] line h (omega arith)
