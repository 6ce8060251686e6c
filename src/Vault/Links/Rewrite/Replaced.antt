-- ===== src/Vault/Links/Rewrite/Replaced.antt =====
-- internal/vault/linkrewrite.go, rewriteLine: what stands in the place of the wikilinks of a line.
use mathlib.Core.Bool.{false≢true}
use obsidian_mcp_server.Prelude.{
  ◌<◌, ◌≡◌, ◌≢◌, ◌↔◌, inl, inr, refl, sym, ap, ◌∙◌, true, false, some, List, [], ◌++◌, length,
  arith, append-nil, Bool-cases,
}
use obsidian_mcp_server.Strings.{Bytes, contains_byte, eq_bytes_iff, eq_bytes_ne}
use obsidian_mcp_server.Vault.FilePath.{ext, base}
use obsidian_mcp_server.Vault.PathFilter.{stem}
use obsidian_mcp_server.Vault.Links.{Wiki, wiki_at, is_match, no_ext}
use obsidian_mcp_server.Vault.Links.Backlinks.{RefersTo, is_match_iff}
use obsidian_mcp_server.Vault.Links.Rewrite.{
  Index, paths_of, wiki_text, Occurrence, is_ambiguous, rewrite_target, splice_all, rewrites_of,
  wiki_rest, rewrite_wiki, wiki_matches, md_matches, with_rewrites, rewrite_line,
}
use obsidian_mcp_server.Vault.Links.Rewrite.Spliced.{
  whole, own_text, new_text_of, splice_all-matches, occurrences_whole, wiki_at-EndsIn, wikilinks,
}

-- A target that is a name alone, which the index lists for several notes.
abbrev pub IsShared : Index → Bytes → Type 0
IsShared index target =
    (contains_byte b'/' target ≡ false) × (1 < length (paths_of (index (no_ext target))))

-- The target for the new path in the style of the old one: a path or a name, with an extension or not.
abbrev pub IsNewTarget : Bytes → Bytes → Bytes → Type 0
IsNewTarget new_path old t =
    (contains_byte b'/' old ≡ true → ext old ≢ [] → t ≡ new_path)
    × (contains_byte b'/' old ≡ true → ext old ≡ [] → t ≡ no_ext new_path)
    × (contains_byte b'/' old ≡ false → ext old ≢ [] → t ≡ base new_path)
    × (contains_byte b'/' old ≡ false → ext old ≡ [] → t ≡ stem new_path)

rewrite_target-IsNewTarget :
    (new_path old : Bytes) → IsNewTarget new_path old (rewrite_target old new_path)
unfolding rewrite_target
rewrite_target-IsNewTarget new_path old = (
  λ h n. rw (h, eq_bytes_ne (ext old) [] n) refl,
  λ h e. rw (h, (eq_bytes_iff (ext old) []).1 e) refl,
  λ h n. rw (h, eq_bytes_ne (ext old) [] n) refl,
  λ h e. rw (h, (eq_bytes_iff (ext old) []).1 e) refl,
)

is_ambiguous_iff :
    (index : Index) (target : Bytes) → (is_ambiguous index target ≡ true) ↔ IsShared index target
unfolding is_ambiguous
is_ambiguous_iff index target =
    (λ h. (ground (arith, h), ground (arith, h)), λ h. ground (arith, h.0, h.1))

module _ (targets : List Bytes) (index : Index) (new_path : Bytes) where
  -- What may stand in the place of a wikilink.
  abbrev pub IsRewritten : Occurrence Wiki → Bytes → Type 0
  IsRewritten o t =
      (¬ RefersTo targets o.link.target → t ≡ o.text)
      × (IsShared index o.link.target → t ≡ o.text)
      × (RefersTo targets o.link.target
          → ¬ IsShared index o.link.target
          → (u : Bytes) × IsNewTarget new_path o.link.target u × (t ≡ wiki_text o.link u))

  new_text_of-IsRewritten :
      (o : Occurrence Wiki) → IsRewritten o (new_text_of (rewrite_wiki targets index new_path) o)
  unfolding rewrite_wiki
  new_text_of-IsRewritten o = elim (Bool-cases (is_match targets o.link.target)) [
    | inl e ↦ elim (Bool-cases (is_ambiguous index o.link.target)) [
      | inl k ↦
          rw (e, k)
            (λ n. refl, λ h. refl, λ r n. absurd (n ((is_ambiguous_iff index o.link.target).0 k)))
      | inr k ↦
          rw (e, k)
            (
              λ n. absurd (n ((is_match_iff targets o.link.target).0 e)),
              λ h. absurd (false≢true (sym k ∙ (is_ambiguous_iff index o.link.target).1 h)),
              λ r n. (
                rewrite_target o.link.target new_path,
                rewrite_target-IsNewTarget new_path o.link.target,
                refl,
              ),
            )
    ]
    | inr e ↦ rw e (
      λ n. refl,
      λ h. refl,
      λ r n. absurd (false≢true (sym e ∙ (is_match_iff targets o.link.target).1 r)),
    )
  ]

  -- A line of which no Markdown link is to be rewritten does not panic. The text outside its wikilinks
  -- is kept. A wikilink whose target is none of the names of the note that was moved, with or without
  -- its extension, is kept, and so is one whose target is a name alone that the index lists for several
  -- notes; of every other the target is replaced by the new path in the style of the old target, and
  -- the rest of the link is kept.
  pub rewrite_line-wikilinks :
      (line : Bytes)
      → md_matches targets index new_path line ≡ []
      → (text : Occurrence Wiki → Bytes) × (tail : Bytes) × ((o : Occurrence Wiki)
          → IsRewritten o (text o))
        × (line ≡ whole own_text (wikilinks line) tail)
        × (rewrite_line targets index new_path line
            ≡ some (
              whole text (wikilinks line) tail,
              rewrites_of (wiki_matches targets index new_path line),
            ))
  unfolding rewrite_line wiki_matches
  rewrite_line-wikilinks line none_md =
      let cut = occurrences_whole wiki_at wiki_rest wiki_at-EndsIn (length line) [] line in
      let ms = wiki_matches targets index new_path line in
      let done =
        ap (splice_all ms) (sym cut.1)
        ∙ splice_all-matches (rewrite_wiki targets index new_path) [] 0 (wikilinks line) cut.0
            (omega arith) in
      (
        new_text_of (rewrite_wiki targets index new_path),
        cut.0,
        new_text_of-IsRewritten,
        sym cut.1,
        ap (λ ns. with_rewrites targets index new_path ns (splice_all ns line))
              (ap (λ m. ms ++ m) none_md ∙ append-nil ms)
            ∙ ap (with_rewrites targets index new_path ms) done,
      )
