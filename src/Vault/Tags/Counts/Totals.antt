-- ===== src/Vault/Tags/Counts/Totals.antt =====
-- internal/vault/tags.go, AggregateTags: what the counts are.
use obsidian_mcp_server.Prelude.{
  ℕ, zero, suc, ◌+◌, ◌-◌, ◌≡◌, ◌≢◌, inl, inr, refl, ap, ◌∙◌, subst, Bool, true, false, List, [],
  ◌∷◌, All, if◌then◌else◌, leb, take, arith, Bool-cases,
}
use obsidian_mcp_server.Prelude.Exec.{Exec, Result, ok, err, ◌>>◌}
use obsidian_mcp_server.Maps.{Map, insert}
use obsidian_mcp_server.Strings.{Bytes, eq_bytes, eq_bytes_iff, eq_bytes_ne}
use obsidian_mcp_server.Vault.Errors.{Fault, PathError}
use obsidian_mcp_server.Vault.Frontmatter.{split_frontmatter}
use obsidian_mcp_server.Vault.Os.{Os}
use obsidian_mcp_server.Vault.Yaml.{Yaml}
use obsidian_mcp_server.Vault.Guards.{Service, read_note_bytes}
use obsidian_mcp_server.Vault.Tags.{has_tag, merge_note_tags, frontmatter_tags, extract_inline_tags}
use obsidian_mcp_server.Vault.Tags.Merged.{IsDistinct, merge_tags-IsDistinct}
use obsidian_mcp_server.Vault.Tags.Counts.{
  max_aggregate_tags_notes, or_zero, bump_all, Tally, tags_read, tags_of_file, count_note, no_tally,
  counts_of, aggregate_tags,
}
use obsidian_mcp_server.Vault.Walk.{
  Nodes, Visit, visits, Stop, is_note, walk_visits, ended, walk_notes,
}

absent : (tag : Bytes) (ts : List Bytes) → All (λ u. u ≢ tag) ts → has_tag tag ts ≡ false
unfolding has_tag
absent tag [] h = refl
absent tag (t ∷ ts) h = rw (eq_bytes_ne t tag h.0) (absent tag ts h.1)

abbrev one_if : Bool → ℕ
one_if true = 1
one_if false = 0

-- Tags that are distinct are counted once each.
bump_all_lem :
    (tag : Bytes) (ts : List Bytes) (counts : Map ℕ)
    → IsDistinct ts
    → or_zero (bump_all ts counts tag) ≡ or_zero (counts tag) + one_if (has_tag tag ts)
unfolding bump_all has_tag IsDistinct
bump_all_lem tag [] counts d = omega arith
bump_all_lem tag (t ∷ ts) counts d =
    let more = bump_all_lem tag ts (insert t (or_zero (counts t) + 1) counts) d.1 in
    elim (Bool-cases (eq_bytes t tag)) [
      | inl e ↦
          let same = (eq_bytes_iff t tag).0 e in
          let none_left = absent tag ts (subst (λ x. All (λ u. u ≢ x) ts) same d.0) in
          let here : or_zero (counts t) ≡ or_zero (counts tag) =
            ap (λ x. or_zero (counts x)) same in
          ground (arith, more, e, none_left, here)
      | inr e ↦ ground (arith, more, e)
    ]

module _ (y : Yaml) (is_alnum : Bytes → Bool) (os : Os) (v : Service) (s : os.State) where
  tags_read-IsDistinct : (r : Result Fault Bytes) → IsDistinct (tags_read y is_alnum os v s r)
  unfolding merge_note_tags IsDistinct
  tags_read-IsDistinct (err f) = tt
  tags_read-IsDistinct (ok d) =
      (merge_tags-IsDistinct (frontmatter_tags y (split_frontmatter d).2 (split_frontmatter d).0)
        (extract_inline_tags is_alnum (split_frontmatter d).1)).0

  -- The files that are handed on, by their absolute paths.
  unfoldable pub handed_files : (Visit → Bool) → List Visit → List Bytes
  handed_files handed [] = []
  handed_files handed (w ∷ ws) =
      let rest = handed_files handed ws in if handed w then w.abs ∷ rest else rest

  -- How many of the files have the tag.
  unfoldable pub number_with : Bytes → List Bytes → ℕ
  number_with tag [] = 0
  number_with tag (f ∷ fs) =
      one_if (has_tag tag (tags_of_file y is_alnum os v s f)) + number_with tag fs

  abbrev counting : Bytes → Bytes → Exec Tally Stop (Unit {0})
  counting = count_note y is_alnum os v s

  -- A tally that holds of a tag so many more, behind a walk that did not fail.
  abbrev Counted : Bytes → ℕ → Result Stop (Unit {0}) × Tally → Type 0
  Counted tag n out = ((ended out).0 ≡ ok tt) × (or_zero ((ended out).1.counts tag) ≡ n)

  counted :
      (tag : Bytes) (handed : Visit → Bool) (i : ℕ) (ws : List Visit) (tally : Tally)
      → Counted tag
          (or_zero (tally.counts tag)
            + number_with tag
                (take (max_aggregate_tags_notes - tally.scanned) (handed_files handed ws)))
          (walk_visits (λ _. false) handed counting i ws tally)
  unfolding walk_visits handed_files number_with count_note
  counted tag handed i [] tally = (refl, none_taken (max_aggregate_tags_notes - tally.scanned))
    where
      none_taken :
          (n : ℕ)
          → or_zero (tally.counts tag) ≡ or_zero (tally.counts tag) + number_with tag (take n [])
      none_taken zero = omega arith
      none_taken (suc n) = omega arith
  counted tag handed i (w ∷ ws) tally = pass (handed w) (counted tag handed (i + 1) ws)
    where
      rest : Exec Tally Stop (Unit {0})
      rest = walk_visits (λ _. false) handed counting (i + 1) ws

      full :
          ((t : Tally)
            → Counted tag
                (or_zero (t.counts tag)
                  + number_with tag
                      (take (max_aggregate_tags_notes - t.scanned) (handed_files handed ws)))
                (rest t))
          → (b : Bool) → leb max_aggregate_tags_notes tally.scanned ≡ b
          → Counted tag
              (or_zero (tally.counts tag)
                + number_with tag (
                    take
                      (max_aggregate_tags_notes - tally.scanned)
                      (w.abs ∷ handed_files handed ws)))
              ((counting w.rel w.abs >> rest) tally)
      full later true e =
          let z : max_aggregate_tags_notes - tally.scanned ≡ 0 = ground (arith, e) in
          rw (e, z) (refl, omega arith)
      full later false e =
          let next : Tally = record {
            counts = bump_all (tags_of_file y is_alnum os v s w.abs) tally.counts;
            scanned = tally.scanned + 1;
          } in
          let z : max_aggregate_tags_notes - tally.scanned
              ≡ suc (max_aggregate_tags_notes - (tally.scanned + 1)) =
            ground (arith, e) in
          let one =
            bump_all_lem tag (tags_of_file y is_alnum os v s w.abs) tally.counts
              (tags_read-IsDistinct (read_note_bytes os v w.abs s)) in
          rw (e, z) ((later next).0, (later next).1 ∙ omega (arith, one))

      pass :
          (b : Bool)
          → ((t : Tally)
              → Counted tag
                  (or_zero (t.counts tag)
                    + number_with tag
                        (take (max_aggregate_tags_notes - t.scanned) (handed_files handed ws)))
                  (rest t))
          → Counted tag
              (or_zero (tally.counts tag)
                + number_with tag (
                    take
                      (max_aggregate_tags_notes - tally.scanned)
                      (if b then w.abs ∷ handed_files handed ws else handed_files handed ws)))
              ((if b then counting w.rel w.abs >> rest else rest) tally)
      pass true later = full later _ refl
      pass false later = later tally

  outcome_counts :
      (tag : Bytes) (n : ℕ) (o : Result PathError (Unit {0}) × Tally)
      → o.0 ≡ ok tt
      → or_zero (o.1.counts tag) ≡ n
      → (counts : Map ℕ) × ((counts_of y is_alnum os v s o ≡ ok counts)
          × (or_zero (counts tag) ≡ n))
  outcome_counts tag n (ok u, tally) h k = (tally.counts, (refl, k))
  outcome_counts tag n (err e, tally) h k = cc

  -- A walk that is not cancelled gives for each tag the number of the notes that have it, among the
  -- first 10000 that the walk comes to; a note that cannot be read has no tags.
  pub aggregate_tags-number_with :
      (to_lower : Bytes → Bytes) (tree : Nodes) (tag : Bytes)
      → (counts : Map ℕ) × ((aggregate_tags y is_alnum os v s to_lower (λ _. false) (ok tree)
            ≡ ok counts)
          × (or_zero (counts tag)
              ≡ number_with tag (
                  take max_aggregate_tags_notes
                    (handed_files (is_note to_lower v.filter) (visits v.root v.filter [] tree)))))
  unfolding aggregate_tags walk_notes
  aggregate_tags-number_with to_lower tree tag =
      let handed = is_note to_lower v.filter in
      let ws = visits v.root v.filter [] tree in
      let r = counted tag handed 1 ws (no_tally y is_alnum os v s) in
      outcome_counts tag (number_with tag (take max_aggregate_tags_notes (handed_files handed ws)))
        (ended (walk_visits (λ _. false) handed counting 1 ws (no_tally y is_alnum os v s))) r.0
        (r.1 ∙ omega arith)
