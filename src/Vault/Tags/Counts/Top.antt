-- ===== src/Vault/Tags/Counts/Top.antt =====
-- internal/vault/tags.go, TopTagsByCount: which entries come out, and in which order.
use mathlib.Core.List.{Perm}
use obsidian_mcp_server.Prelude.{
  ℕ, ◌<◌, ◌≡◌, ◌⊎◌, ◌&&◌, inl, inr, refl, sym, subst, Bool, true, false, List, [], ◌∷◌, ◌++◌, All,
  All_map, if◌then◌else◌, ltb, length, take, drop, take-append-drop, arith, length-take, append-nil,
}
use obsidian_mcp_server.Prelude.Int.{ℤ, pos_part}
use obsidian_mcp_server.Prelude.Sort.{
  sort, IsSorted, sort-IsSorted, IsSorted-take, drop-take_behind, length-sort, Perm-sort,
}
use obsidian_mcp_server.Strings.Order.{less, less_asym, less_trans}
use obsidian_mcp_server.Vault.Tags.Counts.{TagCount, by_count, top_tags_by_count}

by_count_asym : (a b : TagCount) → by_count a b ≡ true → by_count b a ≡ false
unfolding by_count
by_count_asym a b h = ground (arith, h, less_asym a.name b.name)

by_count_trans :
    (a b c : TagCount) → by_count b a ≡ false → by_count c b ≡ false → by_count c a ≡ false
unfolding by_count
by_count_trans a b c h k = ground (arith, h, k, less_trans a.name b.name c.name)

-- How many entries come out.
abbrev pub shown : ℤ → ℕ → ℕ
shown limit n = if ltb 0 (pos_part limit) && ltb (pos_part limit) n then pos_part limit else n

-- An entry comes before another by a larger count, or by its name where the counts are equal.
abbrev pub ComesBefore : TagCount → TagCount → Type 0
ComesBefore a b = (b.count < a.count) ⊎ ((a.count ≡ b.count) × (less a.name b.name ≡ true))

by_count_not : (a b : TagCount) → by_count a b ≡ false → ¬ ComesBefore a b
unfolding by_count
by_count_not a b h (inl k) = ground (arith, h, k)
by_count_not a b h (inr k) = ground (arith, h, k.0, k.1)

abbrev pub NoneBefore : List TagCount → TagCount → Type 0
NoneBefore xs x = All (λ y. ¬ ComesBefore y x) xs

unfoldable pub InOrder : List TagCount → Type 0
InOrder [] = Unit
InOrder (x ∷ xs) = NoneBefore xs x × InOrder xs

IsSorted-InOrder : (xs : List TagCount) → IsSorted by_count xs → InOrder xs
unfolding IsSorted InOrder
IsSorted-InOrder [] h = tt
IsSorted-InOrder (x ∷ xs) h = (
  All_map (λ y. by_count y x ≡ false) (λ y. ¬ ComesBefore y x) xs (λ y. by_count_not y x) h.0,
  IsSorted-InOrder xs h.1,
)

-- What is asked of the list of the top tags: it is in order, of the length asked for, and with `rest`
-- it is the entries, each as often as it is there; none of `rest` comes before one of the list.
pub record IsTop (entries : List TagCount) (limit : ℤ) (out : List TagCount) : Type 0 where
  pub rest : List TagCount
  pub in_order : InOrder out
  pub as_many : length out ≡ shown limit (length entries)
  pub of_entries : Perm (out ++ rest) entries
  pub no_better : All (λ r. All (λ o. ¬ ComesBefore r o) out) rest

behind_InOrder :
    (out rest : List TagCount)
    → All (λ r. All (λ o. by_count r o ≡ false) out) rest
    → All (λ r. All (λ o. ¬ ComesBefore r o) out) rest
behind_InOrder out rest =
    All_map (λ r. All (λ o. by_count r o ≡ false) out) (λ r. All (λ o. ¬ ComesBefore r o) out) rest
      (λ r.
        All_map (λ o. by_count r o ≡ false) (λ o. ¬ ComesBefore r o) out (λ o. by_count_not r o))

taken-IsTop :
    (entries : List TagCount) (limit : ℤ) (b : Bool)
    → ltb 0 (pos_part limit) && ltb (pos_part limit) (length entries) ≡ b
    → IsTop entries limit
        (if b then take (pos_part limit) (sort by_count entries) else sort by_count entries)
taken-IsTop entries limit true e =
    let sorted = sort-IsSorted by_count by_count_asym by_count_trans entries in
    let n = pos_part limit in
    record {
      rest = drop n (sort by_count entries);
      in_order = IsSorted-InOrder _ (IsSorted-take by_count n (sort by_count entries) sorted);
      as_many = ground (
        arith,
        e,
        length-take (pos_part limit) (sort by_count entries),
        length-sort by_count entries,
      );
      of_entries =
          subst (λ xs. Perm xs entries) (sym (take-append-drop n (sort by_count entries)))
            (Perm-sort by_count entries);
      no_better = behind_InOrder _ _ (drop-take_behind by_count n (sort by_count entries) sorted);
    }
taken-IsTop entries limit false e = record {
  rest = [];
  in_order = IsSorted-InOrder _ (sort-IsSorted by_count by_count_asym by_count_trans entries);
  as_many = ground (arith, e, length-sort by_count entries);
  of_entries =
      subst (λ xs. Perm xs entries) (sym (append-nil (sort by_count entries)))
        (Perm-sort by_count entries);
  no_better = tt;
}

-- The top tags are in order of falling count, those of one count in order of name; they are as many as
-- the limit, or all where there are no more or no limit; together with those that are left out they are
-- the entries, each as often; and no tag that is left out comes before one of them.
pub top_tags_by_count-IsTop :
    (entries : List TagCount) (limit : ℤ) → IsTop entries limit (top_tags_by_count entries limit)
unfolding top_tags_by_count
top_tags_by_count-IsTop entries limit = taken-IsTop entries limit _ refl
