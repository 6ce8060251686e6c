-- ===== src/Vault/Properties/Updates.antt =====
-- internal/vault/frontmatter.go, UpdateFrontmatter: the keys behind an update.
use obsidian_mcp_server.Prelude.{
  ◌≡◌, ◌≢◌, inl, inr, refl, sym, ap, ◌∙◌, Bool, true, false, Option, none, some, List, [], ◌∷◌, All,
  if◌then◌else◌, arith, Bool-cases,
}
use obsidian_mcp_server.Prelude.Exec.{Result, ok, err, bind_ok}
use obsidian_mcp_server.Prelude.Sort.{insert_in_order, sort, All-insert_in_order, All-sort}
use obsidian_mcp_server.Strings.{Bytes, eq_bytes, eq_bytes_iff, eq_bytes_ne}
use obsidian_mcp_server.Vault.Errors.{Fault}
use obsidian_mcp_server.Vault.Yaml.{Yaml, IsYaml, find_key, set_key, remove_key}
use obsidian_mcp_server.Vault.Yaml.Keys.{
  IsPaired, find_key-set_key, find_key-set_other, find_key-remove_key, find_key-remove_other,
  set_key-IsPaired,
}
use obsidian_mcp_server.Vault.Properties.{
  encode_to_node, apply_updates, apply_removals, by_key, updated_nodes,
}

-- The entries of a Go map: each key once.
unfoldable pub IsMap {ℓ} : {V : Type ℓ} → List (Bytes × V) → Type 0
IsMap [] = Unit
IsMap (u ∷ us) = All (λ w. w.0 ≢ u.0) us × IsMap us

module _ {V : Type 0} (key : Bytes) where
  unfoldable pub value_of : List (Bytes × V) → Option V
  value_of [] = none
  value_of (u ∷ us) = let rest = value_of us in if eq_bytes u.0 key then some u.1 else rest

  value_of_absent : (us : List (Bytes × V)) → All (λ w. w.0 ≢ key) us → value_of us ≡ none
  unfolding value_of
  value_of_absent [] h = refl
  value_of_absent (u ∷ us) h = rw (eq_bytes_ne u.0 key h.0) (value_of_absent us h.1)

  -- The place of an entry among entries of other keys cannot be seen.
  value_of-insert_in_order :
      (before : Bytes × V → Bytes × V → Bool) (u : Bytes × V) (us : List (Bytes × V))
      → All (λ w. w.0 ≢ u.0) us
      → value_of (insert_in_order before u us)
        ≡ (if eq_bytes u.0 key then some u.1 else value_of us)
  unfolding value_of insert_in_order
  value_of-insert_in_order before u [] h = refl
  value_of-insert_in_order before u (w ∷ us) h = ground (
    arith,
    value_of-insert_in_order before u us h.1,
    eq_bytes_iff u.0 key,
    eq_bytes_iff w.0 key,
    other,
  )
    where
      other : eq_bytes u.0 key ≡ true → eq_bytes w.0 key ≡ true → ⊥
      other e k = h.0 ((eq_bytes_iff w.0 key).0 k ∙ sym ((eq_bytes_iff u.0 key).0 e))

insert-IsMap :
    {V : Type 0} (before : Bytes × V → Bytes × V → Bool) (u : Bytes × V) (us : List (Bytes × V))
    → All (λ w. w.0 ≢ u.0) us
    → IsMap us
    → IsMap (insert_in_order before u us)
unfolding insert_in_order IsMap
insert-IsMap before u [] h m = (tt, tt)
insert-IsMap before u (w ∷ us) h m = elim (Bool-cases (before w u)) [
  | inl e ↦ rw e (
    All-insert_in_order before (λ x. x.0 ≢ w.0) u us (λ q. h.0 (sym q)) m.0,
    insert-IsMap before u us h.1 m.1,
  )
  | inr e ↦ rw e (h, m)
]

sort-IsMap :
    {V : Type 0} (before : Bytes × V → Bytes × V → Bool) (us : List (Bytes × V))
    → IsMap us
    → IsMap (sort before us)
unfolding sort IsMap
sort-IsMap before [] m = tt
sort-IsMap before (u ∷ us) m =
    insert-IsMap before u (sort before us) (All-sort before (λ w. w.0 ≢ u.0) us m.0)
      (sort-IsMap before us m.1)

module _ {V : Type 0} (key : Bytes) (before : Bytes × V → Bytes × V → Bool) where
  value_of-sort :
      (us : List (Bytes × V)) → IsMap us → value_of key (sort before us) ≡ value_of key us
  unfolding sort IsMap value_of
  value_of-sort [] m = refl
  value_of-sort (u ∷ us) m =
      value_of-insert_in_order key before u (sort before us)
        (All-sort before (λ w. w.0 ≢ u.0) us m.0)
      ∙ ap (λ o. if eq_bytes u.0 key then some u.1 else o) (value_of-sort us m.1)

ok_injective : {A : Type 0} {a b : A} → ◌≡◌ {A = Result Fault A} (ok a) (ok b) → b ≡ a
ok_injective e = cc

-- Whether a list of keys has the key.
unfoldable pub has_key : Bytes → List Bytes → Bool
has_key key [] = false
has_key key (k ∷ keys) = let rest = has_key key keys in if eq_bytes k key then true else rest

module _ (y : Yaml) (key : Bytes) where
  abbrev pub node_of : Result Fault y.Node → Option y.Node
  node_of (ok n) = some n
  node_of (err f) = none

  -- What the key is to have: the node of its new value, or what it had.
  abbrev pub set_or : Option y.Node → Option y.Value → Option y.Node
  set_or old none = old
  set_or old (some v) = node_of (encode_to_node y v)

  -- The same where some keys are removed.
  abbrev pub expected : List (Bytes × y.Value) → List Bytes → List y.Node → Option y.Node
  expected updates removals nodes =
      if has_key key removals then none else set_or (find_key y key nodes) (value_of key updates)

  module _ (laws : IsYaml y) where
    find_key-apply_updates :
        (updates : List (Bytes × y.Value)) (nodes ns : List y.Node)
        → IsMap updates
        → IsPaired y nodes
        → apply_updates y updates nodes ≡ ok ns
        → find_key y key ns ≡ set_or (find_key y key nodes) (value_of key updates)
    unfolding apply_updates value_of IsMap
    find_key-apply_updates [] nodes ns m p h = ap (find_key y key) (ok_injective h)
    find_key-apply_updates ((k, v) ∷ updates) nodes ns m p h =
        let step =
          bind_ok (encode_to_node y v) (λ n. apply_updates y updates (set_key y k n nodes)) ns h in
        set_first (eq_bytes k key) refl step.0 step.1.0 (
          find_key-apply_updates updates (set_key y k step.0 nodes) ns m.1
            (set_key-IsPaired y k step.0 nodes p) step.1.1)
      where
        set_first :
            (b : Bool)
            → eq_bytes k key ≡ b
            → (n : y.Node) → encode_to_node y v ≡ ok n
            → find_key y key ns
              ≡ set_or (find_key y key (set_key y k n nodes)) (value_of key updates)
            → find_key y key ns
              ≡ set_or (find_key y key nodes) (if b then some v else value_of key updates)
        set_first true e n enc h =
            let same = (eq_bytes_iff k key).0 e in
            h
            ∙ ap (set_or (find_key y key (set_key y k n nodes)))
                (value_of_absent key updates (rw (← same) m.0))
            ∙ (rw same (find_key-set_key y laws key n nodes p))
            ∙ ap node_of (sym enc)
        set_first false e n enc h =
            h
            ∙ ap (λ o. set_or o (value_of key updates))
                (find_key-set_other y laws k key n nodes p
                  (λ q. ground (arith, eq_bytes_iff k key, q)))

    find_key-apply_removals :
        (removals : List Bytes) (nodes : List y.Node)
        → find_key y key (apply_removals y removals nodes)
          ≡ (if has_key key removals then none else find_key y key nodes)
    unfolding apply_removals has_key
    find_key-apply_removals [] nodes = refl
    find_key-apply_removals (k ∷ removals) nodes =
        find_key-apply_removals removals (remove_key y k nodes) ∙ removed (eq_bytes k key) refl
      where
        removed :
            (b : Bool)
            → eq_bytes k key ≡ b
            → (if has_key key removals then none else find_key y key (remove_key y k nodes))
              ≡ (if (if b then true else has_key key removals) then none else find_key y key nodes)
        removed true e =
            let gone : find_key y key (remove_key y k nodes) ≡ none =
              rw ((eq_bytes_iff k key).0 e) (find_key-remove_key y key nodes) in
            ground (arith, gone)
        removed false e =
            ap (λ o. if has_key key removals then none else o)
              (find_key-remove_other y k key nodes (λ q. ground (arith, eq_bytes_iff k key, q)))

    -- Where the keys of the updates are distinct and every key of the mapping has a value, a key has
    -- behind UpdateFrontmatter no value if it was to be removed, else the node of its new value if it
    -- was to be set, else the value that it had.
    pub find_key-updated_nodes :
        (updates : List (Bytes × y.Value)) (removals : List Bytes) (nodes ns : List y.Node)
        → IsMap updates
        → IsPaired y nodes
        → updated_nodes y updates removals nodes ≡ ok ns
        → find_key y key ns ≡ expected updates removals nodes
    unfolding updated_nodes
    find_key-updated_nodes updates removals nodes ns m p h =
        let step =
          bind_ok (apply_updates y (sort (by_key y) updates) nodes)
            (λ l. ok (apply_removals y removals l)) ns h in
        ap (find_key y key) (ok_injective step.1.1)
        ∙ find_key-apply_removals removals step.0
        ∙ ap (λ o. if has_key key removals then none else o)
            (find_key-apply_updates (sort (by_key y) updates) nodes step.0
                (sort-IsMap (by_key y) updates m) p step.1.0
              ∙ ap (set_or (find_key y key nodes)) (value_of-sort key (by_key y) updates m))
