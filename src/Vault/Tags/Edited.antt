-- ===== src/Vault/Tags/Edited.antt =====
-- internal/vault/tags.go: the tags of the frontmatter after AddTag and RemoveTag.
use obsidian_mcp_server.Prelude.{
  ◌≡◌, ◌≢◌, ◌↔◌, In, subst, inl, inr, refl, sym, ap, ◌∙◌, true, Option, none, some, List, [], ◌∷◌,
  ◌++◌, map, if◌then◌else◌, arith, Bool-cases,
}
use obsidian_mcp_server.Strings.{Bytes, eq_bytes, eq_bytes_iff}
use obsidian_mcp_server.Vault.Yaml.{
  Yaml, IsYaml, Kind, sequence, scalar, is_sequence, text_node, find_key, change_key,
}
use obsidian_mcp_server.Vault.Yaml.Keys.{
  IsPaired, changed, append_same, append_other, find_key-change_key, find_key-change_other,
}
use obsidian_mcp_server.Vault.Tags.{has_tag, add_once}
use obsidian_mcp_server.Vault.Tags.Edits.{
  tags_key, has_value, as_sequence, with_one, tagged_found, tagged_nodes, without_value,
  without_tag, untagged_nodes,
}

module _ (y : Yaml) where
  -- The values that a value of the key holds: those of a sequence, or the one that it is.
  abbrev pub values_at : y.Node → List Bytes
  values_at n =
      if is_sequence (y.kind n)
      then map y.value (y.content n)
      else if eq_bytes (y.value n) []
      then []
      else y.value n ∷ []

  abbrev pub values_in : Option y.Node → List Bytes
  values_in none = []
  values_in (some n) = values_at n

  pub has_value_lem :
      (tag : Bytes) (ns : List y.Node) → has_value y tag ns ≡ has_tag tag (map y.value ns)
  unfolding has_value has_tag
  has_value_lem tag [] = refl
  has_value_lem tag (n ∷ ns) = ground (arith, has_value_lem tag ns)

  map_behind :
      (ns : List y.Node) (n : y.Node)
      → map y.value (ns ++ n ∷ []) ≡ map y.value ns ++ y.value n ∷ []
  map_behind [] n = refl
  map_behind (a ∷ ns) n = ap (◌∷◌ (y.value a)) (map_behind ns n)

  pub is_sequence_lem : (k : Kind) → is_sequence k ≡ true → k ≡ sequence
  is_sequence_lem sequence h = refl
  is_sequence_lem _ h = cc

  module _ (laws : IsYaml y) where
    pub as_sequence_lem :
        (n : y.Node)
        → (y.kind (as_sequence y n) ≡ sequence)
          × (map y.value (y.content (as_sequence y n)) ≡ values_at n)
    as_sequence_lem n = elim (Bool-cases (is_sequence (y.kind n))) [
      | inl e ↦ rw e (is_sequence_lem (y.kind n) e, refl)
      | inr e ↦ elim (Bool-cases (eq_bytes (y.value n) [])) [
        | inl k ↦
            rw (e, k)
              (laws.kind-make sequence [] [], ap (map y.value) (laws.content-make sequence [] []))
        | inr k ↦
            rw (e, k)
              (
                laws.kind-make sequence [] _,
                ap (map y.value) (laws.content-make sequence [] (text_node y (y.value n) ∷ []))
                    ∙ ap (λ t. t ∷ []) (laws.value-make scalar (y.value n) []),
              )
      ]
    ]

    pub values_at_sequence :
        (n : y.Node) → y.kind n ≡ sequence → values_at n ≡ map y.value (y.content n)
    values_at_sequence n e = rw e refl

    with_one_lem :
        (tag : Bytes) (n : y.Node)
        → y.kind n ≡ sequence
        → values_at (with_one y tag n) ≡ add_once tag (map y.value (y.content n))
    with_one_lem tag n e = elim (Bool-cases (has_value y tag (y.content n))) [
      | inl h ↦ rw (h, ← has_value_lem tag (y.content n), h) (values_at_sequence n e)
      | inr h ↦
          rw (h, ← has_value_lem tag (y.content n), h)
            (values_at_sequence _ (laws.kind-with_content _ n ∙ e)
              ∙ ap (map y.value) (laws.content-with_content (y.content n ++ text_node y tag ∷ []) n)
              ∙ map_behind (y.content n) (text_node y tag)
              ∙ ap (λ t. map y.value (y.content n) ++ t ∷ []) (laws.value-make scalar tag []))
    ]

    new_sequence : (tag : Bytes) → values_at (y.make sequence [] (text_node y tag ∷ [])) ≡ tag ∷ []
    new_sequence tag =
        values_at_sequence _ (laws.kind-make sequence [] _)
        ∙ ap (map y.value) (laws.content-make sequence [] (text_node y tag ∷ []))
        ∙ ap (λ t. t ∷ []) (laws.value-make scalar tag [])

    -- Where every key of the mapping has a value, AddTag leaves the values that there were, with the tag
    -- behind them if it was none of them, and every other key as it was.
    pub tagged_nodes-values_in :
        (tag other : Bytes) (nodes : List y.Node)
        → IsPaired y nodes
        → other ≢ tags_key
        → (values_in (find_key y tags_key (tagged_nodes y tag nodes))
            ≡ add_once tag (values_in (find_key y tags_key nodes)))
          × (find_key y other (tagged_nodes y tag nodes) ≡ find_key y other nodes)
    unfolding tagged_nodes has_tag
    tagged_nodes-values_in tag other nodes p n = by_found (find_key y tags_key nodes) refl
      where
        by_found :
            (o : Option y.Node)
            → find_key y tags_key nodes ≡ o
            → (values_in (find_key y tags_key (tagged_found y tag nodes o))
                ≡ add_once tag (values_in o))
              × (find_key y other (tagged_found y tag nodes o) ≡ find_key y other nodes)
        by_found none e = (
          ap values_in (append_same y laws tags_key _ nodes p e) ∙ new_sequence tag,
          append_other y laws tags_key other _ nodes p n,
        )
        by_found (some old) e = (
          ap values_in (find_key-change_key y tags_key _ nodes ∙ ap (changed y _) e)
              ∙ with_one_lem tag (as_sequence y old) (as_sequence_lem old).0
              ∙ ap (add_once tag) (as_sequence_lem old).1,
          find_key-change_other y tags_key other _ nodes n,
        )

    without_value_iff :
        (tag t : Bytes) (ns : List y.Node)
        → In t (map y.value (without_value y tag ns)) ↔ (In t (map y.value ns) × (t ≢ tag))
    unfolding without_value
    without_value_iff tag t [] = (λ h. elim h [ ], λ h. h.0)
    without_value_iff tag t (n ∷ ns) = elim (Bool-cases (eq_bytes (y.value n) tag)) [
      | inl e ↦ rw e (
        λ h. let r = (without_value_iff tag t ns).0 h in (inr r.0, r.1),
        λ h. (without_value_iff tag t ns).1 (
          elim h.0 [ inl k ↦ absurd (h.1 (k ∙ (eq_bytes_iff (y.value n) tag).0 e)) | inr k ↦ k ],
          h.1,
        ),
      )
      | inr e ↦ rw e (
        λ h. elim h [
          | inl k ↦ (inl k, λ q. ground (arith, e, eq_bytes_iff (y.value n) tag, sym k ∙ q))
          | inr k ↦ let r = (without_value_iff tag t ns).0 k in (inr r.0, r.1)
        ],
        λ h. elim h.0 [ inl k ↦ inl k | inr k ↦ inr ((without_value_iff tag t ns).1 (k, h.1)) ],
      )
    ]

    without_tag_lem :
        (tag : Bytes) (n : y.Node)
        → y.kind n ≡ sequence
        → values_at (without_tag y tag n) ≡ map y.value (without_value y tag (y.content n))
    without_tag_lem tag n e = rw e (
        values_at_sequence _ (laws.kind-with_content _ n ∙ e)
        ∙ ap (map y.value) (laws.content-with_content (without_value y tag (y.content n)) n))

    -- RemoveTag on a mapping whose tags are a sequence leaves the other tags of the sequence and no
    -- occurrence of the tag, and every other key as it was.
    pub untagged_nodes-values_in :
        (tag t other : Bytes) (nodes : List y.Node) (old : y.Node)
        → find_key y tags_key nodes ≡ some old
        → y.kind old ≡ sequence
        → other ≢ tags_key
        → (In t (values_in (find_key y tags_key (untagged_nodes y tag nodes)))
            ↔ (In t (map y.value (y.content old)) × (t ≢ tag)))
          × (find_key y other (untagged_nodes y tag nodes) ≡ find_key y other nodes)
    unfolding untagged_nodes
    untagged_nodes-values_in tag t other nodes old e k n =
        let same : values_in (find_key y tags_key (change_key y tags_key (without_tag y tag) nodes))
            ≡ map y.value (without_value y tag (y.content old)) =
          ap values_in
            (find_key-change_key y tags_key (without_tag y tag) nodes ∙ ap (changed y _) e)
          ∙ without_tag_lem tag old k in
        (
          (
            λ h. (without_value_iff tag t (y.content old)).0 (subst (In t) same h),
            λ h. subst (In t) (sym same) ((without_value_iff tag t (y.content old)).1 h),
          ),
          find_key-change_other y tags_key other (without_tag y tag) nodes n,
        )
