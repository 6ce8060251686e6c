-- ===== src/Vault/Tags/Rename/Reported.antt =====
-- internal/vault/renametag.go, RenameTag: the values of the key behind a renaming.
use obsidian_mcp_server.Prelude.{
  ◌≡◌, ◌≢◌, inl, inr, refl, sym, ap, ◌∙◌, false, Option, none, some, List, [], ◌∷◌, map,
  if◌then◌else◌, Bool-cases,
}
use obsidian_mcp_server.Strings.{Bytes, eq_bytes, eq_bytes_iff, eq_bytes_ne}
use obsidian_mcp_server.Vault.Yaml.{Yaml, IsYaml, is_sequence, find_key}
use obsidian_mcp_server.Vault.Yaml.Keys.{changed, find_key-change_key, find_key-change_other}
use obsidian_mcp_server.Vault.Tags.Edits.{tags_key}
use obsidian_mcp_server.Vault.Tags.Edited.{
  values_at, values_in, values_at_sequence, is_sequence_lem,
}
use obsidian_mcp_server.Vault.Tags.Rename.{rename_children, rename_value, renamed_nodes}

module _ (y : Yaml) (old_tag new_tag : Bytes) where
  abbrev pub renamed : Bytes → Bytes
  renamed t = if eq_bytes t old_tag then new_tag else t

  module _ (laws : IsYaml y) where
    rename_children_lem :
        (ns : List y.Node)
        → map y.value (rename_children y old_tag new_tag ns) ≡ map renamed (map y.value ns)
    unfolding rename_children
    rename_children_lem [] = refl
    rename_children_lem (n ∷ ns) = elim (Bool-cases (eq_bytes (y.value n) old_tag)) [
      | inl e ↦ rw e (
          ap (λ v. v ∷ map y.value (rename_children y old_tag new_tag ns))
            (laws.value-with_value new_tag n)
          ∙ ap (◌∷◌ new_tag) (rename_children_lem ns))
      | inr e ↦ rw e (ap (◌∷◌ (y.value n)) (rename_children_lem ns))
    ]

    module _ (old_given : old_tag ≢ []) (new_given : new_tag ≢ []) where
      new_value :
          (n : y.Node)
          → is_sequence (y.kind n) ≡ false
          → values_at y (y.with_value new_tag n) ≡ new_tag ∷ []
      new_value n e =
          ap (λ k. if is_sequence k then map y.value (y.content (y.with_value new_tag n)) else one)
            (laws.kind-with_value new_tag n)
          ∙ rw e (rw (laws.value-with_value new_tag n, eq_bytes_ne new_tag [] new_given) refl)
        where
          one : List Bytes
          one =
              if eq_bytes (y.value (y.with_value new_tag n)) []
              then []
              else y.value (y.with_value new_tag n) ∷ []

      rename_value_lem :
          (n : y.Node)
          → values_at y (rename_value y old_tag new_tag n) ≡ map renamed (values_at y n)
      rename_value_lem n = elim (Bool-cases (is_sequence (y.kind n))) [
        | inl e ↦ rw e (
            values_at_sequence y laws _
              (laws.kind-with_content _ n ∙ is_sequence_lem y (y.kind n) e)
            ∙ ap (map y.value)
                (laws.content-with_content (rename_children y old_tag new_tag (y.content n)) n)
            ∙ rename_children_lem (y.content n))
        | inr e ↦ elim (Bool-cases (eq_bytes (y.value n) old_tag)) [
          | inl k ↦
              let some_value =
                eq_bytes_ne (y.value n) []
                  (λ z. old_given (sym ((eq_bytes_iff (y.value n) old_tag).0 k) ∙ z)) in
              rw (e, k, some_value, k) (new_value n e)
          | inr k ↦ rw (e, k, e) (kept n k)
        ]
      ]
        where
          kept :
              (n : y.Node)
              → eq_bytes (y.value n) old_tag ≡ false
              → (if eq_bytes (y.value n) [] then [] else y.value n ∷ [])
                ≡ map renamed (if eq_bytes (y.value n) [] then [] else y.value n ∷ [])
          kept n k = elim (Bool-cases (eq_bytes (y.value n) [])) [
            | inl z ↦ rw z refl
            | inr z ↦ rw (z, k) refl
          ]

      values_in_changed :
          (o : Option y.Node)
          → values_in y (changed y (rename_value y old_tag new_tag) o) ≡ map renamed (values_in y o)
      values_in_changed none = refl
      values_in_changed (some n) = rename_value_lem n

      -- A renaming of a tag that is not empty, to one that is not empty, renames it among the values of
      -- the key, keeps the others and their order, and keeps every other key.
      pub renamed_nodes-values_in :
          (other : Bytes) (nodes : List y.Node)
          → other ≢ tags_key
          → (values_in y (find_key y tags_key (renamed_nodes y old_tag new_tag nodes))
              ≡ map renamed (values_in y (find_key y tags_key nodes)))
            × (find_key y other (renamed_nodes y old_tag new_tag nodes) ≡ find_key y other nodes)
      unfolding renamed_nodes
      renamed_nodes-values_in other nodes n = (
        ap (values_in y) (find_key-change_key y tags_key (rename_value y old_tag new_tag) nodes)
            ∙ values_in_changed (find_key y tags_key nodes),
        find_key-change_other y tags_key other (rename_value y old_tag new_tag) nodes n,
      )
