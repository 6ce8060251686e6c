-- ===== src/Vault/Yaml/Keys.antt =====
-- The keys of a mapping after one is set, changed or removed.
use obsidian_mcp_server.Prelude.{
  ◌≡◌, ◌≢◌, refl, sym, ap, ◌∙◌, Option, none, some, List, [], ◌∷◌, ◌++◌, arith, inl, inr,
  Bool-cases,
}
use obsidian_mcp_server.Strings.{Bytes, eq_bytes, eq_bytes_iff, eq_bytes_refl, eq_bytes_ne}
use obsidian_mcp_server.Vault.Yaml.{
  Yaml, IsYaml, scalar, find_key, change_key, set_key, set_found, remove_key, text_node,
}

module _ (y : Yaml) where
  -- A list of keys and values with no node left over.
  unfoldable pub IsPaired : List y.Node → Type 0
  IsPaired [] = Unit
  IsPaired (k ∷ []) = ⊥
  IsPaired (k ∷ v ∷ rest) = IsPaired rest

  abbrev pub changed {ℓ} : {A : Type ℓ} → (A → A) → Option A → Option A
  changed f none = none
  changed f (some v) = some (f v)

  pub find_key-change_key :
      (key : Bytes) (f : y.Node → y.Node) (nodes : List y.Node)
      → find_key y key (change_key y key f nodes) ≡ changed f (find_key y key nodes)
  unfolding find_key change_key
  find_key-change_key key f [] = refl
  find_key-change_key key f (k ∷ []) = refl
  find_key-change_key key f (k ∷ v ∷ rest) = ground (arith, find_key-change_key key f rest)

  pub find_key-change_other :
      (key other : Bytes) (f : y.Node → y.Node) (nodes : List y.Node)
      → other ≢ key
      → find_key y other (change_key y key f nodes) ≡ find_key y other nodes
  unfolding find_key change_key
  find_key-change_other key other f [] n = refl
  find_key-change_other key other f (k ∷ []) n = refl
  find_key-change_other key other f (k ∷ v ∷ rest) n = ground (
    arith,
    find_key-change_other key other f rest n,
    eq_bytes_iff (y.value k) key,
    eq_bytes_iff (y.value k) other,
  )

  pub find_key-remove_key :
      (key : Bytes) (nodes : List y.Node) → find_key y key (remove_key y key nodes) ≡ none
  unfolding find_key remove_key
  find_key-remove_key key [] = refl
  find_key-remove_key key (k ∷ []) = refl
  find_key-remove_key key (k ∷ v ∷ rest) = ground (arith, find_key-remove_key key rest)

  pub find_key-remove_other :
      (key other : Bytes) (nodes : List y.Node)
      → other ≢ key
      → find_key y other (remove_key y key nodes) ≡ find_key y other nodes
  unfolding find_key remove_key
  find_key-remove_other key other [] n = refl
  find_key-remove_other key other (k ∷ []) n = refl
  find_key-remove_other key other (k ∷ v ∷ rest) n = ground (
    arith,
    find_key-remove_other key other rest n,
    eq_bytes_iff (y.value k) key,
    eq_bytes_iff (y.value k) other,
  )

  pub append_same :
      IsYaml y
      → (key : Bytes) (v : y.Node) (nodes : List y.Node) → IsPaired nodes
      → find_key y key nodes ≡ none
      → find_key y key (nodes ++ text_node y key ∷ v ∷ []) ≡ some v
  unfolding find_key IsPaired
  append_same laws key v [] p h = rw (laws.value-make scalar key [], eq_bytes_refl key)
  append_same laws key v (k ∷ []) p h = elim p [ ]
  append_same laws key v (k ∷ u ∷ rest) p h = ground (arith, append_same laws key v rest p)

  pub append_other :
      IsYaml y
      → (key other : Bytes) (v : y.Node) (nodes : List y.Node) → IsPaired nodes
      → other ≢ key
      → find_key y other (nodes ++ text_node y key ∷ v ∷ []) ≡ find_key y other nodes
  unfolding find_key IsPaired
  append_other laws key other v [] p n =
      rw (laws.value-make scalar key [], eq_bytes_ne key other (λ e. n (sym e)))
  append_other laws key other v (k ∷ []) p n = elim p [ ]
  append_other laws key other v (k ∷ u ∷ rest) p n =
      ground (arith, append_other laws key other v rest p n)

  -- A key that is set is found with its new value.
  pub find_key-set_key :
      IsYaml y
      → (key : Bytes) (v : y.Node) (nodes : List y.Node) → IsPaired nodes
      → find_key y key (set_key y key v nodes) ≡ some v
  unfolding set_key
  find_key-set_key laws key v nodes p = by_found (find_key y key nodes) refl
    where
      by_found :
          (o : Option y.Node)
          → find_key y key nodes ≡ o
          → find_key y key (set_found y key v nodes o) ≡ some v
      by_found none e = append_same laws key v nodes p e
      by_found (some old) e = find_key-change_key key (λ _. v) nodes ∙ ap (changed (λ _. v)) e

  -- Every other key keeps its value.
  pub find_key-set_other :
      IsYaml y
      → (key other : Bytes) (v : y.Node) (nodes : List y.Node) → IsPaired nodes
      → other ≢ key
      → find_key y other (set_key y key v nodes) ≡ find_key y other nodes
  unfolding set_key
  find_key-set_other laws key other v nodes p n = by_found (find_key y key nodes)
    where
      by_found :
          (o : Option y.Node)
          → find_key y other (set_found y key v nodes o) ≡ find_key y other nodes
      by_found none = append_other laws key other v nodes p n
      by_found (some old) = find_key-change_other key other (λ _. v) nodes n

  set_IsPaired :
      (key : Bytes) (f : y.Node → y.Node) (nodes : List y.Node)
      → IsPaired nodes
      → IsPaired (change_key y key f nodes)
  unfolding change_key IsPaired
  set_IsPaired key f [] p = p
  set_IsPaired key f (k ∷ []) p = p
  set_IsPaired key f (k ∷ v ∷ rest) p = elim (Bool-cases (eq_bytes (y.value k) key)) [
    | inl e ↦ rw e p
    | inr e ↦ rw e (set_IsPaired key f rest p)
  ]

  append_IsPaired :
      (k v : y.Node) (nodes : List y.Node) → IsPaired nodes → IsPaired (nodes ++ k ∷ v ∷ [])
  unfolding IsPaired
  append_IsPaired k v [] p = tt
  append_IsPaired k v (a ∷ []) p = elim p [ ]
  append_IsPaired k v (a ∷ b ∷ rest) p = append_IsPaired k v rest p

  pub set_key-IsPaired :
      (key : Bytes) (v : y.Node) (nodes : List y.Node)
      → IsPaired nodes
      → IsPaired (set_key y key v nodes)
  unfolding set_key
  set_key-IsPaired key v nodes p = by_found (find_key y key nodes)
    where
      by_found : (o : Option y.Node) → IsPaired (set_found y key v nodes o)
      by_found none = append_IsPaired (text_node y key) v nodes p
      by_found (some old) = set_IsPaired key (λ _. v) nodes p
