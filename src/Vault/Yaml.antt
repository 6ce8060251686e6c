-- ===== src/Vault/Yaml.antt =====
-- What internal/vault uses of the YAML library, gopkg.in/yaml.v3, and what the vault does to the keys of
-- a mapping, in frontmatter.go, tags.go and renametag.go. A mapping holds keys and values in turns.
pub mod Keys
pub mod Plain
use obsidian_mcp_server.Prelude.{
  ◌≡◌, Bool, true, false, not, Option, none, some, List, [], ◌∷◌, ◌++◌, if◌then◌else◌,
}
use obsidian_mcp_server.Strings.{Bytes, codes, eq_bytes}
use obsidian_mcp_server.Maps.{Map}

pub data Kind : Type 0 where
  document mapping sequence scalar other_kind : Kind

abbrev pub is_sequence : Kind → Bool
is_sequence sequence = true
is_sequence _ = false

abbrev pub is_document : Kind → Bool
is_document document = true
is_document _ = false

-- The library: its nodes, and the values that Unmarshal gives where a Go map is asked for.
pub record Yaml : Type 1 where
  pub Node : Type 0
  pub kind : Node → Kind
  pub value : Node → Bytes
  pub content : Node → List Node
  pub make : Kind → Bytes → List Node → Node
  pub with_content : List Node → Node → Node
  pub with_value : Bytes → Node → Node
  -- Unmarshal into a node, and Marshal; `none` is an error.
  pub unmarshal : Bytes → Option Node
  pub marshal : Node → Option Bytes
  pub Value : Type 0
  -- Unmarshal into a map: an error, no map at all, or a map.
  pub decode : Bytes → Option (Option (Map Value))
  pub is_nil : Value → Bool
  pub as_text : Value → Option Bytes
  pub as_list : Value → Option (List Value)
  -- Node.Encode
  pub encode : Value → Option Node

-- The fields of a node are those that it is made with, or given.
pub record IsYaml (y : Yaml) : Type 0 where
  pub kind-make : (k : Kind) (v : Bytes) (ns : List y.Node) → y.kind (y.make k v ns) ≡ k
  pub value-make : (k : Kind) (v : Bytes) (ns : List y.Node) → y.value (y.make k v ns) ≡ v
  pub content-make : (k : Kind) (v : Bytes) (ns : List y.Node) → y.content (y.make k v ns) ≡ ns
  pub kind-with_content : (ns : List y.Node) (n : y.Node) → y.kind (y.with_content ns n) ≡ y.kind n
  pub kind-with_value : (v : Bytes) (n : y.Node) → y.kind (y.with_value v n) ≡ y.kind n
  pub value-with_value : (v : Bytes) (n : y.Node) → y.value (y.with_value v n) ≡ v
  pub content-with_content : (ns : List y.Node) (n : y.Node) → y.content (y.with_content ns n) ≡ ns

module _ (y : Yaml) where
  open y use {Node, value, content, make}

  -- The first node of a document.
  abbrev pub first_of : Bool → List Node → Option Node
  first_of true (n ∷ ns) = some n
  first_of _ _ = none

  abbrev pub mapping_of : Node → Option Node
  mapping_of doc = first_of (is_document (y.kind doc)) (content doc)

  -- A mapping that holds nothing yet.
  abbrev pub empty_mapping : Node
  empty_mapping = make mapping [] []

  abbrev pub text_node : Bytes → Node
  text_node v = make scalar v []

  -- The value of a key, the first that there is.
  unfoldable pub find_key : Bytes → List Node → Option Node
  find_key key [] = none
  find_key key (k ∷ []) = none
  find_key key (k ∷ v ∷ rest) =
      let later = find_key key rest in if eq_bytes (value k) key then some v else later

  -- The loop that changes the value of a key, the first that there is.
  unfoldable pub change_key : Bytes → (Node → Node) → List Node → List Node
  change_key key f [] = []
  change_key key f (k ∷ []) = k ∷ []
  change_key key f (k ∷ v ∷ rest) =
      let later = change_key key f rest in
      if eq_bytes (value k) key then k ∷ f v ∷ rest else k ∷ v ∷ later

  -- A key is set: its value is replaced, or it is put behind the others.
  abbrev pub set_found : Bytes → Node → List Node → Option Node → List Node
  set_found key v nodes none = nodes ++ text_node key ∷ v ∷ []
  set_found key v nodes (some old) = change_key key (λ _. v) nodes

  unfoldable pub set_key : Bytes → Node → List Node → List Node
  unfolding find_key change_key
  set_key key v nodes = set_found key v nodes (find_key key nodes)

  -- A key is removed, and a node with no value behind it.
  unfoldable pub remove_key : Bytes → List Node → List Node
  remove_key key [] = []
  remove_key key (k ∷ []) = []
  remove_key key (k ∷ v ∷ rest) =
      let later = remove_key key rest in
      if not (eq_bytes (value k) key) then k ∷ v ∷ later else later
