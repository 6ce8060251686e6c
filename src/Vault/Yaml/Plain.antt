-- ===== src/Vault/Yaml/Plain.antt =====
-- A library for the tests, in the place of gopkg.in/yaml.v3: it reads one text, and writes every mapping of
-- texts and of sequences of texts. It stands for no code.
use obsidian_mcp_server.Prelude.{
  ◌≡◌, refl, ap, Option, none, some, List, [], ◌∷◌, ◌++◌, if◌then◌else◌,
}
use obsidian_mcp_server.Maps.{empty, insert}
use obsidian_mcp_server.Strings.{Bytes, codes, eq_bytes}
use obsidian_mcp_server.Vault.Yaml.{Kind, document, mapping, sequence, scalar, Yaml, IsYaml}

mutual
  pub data Plain : Type 0 where
    plain : Kind → Bytes → Plains → Plain

  pub data Plains : Type 0 where
    end : Plains
    more : Plain → Plains → Plains

abbrev listed : Plains → List Plain
listed end = []
listed (more n ns) = n ∷ listed ns

abbrev unlisted : List Plain → Plains
unlisted [] = end
unlisted (n ∷ ns) = more n (unlisted ns)

listed-unlisted : (ns : List Plain) → listed (unlisted ns) ≡ ns
listed-unlisted [] = refl
listed-unlisted (n ∷ ns) = ap (◌∷◌ n) (listed-unlisted ns)

abbrev pub kind_of : Plain → Kind
kind_of (plain k v ns) = k

abbrev pub value_of : Plain → Bytes
value_of (plain k v ns) = v

abbrev pub content_of : Plain → List Plain
content_of (plain k v ns) = listed ns

abbrev pub make_node : Kind → Bytes → List Plain → Plain
make_node k v ns = plain k v (unlisted ns)

abbrev set_content : List Plain → Plain → Plain
set_content ms (plain k v ns) = plain k v (unlisted ms)

abbrev set_value : Bytes → Plain → Plain
set_value w (plain k v ns) = plain k w ns

abbrev written_items : List Plain → Bytes
written_items [] = []
written_items (plain k v ns ∷ ms) = v ++ b',' ∷ written_items ms

abbrev written_value : Plain → Bytes
written_value (plain sequence v ns) = b'[' ∷ (written_items (listed ns) ++ b']' ∷ [])
written_value (plain k v ns) = v

abbrev written_pairs : List Plain → Bytes
written_pairs (plain k v ns ∷ m ∷ ms) = v ++ (b':' ∷ written_value m) ++ (b'\n' ∷ written_pairs ms)
written_pairs _ = []

abbrev written : Plain → Bytes
written (plain k v ns) = written_pairs (listed ns)

abbrev pub text : Bytes → Plain
text v = plain scalar v end

-- tags:[a,] and title:t
abbrev pub sample_nodes : List Plain
sample_nodes =
    text (codes "tags")
    ∷ make_node sequence [] (text (codes "a") ∷ [])
    ∷ text (codes "title")
    ∷ text (codes "t")
    ∷ []

abbrev pub sample_text : Bytes
sample_text = codes "tags:[a,]\ntitle:t\n"

abbrev read : Bytes → Option Plain
read raw =
    if eq_bytes raw sample_text
    then some (make_node document [] (make_node mapping [] sample_nodes ∷ []))
    else none

abbrev pub plain_yaml : Yaml
plain_yaml = record {
  Node = Plain;
  kind = kind_of;
  value = value_of;
  content = content_of;
  make = make_node;
  with_content = set_content;
  with_value = set_value;
  unmarshal = read;
  marshal = λ n. some (written n);
  Value = Bytes;
  decode = λ raw. some (some (insert (codes "tags") (codes "a") empty));
  is_nil = λ v. eq_bytes v [];
  as_text = λ v. some v;
  as_list = λ v. none;
  encode = λ v. some (text v);
}

pub plain_yaml-IsYaml : IsYaml plain_yaml
plain_yaml-IsYaml = record {
  kind-make = λ k v ns. refl;
  value-make = λ k v ns. refl;
  content-make = λ k v ns. listed-unlisted ns;
  kind-with_content = λ ns n. kind_kept ns n;
  kind-with_value = λ v n. kind_same v n;
  value-with_value = λ v n. value_set v n;
  content-with_content = λ ns n. content_set ns n;
}
  where
    kind_kept : (ns : List Plain) (n : Plain) → kind_of (set_content ns n) ≡ kind_of n
    kind_kept ns (plain k v ms) = refl

    kind_same : (v : Bytes) (n : Plain) → kind_of (set_value v n) ≡ kind_of n
    kind_same w (plain k v ms) = refl

    value_set : (v : Bytes) (n : Plain) → value_of (set_value v n) ≡ v
    value_set w (plain k v ms) = refl

    content_set : (ns : List Plain) (n : Plain) → content_of (set_content ns n) ≡ ns
    content_set ns (plain k v ms) = listed-unlisted ns
