-- ===== src/Subscription/Node.antt =====
-- `_Node` of subscription_index.py.
use fast_mqtt.Prelude.{ℕ, List, [], ◌∷◌, ◌++◌, Bool, true, false, ◌&&◌, ◌||◌, Option, none, some}
use fast_mqtt.Prelude.{◌==◌, if◌then◌else◌}
use fast_mqtt.Dict.{Dict, number_eq, get, put, pop}
use fast_mqtt.Utf8.{Text, text_eq}
use fast_mqtt.Topic.{hash, plus}
use fast_mqtt.Topic.Split.{text_key}
use fast_mqtt.Subscription.{Item}

-- `_Node`, whose two mappings are dicts from a segment to a node
mutual
  pub data Node : Type 0 where
    node : (children wildcard_children : Children) (entries : List Item) → Node

  pub data Children : Type 0 where
    no_more : Children
    child : Text → Node → Children → Children

unfoldable pub as_dict : Children → Dict Text Node
as_dict no_more = []
as_dict (child part n more) = (part, n) ∷ as_dict more

unfoldable pub of_dict : Dict Text Node → Children
of_dict [] = no_more
of_dict ((part, n) ∷ more) = child part n (of_dict more)

abbrev pub empty_node : Node
empty_node = node no_more no_more []

abbrev pub entries_of : Node → List Item
entries_of (node children wildcards entries) = entries

-- `node.wildcard_children` for true, and `node.children` for false
abbrev pub mapping_of : Bool → Node → Dict Text Node
mapping_of true (node children wildcards entries) = as_dict wildcards
mapping_of false (node children wildcards entries) = as_dict children

abbrev pub with_mapping : Bool → Dict Text Node → Node → Node
with_mapping true d (node children wildcards entries) = node children (of_dict d) entries
with_mapping false d (node children wildcards entries) = node (of_dict d) wildcards entries

-- `part in {"+", "#"}`
unfoldable pub is_wildcard : Text → Bool
unfolding text_eq
is_wildcard part = text_eq part (plus ∷ []) || text_eq part (hash ∷ [])

abbrev pub or_empty : Option Node → Node
or_empty none = empty_node
or_empty (some n) = n

abbrev pub append_entry : Item → Node → Node
append_entry item (node children wildcards entries) = node children wildcards (entries ++ item ∷ [])

-- The loop of `add`, with `setdefault`, and the append to the entries of the node that it reaches.
unfoldable pub add_entry : List Text → Item → Node → Node
unfolding is_wildcard as_dict of_dict
add_entry [] item n = append_entry item n
add_entry (part ∷ parts) item n =
    let mapping = mapping_of (is_wildcard part) n in
    with_mapping (is_wildcard part)
      (put part (add_entry parts item (or_empty (get part mapping))) mapping) n

-- `[item for item in entries if not (item[0] == filter_ and item[1] is entry)]`
unfoldable pub without : Text → ℕ → List Item → List Item
without filter address [] = []
without filter address (item ∷ items) =
    let rest = without filter address items in
    if text_eq item.0 filter && (item.1.address == address) then rest else item ∷ rest

unfoldable pub drop_entry : Text → ℕ → Node → Node
unfolding without
drop_entry filter address (node children wildcards entries) =
    node children wildcards (without filter address entries)

-- `not child.children and not child.wildcard_children and not child.entries`
abbrev pub is_bare : Node → Bool
is_bare (node no_more no_more []) = true
is_bare (node no_more no_more (item ∷ items)) = false
is_bare (node no_more (child part n more) entries) = false
is_bare (node (child part n more) wildcards entries) = false

-- The child that changed, which goes when it is bare
abbrev pub keep_child : Text → Node → Dict Text Node → Dict Text Node
keep_child part n mapping = if is_bare n then pop part mapping else put part n mapping

-- `_remove_entry`
unfoldable pub remove_entry : List Text → Text → ℕ → Node → Node
unfolding is_wildcard as_dict of_dict drop_entry
remove_entry [] filter address n = drop_entry filter address n
remove_entry (part ∷ parts) filter address n = elim (get part (mapping_of (is_wildcard part) n)) [
  | none ↦ n
  | some c ↦
      with_mapping (is_wildcard part)
        (keep_child part (remove_entry parts filter address c) (mapping_of (is_wildcard part) n)) n
]

abbrev pub below : (Node → List Item) → Option Node → List Item
below f none = []
below f (some n) = f n

-- `_collect`, on the parts from `idx` on
unfoldable pub collect : List Text → Node → List Item
unfolding as_dict
collect [] n = below entries_of (get (hash ∷ []) (mapping_of true n)) ++ entries_of n
collect (part ∷ parts) n =
    below entries_of (get (hash ∷ []) (mapping_of true n))
    ++ (below (collect parts) (get part (mapping_of false n))
        ++ below (collect parts) (get (plus ∷ []) (mapping_of true n)))
