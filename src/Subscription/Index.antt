-- ===== src/Subscription/Index.antt =====
-- `SubscriptionIndex` of subscription_index.py.
use fast_mqtt.Prelude.{ℕ, List, [], ◌∷◌, Bool, true, false, ◌||◌, Option, none, some}
use fast_mqtt.Prelude.{◌>>=◌, is_empty, if◌then◌else◌, Result, ok}
use fast_mqtt.Dict.{Dict, number_eq, get, put, pop}
use fast_mqtt.Utf8.{Text, text_eq}
use fast_mqtt.Topic.{split, actual_matches}
use fast_mqtt.Topic.Split.{text_key}
use fast_mqtt.Subscription.{
  SubscriptionEntry, Item, SubscriptionSelection, actual_filter_of, item_key, tuple_less,
  select_from,
}
use fast_mqtt.Subscription.Node.{Node, empty_node, add_entry, remove_entry, collect}

pub record SubscriptionIndex : Type 0 where
  pub root : Node
  pub entries : Dict Text SubscriptionEntry
  pub by_identifier : Dict ℕ (Dict Text SubscriptionEntry)
  pub response_observers : List Text

unfoldable pub new_index : SubscriptionIndex
new_index = record { root = empty_node; entries = []; by_identifier = []; response_observers = [] }

abbrev pub dict_or_empty : Option (Dict Text SubscriptionEntry) → Dict Text SubscriptionEntry
dict_or_empty none = []
dict_or_empty (some d) = d

-- `topic in topics`, and `topics.remove(topic)`
unfoldable pub has_text : Text → List Text → Bool
unfolding text_eq
has_text topic [] = false
has_text topic (t ∷ topics) = text_eq t topic || has_text topic topics

unfoldable pub discard_text : Text → List Text → List Text
unfolding text_eq
discard_text topic [] = []
discard_text topic (t ∷ topics) =
    let rest = discard_text topic topics in if text_eq t topic then rest else t ∷ rest

abbrev pub is_some {ℓ} : {A : Type ℓ} → Option A → Bool
is_some none = false
is_some (some a) = true

-- `self._by_identifier.setdefault(identifier, {})[filter_] = entry`
unfoldable pub identify :
    Option ℕ → Item → Dict ℕ (Dict Text SubscriptionEntry) → Dict ℕ (Dict Text SubscriptionEntry)
identify none item d = d
identify (some identifier) (filter, entry) d =
    put identifier (put filter entry (dict_or_empty (get identifier d))) d

-- The end of `remove`: a dict that is empty goes.
unfoldable pub forget :
    Option ℕ → Text → Dict ℕ (Dict Text SubscriptionEntry) → Dict ℕ (Dict Text SubscriptionEntry)
forget none filter d = d
forget (some identifier) filter d = elim (get identifier d) [
  | none ↦ d
  | some identified ↦
      let rest = pop filter identified in
      if is_empty rest then pop identifier d else put identifier rest d
]

-- `remove`, for an entry that is there
unfoldable pub remove_item : Item → SubscriptionIndex → SubscriptionIndex
unfolding actual_filter_of split remove_entry forget
remove_item (filter, entry) index = record index {
  root = remove_entry (split (actual_filter_of (filter, entry))) filter entry.address index.root;
  entries = pop filter index.entries;
  by_identifier = forget entry.subscription_identifier filter index.by_identifier;
}

-- `remove`, and the entry that it returns
unfoldable pub remove : Text → SubscriptionIndex → Option SubscriptionEntry × SubscriptionIndex
unfolding remove_item
remove filter index = elim (get filter index.entries) [
  | none ↦ (none, index)
  | some entry ↦ (some entry, remove_item (filter, entry) index)
]

-- `add`, of a filter that has no entry
unfoldable pub add_item : Item → SubscriptionIndex → SubscriptionIndex
unfolding actual_filter_of split add_entry identify
add_item (filter, entry) index = record index {
  root = add_entry (split (actual_filter_of (filter, entry))) (filter, entry) index.root;
  entries = put filter entry index.entries;
  by_identifier = identify entry.subscription_identifier (filter, entry) index.by_identifier;
}

-- `add`
unfoldable pub add : Text → SubscriptionEntry → SubscriptionIndex → SubscriptionIndex
unfolding remove add_item
add filter entry index = add_item (filter, entry) (remove filter index).1

-- `add_many`
unfoldable pub add_many : Dict Text SubscriptionEntry → SubscriptionIndex → SubscriptionIndex
unfolding add
add_many [] index = index
add_many ((filter, entry) ∷ more) index = add_many more (add filter entry index)

-- `clear`
unfoldable pub clear : SubscriptionIndex → SubscriptionIndex
unfolding new_index
clear index = new_index

-- `contains`
unfoldable pub contains : Text → SubscriptionIndex → Bool
contains filter index = is_some (get filter index.entries)

-- `filter(_topic_matches)` over items, as the comprehensions of `match` and of
-- `select_by_identifier` have it
unfoldable pub matching : Text → List Item → List Item
unfolding actual_matches actual_filter_of
matching topic [] = []
matching topic (item ∷ items) =
    let rest = matching topic items in
    if actual_matches (actual_filter_of item) topic then item ∷ rest else rest

unfoldable pub insert_by_key : Item → List Item → List Item
unfolding tuple_less item_key
insert_by_key item [] = item ∷ []
insert_by_key item (first ∷ items) =
    let rest = insert_by_key item items in
    if tuple_less (item_key first) (item_key item) then first ∷ rest else item ∷ first ∷ items

-- `sorted(…, key=_specificity)`, which is stable
unfoldable pub sort_by_key : List Item → List Item
unfolding insert_by_key
sort_by_key [] = []
sort_by_key (item ∷ items) = insert_by_key item (sort_by_key items)

-- `match`
unfoldable pub match_topic : Text → SubscriptionIndex → List Item
unfolding collect split matching sort_by_key
match_topic topic index = sort_by_key (matching topic (collect (split topic) index.root))

-- `by_identifier`
unfoldable pub identified_by : ℕ → SubscriptionIndex → List Item
identified_by identifier index = dict_or_empty (get identifier index.by_identifier)

-- `select`, and `best` is its recipient.
unfoldable pub select : Text → SubscriptionIndex → Result SubscriptionSelection
unfolding match_topic select_from
select topic index = select_from (match_topic topic index)

-- `matching or identified`
abbrev pub or_else : List Item → List Item → List Item
or_else [] items = items
or_else (item ∷ items) others = item ∷ items

abbrev pub as_fallback : SubscriptionSelection → SubscriptionSelection
as_fallback selection = record selection { identifier_missing = true }

-- `select_by_identifier`
unfoldable pub select_by_identifier : Text → ℕ → SubscriptionIndex → Result SubscriptionSelection
unfolding identified_by matching select select_from
select_by_identifier topic identifier index = elim (identified_by identifier index) [
  | [] ↦ select topic index >>= λ selection. ok (as_fallback selection)
  | item ∷ items ↦ select_from (or_else (matching topic (item ∷ items)) (item ∷ items))
]

-- A set of topics, as a list without a topic twice
unfoldable pub has_response_observer : Text → SubscriptionIndex → Bool
has_response_observer topic index = has_text topic index.response_observers

unfoldable pub add_response_observer : Text → SubscriptionIndex → Bool × SubscriptionIndex
unfolding has_response_observer
add_response_observer topic index =
    if has_text topic index.response_observers
    then (false, index)
    else (true, record index { response_observers = topic ∷ index.response_observers })

unfoldable pub remove_response_observer : Text → SubscriptionIndex → Bool × SubscriptionIndex
remove_response_observer topic index =
    if has_text topic index.response_observers
    then (true, record index { response_observers = discard_text topic index.response_observers })
    else (false, index)
