-- ===== src/Subscription.antt =====
-- src/zmqtt/_internal/subscription_index.py: `SubscriptionEntry`, `SubscriptionSelection` and the
-- choice among the subscriptions that match; `_segment_rank` of topic_matching.py.
pub mod Best
pub mod Node
pub mod Index
pub mod Tree
pub mod Collect
pub mod Added
pub mod Refinement
pub mod Identifiers
pub mod Calls
pub mod Sorted
pub mod Match
pub mod Valid
use fast_mqtt.Prelude.{ℕ, List, [], ◌∷◌, Bool, true, false, Option, none, some, map}
use fast_mqtt.Prelude.{is_empty, length, ltb, if◌then◌else◌, Result, ok, err, index_error}
use fast_mqtt.Utf8.{Text, text_eq}
use fast_mqtt.Topic.{hash, plus, split, actual_matches}

-- The object's identity, which `is` compares, and without the queue, which the index never looks at.
pub record SubscriptionEntry : Type 0 where
  pub address : ℕ
  pub auto_ack : Bool
  pub actual_filter : Text
  pub subscription_identifier : Option ℕ

abbrev pub Item : Type 0
Item = Text × SubscriptionEntry

pub data Among (item : Item) : List Item → Type 0 where
  here : {items : List Item} → Among item (item ∷ items)
  there : {other : Item} {items : List Item} → Among item items → Among item (other ∷ items)

pub record SubscriptionSelection : Type 0 where
  pub recipient : Option Item
  pub identifier_missing : Bool
  pub tied_filters : List Text

-- `_actual_filter`: an empty text is false
unfoldable pub actual_filter_of : Item → Text
actual_filter_of (filter, entry) =
    if is_empty entry.actual_filter then filter else entry.actual_filter

-- `_segment_rank`
unfoldable pub segment_rank : Text → ℕ
unfolding text_eq
segment_rank segment =
    if text_eq segment (hash ∷ []) then 2 else if text_eq segment (plus ∷ []) then 1 else 0

-- `_specificity`, and `_filter_specificity` of topic_matching.py
unfoldable pub specificity : Text → List ℕ
unfolding segment_rank split
specificity filter = map segment_rank (split filter)

-- `s < t` on tuples
unfoldable pub tuple_less : List ℕ → List ℕ → Bool
tuple_less [] [] = false
tuple_less [] (b ∷ t) = true
tuple_less (a ∷ s) [] = false
tuple_less (a ∷ s) (b ∷ t) = if ltb a b then true else if ltb b a then false else tuple_less s t

unfoldable pub item_key : Item → List ℕ
unfolding actual_filter_of specificity
item_key item = specificity (actual_filter_of item)

-- `min(...)`, with the first key in hand
unfoldable pub min_key : List ℕ → List Item → List ℕ
unfolding tuple_less item_key
min_key best [] = best
min_key best (item ∷ items) =
    min_key (if tuple_less (item_key item) best then item_key item else best) items

-- The candidates that have the best key; tuples of numbers are compared as texts are.
unfoldable pub winners : List ℕ → List Item → List Item
unfolding item_key text_eq
winners best [] = []
winners best (item ∷ items) =
    let rest = winners best items in if text_eq (item_key item) best then item ∷ rest else rest

abbrev pub filters_of : List Item → List Text
filters_of [] = []
filters_of ((filter, entry) ∷ items) = filter ∷ filters_of items

-- `winners[0]`, and `tied_filters`
abbrev pub selection_of : List Item → Result SubscriptionSelection
selection_of [] = err index_error
selection_of (item ∷ []) =
    ok (record { recipient = some item; identifier_missing = false; tied_filters = [] })
selection_of (item ∷ next ∷ items) = ok (record {
  recipient = some item;
  identifier_missing = false;
  tied_filters = filters_of (item ∷ next ∷ items);
})

-- `_select_from`
unfoldable pub select_from : List Item → Result SubscriptionSelection
unfolding min_key winners
select_from [] = ok (record { recipient = none; identifier_missing = false; tied_filters = [] })
select_from (item ∷ items) = selection_of (winners (min_key (item_key item) items) (item ∷ items))
