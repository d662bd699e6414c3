-- ===== src/Examples/Index.antt =====
-- Indexes at which the theorems on subscription_index.py are applied.
use fast_mqtt.Prelude.{◌≡◌, ◌↔◌, refl, List, [], ◌∷◌, true, false, none, some, ok}
use fast_mqtt.Utf8.{Text, text_eq}
use fast_mqtt.Topic.{split, starts_with, match_parts, actual_matches}
use fast_mqtt.Subscription.{
  SubscriptionEntry, SubscriptionSelection, Item, Among, actual_filter_of, item_key, tuple_less,
  specificity,
}
use fast_mqtt.Prelude.{err, disconnected_error}
use fast_mqtt.Dict.{Dict, get, put}
use fast_mqtt.Packet.{SubscriptionRequest, at_most_once, send_on_subscribe}
use fast_mqtt.Topic.{shared_filter_to_actual, strip_prefix, default_stripped_prefixes}
use fast_mqtt.Protocol.Subscribing.{Options, register, new_entries, subscribe_over}
use fast_mqtt.Protocol.RollBack.{failed_subscribe-Holds}
use fast_mqtt.Subscription.Index.{add, contains, add_many, new_index, match_topic, select}
use fast_mqtt.Subscription.Collect.{hash_last}
use fast_mqtt.Prelude.{has}
use fast_mqtt.Topic.Validate.{validate_subscribe_topic, check_hash, check_levels, index_of}
use fast_mqtt.Subscription.Valid.{validate_subscribe_topic-hash_last}
use fast_mqtt.Subscription.Sorted.{Precedes}
use fast_mqtt.Subscription.Calls.{Call, adds, removes, calls, table_of, Holds, calls-Holds}
use fast_mqtt.Subscription.Match.{match_topic-table, match_topic-Precedes, select-table}

-- "a/#", "a/+" and the topic "a/b"
abbrev all_below : Text
all_below = 97 ∷ 47 ∷ 35 ∷ []

abbrev one_below : Text
one_below = 97 ∷ 47 ∷ 43 ∷ []

abbrev topic_a_b : Text
topic_a_b = 97 ∷ 47 ∷ 98 ∷ []

abbrev plain_entry : SubscriptionEntry
plain_entry = record {
  address = 1;
  auto_ack = true;
  actual_filter = [];
  subscription_identifier = none;
}

abbrev known_entry : SubscriptionEntry
known_entry = record {
  address = 2;
  auto_ack = true;
  actual_filter = [];
  subscription_identifier = some 5;
}

abbrev three_calls : List Call
three_calls = adds all_below plain_entry ∷ adds one_below known_entry ∷ removes topic_a_b ∷ []

calls-Holds_example : Holds (table_of three_calls (λ j. none)) (calls three_calls new_index)
calls-Holds_example = calls-Holds three_calls

all_below-hash_last : hash_last (split (actual_filter_of (all_below, plain_entry))) ≡ true
unfolding hash_last split actual_filter_of text_eq
all_below-hash_last = refl

all_below-held : table_of three_calls (λ j. none) all_below ≡ some plain_entry
unfolding text_eq
all_below-held = refl

all_below-matches : actual_matches (actual_filter_of (all_below, plain_entry)) topic_a_b ≡ true
unfolding actual_matches split actual_filter_of text_eq match_parts starts_with
all_below-matches = refl

match_topic-table_example :
    Among (all_below, plain_entry) (match_topic topic_a_b (calls three_calls new_index)) ↔ (
      (table_of three_calls (λ j. none) all_below ≡ some plain_entry)
      × (actual_matches (actual_filter_of (all_below, plain_entry)) topic_a_b ≡ true))
match_topic-table_example =
    match_topic-table three_calls topic_a_b all_below plain_entry all_below-hash_last

one_below-hash_last : hash_last (split (actual_filter_of (one_below, known_entry))) ≡ true
unfolding hash_last split actual_filter_of text_eq
one_below-hash_last = refl

one_below-held : table_of three_calls (λ j. none) one_below ≡ some known_entry
unfolding text_eq
one_below-held = refl

one_below-matches : actual_matches (actual_filter_of (one_below, known_entry)) topic_a_b ≡ true
unfolding actual_matches split actual_filter_of text_eq match_parts starts_with
one_below-matches = refl

one_below-less :
    tuple_less (item_key (one_below, known_entry)) (item_key (all_below, plain_entry)) ≡ true
unfolding tuple_less item_key specificity split actual_filter_of text_eq
one_below-less = refl

match_topic-Precedes_example :
    Precedes
      (one_below, known_entry)
      (all_below, plain_entry)
      (match_topic topic_a_b (calls three_calls new_index))
match_topic-Precedes_example =
    match_topic-Precedes three_calls topic_a_b (one_below, known_entry) (all_below, plain_entry)
      one_below-held all_below-held one_below-hash_last all_below-hash_last one_below-matches
      all_below-matches one_below-less

select-table_example :
    (selection : SubscriptionSelection) × (best : Item) × (select topic_a_b
        (calls three_calls new_index)
      ≡ ok selection)
    × (selection.recipient ≡ some best)
    × (table_of three_calls (λ j. none) best.0 ≡ some best.1)
    × (actual_matches (actual_filter_of best) topic_a_b ≡ true)
    × (tuple_less (item_key (all_below, plain_entry)) (item_key best) ≡ false)
select-table_example =
    select-table three_calls topic_a_b all_below plain_entry all_below-held all_below-hash_last
      all_below-matches

abbrev two_requests : List SubscriptionRequest
two_requests =
    record {
      topic_filter = topic_a_b;
      qos = at_most_once;
      no_local = false;
      retain_as_published = false;
      retain_handling = send_on_subscribe;
    }
    ∷ record {
      topic_filter = all_below;
      qos = at_most_once;
      no_local = false;
      retain_as_published = false;
      retain_handling = send_on_subscribe;
    }
    ∷ []

abbrev default_options : Options
default_options = record { prefixes = default_stripped_prefixes; acks = true; identifier = none }

abbrev registered : Dict Text SubscriptionEntry
registered =
    (
      topic_a_b,
      record {
        address = 7;
        auto_ack = true;
        actual_filter = topic_a_b;
        subscription_identifier = none;
      },
    )
    ∷ []

two_requests-registered :
    new_entries default_options 7 two_requests (calls three_calls new_index) [] ≡ ok registered
unfolding new_entries register contains calls shared_filter_to_actual strip_prefix get add new_index
    put starts_with text_eq
two_requests-registered = refl

failed_subscribe-Holds_example : Holds (table_of three_calls (λ j. none)) (
    subscribe_over
      (err disconnected_error)
      registered
      (add_many registered (calls three_calls new_index)))
failed_subscribe-Holds_example =
    failed_subscribe-Holds three_calls default_options 7 two_requests registered disconnected_error
      two_requests-registered

all_below-validates : validate_subscribe_topic all_below ≡ ok tt
unfolding validate_subscribe_topic check_hash check_levels split has index_of text_eq
all_below-validates = refl

validate_subscribe_topic-hash_last_example : hash_last (split all_below) ≡ true
validate_subscribe_topic-hash_last_example =
    validate_subscribe_topic-hash_last all_below all_below-validates
