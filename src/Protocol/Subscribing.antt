-- ===== src/Protocol/Subscribing.antt =====
-- `_subscribe` of protocol.py around its request: the entries that it registers before it sends
-- SUBSCRIBE, and what it does with them when the request is over.
use fast_mqtt.Prelude.{ℕ, suc, List, [], ◌∷◌, Bool, Option}
use fast_mqtt.Prelude.{if◌then◌else◌, Result, ok, err, ◌>>=◌}
use fast_mqtt.Dict.{Dict, put}
use fast_mqtt.Utf8.{Text}
use fast_mqtt.Topic.{shared_filter_to_actual}
use fast_mqtt.Topic.Split.{text_key}
use fast_mqtt.Packet.{SubscriptionRequest, SubAck}
use fast_mqtt.Subscription.{SubscriptionEntry}
use fast_mqtt.Subscription.Index.{SubscriptionIndex, contains, remove}

-- What every entry of a subscription has, and the tuple of stripped prefixes
pub record Options : Type 0 where
  pub prefixes : List Text
  pub acks : Bool
  pub identifier : Option ℕ

-- `SubscriptionEntry(...)`, a new object at the address
abbrev pub entry_for : Options → ℕ → Text → SubscriptionEntry
entry_for options address actual = record {
  address = address;
  auto_ack = options.acks;
  actual_filter = actual;
  subscription_identifier = options.identifier;
}

-- A round of the loop over the filters
unfoldable pub register :
    Options
    → ℕ
    → Text
    → SubscriptionIndex
    → Dict Text SubscriptionEntry
    → Result (Dict Text SubscriptionEntry)
unfolding contains
register options address filter index entries =
    if contains filter index
    then ok entries
    else shared_filter_to_actual filter options.prefixes >>= λ actual.
        ok (put filter (entry_for options address actual) entries)

-- The loop, with the entries so far
unfoldable pub new_entries :
    Options
    → ℕ
    → List SubscriptionRequest
    → SubscriptionIndex
    → Dict Text SubscriptionEntry
    → Result (Dict Text SubscriptionEntry)
unfolding register
new_entries options address [] index entries = ok entries
new_entries options address (req ∷ reqs) index entries =
    register options address req.topic_filter index entries
    >>= new_entries options (suc address) reqs index

-- `for f in new_entries: self._state.subscriptions.remove(f)`
unfoldable pub roll_back : Dict Text SubscriptionEntry → SubscriptionIndex → SubscriptionIndex
unfolding remove
roll_back [] index = index
roll_back ((filter, entry) ∷ entries) index = roll_back entries (remove filter index).1

-- The `finally`, by what `_send_subscribe` returned or raised
unfoldable pub subscribe_over :
    Result SubAck → Dict Text SubscriptionEntry → SubscriptionIndex → SubscriptionIndex
unfolding roll_back
subscribe_over (ok suback) entries index = index
subscribe_over (err e) entries index = roll_back entries index
