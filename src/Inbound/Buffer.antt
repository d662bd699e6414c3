-- ===== src/Inbound/Buffer.antt =====
-- The replay states of inbound.py, which hold the messages of a resumed session that have no
-- recipient yet.
use fast_mqtt.State.{discard}
use fast_mqtt.Dict.{pop}
use fast_mqtt.Prelude.{◌-◌}
use fast_mqtt.Prelude.{
  ℕ, ◌+◌, List, [], ◌∷◌, ◌++◌, Bool, false, ◌&&◌, ◌||◌, not, Option, none, some,
}
use fast_mqtt.Prelude.{has, leb, ◌==◌, if◌then◌else◌, Result, ok, err, protocol_error}
use fast_mqtt.Dict.{get, put}
use fast_mqtt.Topic.Split.{text_key}
use fast_mqtt.Packet.{Publish}
use fast_mqtt.Subscription.Index.{is_some}
use fast_mqtt.Inbound.{
  InboundRecipient, Buffered, Replay, no_session_replay, persistent_idle, persistent_buffered,
}

abbrev pub new_buffered : Buffered
new_buffered = record {
  publishes = [];
  packet_ids = [];
  topics = [];
  message_count = 0;
  delivery = none;
}

abbrev pub or_zero : Option ℕ → ℕ
or_zero none = 0
or_zero (some n) = n

-- `publish.packet_id is not None and publish.packet_id in self._packet_ids`
abbrev pub held_id : Option ℕ → List ℕ → Bool
held_id none ids = false
held_id (some pid) ids = has pid ids

-- A set, as the list of its elements
abbrev pub add_id : Option ℕ → List ℕ → List ℕ
add_id none ids = ids
add_id (some pid) ids = if has pid ids then ids else pid ∷ ids

abbrev pub discard_id : Option ℕ → List ℕ → List ℕ
discard_id none ids = ids
discard_id (some pid) ids = discard pid ids

-- `_discard`. A topic that is not counted would raise KeyError: a message that is held is counted.
unfoldable pub discard_publish : Publish → Buffered → Buffered
unfolding discard
discard_publish publish b =
    let topic_count = or_zero (get publish.topic b.topics) - 1 in
    record b {
      message_count = b.message_count - 1;
      topics =
          (if topic_count == 0
            then pop publish.topic b.topics
            else put publish.topic topic_count b.topics);
      packet_ids = discard_id publish.packet_id b.packet_ids;
    }

-- The last part of `accept`, after its tests
unfoldable pub buffer_publish : Publish → Buffered → Buffered
unfolding has
buffer_publish publish b = record b {
  publishes = b.publishes ++ publish ∷ [];
  packet_ids = add_id publish.packet_id b.packet_ids;
  topics = put publish.topic (or_zero (get publish.topic b.topics) + 1) b.topics;
  message_count = b.message_count + 1;
}

-- `self._buffer_size and self._message_count >= self._buffer_size`
abbrev pub is_full : ℕ → Buffered → Bool
is_full size b = not (size == 0) && leb size b.message_count

-- `_PersistentReplayBuffered.accept`: the recipient to deliver to, and the next state
unfoldable pub accept_buffered :
    ℕ → Publish → InboundRecipient → Buffered → Result (Option InboundRecipient × Replay)
unfolding buffer_publish
accept_buffered size publish recipient b =
    if is_some recipient.request
      || (is_some recipient.subscription && not (is_some (get publish.topic b.topics)))
    then ok (some recipient, persistent_buffered b)
    else if held_id publish.packet_id b.packet_ids
    then ok (none, persistent_buffered b)
    else if is_full size b
    then err protocol_error
    else ok (none, persistent_buffered (buffer_publish publish b))

-- `accept`
unfoldable pub accept :
    ℕ → Publish → InboundRecipient → Replay → Result (Option InboundRecipient × Replay)
unfolding accept_buffered
accept size publish recipient no_session_replay = ok (some recipient, no_session_replay)
accept size publish recipient persistent_idle =
    if is_some recipient.request || is_some recipient.subscription
    then ok (some recipient, persistent_idle)
    else accept_buffered size publish recipient new_buffered
accept size publish recipient (persistent_buffered b) = accept_buffered size publish recipient b

-- `contains_packet_id`
unfoldable pub contains_packet_id : ℕ → Replay → Bool
unfolding has
contains_packet_id pid no_session_replay = false
contains_packet_id pid persistent_idle = false
contains_packet_id pid (persistent_buffered b) = has pid b.packet_ids

-- `clear`
abbrev pub clear_replay : Replay → Replay
clear_replay replay = no_session_replay
