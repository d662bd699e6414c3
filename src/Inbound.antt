-- ===== src/Inbound.antt =====
-- src/zmqtt/_internal/inbound.py: the flow of an incoming PUBLISH to one recipient, and its
-- acknowledgement. The recipients are those of routing.py, the messages those of types/message.py,
-- the flights those of state.py.
pub mod Buffer
pub mod Flow
pub mod Handshake
pub mod Bounded
pub mod Drain
pub mod Kept
pub mod Turns
pub mod Events
use fast_mqtt.Prelude.{ℕ, List, [], ◌∷◌, ◌++◌, Bool, true, false, Option, none, some}
use fast_mqtt.Prelude.{if◌then◌else◌, Result, ok, err, os_error}
use fast_mqtt.Bytes.{Bytes}
use fast_mqtt.Dict.{Dict}
use fast_mqtt.Utf8.{Text}
use fast_mqtt.Property.Publish.{PublishProperties}
use fast_mqtt.Packet
use fast_mqtt.Packet.{QoS, Publish}
use fast_mqtt.Subscription.{Item}
use fast_mqtt.Subscription.Index.{SubscriptionIndex}

-- `Message`, without its callback and its flag
pub record Message : Type 0 where
  pub topic : Text
  pub payload : Bytes
  pub qos : QoS
  pub retain : Bool
  pub properties : Option PublishProperties

-- `_make_message`
abbrev pub make_message : Publish → Message
make_message publish = record {
  topic = publish.topic;
  payload = publish.payload;
  qos = publish.qos;
  retain = publish.retain;
  properties = publish.properties;
}

-- A request that is claimed is a number.
pub record InboundRecipient : Type 0 where
  pub message : Message
  pub request : Option ℕ
  pub subscription : Option Item

abbrev auto_ack_of : Option ℕ → Option Item → Bool
auto_ack_of (some request) subscription = true
auto_ack_of none none = true
auto_ack_of none (some (filter, entry)) = entry.auto_ack

-- `InboundRecipient.auto_ack`
abbrev pub auto_ack : InboundRecipient → Bool
auto_ack recipient = auto_ack_of recipient.request recipient.subscription

pub data InboundQoS2State : Type 0 where
  pending_pubrel : InboundQoS2State

pub record InboundQoS2Flight : Type 0 where
  pub packet_id : ℕ
  pub recipient : InboundRecipient
  pub state : InboundQoS2State
  pub delivered : Bool

-- The closures `_puback` and `_pubrec`, with what they capture
pub data Callback : Type 0 where
  puback : (pid : ℕ) → Callback
  pubrec : (pid : ℕ) → InboundRecipient → Callback

-- A response handed to its request, or a message put on a queue, with its callback and its flag
-- `_resolved`
pub data Delivery : Type 0 where
  response : (request : ℕ) → Message → Delivery
  queued : Item → Message → Option Callback → (resolved : Bool) → Delivery

-- A run of `_deliver_pending` that is under way: its locals `unmatched` and `pending`, the message
-- whose `deliver_replay` it awaits, and whether `expire` runs it and not `drain`.
pub record Delivering : Type 0 where
  pub expiring : Bool
  pub unmatched : List Publish
  pub pending : List Publish
  pub current : Option Publish

-- `_PersistentReplayBuffered`, without the task of its expiration. `delivery` is the run that holds the
-- lock.
pub record Buffered : Type 0 where
  pub publishes : List Publish
  pub packet_ids : List ℕ
  pub topics : Dict Text ℕ
  pub message_count : ℕ
  pub delivery : Option Delivering

-- `_ReplayState`
pub data Replay : Type 0 where
  no_session_replay persistent_idle : Replay
  persistent_buffered : Buffered → Replay

-- `InboundPublishFlow`, with the part of the session that it changes. `sent` has the packets that
-- the connection took; `broken` is a transport that refuses writes, `aborted` a connection closed by
-- `abort`; `deliveries` is in the order in which the messages were delivered.
pub record InboundPublishFlow : Type 0 where
  pub subscriptions : SubscriptionIndex
  pub inflight_qos2_in : Dict ℕ InboundQoS2Flight
  pub pending_ack_qos2_in : List ℕ
  pub buffer_size : ℕ
  pub replay : Replay
  pub sent : List Packet.Packet
  pub broken : Bool
  pub aborted : Bool
  pub deliveries : List Delivery

abbrev pub Outcome : Type 0
Outcome = Result (Unit {0}) × InboundPublishFlow

abbrev pub and_then : Outcome → (InboundPublishFlow → Outcome) → Outcome
and_then (err e, f) next = (err e, f)
and_then (ok _, f) next = next f

-- `send_packet` of the connection
abbrev pub send : Packet.Packet → InboundPublishFlow → Outcome
send packet f =
    if f.broken then (err os_error, f) else (ok tt, record f { sent = f.sent ++ packet ∷ [] })
