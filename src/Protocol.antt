-- ===== src/Protocol.antt =====
-- The state of src/zmqtt/_internal/protocol.py and state.py that the outbound flows use, and the
-- writing of a packet. A coroutine is cut where it awaits an answer: what it does up to there is one
-- function, and what it does with the answer another.
pub mod Publishing
pub mod Requests
pub mod Balance
pub mod Steps
pub mod Kept
pub mod Invariant
pub mod Tracking
pub mod Tables
pub mod Closing
pub mod Pending
pub mod Liveness
pub mod Exchange
pub mod Connecting
pub mod Subscribing
pub mod RollBack
use fast_mqtt.Prelude.{ℕ, List, [], ◌∷◌, ◌++◌, Bool, false}
use fast_mqtt.Prelude.{if◌then◌else◌, Result, ok, err, disconnected_error, os_error}
use fast_mqtt.Bytes.{Bytes}
use fast_mqtt.Dict.{Dict}
use fast_mqtt.Packet.{Version, QoS, exactly_once, Publish, Packet}
use fast_mqtt.Codec.Encode.{encode}
use fast_mqtt.Future.{Future, pending}
use fast_mqtt.State.{PacketIdPool, new_pool}

pub record QoS1Flight : Type 0 where
  pub packet_id : ℕ
  pub publish : Publish
  pub future : ℕ

pub data OutboundQoS2State : Type 0 where
  pending_pubrec pending_pubcomp : OutboundQoS2State

pub record OutboundQoS2Flight : Type 0 where
  pub packet_id : ℕ
  pub publish : Publish
  pub state : OutboundQoS2State
  pub future : ℕ

-- `SessionState`, without what the inbound flow alone uses.
pub record SessionState : Type 0 where
  pub packet_ids : PacketIdPool
  pub inflight_qos1 : Dict ℕ QoS1Flight
  pub inflight_qos2_out : Dict ℕ OutboundQoS2Flight
  pub pending_subs : Dict ℕ ℕ
  pub pending_unsubs : Dict ℕ ℕ

unfoldable pub new_session : SessionState
unfolding new_pool
new_session = record {
  packet_ids = new_pool;
  inflight_qos1 = [];
  inflight_qos2_out = [];
  pending_subs = [];
  pending_unsubs = [];
}

-- `futures` is the heap, `sent` what was written to the transport, and `broken` says that the
-- transport raises on a write.
pub record MqttProtocol : Type 0 where
  pub version : Version
  pub state : SessionState
  pub futures : List Future
  pub ping_waiters : List ℕ
  pub max_publish_qos : QoS
  pub dead : Bool
  pub sent : List Bytes
  pub broken : Bool

unfoldable pub new_protocol : Version → MqttProtocol
unfolding new_session
new_protocol v = record {
  version = v;
  state = new_session;
  futures = [];
  ping_waiters = [];
  max_publish_qos = exactly_once;
  dead = false;
  sent = [];
  broken = false;
}

-- A method that returns or raises, and the state that it leaves in either case.
abbrev pub Outcome {ℓ} : Type ℓ → Type ℓ
Outcome A = Result A × MqttProtocol

-- `_send`, of bytes that `_encode` returned
abbrev pub write : Result Bytes → MqttProtocol → Outcome (Unit {0})
write (err e) p = (err e, p)
write (ok bytes) p =
    if p.broken then (err os_error, p) else (ok tt, record p { sent = p.sent ++ bytes ∷ [] })

-- `send_packet`
unfoldable pub send_packet : Packet → MqttProtocol → Outcome (Unit {0})
send_packet packet p = write (encode p.version packet) p

-- `loop.create_future()`, whose position is the number of futures before it
unfoldable pub create_future : MqttProtocol → MqttProtocol
create_future p = record p { futures = p.futures ++ pending ∷ [] }
