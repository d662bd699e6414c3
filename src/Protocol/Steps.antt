-- ===== src/Protocol/Steps.antt =====
-- What can happen to the outbound state of a connection, one event after another.
use fast_mqtt.Prelude.{ℕ, ◌≡◌, List, Bool, Option, some}
use fast_mqtt.Dict.{number_eq, get}
use fast_mqtt.Utf8.{Text}
use fast_mqtt.Packet.{Version, QoS, Publish, PubReply, SubscriptionRequest, SubAck, UnsubAck}
use fast_mqtt.Future.{cancelled, settle, IsPending}
use fast_mqtt.Protocol.{MqttProtocol, new_protocol}
use fast_mqtt.Protocol.Publishing.{publish, handle_puback, handle_pubrec, handle_pubcomp}
use fast_mqtt.Protocol.Requests.{
  close_sub, close_unsub, send_subscribe, send_unsubscribe, handle_suback, handle_unsuback, ping,
  handle_pingresp, ping_timeout, run_ended,
}

-- A coroutine that awaits the answer to a request holds its identifier and its future, and ends when
-- the future is done, or when its task is cancelled, which cancels the future.
pub data Step (p : MqttProtocol) : MqttProtocol → Type 0 where
  publishes : (packet : Publish) → Step p (publish packet p).1
  publish_cancelled :
      (future : ℕ) → Step p (record p { futures = settle future cancelled p.futures })
  puback : (packet : PubReply) → Step p (handle_puback packet p).1
  pubrec : (packet : PubReply) → Step p (handle_pubrec packet p).1
  pubcomp : (packet : PubReply) → Step p (handle_pubcomp packet p).1
  subscribes :
      (filters : List SubscriptionRequest) (identifier : Option ℕ)
      → Step p (send_subscribe filters identifier p).1
  suback : (packet : SubAck) → Step p (handle_suback packet p).1
  subscribe_ends :
      (pid : ℕ) {future : ℕ}
      → get pid p.state.pending_subs ≡ some future
      → ¬ IsPending future p.futures
      → Step p (close_sub pid p)
  subscribe_cancelled :
      (pid : ℕ) {future : ℕ}
      → get pid p.state.pending_subs ≡ some future
      → Step p (close_sub pid (record p { futures = settle future cancelled p.futures }))
  unsubscribes : (filters : List Text) → Step p (send_unsubscribe filters p).1
  unsuback : (packet : UnsubAck) → Step p (handle_unsuback packet p).1
  unsubscribe_ends :
      (pid : ℕ) {future : ℕ}
      → get pid p.state.pending_unsubs ≡ some future
      → ¬ IsPending future p.futures
      → Step p (close_unsub pid p)
  unsubscribe_cancelled :
      (pid : ℕ) {future : ℕ}
      → get pid p.state.pending_unsubs ≡ some future
      → Step p (close_unsub pid (record p { futures = settle future cancelled p.futures }))
  pings : Step p (ping p).1
  pingresp : Step p (handle_pingresp p)
  ping_times_out : (future : ℕ) → Step p (ping_timeout future p).1
  transport_changes : (broken : Bool) → Step p (record p { broken = broken })
  connected : (max_qos : QoS) → Step p (record p { max_publish_qos = max_qos })
  run_ends : Step p (run_ended p)

-- The states that a connection goes through.
pub data Reachable (v : Version) : MqttProtocol → Type 0 where
  start : Reachable v (new_protocol v)
  after : {p q : MqttProtocol} → Reachable v p → Step p q → Reachable v q
