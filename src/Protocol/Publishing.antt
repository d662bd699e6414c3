-- ===== src/Protocol/Publishing.antt =====
-- `publish` of protocol.py, and the handlers of PUBACK, PUBREC and PUBCOMP.
use fast_mqtt.Prelude.{ℕ, Option, none, some}
use fast_mqtt.Prelude.{
  length, ltb, leb, if◌then◌else◌, Error, Result, ok, err, disconnected_error, qos_exceeded_error,
  protocol_error, publish_error, cancelled_error,
}
use fast_mqtt.Dict.{number_eq, get, put, pop}
use fast_mqtt.Utf8.{Text}
use fast_mqtt.Property.Publish.{PubAckProperties}
use fast_mqtt.Packet
use fast_mqtt.Packet.{QoS, at_most_once, at_least_once, exactly_once, qos_code, Publish, PubReply}
use fast_mqtt.Future.{Future, pending, cancelled, resolved, failed, acked, settle}
use fast_mqtt.State.{PacketIdPool, acquire, release}
use fast_mqtt.Protocol.{
  OutboundQoS2State, pending_pubrec, pending_pubcomp, OutboundQoS2Flight, MqttProtocol, Outcome,
  send_packet, create_future,
}

-- `publish` has returned, or it awaits a future.
pub data Started : Type 0 where
  finished : Started
  awaits : (future : ℕ) → Started

abbrev pub then_await : Started → Outcome (Unit {0}) → Outcome Started
then_await started (ok _, p) = (ok started, p)
then_await started (err e, p) = (err e, p)

-- `dataclasses.replace(packet, packet_id=pid)`
abbrev pub with_id : ℕ → Publish → Publish
with_id pid packet = record packet { packet_id = some pid }

unfoldable pub open_qos1 : ℕ → PacketIdPool → Publish → MqttProtocol → MqttProtocol
unfolding create_future
open_qos1 pid pool packet p = create_future (record p {
  state = record p.state {
    packet_ids = pool;
    inflight_qos1 =
        put pid (record { packet_id = pid; publish = packet; future = length p.futures })
          p.state.inflight_qos1;
  };
})

unfoldable pub open_qos2 : ℕ → PacketIdPool → Publish → MqttProtocol → MqttProtocol
unfolding create_future
open_qos2 pid pool packet p = create_future (record p {
  state = record p.state {
    packet_ids = pool;
    inflight_qos2_out =
        put pid
          (record {
            packet_id = pid;
            publish = packet;
            state = pending_pubrec;
            future = length p.futures;
          })
          p.state.inflight_qos2_out;
  };
})

abbrev pub publish_qos1 : Publish → Result (ℕ × PacketIdPool) → MqttProtocol → Outcome Started
publish_qos1 packet (err e) p = (err e, p)
publish_qos1 packet (ok (pid, pool)) p = then_await (awaits (length p.futures)) (
    send_packet (Packet.Packet.publish (with_id pid packet))
      (open_qos1 pid pool (with_id pid packet) p))

abbrev pub publish_qos2 : Publish → Result (ℕ × PacketIdPool) → MqttProtocol → Outcome Started
publish_qos2 packet (err e) p = (err e, p)
publish_qos2 packet (ok (pid, pool)) p = then_await (awaits (length p.futures)) (
    send_packet (Packet.Packet.publish (with_id pid packet))
      (open_qos2 pid pool (with_id pid packet) p))

-- `match packet.qos`
unfoldable pub publish_by_qos : QoS → Publish → MqttProtocol → Outcome Started
publish_by_qos at_most_once packet p =
    then_await finished (send_packet (Packet.Packet.publish packet) p)
publish_by_qos at_least_once packet p = publish_qos1 packet (acquire p.state.packet_ids) p
publish_by_qos exactly_once packet p = publish_qos2 packet (acquire p.state.packet_ids) p

-- `publish`, up to the await of the acknowledgement
unfoldable pub publish : Publish → MqttProtocol → Outcome Started
unfolding publish_by_qos
publish packet p =
    if p.dead
    then (err disconnected_error, p)
    else if ltb (qos_code p.max_publish_qos) (qos_code packet.qos)
    then (err (qos_exceeded_error (qos_code packet.qos) (qos_code p.max_publish_qos)), p)
    else publish_by_qos packet.qos packet p

abbrev pub reason_string_of : Option PubAckProperties → Option Text
reason_string_of none = none
reason_string_of (some properties) = properties.reason_string

-- `_publish_error`
abbrev pub rejection : PubReply → Error
rejection packet = publish_error packet.reason_code (reason_string_of packet.properties)

-- The end of `publish` for QoS 1, with `_raise_on_rejected_puback`: `none` while it awaits.
unfoldable pub publish_qos1_end : Future → Option (Result PubReply)
publish_qos1_end pending = none
publish_qos1_end cancelled = some (err cancelled_error)
publish_qos1_end (failed e) = some (err e)
publish_qos1_end (resolved (acked packet)) =
    if leb 128 packet.reason_code then some (err (rejection packet)) else some (ok packet)
publish_qos1_end (resolved _) = none

-- The end of `publish` for QoS 2
unfoldable pub publish_qos2_end : Future → Option (Result PubReply)
publish_qos2_end pending = none
publish_qos2_end cancelled = some (err cancelled_error)
publish_qos2_end (failed e) = some (err e)
publish_qos2_end (resolved (acked packet)) = some (ok packet)
publish_qos2_end (resolved _) = none

-- The flight is over: its future gets an outcome, unless it is done.
unfoldable pub close_qos1 : ℕ → ℕ → Future → MqttProtocol → MqttProtocol
close_qos1 pid future outcome p = record p {
  state = record p.state {
    packet_ids = release pid p.state.packet_ids;
    inflight_qos1 = pop pid p.state.inflight_qos1;
  };
  futures = settle future outcome p.futures;
}

unfoldable pub close_qos2 : ℕ → ℕ → Future → MqttProtocol → MqttProtocol
close_qos2 pid future outcome p = record p {
  state = record p.state {
    packet_ids = release pid p.state.packet_ids;
    inflight_qos2_out = pop pid p.state.inflight_qos2_out;
  };
  futures = settle future outcome p.futures;
}

-- `_handle_puback`
unfoldable pub handle_puback : PubReply → MqttProtocol → Outcome (Unit {0})
unfolding close_qos1
handle_puback packet p = elim (get packet.packet_id p.state.inflight_qos1) [
  | none ↦ (err protocol_error, p)
  | some flight ↦ (ok tt, close_qos1 packet.packet_id flight.future (resolved (acked packet)) p)
]

unfoldable pub await_pubcomp : ℕ → OutboundQoS2Flight → MqttProtocol → MqttProtocol
await_pubcomp pid flight p = record p {
  state = record p.state {
    inflight_qos2_out =
        put pid (record flight { state = pending_pubcomp }) p.state.inflight_qos2_out;
  };
}

-- `PubRel(packet_id=pid)`
abbrev pub plain_reply : ℕ → PubReply
plain_reply pid = record { packet_id = pid; reason_code = 0; properties = none }

abbrev pub pubrec_in :
    OutboundQoS2State → PubReply → OutboundQoS2Flight → MqttProtocol → Outcome (Unit {0})
pubrec_in pending_pubcomp packet flight p = (err protocol_error, p)
pubrec_in pending_pubrec packet flight p =
    if leb 128 packet.reason_code
    then (ok tt, close_qos2 packet.packet_id flight.future (failed (rejection packet)) p)
    else send_packet (Packet.Packet.pub_rel (plain_reply packet.packet_id))
        (await_pubcomp packet.packet_id flight p)

-- `_handle_pubrec`
unfoldable pub handle_pubrec : PubReply → MqttProtocol → Outcome (Unit {0})
unfolding close_qos2 await_pubcomp
handle_pubrec packet p = elim (get packet.packet_id p.state.inflight_qos2_out) [
  | none ↦ (err protocol_error, p)
  | some flight ↦ pubrec_in flight.state packet flight p
]

-- `_handle_pubcomp`
unfoldable pub handle_pubcomp : PubReply → MqttProtocol → Outcome (Unit {0})
unfolding close_qos2
handle_pubcomp packet p = elim (get packet.packet_id p.state.inflight_qos2_out) [
  | none ↦ (err protocol_error, p)
  | some flight ↦ (ok tt, close_qos2 packet.packet_id flight.future (resolved (acked packet)) p)
]
