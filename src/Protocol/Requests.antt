-- ===== src/Protocol/Requests.antt =====
-- `_send_subscribe`, `_send_unsubscribe` and `ping` of protocol.py, with the handlers of SUBACK,
-- UNSUBACK and PINGRESP, and `_cancel_pending`.
use fast_mqtt.Prelude.{value_error, has}
use fast_mqtt.Prelude.{ℕ, List, [], ◌∷◌, ◌++◌, true, Option, none, some}
use fast_mqtt.Prelude.{
  length, get_elem?, leb, ◌==◌, is_empty, if◌then◌else◌, Result, ok, err, disconnected_error,
  protocol_error, invalid_state_error, cancelled_error, subscribe_error, timeout_error,
}
use fast_mqtt.Dict.{number_eq, Dict, get, put, pop}
use fast_mqtt.Utf8.{Text}
use fast_mqtt.Topic.Split.{text_key}
use fast_mqtt.Property.Subscribe.{SubscribeProperties}
use fast_mqtt.Packet
use fast_mqtt.Packet.{SubscriptionRequest, SubAck, UnsubAck}
use fast_mqtt.Future.{
  Future, pending, cancelled, resolved, failed, Answer, sub_acked, unsub_acked, pong, settle,
}
use fast_mqtt.State.{PacketIdPool, acquire, release}
use fast_mqtt.Protocol.{
  QoS1Flight, OutboundQoS2Flight, MqttProtocol, Outcome, send_packet, create_future,
}
use fast_mqtt.Protocol.Publishing.{Started, awaits, then_await}

unfoldable pub open_sub : ℕ → PacketIdPool → MqttProtocol → MqttProtocol
unfolding create_future
open_sub pid pool p = create_future (record p {
  state = record p.state {
    packet_ids = pool;
    pending_subs = put pid (length p.futures) p.state.pending_subs;
  };
})

unfoldable pub open_unsub : ℕ → PacketIdPool → MqttProtocol → MqttProtocol
unfolding create_future
open_unsub pid pool p = create_future (record p {
  state = record p.state {
    packet_ids = pool;
    pending_unsubs = put pid (length p.futures) p.state.pending_unsubs;
  };
})

-- The `finally` of `_send_subscribe`
unfoldable pub close_sub : ℕ → MqttProtocol → MqttProtocol
close_sub pid p = record p {
  state = record p.state {
    packet_ids = release pid p.state.packet_ids;
    pending_subs = pop pid p.state.pending_subs;
  };
}

-- The `finally` of `_send_unsubscribe`
unfoldable pub close_unsub : ℕ → MqttProtocol → MqttProtocol
close_unsub pid p = record p {
  state = record p.state {
    packet_ids = release pid p.state.packet_ids;
    pending_unsubs = pop pid p.state.pending_unsubs;
  };
}

-- An exception before the await of the answer runs the `finally`; the future that was created then
-- goes to nobody, which `cancelled` stands for.
abbrev pub await_or : ℕ → (MqttProtocol → MqttProtocol) → Outcome (Unit {0}) → Outcome Started
await_or future close (ok _, p) = (ok (awaits future), p)
await_or future close (err e, p) =
    (err e, close (record p { futures = settle future cancelled p.futures }))

abbrev pub identifier_properties : Option ℕ → Option SubscribeProperties
identifier_properties none = none
identifier_properties (some n) =
    some (record { subscription_identifier = some n; user_properties = [] })

abbrev pub subscribe_with :
    List SubscriptionRequest → Option ℕ → Result (ℕ × PacketIdPool) → MqttProtocol → Outcome Started
subscribe_with filters identifier (err e) p = (err e, p)
subscribe_with filters identifier (ok (pid, pool)) p = await_or (length p.futures) (close_sub pid) (
    send_packet
      (Packet.Packet.subscribe (record {
        packet_id = pid;
        subscriptions = filters;
        properties = identifier_properties identifier;
      }))
      (open_sub pid pool p))

-- `_send_subscribe`, up to the await of the SUBACK
unfoldable pub send_subscribe : List SubscriptionRequest → Option ℕ → MqttProtocol → Outcome Started
unfolding open_sub close_sub
send_subscribe filters identifier p =
    if p.dead
    then (err disconnected_error, p)
    else subscribe_with filters identifier (acquire p.state.packet_ids) p

abbrev pub unsubscribe_with : List Text → Result (ℕ × PacketIdPool) → MqttProtocol → Outcome Started
unsubscribe_with filters (err e) p = (err e, p)
unsubscribe_with filters (ok (pid, pool)) p = await_or (length p.futures) (close_unsub pid) (
    send_packet
      (Packet.Packet.unsubscribe
        (record { packet_id = pid; topic_filters = filters; properties = none }))
      (open_unsub pid pool p))

-- `_send_unsubscribe`, up to the await of the UNSUBACK
unfoldable pub send_unsubscribe : List Text → MqttProtocol → Outcome Started
unfolding open_unsub close_unsub
send_unsubscribe filters p =
    if p.dead
    then (err disconnected_error, p)
    else unsubscribe_with filters (acquire p.state.packet_ids) p

-- The dict of `_raise_on_rejected_filters`: `zip` stops at the shorter list.
unfoldable pub failures : List SubscriptionRequest → List ℕ → Dict Text ℕ → Dict Text ℕ
failures [] codes found = found
failures (filter ∷ filters) [] found = found
failures (filter ∷ filters) (code ∷ codes) found =
    failures filters codes (if leb 128 code then put filter.topic_filter code found else found)

-- `_raise_on_rejected_filters`
unfoldable pub raise_on_rejected : List SubscriptionRequest → SubAck → Result SubAck
unfolding failures
raise_on_rejected filters suback =
    let found = failures filters suback.return_codes [] in
    if is_empty found then ok suback else err (subscribe_error found)

-- The end of `_send_subscribe`, without its `finally`: `none` while it awaits.
unfoldable pub subscribe_end : List SubscriptionRequest → Future → Option (Result SubAck)
unfolding raise_on_rejected
subscribe_end filters pending = none
subscribe_end filters cancelled = some (err cancelled_error)
subscribe_end filters (failed e) = some (err e)
subscribe_end filters (resolved (sub_acked suback)) = some (raise_on_rejected filters suback)
subscribe_end filters (resolved _) = none

-- The end of `_send_unsubscribe`, without its `finally`
unfoldable pub unsubscribe_end : Future → Option (Result UnsubAck)
unsubscribe_end pending = none
unsubscribe_end cancelled = some (err cancelled_error)
unsubscribe_end (failed e) = some (err e)
unsubscribe_end (resolved (unsub_acked unsuback)) = some (ok unsuback)
unsubscribe_end (resolved _) = none

-- `future.set_result`, which raises if the future is done
abbrev pub set_result : ℕ → Answer → Option Future → MqttProtocol → Outcome (Unit {0})
set_result future answer (some pending) p =
    (ok tt, record p { futures = settle future (resolved answer) p.futures })
set_result future answer _ p = (err invalid_state_error, p)

-- `_handle_suback`
unfoldable pub handle_suback : SubAck → MqttProtocol → Outcome (Unit {0})
handle_suback packet p = elim (get packet.packet_id p.state.pending_subs) [
  | none ↦ (err protocol_error, p)
  | some future ↦ set_result future (sub_acked packet) (get_elem? p.futures future) p
]

-- `_handle_unsuback`
unfoldable pub handle_unsuback : UnsubAck → MqttProtocol → Outcome (Unit {0})
handle_unsuback packet p = elim (get packet.packet_id p.state.pending_unsubs) [
  | none ↦ (err protocol_error, p)
  | some future ↦ set_result future (unsub_acked packet) (get_elem? p.futures future) p
]

-- `ping`, up to the await of the PINGRESP
unfoldable pub ping : MqttProtocol → Outcome Started
unfolding create_future
ping p = then_await (awaits (length p.futures)) (
    send_packet Packet.Packet.ping_req
      (create_future (record p { ping_waiters = p.ping_waiters ++ length p.futures ∷ [] })))

-- `_handle_pingresp`
unfoldable pub handle_pingresp : MqttProtocol → MqttProtocol
handle_pingresp p = elim p.ping_waiters [
  | [] ↦ p
  | future ∷ waiters ↦ record p {
    ping_waiters = waiters;
    futures = settle future (resolved pong) p.futures;
  }
]

-- `self._ping_waiters.remove(future)`, the first that is equal
unfoldable pub remove_waiter : ℕ → List ℕ → List ℕ
remove_waiter future [] = []
remove_waiter future (w ∷ waiters) =
    let rest = remove_waiter future waiters in if w == future then waiters else (w ∷ rest)

-- `ping` at its timeout: nobody awaits the future any more, which `cancelled` stands for. `remove`
-- raises where the future is no longer in the list.
unfoldable pub ping_timeout : ℕ → MqttProtocol → Outcome (Unit {0})
unfolding remove_waiter has
ping_timeout future p = (
  (if has future p.ping_waiters then err timeout_error else err value_error),
  record p {
    ping_waiters = remove_waiter future p.ping_waiters;
    futures = settle future cancelled p.futures;
  },
)

unfoldable pub settle_all : List ℕ → Future → List Future → List Future
unfolding settle
settle_all [] outcome fs = fs
settle_all (i ∷ is) outcome fs = settle_all is outcome (settle i outcome fs)

abbrev pub qos1_futures : Dict ℕ QoS1Flight → List ℕ
qos1_futures [] = []
qos1_futures ((pid, flight) ∷ d) = flight.future ∷ qos1_futures d

abbrev pub qos2_futures : Dict ℕ OutboundQoS2Flight → List ℕ
qos2_futures [] = []
qos2_futures ((pid, flight) ∷ d) = flight.future ∷ qos2_futures d

abbrev pub values : Dict ℕ ℕ → List ℕ
values [] = []
values ((pid, future) ∷ d) = future ∷ values d

-- `_cancel_pending`, without `inbound.clear()`
unfoldable pub cancel_pending : MqttProtocol → MqttProtocol
unfolding settle_all
cancel_pending p = record p {
  futures = settle_all p.ping_waiters (failed disconnected_error) (
      settle_all (qos2_futures p.state.inflight_qos2_out) (failed disconnected_error) (
        settle_all (qos1_futures p.state.inflight_qos1) (failed disconnected_error) (
          settle_all (values p.state.pending_unsubs) (failed disconnected_error)
            (settle_all (values p.state.pending_subs) (failed disconnected_error) p.futures))));
  ping_waiters = [];
}

-- The `finally` of `run`
unfoldable pub run_ended : MqttProtocol → MqttProtocol
unfolding cancel_pending
run_ended p = cancel_pending (record p { dead = true })
