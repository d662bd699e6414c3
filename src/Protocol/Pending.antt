-- ===== src/Protocol/Pending.antt =====
-- The futures of a connection, event by event, up to the end of `run` of protocol.py.
use fast_mqtt.Protocol.{write}
use fast_mqtt.Prelude.{os_error}
use fast_mqtt.Prelude.{
  ℕ, ◌≡◌, refl, List, [], ◌∷◌, ◌++◌, Bool, true, false, Option, none, some, inl, inr, Option-cases,
}
use fast_mqtt.Prelude.{length, leb, ltb, if◌then◌else◌, Result, ok, err, get_elem?}
use fast_mqtt.Dict.{number_eq, get}
use fast_mqtt.Bytes.{Bytes}
use fast_mqtt.Utf8.{Text}
use fast_mqtt.Packet.{
  QoS, at_most_once, at_least_once, exactly_once, qos_code, Publish, PubReply, SubscriptionRequest,
  SubAck, UnsubAck,
}
use fast_mqtt.Future.{Future, pending, cancelled, resolved, failed, Answer, settle-not-IsPending}
use fast_mqtt.State.{PacketIdPool, acquire}
use fast_mqtt.Protocol.{
  OutboundQoS2Flight, OutboundQoS2State, pending_pubrec, pending_pubcomp, MqttProtocol, Outcome,
  send_packet, create_future,
}
use fast_mqtt.Protocol.Publishing.{
  awaits, publish, publish_by_qos, publish_qos1, publish_qos2, pubrec_in, handle_puback,
  handle_pubrec, handle_pubcomp,
}
use fast_mqtt.Protocol.Requests.{
  await_or, open_sub, open_unsub, close_sub, close_unsub, subscribe_with, unsubscribe_with,
  send_subscribe, send_unsubscribe, set_result, handle_suback, handle_unsuback,
}
use fast_mqtt.Protocol.Balance.{IsSession}
use fast_mqtt.Protocol.Tracking.{AllTracked, acquired-free, got_put}
use fast_mqtt.Protocol.Tables.{
  either_left, sent-AllTracked, awaited-AllTracked, open_qos1-AllTracked, open_qos2-AllTracked,
  open_sub-AllTracked, open_unsub-AllTracked, close_qos1-AllTracked, close_qos2-AllTracked,
  close_sub-AllTracked, close_unsub-AllTracked, settle-AllTracked, await_pubcomp-AllTracked,
}

publish_qos1-AllTracked :
    (packet : Publish) (r : Result (ℕ × PacketIdPool)) (p : MqttProtocol)
    → acquire p.state.packet_ids ≡ r
    → IsSession p.state
    → AllTracked p
    → AllTracked (publish_qos1 packet r p).1
publish_qos1-AllTracked packet (err e) p h v all = all
publish_qos1-AllTracked packet (ok (pid, pool)) p h v all =
    awaited-AllTracked (awaits (length p.futures)) _ (
      sent-AllTracked _ _
        (open_qos1-AllTracked pid pool p all _ (acquired-free p.state pool pid v h).0))

publish_qos2-AllTracked :
    (packet : Publish) (r : Result (ℕ × PacketIdPool)) (p : MqttProtocol)
    → acquire p.state.packet_ids ≡ r
    → IsSession p.state
    → AllTracked p
    → AllTracked (publish_qos2 packet r p).1
publish_qos2-AllTracked packet (err e) p h v all = all
publish_qos2-AllTracked packet (ok (pid, pool)) p h v all =
    awaited-AllTracked (awaits (length p.futures)) _ (
      sent-AllTracked _ _
        (open_qos2-AllTracked pid pool p all _ (acquired-free p.state pool pid v h).1))

publish_by_qos-AllTracked :
    (q : QoS) (packet : Publish) (p : MqttProtocol)
    → IsSession p.state
    → AllTracked p
    → AllTracked (publish_by_qos q packet p).1
unfolding publish_by_qos
publish_by_qos-AllTracked at_most_once packet p v all =
    awaited-AllTracked _ _ (sent-AllTracked _ p all)
publish_by_qos-AllTracked at_least_once packet p v all =
    publish_qos1-AllTracked packet _ p refl v all
publish_by_qos-AllTracked exactly_once packet p v all =
    publish_qos2-AllTracked packet _ p refl v all

pub publish-AllTracked :
    (packet : Publish) (p : MqttProtocol)
    → IsSession p.state
    → AllTracked p
    → AllTracked (publish packet p).1
unfolding publish
publish-AllTracked packet p v all = either_left AllTracked p.dead _ _ all (
    either_left AllTracked (ltb (qos_code p.max_publish_qos) (qos_code packet.qos)) _ _ all
      (publish_by_qos-AllTracked packet.qos packet p v all))

pub handle_puback-AllTracked :
    (packet : PubReply) (p : MqttProtocol) → AllTracked p → AllTracked (handle_puback packet p).1
unfolding handle_puback
handle_puback-AllTracked packet p all =
    elim (Option-cases (get packet.packet_id p.state.inflight_qos1)) [
      | inl e ↦ rw (e, handle_puback) all
      | inr (f, e) ↦ rw (e, handle_puback) (close_qos1-AllTracked packet.packet_id p all _ refl e)
    ]

pubrec_in-AllTracked :
    (st : OutboundQoS2State) (packet : PubReply) (f : OutboundQoS2Flight) (p : MqttProtocol)
    → get packet.packet_id p.state.inflight_qos2_out ≡ some f
    → AllTracked p
    → AllTracked (pubrec_in st packet f p).1
pubrec_in-AllTracked pending_pubcomp packet f p e all = all
pubrec_in-AllTracked pending_pubrec packet f p e all =
    either_left AllTracked (leb 128 packet.reason_code) _ _
      (close_qos2-AllTracked packet.packet_id p all _ refl e)
      (sent-AllTracked _ _ (await_pubcomp-AllTracked packet.packet_id f p e all))

pub handle_pubrec-AllTracked :
    (packet : PubReply) (p : MqttProtocol) → AllTracked p → AllTracked (handle_pubrec packet p).1
unfolding handle_pubrec
handle_pubrec-AllTracked packet p all =
    elim (Option-cases (get packet.packet_id p.state.inflight_qos2_out)) [
      | inl e ↦ rw (e, handle_pubrec) all
      | inr (f, e) ↦ rw (e, handle_pubrec) (pubrec_in-AllTracked f.state packet f p e all)
    ]

pub handle_pubcomp-AllTracked :
    (packet : PubReply) (p : MqttProtocol) → AllTracked p → AllTracked (handle_pubcomp packet p).1
unfolding handle_pubcomp
handle_pubcomp-AllTracked packet p all =
    elim (Option-cases (get packet.packet_id p.state.inflight_qos2_out)) [
      | inl e ↦ rw (e, handle_pubcomp) all
      | inr (f, e) ↦ rw (e, handle_pubcomp) (close_qos2-AllTracked packet.packet_id p all _ refl e)
    ]

subscribe_written :
    (pid : ℕ) (pool : PacketIdPool) (r : Result Bytes) (p : MqttProtocol)
    → AllTracked (open_sub pid pool p)
    → get pid (open_sub pid pool p).state.pending_subs ≡ some (length p.futures)
    → AllTracked (await_or (length p.futures) (close_sub pid) (write r (open_sub pid pool p))).1
subscribe_written pid pool (err e) p all there =
    close_sub-AllTracked pid _
      (settle-AllTracked (length p.futures) cancelled (open_sub pid pool p) refl all) there
      (settle-not-IsPending (length p.futures) cancelled _ refl)
subscribe_written pid pool (ok bytes) p all there = go (open_sub pid pool p).broken
  where
    go :
        (b : Bool)
        → AllTracked
            (await_or (length p.futures) (close_sub pid) (
              if◌then◌else◌ {A = Outcome (Unit {0})} b
                (err os_error, open_sub pid pool p)
                (
                  ok tt,
                  record (open_sub pid pool p) { sent = (open_sub pid pool p).sent ++ bytes ∷ [] },
                ))).1
    go true =
        close_sub-AllTracked pid _
          (settle-AllTracked (length p.futures) cancelled (open_sub pid pool p) refl all) there
          (settle-not-IsPending (length p.futures) cancelled _ refl)
    go false = all

opened_sub-there :
    (pid : ℕ) (pool : PacketIdPool) (p : MqttProtocol)
    → get pid (open_sub pid pool p).state.pending_subs ≡ some (length p.futures)
unfolding open_sub create_future
opened_sub-there pid pool p = got_put pid (length p.futures) p.state.pending_subs

subscribe_with-AllTracked :
    (filters : List SubscriptionRequest) (identifier : Option ℕ) (r : Result (ℕ × PacketIdPool))
    (p : MqttProtocol)
    → acquire p.state.packet_ids ≡ r
    → IsSession p.state
    → AllTracked p
    → AllTracked (subscribe_with filters identifier r p).1
unfolding send_packet
subscribe_with-AllTracked filters identifier (err e) p h v all = all
subscribe_with-AllTracked filters identifier (ok (pid, pool)) p h v all =
    subscribe_written pid pool _ p
      (open_sub-AllTracked pid pool p all (acquired-free p.state pool pid v h).2)
      (opened_sub-there pid pool p)

pub send_subscribe-AllTracked :
    (filters : List SubscriptionRequest) (identifier : Option ℕ) (p : MqttProtocol)
    → IsSession p.state
    → AllTracked p
    → AllTracked (send_subscribe filters identifier p).1
unfolding send_subscribe
send_subscribe-AllTracked filters identifier p v all =
    either_left AllTracked p.dead _ _ all
      (subscribe_with-AllTracked filters identifier (acquire p.state.packet_ids) p refl v all)

unsubscribe_written :
    (pid : ℕ) (pool : PacketIdPool) (r : Result Bytes) (p : MqttProtocol)
    → AllTracked (open_unsub pid pool p)
    → get pid (open_unsub pid pool p).state.pending_unsubs ≡ some (length p.futures)
    → AllTracked (await_or (length p.futures) (close_unsub pid) (write r (open_unsub pid pool p))).1
unsubscribe_written pid pool (err e) p all there =
    close_unsub-AllTracked pid _
      (settle-AllTracked (length p.futures) cancelled (open_unsub pid pool p) refl all) there
      (settle-not-IsPending (length p.futures) cancelled _ refl)
unsubscribe_written pid pool (ok bytes) p all there = go (open_unsub pid pool p).broken
  where
    go :
        (b : Bool)
        → AllTracked
            (await_or (length p.futures) (close_unsub pid) (
              if◌then◌else◌ {A = Outcome (Unit {0})} b
                (err os_error, open_unsub pid pool p)
                (
                  ok tt,
                  record (open_unsub pid pool p) {
                    sent = (open_unsub pid pool p).sent ++ bytes ∷ [];
                  },
                ))).1
    go true =
        close_unsub-AllTracked pid _
          (settle-AllTracked (length p.futures) cancelled (open_unsub pid pool p) refl all) there
          (settle-not-IsPending (length p.futures) cancelled _ refl)
    go false = all

opened_unsub-there :
    (pid : ℕ) (pool : PacketIdPool) (p : MqttProtocol)
    → get pid (open_unsub pid pool p).state.pending_unsubs ≡ some (length p.futures)
unfolding open_unsub create_future
opened_unsub-there pid pool p = got_put pid (length p.futures) p.state.pending_unsubs

unsubscribe_with-AllTracked :
    (filters : List Text) (r : Result (ℕ × PacketIdPool)) (p : MqttProtocol)
    → acquire p.state.packet_ids ≡ r
    → IsSession p.state
    → AllTracked p
    → AllTracked (unsubscribe_with filters r p).1
unfolding send_packet
unsubscribe_with-AllTracked filters (err e) p h v all = all
unsubscribe_with-AllTracked filters (ok (pid, pool)) p h v all =
    unsubscribe_written pid pool _ p
      (open_unsub-AllTracked pid pool p all (acquired-free p.state pool pid v h).3)
      (opened_unsub-there pid pool p)

pub send_unsubscribe-AllTracked :
    (filters : List Text) (p : MqttProtocol)
    → IsSession p.state
    → AllTracked p
    → AllTracked (send_unsubscribe filters p).1
unfolding send_unsubscribe
send_unsubscribe-AllTracked filters p v all =
    either_left AllTracked p.dead _ _ all
      (unsubscribe_with-AllTracked filters (acquire p.state.packet_ids) p refl v all)

set_result-AllTracked :
    (future : ℕ) (answer : Answer) (f : Option Future) (p : MqttProtocol)
    → AllTracked p
    → AllTracked (set_result future answer f p).1
set_result-AllTracked future answer none p all = all
set_result-AllTracked future answer (some pending) p all =
    settle-AllTracked future (resolved answer) p refl all
set_result-AllTracked future answer (some cancelled) p all = all
set_result-AllTracked future answer (some (resolved a)) p all = all
set_result-AllTracked future answer (some (failed e)) p all = all

pub handle_suback-AllTracked :
    (packet : SubAck) (p : MqttProtocol) → AllTracked p → AllTracked (handle_suback packet p).1
unfolding handle_suback
handle_suback-AllTracked packet p all =
    elim (Option-cases (get packet.packet_id p.state.pending_subs)) [
      | inl e ↦ rw (e, handle_suback) all
      | inr (f, e) ↦ rw (e, handle_suback) (set_result-AllTracked f _ (get_elem? p.futures f) p all)
    ]

pub handle_unsuback-AllTracked :
    (packet : UnsubAck) (p : MqttProtocol) → AllTracked p → AllTracked (handle_unsuback packet p).1
unfolding handle_unsuback
handle_unsuback-AllTracked packet p all =
    elim (Option-cases (get packet.packet_id p.state.pending_unsubs)) [
      | inl e ↦ rw (e, handle_unsuback) all
      | inr (f, e) ↦
          rw (e, handle_unsuback) (set_result-AllTracked f _ (get_elem? p.futures f) p all)
    ]
