-- ===== src/Protocol/Exchange.antt =====
-- The acknowledgements of a publish in protocol.py, from the flight to the answer of its caller.
use fast_mqtt.Prelude.{os_error}
use fast_mqtt.Prelude.{
  ℕ, ◌<◌, ◌≡◌, refl, ap, sym, ◌∙◌, subst, [], ◌∷◌, ◌++◌, false, none, some, arith, has,
}
use fast_mqtt.Prelude.{leb, if◌then◌else◌, ok, err, get_elem?, protocol_error}
use fast_mqtt.Dict.{Dict, number_eq, get, put, pop, get-put, get-pop}
use fast_mqtt.Bytes.{Bytes}
use fast_mqtt.Packet
use fast_mqtt.Packet.{PubReply}
use fast_mqtt.Codec.Encode.{encode}
use fast_mqtt.Future.{resolved, acked, IsPending, get_elem?-settle}
use fast_mqtt.State.{release}
use fast_mqtt.State.PacketIds.{has-discard-same}
use fast_mqtt.Protocol.{
  QoS1Flight, OutboundQoS2State, OutboundQoS2Flight, pending_pubrec, pending_pubcomp, MqttProtocol,
  Outcome, write, send_packet,
}
use fast_mqtt.Protocol.Publishing.{
  handle_puback, handle_pubrec, handle_pubcomp, close_qos1, close_qos2, await_pubcomp, plain_reply,
  pubrec_in,
}

gone {ℓ} : {V : Type ℓ} (k : ℕ) (d : Dict ℕ V) → get k (pop k d) ≡ none
gone k d = get-pop k k d ∙ ground arith

there {ℓ} : {V : Type ℓ} (k : ℕ) (v : V) (d : Dict ℕ V) → get k (put k v d) ≡ some v
there k v d = get-put k k v d ∙ ground arith

released : (pid : ℕ) (p : MqttProtocol) → has pid (release pid p.state.packet_ids).in_use ≡ false
unfolding release
released pid p = has-discard-same pid p.state.packet_ids.in_use

-- PUBACK for a flight whose future is pending: the handler returns, the flight is gone and its
-- identifier free, the future has the packet, and a second PUBACK with the identifier is a protocol
-- error that changes nothing.
pub handle_puback-flight :
    (packet : PubReply) (p : MqttProtocol) (flight : QoS1Flight)
    → get packet.packet_id p.state.inflight_qos1 ≡ some flight
    → IsPending flight.future p.futures
    → (q : MqttProtocol) × (handle_puback packet p ≡ (ok tt, q))
      × (get packet.packet_id q.state.inflight_qos1 ≡ none)
      × (has packet.packet_id q.state.packet_ids.in_use ≡ false)
      × (get_elem? q.futures flight.future ≡ some (resolved (acked packet)))
      × (handle_puback packet q ≡ (err protocol_error, q))
unfolding handle_puback close_qos1
handle_puback-flight packet p flight held waiting =
    let q = close_qos1 packet.packet_id flight.future (resolved (acked packet)) p in
    let no_flight = gone packet.packet_id p.state.inflight_qos1 in
    (
      q,
      rw (held, handle_puback) refl,
      no_flight,
      released packet.packet_id p,
      get_elem?-settle flight.future (resolved (acked packet)) p.futures waiting,
      rw (no_flight, handle_puback) refl,
    )

abbrev with_sent : Bytes → MqttProtocol → MqttProtocol
with_sent bytes p = record p { sent = p.sent ++ bytes ∷ [] }

write_up :
    (bytes : Bytes) (p : MqttProtocol)
    → p.broken ≡ false
    → write (ok bytes) p ≡ (ok tt, with_sent bytes p)
write_up bytes p up =
    ap (λ b. if◌then◌else◌ {A = Outcome (Unit {0})} b (err os_error, p) (ok tt, with_sent bytes p))
      up

accepted_by :
    (s : OutboundQoS2State) (packet : PubReply) (flight : OutboundQoS2Flight) (p : MqttProtocol)
    (bytes : Bytes)
    → s ≡ pending_pubrec
    → packet.reason_code < 128
    → p.broken ≡ false
    → encode p.version (Packet.Packet.pub_rel (plain_reply packet.packet_id)) ≡ ok bytes
    → pubrec_in s packet flight p
      ≡ (ok tt, with_sent bytes (await_pubcomp packet.packet_id flight p))
unfolding send_packet await_pubcomp
accepted_by s packet flight p bytes es accepted up e =
    let no_error : leb 128 packet.reason_code ≡ false = ground arith in
    let q = await_pubcomp packet.packet_id flight p in
    let split : pubrec_in pending_pubrec packet flight p
        ≡ send_packet (Packet.Packet.pub_rel (plain_reply packet.packet_id)) q =
      rw no_error refl in
    ap (λ t. pubrec_in t packet flight p) es ∙ split ∙ ap (λ r. write r q) e ∙ write_up bytes q up

-- The QoS 2 exchange of a flight that awaits PUBREC and whose future is pending, if PUBREC does not
-- reject it and the transport takes PUBREL: PUBREC returns and writes PUBREL, a second PUBREC is a
-- protocol error that changes nothing, and PUBCOMP then returns, drops the flight, frees the
-- identifier and resolves the future to itself.
pub qos2_exchange :
    (received completed : PubReply) (p : MqttProtocol) (flight : OutboundQoS2Flight) (bytes : Bytes)
    → get received.packet_id p.state.inflight_qos2_out ≡ some flight
    → flight.state ≡ pending_pubrec
    → IsPending flight.future p.futures
    → received.reason_code < 128
    → completed.packet_id ≡ received.packet_id
    → p.broken ≡ false
    → encode p.version (Packet.Packet.pub_rel (plain_reply received.packet_id)) ≡ ok bytes
    → (q r : MqttProtocol) × (handle_pubrec received p ≡ (ok tt, q))
      × (q.sent ≡ p.sent ++ bytes ∷ [])
      × (handle_pubrec received q ≡ (err protocol_error, q))
      × (handle_pubcomp completed q ≡ (ok tt, r))
      × (get received.packet_id r.state.inflight_qos2_out ≡ none)
      × (has received.packet_id r.state.packet_ids.in_use ≡ false)
      × (get_elem? r.futures flight.future ≡ some (resolved (acked completed)))
unfolding handle_pubrec handle_pubcomp close_qos2 await_pubcomp
qos2_exchange received completed p flight bytes held awaits_pubrec waiting accepted same up e =
    let pid = received.packet_id in
    let after = record flight { state = pending_pubcomp } in
    let q = with_sent bytes (await_pubcomp pid flight p) in
    let flights = p.state.inflight_qos2_out in
    let held_after : get pid q.state.inflight_qos2_out ≡ some after = there pid after flights in
    let held_completed : get completed.packet_id q.state.inflight_qos2_out ≡ some after =
      subst (λ n. get n q.state.inflight_qos2_out ≡ some after) (sym same) held_after in
    (
      q,
      close_qos2 completed.packet_id after.future (resolved (acked completed)) q,
      rw (held, handle_pubrec)
          (accepted_by flight.state received flight p bytes awaits_pubrec accepted up e),
      refl,
      rw (held_after, handle_pubrec) refl,
      rw (held_completed, handle_pubcomp) refl,
      subst (λ n. get pid (pop n q.state.inflight_qos2_out) ≡ none) (sym same)
          (gone pid q.state.inflight_qos2_out),
      subst (λ n. has pid (release n q.state.packet_ids).in_use ≡ false) (sym same)
          (released pid q),
      get_elem?-settle flight.future (resolved (acked completed)) p.futures waiting,
    )
