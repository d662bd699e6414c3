-- ===== src/Protocol/Kept.antt =====
-- The publishes of protocol.py keep the balance of the packet identifiers.
use fast_mqtt.Packet.{qos_code}
use fast_mqtt.Prelude.{
  ℕ, ◌≡◌, refl, sym, ◌∙◌, subst, Bool, true, false, some, inl, inr, Bool-cases, Option-cases,
}
use fast_mqtt.Prelude.{leb, ltb, if◌then◌else◌, Result, ok, err}
use fast_mqtt.Dict.{number_eq, get}
use fast_mqtt.Bytes.{Bytes}
use fast_mqtt.Packet
use fast_mqtt.Packet.{
  Version, QoS, at_most_once, at_least_once, exactly_once, Publish, PubReply, SubscriptionRequest,
  SubAck, UnsubAck,
}
use fast_mqtt.State.{PacketIdPool, acquire}
use fast_mqtt.Protocol.{
  OutboundQoS2Flight, OutboundQoS2State, pending_pubrec, pending_pubcomp, MqttProtocol, Outcome,
  write, send_packet, create_future,
}
use fast_mqtt.Protocol.Publishing.{
  Started, then_await, publish, publish_by_qos, publish_qos1, publish_qos2, open_qos1, open_qos2,
  close_qos1, close_qos2, await_pubcomp, pubrec_in, handle_puback, handle_pubrec, handle_pubcomp,
}
use fast_mqtt.Protocol.Balance.{
  IsSession, open_qos1-IsSession, open_qos2-IsSession, close_qos1-IsSession, close_qos2-IsSession,
  change_qos2-IsSession,
}

pub write-state : (r : Result Bytes) (p : MqttProtocol) → (write r p).1.state ≡ p.state
write-state (err e) p = refl
write-state (ok bytes) p = elim (Bool-cases p.broken) [
  | inl broken ↦ rw broken refl
  | inr open_ ↦ rw open_ refl
]

pub send_packet-state :
    (packet : Packet.Packet) (p : MqttProtocol) → (send_packet packet p).1.state ≡ p.state
unfolding send_packet
send_packet-state packet p = write-state _ p

pub then_await-state : (s : Started) (o : Outcome (Unit {0})) → (then_await s o).1.state ≡ o.1.state
then_await-state s (ok _, p) = refl
then_await-state s (err e, p) = refl

-- Sending keeps the state, whether it succeeds or not.
abbrev pub Kept : MqttProtocol → Type 0
Kept p = IsSession p.state

pub sent-Kept :
    (s : Started) (packet : Packet.Packet) (p : MqttProtocol)
    → Kept p
    → Kept (then_await s (send_packet packet p)).1
sent-Kept s packet p k = subst IsSession (sym (then_await-state s _ ∙ send_packet-state packet p)) k

pub publish_qos1-Kept :
    (packet : Publish) (r : Result (ℕ × PacketIdPool)) (p : MqttProtocol)
    → acquire p.state.packet_ids ≡ r
    → Kept p
    → Kept (publish_qos1 packet r p).1
unfolding open_qos1 create_future
publish_qos1-Kept packet (err e) p h k = k
publish_qos1-Kept packet (ok (pid, pool)) p h k =
    sent-Kept _ _ _ (open_qos1-IsSession p.state k pid pool h _)

pub publish_qos2-Kept :
    (packet : Publish) (r : Result (ℕ × PacketIdPool)) (p : MqttProtocol)
    → acquire p.state.packet_ids ≡ r
    → Kept p
    → Kept (publish_qos2 packet r p).1
unfolding open_qos2 create_future
publish_qos2-Kept packet (err e) p h k = k
publish_qos2-Kept packet (ok (pid, pool)) p h k =
    sent-Kept _ _ _ (open_qos2-IsSession p.state k pid pool h _)

pub publish_by_qos-Kept :
    (q : QoS) (packet : Publish) (p : MqttProtocol) → Kept p → Kept (publish_by_qos q packet p).1
unfolding publish_by_qos
publish_by_qos-Kept at_most_once packet p k = sent-Kept _ _ _ k
publish_by_qos-Kept at_least_once packet p k = publish_qos1-Kept packet _ p refl k
publish_by_qos-Kept exactly_once packet p k = publish_qos2-Kept packet _ p refl k

-- A refusal before anything is done keeps the state.
pub either_way {ℓ} :
    {A : Type ℓ} (b : Bool) (x y : Outcome A) → Kept x.1 → Kept y.1 → Kept (if b then x else y).1
either_way true x y kx ky = kx
either_way false x y kx ky = ky

pub publish-Kept : (packet : Publish) (p : MqttProtocol) → Kept p → Kept (publish packet p).1
unfolding publish
publish-Kept packet p k = either_way p.dead _ _ k (
    either_way (ltb (qos_code p.max_publish_qos) (qos_code packet.qos)) _ _ k
      (publish_by_qos-Kept packet.qos packet p k))

pub handle_puback-Kept :
    (packet : PubReply) (p : MqttProtocol) → Kept p → Kept (handle_puback packet p).1
unfolding handle_puback
handle_puback-Kept packet p k = elim (Option-cases (get packet.packet_id p.state.inflight_qos1)) [
  | inl e ↦ rw (e, handle_puback) k
  | inr (f, e) ↦
      rw (e, handle_puback) (unfold close_qos1 in close_qos1-IsSession p.state k packet.packet_id e)
]

pub pubrec_in-Kept :
    (st : OutboundQoS2State) (packet : PubReply) (f : OutboundQoS2Flight) (p : MqttProtocol)
    → get packet.packet_id p.state.inflight_qos2_out ≡ some f
    → Kept p
    → Kept (pubrec_in st packet f p).1
unfolding close_qos2 await_pubcomp
pubrec_in-Kept pending_pubcomp packet f p e k = k
pubrec_in-Kept pending_pubrec packet f p e k = elim (Bool-cases (leb 128 packet.reason_code)) [
  | inl rejected ↦ rw rejected (close_qos2-IsSession p.state k packet.packet_id e)
  | inr accepted ↦ rw accepted (
      subst IsSession (sym (send_packet-state _ _))
        (change_qos2-IsSession p.state k packet.packet_id _ e))
]

pub handle_pubrec-Kept :
    (packet : PubReply) (p : MqttProtocol) → Kept p → Kept (handle_pubrec packet p).1
unfolding handle_pubrec
handle_pubrec-Kept packet p k =
    elim (Option-cases (get packet.packet_id p.state.inflight_qos2_out)) [
      | inl e ↦ rw (e, handle_pubrec) k
      | inr (f, e) ↦ rw (e, handle_pubrec) (pubrec_in-Kept f.state packet f p e k)
    ]

pub handle_pubcomp-Kept :
    (packet : PubReply) (p : MqttProtocol) → Kept p → Kept (handle_pubcomp packet p).1
unfolding handle_pubcomp
handle_pubcomp-Kept packet p k =
    elim (Option-cases (get packet.packet_id p.state.inflight_qos2_out)) [
      | inl e ↦ rw (e, handle_pubcomp) k
      | inr (f, e) ↦
          rw (e, handle_pubcomp)
            (unfold close_qos2 in close_qos2-IsSession p.state k packet.packet_id e)
    ]
