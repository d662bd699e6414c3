-- ===== src/Protocol/Connecting.antt =====
-- `_await_connack` of protocol.py, at the first packet that the buffer yields.
use fast_mqtt.Inbound.Flow.{begin_session}
use fast_mqtt.Connection.{Connection}
use fast_mqtt.Prelude.{ℕ, ◌<◌, ◌≡◌, refl, ap, ◌∙◌, true, false, Option, none, some, arith}
use fast_mqtt.Prelude.{
  ◌==◌, ltb, if◌then◌else◌, Result, ok, err, protocol_error, value_error, connect_error,
  disconnected_error, qos_exceeded_error,
}
use fast_mqtt.Property.ConnAck.{ConnAckProperties}
use fast_mqtt.Packet
use fast_mqtt.Packet.{Version, v3, v5, QoS, exactly_once, qos_code, qos_of_code, ConnAck, Publish}
use fast_mqtt.Protocol.{Outcome}
use fast_mqtt.Protocol.Publishing.{Started, publish, publish_by_qos}

-- `QoS(max_qos)`, or the default where there is no Maximum QoS
abbrev pub max_qos_of : Option ℕ → Result QoS
max_qos_of none = ok exactly_once
max_qos_of (some code) = elim (qos_of_code code) [ none ↦ err value_error | some qos ↦ ok qos ]

abbrev pub limit_of : Version → Option ConnAckProperties → Result QoS
limit_of v3 properties = ok exactly_once
limit_of v5 none = ok exactly_once
limit_of v5 (some properties) = max_qos_of properties.maximum_qos

-- The connection whose CONNACK accepts it: its limit, then `begin_session`
unfoldable pub started : ConnAck → QoS → Connection → Connection
unfolding begin_session
started connack qos c = record c {
  protocol = record c.protocol { max_publish_qos = qos };
  inbound = begin_session connack.session_present c.inbound;
}

abbrev pub with_limit : ConnAck → Result QoS → Connection → Result ConnAck × Connection
with_limit connack (err e) c = (err e, c)
with_limit connack (ok qos) c = (ok connack, started connack qos c)

-- `_await_connack`. The exception for a return code leaves out the properties of CONNACK.
unfoldable pub await_connack : Packet.Packet → Connection → Result ConnAck × Connection
unfolding started
await_connack (Packet.Packet.conn_ack connack) c =
    if connack.return_code == 0
    then with_limit connack (limit_of c.protocol.version connack.properties) c
    else (err (connect_error connack.return_code), c)
await_connack _ c = (err protocol_error, c)

-- If CONNACK accepts the connection and its limit, which is QoS 2 where it sets none, is a QoS, then
-- `_await_connack` returns the packet, keeps the limit and begins the session with the inbound flow,
-- and `publish` of a packet with a greater QoS, on a connection whose run has not ended, is refused
-- and changes nothing.
pub await_connack-publish :
    (connack : ConnAck) (c : Connection) (limit : QoS) (packet : Publish)
    → connack.return_code ≡ 0
    → limit_of c.protocol.version connack.properties ≡ ok limit
    → c.protocol.dead ≡ false
    → qos_code limit < qos_code packet.qos
    → (q : Connection) × (await_connack (Packet.Packet.conn_ack connack) c ≡ (ok connack, q))
      × (q.protocol.max_publish_qos ≡ limit)
      × (q.inbound ≡ begin_session connack.session_present c.inbound)
      × (publish packet q.protocol
          ≡ (err (qos_exceeded_error (qos_code packet.qos) (qos_code limit)), q.protocol))
unfolding await_connack publish started
await_connack-publish connack c limit packet accepted limited alive greater =
    let q = started connack limit c in
    let p = q.protocol in
    let refused : Outcome Started =
      (err (qos_exceeded_error (qos_code packet.qos) (qos_code limit)), p) in
    let beyond : ltb (qos_code limit) (qos_code packet.qos) ≡ true = ground arith in
    let by_limit : Outcome Started =
      if ltb (qos_code limit) (qos_code packet.qos)
      then refused
      else publish_by_qos packet.qos packet p in
    (
      q,
      ap
            (λ n.
              if◌then◌else◌ {A = Result ConnAck × Connection} (n == 0)
                (with_limit connack (limit_of c.protocol.version connack.properties) c)
                (err (connect_error n), c))
            accepted
          ∙ ap (λ l. with_limit connack l c) limited,
      refl,
      refl,
      ap (λ b. if◌then◌else◌ {A = Outcome Started} b (err disconnected_error, p) by_limit) alive
          ∙ ap
              (λ b.
                if◌then◌else◌ {A = Outcome Started} b refused (publish_by_qos packet.qos packet p))
              beyond,
    )
