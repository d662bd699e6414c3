-- ===== src/Connection.antt =====
-- A connection of src/zmqtt/_internal/protocol.py: an `MQTTProtocol` with its `InboundPublishFlow`,
-- and `_dispatch`.
use fast_mqtt.Prelude.{ℕ, List, [], ◌∷◌, Option, none}
use fast_mqtt.Prelude.{Result, ok, err, disconnected_error, protocol_error}
use fast_mqtt.Packet
use fast_mqtt.Packet.{Version, v3, v5}
use fast_mqtt.Inbound.{InboundPublishFlow}
use fast_mqtt.Inbound.Flow.{handle_publish, handle_pubrel}
use fast_mqtt.Protocol.{MqttProtocol}
use fast_mqtt.Protocol.Publishing.{handle_puback, handle_pubrec, handle_pubcomp}
use fast_mqtt.Protocol.Requests.{handle_suback, handle_unsuback, handle_pingresp}

-- Each part has the packets that it wrote. `answers` is what the request router would answer
-- about each PUBLISH to come, if it is asked; none after them.
pub record Connection : Type 0 where
  pub protocol : MqttProtocol
  pub inbound : InboundPublishFlow
  pub answers : List (Option ℕ)

abbrev pub Dispatched : Type 0
Dispatched = Result (Unit {0}) × Connection

abbrev by_protocol : Result (Unit {0}) × MqttProtocol → Connection → Dispatched
by_protocol (r, p) c = (r, record c { protocol = p })

abbrev by_inbound : Result (Unit {0}) × InboundPublishFlow → Connection → Dispatched
by_inbound (r, f) c = (r, record c { inbound = f })

abbrev next_answer : List (Option ℕ) → Option ℕ
next_answer [] = none
next_answer (answer ∷ answers) = answer

abbrev later_answers : List (Option ℕ) → List (Option ℕ)
later_answers [] = []
later_answers (answer ∷ answers) = answers

-- `if self._version != "5.0"`
abbrev dispatch_auth : Version → Result (Unit {0})
dispatch_auth v3 = err protocol_error
dispatch_auth v5 = ok tt

-- `_dispatch`
unfoldable pub dispatch : Packet.Packet → Connection → Dispatched
dispatch (Packet.Packet.publish packet) c =
    by_inbound (handle_publish (next_answer c.answers) packet c.inbound)
      (record c { answers = later_answers c.answers })
dispatch (Packet.Packet.pub_ack packet) c = by_protocol (handle_puback packet c.protocol) c
dispatch (Packet.Packet.pub_rec packet) c = by_protocol (handle_pubrec packet c.protocol) c
dispatch (Packet.Packet.pub_rel packet) c = by_inbound (handle_pubrel packet c.inbound) c
dispatch (Packet.Packet.pub_comp packet) c = by_protocol (handle_pubcomp packet c.protocol) c
dispatch (Packet.Packet.sub_ack packet) c = by_protocol (handle_suback packet c.protocol) c
dispatch (Packet.Packet.unsub_ack packet) c = by_protocol (handle_unsuback packet c.protocol) c
dispatch Packet.Packet.ping_resp c = (ok tt, record c { protocol = handle_pingresp c.protocol })
dispatch (Packet.Packet.disconnect packet) c = (err disconnected_error, c)
dispatch (Packet.Packet.auth packet) c = (dispatch_auth c.protocol.version, c)
dispatch _ c = (err protocol_error, c)
