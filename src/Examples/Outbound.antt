-- ===== src/Examples/Outbound.antt =====
-- Connections at which the theorems on protocol.py are applied.
use fast_mqtt.Prelude.{
  ◌≡◌, refl, [], ◌∷◌, ◌++◌, false, none, some, ok, err, arith, has, get_elem?, protocol_error,
}
use fast_mqtt.Bytes.{pack_u8, pack_u16, single_byte}
use fast_mqtt.Dict.{number_eq, get}
use fast_mqtt.Wire.{encode_varint, encode_groups}
use fast_mqtt.Packet
use fast_mqtt.Packet.{v3, v5, at_least_once, exactly_once, Publish, PubReply}
use fast_mqtt.Codec.Bodies.{reply_body}
use fast_mqtt.Codec.Encode.{encode, packet_body, build_packet}
use fast_mqtt.Future.{pending, resolved, acked, IsPending}
use fast_mqtt.Protocol.{MqttProtocol, pending_pubrec, new_protocol, new_session}
use fast_mqtt.Protocol.Publishing.{
  publish, handle_puback, handle_pubrec, handle_pubcomp, plain_reply,
}
use fast_mqtt.Protocol.Requests.{run_ended}
use fast_mqtt.Protocol.Steps.{start, after, publishes}
use fast_mqtt.Prelude.{qos_exceeded_error}
use fast_mqtt.Connection.{Connection}
use fast_mqtt.Inbound.Events.{new_flow}
use fast_mqtt.Inbound.Flow.{begin_session}
use fast_mqtt.Property.ConnAck.{ConnAckProperties}
use fast_mqtt.Packet.{v5, ConnAck}
use fast_mqtt.Protocol.Connecting.{await_connack, await_connack-publish}
use fast_mqtt.Protocol.Balance.{IsSession}
use fast_mqtt.Protocol.Invariant.{Reachable-IsSession}
use fast_mqtt.Protocol.Liveness.{run_ended-none-IsPending}
use fast_mqtt.Protocol.Exchange.{handle_puback-flight, qos2_exchange}

abbrev reading : Publish
reading = record {
  topic = 97 ∷ [];
  payload = 1 ∷ 2 ∷ [];
  qos = at_least_once;
  retain = false;
  dup = false;
  packet_id = some 1;
  properties = none;
}

abbrev alarm : Publish
alarm = record reading { qos = exactly_once; packet_id = some 2 }

-- A connection with a flight of each kind
abbrev in_flight : MqttProtocol
in_flight = record (new_protocol v3) {
  state = record new_session {
    packet_ids = record { next = 3; in_use = 2 ∷ 1 ∷ [] };
    inflight_qos1 = (1, record { packet_id = 1; publish = reading; future = 0 }) ∷ [];
    inflight_qos2_out =
        (2, record { packet_id = 2; publish = alarm; state = pending_pubrec; future = 1 }) ∷ [];
  };
  futures = pending ∷ pending ∷ [];
}

Reachable-IsSession_example : IsSession (publish reading (new_protocol v3)).1.state
Reachable-IsSession_example = Reachable-IsSession v3 (after start (publishes reading))

run_ended-none-IsPending_example :
    ¬ IsPending 0 (run_ended (publish reading (new_protocol v3)).1).futures
run_ended-none-IsPending_example =
    run_ended-none-IsPending v3 (publish reading (new_protocol v3)).1
      (after start (publishes reading)) 0

in_flight-qos1 :
    get 1 in_flight.state.inflight_qos1
    ≡ some (record { packet_id = 1; publish = reading; future = 0 })
unfolding get
in_flight-qos1 = refl

in_flight-qos2 :
    get 2 in_flight.state.inflight_qos2_out
    ≡ some (record { packet_id = 2; publish = alarm; state = pending_pubrec; future = 1 })
unfolding get
in_flight-qos2 = refl

in_flight-IsPending : IsPending 0 in_flight.futures × IsPending 1 in_flight.futures
in_flight-IsPending = (refl, refl)

handle_puback-flight_example :
    (q : MqttProtocol) × (handle_puback (plain_reply 1) in_flight ≡ (ok tt, q))
    × (get 1 q.state.inflight_qos1 ≡ none)
    × (has 1 q.state.packet_ids.in_use ≡ false)
    × (get_elem? q.futures 0 ≡ some (resolved (acked (plain_reply 1))))
    × (handle_puback (plain_reply 1) q ≡ (err protocol_error, q))
handle_puback-flight_example =
    handle_puback-flight (plain_reply 1) in_flight
      (record { packet_id = 1; publish = reading; future = 0 }) in_flight-qos1 in_flight-IsPending.0

encode-pubrel : encode v3 (Packet.Packet.pub_rel (plain_reply 2)) ≡ ok (98 ∷ 2 ∷ 0 ∷ 2 ∷ [])
unfolding encode packet_body build_packet encode_varint encode_groups pack_u8 pack_u16 single_byte
    reply_body
encode-pubrel = refl

qos2_exchange_example :
    (q r : MqttProtocol) × (handle_pubrec (plain_reply 2) in_flight ≡ (ok tt, q))
    × (q.sent ≡ [] ++ (98 ∷ 2 ∷ 0 ∷ 2 ∷ []) ∷ [])
    × (handle_pubrec (plain_reply 2) q ≡ (err protocol_error, q))
    × (handle_pubcomp (plain_reply 2) q ≡ (ok tt, r))
    × (get 2 r.state.inflight_qos2_out ≡ none)
    × (has 2 r.state.packet_ids.in_use ≡ false)
    × (get_elem? r.futures 1 ≡ some (resolved (acked (plain_reply 2))))
unfolding new_protocol
qos2_exchange_example =
    qos2_exchange (plain_reply 2) (plain_reply 2) in_flight
      (record { packet_id = 2; publish = alarm; state = pending_pubrec; future = 1 })
      (98 ∷ 2 ∷ 0 ∷ 2 ∷ []) in_flight-qos2 refl in_flight-IsPending.1 (omega arith) refl refl
      encode-pubrel

abbrev limited_to_one : ConnAckProperties
limited_to_one = record {
  session_expiry_interval = none;
  receive_maximum = none;
  maximum_qos = some 1;
  retain_available = none;
  maximum_packet_size = none;
  assigned_client_identifier = none;
  topic_alias_maximum = none;
  reason_string = none;
  wildcard_subscription_available = none;
  subscription_identifier_available = none;
  shared_subscription_available = none;
  server_keep_alive = none;
  response_information = none;
  server_reference = none;
  authentication_method = none;
  authentication_data = none;
  user_properties = [];
}

abbrev welcome : ConnAck
welcome = record { session_present = false; return_code = 0; properties = some limited_to_one }

abbrev new_connection : Connection
new_connection = record { protocol = new_protocol v5; inbound = new_flow 10; answers = [] }

await_connack-publish_example :
    (q : Connection) × (await_connack (Packet.Packet.conn_ack welcome) new_connection
      ≡ (ok welcome, q))
    × (q.protocol.max_publish_qos ≡ at_least_once)
    × (q.inbound ≡ begin_session false new_connection.inbound)
    × (publish alarm q.protocol ≡ (err (qos_exceeded_error 2 1), q.protocol))
unfolding new_protocol
await_connack-publish_example =
    await_connack-publish welcome new_connection at_least_once alarm refl refl refl (omega arith)
