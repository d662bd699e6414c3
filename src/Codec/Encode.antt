-- ===== src/Codec/Encode.antt =====
-- `_build_packet`, `_packet_id_only` and `encode` of codec.py.
use fast_mqtt.Prelude.{ℕ, ◌*◌, ◌%◌, bit_or, [], ◌++◌}
use fast_mqtt.Prelude.{length, Result, ok, ◌>>=◌}
use fast_mqtt.Bytes.{Bytes, single_byte, pack_u16}
use fast_mqtt.Wire.{encode_varint}
use fast_mqtt.Packet
use fast_mqtt.Packet.{
  Version, v3, v5, QoS, at_most_once, at_least_once, exactly_once, qos_code, retain_code,
  PacketType, type_code, Will, Connect, ConnAck, Publish, PubReply, SubscriptionRequest, Subscribe,
  SubAck, Unsubscribe, UnsubAck, Disconnect, Auth,
}
use fast_mqtt.Codec.Bodies.{
  publish_flags, connect_body, connack_body, publish_body, reply_body, subscribe_body, suback_body,
  unsubscribe_body, unsuback_body, disconnect_body, auth_body,
}

-- `_build_packet`
unfoldable pub build_packet : PacketType → ℕ → Bytes → Result Bytes
unfolding encode_varint
build_packet t flags body = do
  first ← single_byte (bit_or (type_code t * 16) (flags % 16))
  size ← encode_varint (length body)
  ok (first ++ (size ++ body))

-- `_packet_id_only`
unfoldable pub packet_id_only : PacketType → ℕ → ℕ → Result Bytes
unfolding build_packet
packet_id_only t flags pid = do body ← pack_u16 pid; build_packet t flags body

-- The type, the flags and the body that `encode` gives a packet.
abbrev pub packet_type : Packet.Packet → PacketType
packet_type (Packet.Packet.connect p) = PacketType.connect
packet_type (Packet.Packet.conn_ack p) = PacketType.conn_ack
packet_type (Packet.Packet.publish p) = PacketType.publish
packet_type (Packet.Packet.pub_ack p) = PacketType.pub_ack
packet_type (Packet.Packet.pub_rec p) = PacketType.pub_rec
packet_type (Packet.Packet.pub_rel p) = PacketType.pub_rel
packet_type (Packet.Packet.pub_comp p) = PacketType.pub_comp
packet_type (Packet.Packet.subscribe p) = PacketType.subscribe
packet_type (Packet.Packet.sub_ack p) = PacketType.sub_ack
packet_type (Packet.Packet.unsubscribe p) = PacketType.unsubscribe
packet_type (Packet.Packet.unsub_ack p) = PacketType.unsub_ack
packet_type Packet.Packet.ping_req = PacketType.ping_req
packet_type Packet.Packet.ping_resp = PacketType.ping_resp
packet_type (Packet.Packet.disconnect p) = PacketType.disconnect
packet_type (Packet.Packet.auth p) = PacketType.auth

abbrev pub packet_flags : Packet.Packet → ℕ
packet_flags (Packet.Packet.publish p) = publish_flags p.dup p.qos p.retain
packet_flags (Packet.Packet.pub_rel p) = 2
packet_flags (Packet.Packet.subscribe p) = 2
packet_flags (Packet.Packet.unsubscribe p) = 2
packet_flags _ = 0

unfoldable pub packet_body : Version → Packet.Packet → Result Bytes
packet_body v (Packet.Packet.connect p) = connect_body v p
packet_body v (Packet.Packet.conn_ack p) = connack_body v p
packet_body v (Packet.Packet.publish p) = publish_body v p
packet_body v (Packet.Packet.pub_ack p) = reply_body v p
packet_body v (Packet.Packet.pub_rec p) = reply_body v p
packet_body v (Packet.Packet.pub_rel p) = reply_body v p
packet_body v (Packet.Packet.pub_comp p) = reply_body v p
packet_body v (Packet.Packet.subscribe p) = subscribe_body v p
packet_body v (Packet.Packet.sub_ack p) = suback_body v p
packet_body v (Packet.Packet.unsubscribe p) = unsubscribe_body v p
packet_body v (Packet.Packet.unsub_ack p) = unsuback_body v p
packet_body v Packet.Packet.ping_req = ok []
packet_body v Packet.Packet.ping_resp = ok []
packet_body v (Packet.Packet.disconnect p) = disconnect_body v p
packet_body v (Packet.Packet.auth p) = auth_body p

-- `encode`
unfoldable pub encode : Version → Packet.Packet → Result Bytes
unfolding packet_body build_packet
encode v p = do body ← packet_body v p; build_packet (packet_type p) (packet_flags p) body
