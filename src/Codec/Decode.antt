-- ===== src/Codec/Decode.antt =====
-- The decoders of codec.py, after the fixed header: each reads the body of one packet type.
use fast_mqtt.Prelude.{ℕ, ◌/◌, ◌%◌, [], Bool, false, Option, none, some}
use fast_mqtt.Prelude.{◌==◌, if◌then◌else◌}
use fast_mqtt.Bytes.{has_bit}
use fast_mqtt.Cursor.{Cursor, advance, pure, when, next_byte, next_u16, remaining, ◌>>=◌, ◌>>◌}
use fast_mqtt.Utf8.{text_eq, Text}
use fast_mqtt.Wire.{decode_str, decode_bytes_field}
use fast_mqtt.Property.Connect.{decode_connect_properties, decode_will_properties}
use fast_mqtt.Property.ConnAck.{decode_connack_properties}
use fast_mqtt.Property.Publish.{decode_publish_properties, decode_puback_properties}
use fast_mqtt.Property.Subscribe.{
  decode_subscribe_properties, decode_suback_properties, decode_unsubscribe_properties,
  decode_unsuback_properties,
}
use fast_mqtt.Property.Disconnect.{decode_disconnect_properties, decode_auth_properties}
use fast_mqtt.Packet
use fast_mqtt.Packet.{
  Version, v3, v5, QoS, at_most_once, at_least_once, exactly_once, qos_of_code, retain_of_code,
  RetainHandling, send_on_subscribe, PacketType, Will, Connect, ConnAck, Publish, PubReply,
  SubscriptionRequest, Subscribe, SubAck, Unsubscribe, UnsubAck, Disconnect, Auth,
}
use fast_mqtt.Codec.Bodies.{proto_name}
use fast_mqtt.Codec.Steps.{require, versioned, member, read_all, check, trailing, read_reason}

-- `proto_level not in (0x04, 0x05)`
abbrev pub version_of_level : ℕ → Option Version
version_of_level n = if n == 4 then some v3 else if n == 5 then some v5 else none

unfoldable pub read_will : Version → QoS → Bool → Cursor Will
read_will v qos retain = do
  props ← versioned v decode_will_properties
  topic ← advance decode_str
  payload ← advance decode_bytes_field
  pure (record { topic = topic; payload = payload; qos = qos; retain = retain; properties = props })

-- What follows the flags byte of CONNECT.
unfoldable pub after_flags : Version → ℕ → Cursor Connect
unfolding read_will next_u16
after_flags v flags = do
  qos ← member (qos_of_code (flags / 8 % 4))
  keepalive ← next_u16
  props ← versioned v decode_connect_properties
  client_id ← advance decode_str
  will ← when (has_bit flags 2) (read_will v qos (has_bit flags 5))
  username ← when (has_bit flags 7) (advance decode_str)
  password ← when (has_bit flags 6) (advance decode_bytes_field)
  pure (record {
    client_id = client_id;
    clean_session = has_bit flags 1;
    keepalive = keepalive;
    username = username;
    password = password;
    will = will;
    properties = props;
  })

-- CONNECT says its own version.
unfoldable pub decode_connect : Cursor Connect
unfolding text_eq next_byte after_flags
decode_connect = do
  name ← advance decode_str
  check (text_eq name proto_name)
  level ← next_byte
  v ← member (version_of_level level)
  flags ← next_byte
  after_flags v flags

unfoldable pub decode_connack : Version → Cursor ConnAck
unfolding require next_byte trailing
decode_connack v = do
  require 2
  first ← next_byte
  code ← next_byte
  props ← trailing v decode_connack_properties
  pure (record { session_present = has_bit first 0; return_code = code; properties = props })

unfoldable pub read_packet_id : QoS → Cursor (Option ℕ)
unfolding require next_u16
read_packet_id at_most_once = pure none
read_packet_id _ = do require 2; pid ← next_u16; pure (some pid)

unfoldable pub decode_publish : ℕ → Version → Cursor Publish
unfolding read_packet_id remaining
decode_publish flags v = do
  qos ← member (qos_of_code (flags / 2 % 4))
  topic ← advance decode_str
  pid ← read_packet_id qos
  props ← versioned v decode_publish_properties
  payload ← remaining
  pure (record {
    topic = topic;
    payload = payload;
    qos = qos;
    retain = has_bit flags 0;
    dup = has_bit flags 3;
    packet_id = pid;
    properties = props;
  })

-- `_decode_pub_ack_variant`
unfoldable pub decode_reply : Version → Cursor PubReply
unfolding require next_u16 read_reason
decode_reply v = do
  require 2
  pid ← next_u16
  r ← read_reason v decode_puback_properties
  pure (record { packet_id = pid; reason_code = r.0; properties = r.1 })

abbrev pub request_of : Version → Text → ℕ → QoS → RetainHandling → SubscriptionRequest
request_of v3 filter options qos handling = record {
  topic_filter = filter;
  qos = qos;
  no_local = false;
  retain_as_published = false;
  retain_handling = send_on_subscribe;
}
request_of v5 filter options qos handling = record {
  topic_filter = filter;
  qos = qos;
  no_local = has_bit options 2;
  retain_as_published = has_bit options 3;
  retain_handling = handling;
}

-- `RetainHandling((options >> 4) & 0x03)`, in version 5 only
abbrev pub handling_of : Version → ℕ → Cursor RetainHandling
handling_of v3 options = pure send_on_subscribe
handling_of v5 options = member (retain_of_code (options / 16 % 4))

-- The request that an options byte makes of a filter.
unfoldable pub options_request : Version → Text → ℕ → Cursor SubscriptionRequest
options_request v filter options = do
  qos ← member (qos_of_code (options % 4))
  handling ← handling_of v options
  pure (request_of v filter options qos handling)

unfoldable pub read_request : Version → Cursor SubscriptionRequest
unfolding require next_byte options_request
read_request v = do
  filter ← advance decode_str
  require 1
  options ← next_byte
  options_request v filter options

unfoldable pub decode_subscribe : Version → Cursor Subscribe
unfolding require next_u16 read_all read_request
decode_subscribe v = do
  require 2
  pid ← next_u16
  props ← versioned v decode_subscribe_properties
  requests ← read_all (read_request v)
  pure (record { packet_id = pid; subscriptions = requests; properties = props })

unfoldable pub decode_suback : Version → Cursor SubAck
unfolding require next_u16 remaining
decode_suback v = do
  require 2
  pid ← next_u16
  props ← versioned v decode_suback_properties
  codes ← remaining
  pure (record { packet_id = pid; return_codes = codes; properties = props })

unfoldable pub decode_unsubscribe : Version → Cursor Unsubscribe
unfolding require next_u16 read_all
decode_unsubscribe v = do
  require 2
  pid ← next_u16
  props ← versioned v decode_unsubscribe_properties
  filters ← read_all (advance decode_str)
  pure (record { packet_id = pid; topic_filters = filters; properties = props })

unfoldable pub decode_unsuback : Version → Cursor UnsubAck
unfolding require next_u16 remaining
decode_unsuback v3 = do
  require 2
  pid ← next_u16
  pure (record { packet_id = pid; reason_codes = []; properties = none })
decode_unsuback v5 = do
  require 2
  pid ← next_u16
  props ← advance decode_unsuback_properties
  codes ← remaining
  pure (record { packet_id = pid; reason_codes = codes; properties = props })

unfoldable pub decode_disconnect : Version → Cursor Disconnect
unfolding read_reason
decode_disconnect v = do
  r ← read_reason v decode_disconnect_properties
  pure (record { reason_code = r.0; properties = r.1 })

-- AUTH is decoded alike in both versions.
unfoldable pub decode_auth : Cursor Auth
unfolding require next_byte trailing
decode_auth = do
  require 1
  reason ← next_byte
  props ← trailing v5 decode_auth_properties
  pure (record { reason_code = reason; properties = props })

-- The `match` of `decode`.
unfoldable pub decode_body : Version → PacketType → ℕ → Cursor Packet.Packet
unfolding decode_connect decode_connack decode_publish decode_reply decode_subscribe decode_suback
    decode_unsubscribe decode_unsuback decode_disconnect decode_auth
decode_body v PacketType.connect flags = do p ← decode_connect; pure (Packet.Packet.connect p)
decode_body v PacketType.conn_ack flags = do p ← decode_connack v; pure (Packet.Packet.conn_ack p)
decode_body v PacketType.publish flags = do
  p ← decode_publish flags v
  pure (Packet.Packet.publish p)
decode_body v PacketType.pub_ack flags = do p ← decode_reply v; pure (Packet.Packet.pub_ack p)
decode_body v PacketType.pub_rec flags = do p ← decode_reply v; pure (Packet.Packet.pub_rec p)
decode_body v PacketType.pub_rel flags = do p ← decode_reply v; pure (Packet.Packet.pub_rel p)
decode_body v PacketType.pub_comp flags = do p ← decode_reply v; pure (Packet.Packet.pub_comp p)
decode_body v PacketType.subscribe flags = do
  p ← decode_subscribe v
  pure (Packet.Packet.subscribe p)
decode_body v PacketType.sub_ack flags = do p ← decode_suback v; pure (Packet.Packet.sub_ack p)
decode_body v PacketType.unsubscribe flags = do
  p ← decode_unsubscribe v
  pure (Packet.Packet.unsubscribe p)
decode_body v PacketType.unsub_ack flags = do
  p ← decode_unsuback v
  pure (Packet.Packet.unsub_ack p)
decode_body v PacketType.ping_req flags = pure Packet.Packet.ping_req
decode_body v PacketType.ping_resp flags = pure Packet.Packet.ping_resp
decode_body v PacketType.disconnect flags = do
  p ← decode_disconnect v
  pure (Packet.Packet.disconnect p)
decode_body v PacketType.auth flags = do p ← decode_auth; pure (Packet.Packet.auth p)
