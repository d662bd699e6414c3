-- ===== src/Codec/Bodies.antt =====
-- The encoders of codec.py, up to the fixed header: the body of each packet.
use fast_mqtt.Prelude.{
  ℕ, ◌*◌, bit_or, List, [], ◌∷◌, ◌++◌, Bool, true, false, ◌||◌, not, Option, none, some,
}
use fast_mqtt.Prelude.{◌==◌, if◌then◌else◌, Result, ok, err, value_error, ◌>>=◌}
use fast_mqtt.Bytes.{Bytes, single_byte, pack_u8, pack_u16}
use fast_mqtt.Utf8.{Text}
use fast_mqtt.Wire.{encode_str, encode_bytes_field}
use fast_mqtt.Property.Block.{bit}
use fast_mqtt.Property.Connect.{encode_connect_properties, encode_will_properties}
use fast_mqtt.Property.ConnAck.{encode_connack_properties}
use fast_mqtt.Property.Publish.{encode_publish_properties, encode_puback_properties}
use fast_mqtt.Property.Subscribe.{
  encode_subscribe_properties, encode_suback_properties, encode_unsubscribe_properties,
  encode_unsuback_properties,
}
use fast_mqtt.Property.Disconnect.{encode_disconnect_properties, encode_auth_properties}
use fast_mqtt.Packet.{
  Version, v3, v5, QoS, at_most_once, qos_code, retain_code, Will, Connect, ConnAck, Publish,
  PubReply, SubscriptionRequest, Subscribe, SubAck, Unsubscribe, UnsubAck, Disconnect, Auth,
}

-- `if version == "5.0": body += ...`
abbrev pub only_v5 : Version → Result Bytes → Result Bytes
only_v5 v3 r = ok []
only_v5 v5 r = r

-- `bytes(codes)`
unfoldable pub byte_string : List ℕ → Result Bytes
unfolding single_byte
byte_string [] = ok []
byte_string (c ∷ cs) = do b ← single_byte c; rest ← byte_string cs; ok (b ++ rest)

abbrev pub is_some {ℓ} : {A : Type ℓ} → Option A → Bool
is_some none = false
is_some (some a) = true

abbrev pub will_flags : Option Will → ℕ
will_flags none = 0
will_flags (some w) = bit_or (bit_or 0x04 (qos_code w.qos * 8)) (if w.retain then 0x20 else 0)

abbrev pub connect_flags : Bool → Option Will → Bool → Bool → ℕ
connect_flags clean will username password =
    bit_or
      (bit_or (bit_or (if clean then 0x02 else 0) (will_flags will)) (if username then 0x80 else 0))
      (if password then 0x40 else 0)

abbrev pub proto_level : Version → ℕ
proto_level v3 = 4
proto_level v5 = 5

-- "MQTT"
abbrev pub proto_name : Text
proto_name = 77 ∷ 81 ∷ 84 ∷ 84 ∷ []

unfoldable pub encode_will : Version → Option Will → Result Bytes
encode_will v none = ok []
encode_will v (some w) = do
  props ← only_v5 v (encode_will_properties w.properties)
  topic ← encode_str w.topic
  payload ← encode_bytes_field w.payload
  ok (props ++ (topic ++ payload))

-- The bytes of a field that may be `None`.
unfoldable pub encode_optional {ℓ} : {A : Type ℓ} → (A → Result Bytes) → Option A → Result Bytes
encode_optional f none = ok []
encode_optional f (some a) = f a

unfoldable pub connect_body : Version → Connect → Result Bytes
connect_body v p = do
  name ← encode_str proto_name
  let flags = connect_flags p.clean_session p.will (is_some p.username) (is_some p.password)
  keepalive ← pack_u16 p.keepalive
  props ← only_v5 v (encode_connect_properties p.properties)
  client_id ← encode_str p.client_id
  will ← encode_will v p.will
  username ← encode_optional encode_str p.username
  password ← encode_optional encode_bytes_field p.password
  ok (
      name
      ++ (proto_level v
          ∷ flags
          ∷ (keepalive ++ (props ++ (client_id ++ (will ++ (username ++ password)))))))

unfoldable pub connack_body : Version → ConnAck → Result Bytes
connack_body v p = do
  code ← single_byte p.return_code
  props ← only_v5 v (encode_connack_properties p.properties)
  ok (bit p.session_present ∷ (code ++ props))

abbrev pub publish_flags : Bool → QoS → Bool → ℕ
publish_flags dup qos retain = bit_or (bit_or (bit dup * 8) (qos_code qos * 2)) (bit retain)

-- The packet identifier, which only QoS 1 and 2 carry.
unfoldable pub encode_packet_id : QoS → Option ℕ → Result Bytes
encode_packet_id at_most_once pid = ok []
encode_packet_id _ none = err value_error
encode_packet_id _ (some pid) = pack_u16 pid

unfoldable pub publish_body : Version → Publish → Result Bytes
publish_body v p = do
  topic ← encode_str p.topic
  pid ← encode_packet_id p.qos p.packet_id
  props ← only_v5 v (encode_publish_properties p.properties)
  ok (topic ++ (pid ++ (props ++ p.payload)))

abbrev pub has_reason : Version → ℕ → Bool → Bool
has_reason v3 reason props = false
has_reason v5 reason props = not (reason == 0) || props

unfoldable pub reply_body : Version → PubReply → Result Bytes
reply_body v p =
    if has_reason v p.reason_code (is_some p.properties)
    then (do
      pid ← pack_u16 p.packet_id
      reason ← pack_u8 p.reason_code
      props ← encode_puback_properties p.properties
      ok (pid ++ (reason ++ props)))
    else pack_u16 p.packet_id

abbrev pub subscription_options : Version → SubscriptionRequest → ℕ
subscription_options v3 s = qos_code s.qos
subscription_options v5 s =
    bit_or (bit_or (bit_or (qos_code s.qos) (bit s.no_local * 4)) (bit s.retain_as_published * 8))
      (retain_code s.retain_handling * 16)

unfoldable pub encode_request : Version → SubscriptionRequest → Result Bytes
encode_request v s = do
  filter ← encode_str s.topic_filter
  options ← single_byte (subscription_options v s)
  ok (filter ++ options)

-- `for x in xs: body += f(x)`
unfoldable pub encode_all {ℓ} : {A : Type ℓ} → (A → Result Bytes) → List A → Result Bytes
encode_all f [] = ok []
encode_all f (x ∷ xs) = do item ← f x; rest ← encode_all f xs; ok (item ++ rest)

unfoldable pub subscribe_body : Version → Subscribe → Result Bytes
subscribe_body v p = do
  pid ← pack_u16 p.packet_id
  props ← only_v5 v (encode_subscribe_properties p.properties)
  requests ← encode_all (encode_request v) p.subscriptions
  ok (pid ++ (props ++ requests))

unfoldable pub suback_body : Version → SubAck → Result Bytes
suback_body v p = do
  pid ← pack_u16 p.packet_id
  props ← only_v5 v (encode_suback_properties p.properties)
  codes ← byte_string p.return_codes
  ok (pid ++ (props ++ codes))

unfoldable pub unsubscribe_body : Version → Unsubscribe → Result Bytes
unsubscribe_body v p = do
  pid ← pack_u16 p.packet_id
  props ← only_v5 v (encode_unsubscribe_properties p.properties)
  filters ← encode_all encode_str p.topic_filters
  ok (pid ++ (props ++ filters))

unfoldable pub unsuback_body : Version → UnsubAck → Result Bytes
unsuback_body v3 p = pack_u16 p.packet_id
unsuback_body v5 p = do
  pid ← pack_u16 p.packet_id
  props ← encode_unsuback_properties p.properties
  codes ← byte_string p.reason_codes
  ok (pid ++ (props ++ codes))

unfoldable pub disconnect_body : Version → Disconnect → Result Bytes
disconnect_body v p =
    if has_reason v p.reason_code (is_some p.properties)
    then (do
      reason ← single_byte p.reason_code
      props ← encode_disconnect_properties p.properties
      ok (reason ++ props))
    else ok []

unfoldable pub auth_body : Auth → Result Bytes
auth_body p = do
  reason ← single_byte p.reason_code
  props ← encode_auth_properties p.properties
  ok (reason ++ props)
