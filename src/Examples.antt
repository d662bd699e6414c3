-- ===== src/Examples.antt =====
-- Packets, buffers and pools at which the theorems are applied.
mod Outbound
mod Index
mod Receiving
use fast_mqtt.Subscription.Index.{new_index}
use fast_mqtt.Dict.{get, number_eq}
use fast_mqtt.Subscription.Node.{collect}
use fast_mqtt.Subscription.Index.{
  select, select_by_identifier, identified_by, match_topic, matching,
}
use fast_mqtt.Inbound.Buffer.{contains_packet_id, accept}
use fast_mqtt.Inbound.Flow.{
  handle_publish, route, select_recipient, select_subscription, deliver_qos1_publish, deliver,
}
use fast_mqtt.Subscription.{Among}
use fast_mqtt.State.Reuse.{acquire-release}
use fast_mqtt.State.{after, discard}
use fast_mqtt.Connection.{Connection, dispatch}
use fast_mqtt.Protocol.{new_protocol}
use fast_mqtt.Inbound.Events.{new_flow}
use fast_mqtt.Reader.Disconnects.{read_loop-disconnect}
use fast_mqtt.Packet.{Disconnect}
use fast_mqtt.Codec.Bodies.{disconnect_body}
use fast_mqtt.Prelude.{disconnected_error}
use fast_mqtt.Topic.{shared_filter_to_actual, strip_prefix, starts_with}
use fast_mqtt.Reader.Loop.{dispatch_buffer, dispatch_all, ends_with}
use fast_mqtt.Subscription.Best.{select_from-best}
use fast_mqtt.Subscription.{Item, SubscriptionSelection, select_from, tuple_less, item_key}
use fast_mqtt.Topic.Validate.{validate_publish, validate_subscribe_topic, validate_publish-filter}
use fast_mqtt.Prelude.{true}
use fast_mqtt.Prelude.{◌↔◌}
use fast_mqtt.Topic.Shared.{topic_matches-shared, topic_matches_total}
use fast_mqtt.Topic.Matching.{Matches, match_parts_iff, actual_matches-plain}
use fast_mqtt.Topic.{
  match_parts, actual_matches, topic_matches, share_prefix, default_stripped_prefixes,
}
use fast_mqtt.Property.Publish.{decode_publish_properties}
use fast_mqtt.Property.Class.{received, Decodes-properties}
use fast_mqtt.Cursor.{Decodes}
use fast_mqtt.Wire.RoundTrip.{Decodes-str, Decodes-bytes_field}
use fast_mqtt.Wire.Varint.{Decodes-varint, encode_varint_total}
use fast_mqtt.Wire.{decode_varint, decode_str, decode_bytes_field, encode_bytes_field}
use fast_mqtt.State.PacketIds.{IsPool, unique_cons, unique_nil, acquire_lem, release_lem}
use fast_mqtt.State.{PacketIdPool, acquire, release}
use fast_mqtt.Reader.Loop.{read_loop, join_reads, read_loop-join_reads, read_loop-encode_all}
use fast_mqtt.Reader.Stream.{Drains, Drains-drain}
use fast_mqtt.Reader.Prefix.{IsSettled, decode-append, decode_bounds}
use fast_mqtt.Reader.{PacketBuffer, feed, drain}
use fast_mqtt.Codec.RoundTrip.Whole.{decode-encode}
use fast_mqtt.Codec.Received.{as_received}
use fast_mqtt.Codec.Frame.{decode}
use fast_mqtt.Prelude.{has, ◌≤◌, ◌<◌, ◌≢◌, length, arith, runtime_error, false}
use fast_mqtt.Prelude.{ℕ, ◌≡◌, refl, List, [], ◌∷◌, ◌++◌, false, none, some, ok, err, map}
use fast_mqtt.Bytes.{Bytes, pack_u8, pack_u16, single_byte}
use fast_mqtt.Utf8.{utf8_encode, encode_char}
use fast_mqtt.Wire.{encode_str, encode_varint, encode_groups}
use fast_mqtt.Dict.{update, put}
use fast_mqtt.Property.Ids.{id_code, wire_type, same_id}
use fast_mqtt.Property.Block.{
  encode_props_block, encode_props, encode_entry, encode_value, encode_pairs,
}
use fast_mqtt.Property.Fields.{properties_dict, present, user_entry}
use fast_mqtt.Property.Class.{encode_properties}
use fast_mqtt.Property.Publish.{
  PublishProperties, publish_fields, publish_class, encode_publish_properties,
}
use fast_mqtt.Packet
use fast_mqtt.Packet.{Version, v3, v5, QoS, at_least_once, Publish}
use fast_mqtt.Codec.Bodies.{encode_all, publish_body, encode_packet_id}
use fast_mqtt.Codec.Encode.{encode, packet_body, build_packet}

abbrev message_properties : PublishProperties
message_properties = record {
  payload_format_indicator = some 1;
  message_expiry_interval = none;
  content_type = none;
  response_topic = none;
  correlation_data = none;
  topic_alias = none;
  subscription_identifier = some 200;
  user_properties = ((107 ∷ [], 233 ∷ []) ∷ []);
}

abbrev message : Publish
message = record {
  topic = 97 ∷ 47 ∷ 98 ∷ [];
  payload = 1 ∷ 2 ∷ [];
  qos = at_least_once;
  retain = false;
  dup = false;
  packet_id = some 7;
  properties = some message_properties;
}

abbrev message_packet : Packet.Packet
message_packet = Packet.Packet.publish message

abbrev message_bytes : Bytes
message_bytes =
    50 ∷ 23 ∷ 0 ∷ 3 ∷ 97 ∷ 47 ∷ 98 ∷ 0 ∷ 7 ∷ 13 ∷ 1 ∷ 1 ∷ 11 ∷ 200 ∷ 1 ∷ 38 ∷ 0 ∷ 1 ∷ 107 ∷ 0 ∷ 2
    ∷ 195 ∷ 169 ∷ 1 ∷ 2 ∷ []

encode-message : encode v5 message_packet ≡ ok message_bytes
unfolding encode packet_body build_packet publish_body encode_packet_id encode_str utf8_encode
    encode_char pack_u8 pack_u16 single_byte encode_varint encode_groups encode_properties
    encode_props_block encode_props encode_entry encode_value encode_pairs publish_fields
    properties_dict present user_entry update put id_code wire_type same_id
encode-message = refl

decode-encode_example :
    decode v5 (message_bytes ++ 192 ∷ [])
    ≡ ok (some (as_received v5 message_packet, length message_bytes))
decode-encode_example = decode-encode v5 message_packet message_bytes (192 ∷ []) encode-message

abbrev ping_bytes : Bytes
ping_bytes = 192 ∷ 0 ∷ []

encode-ping : encode v3 Packet.Packet.ping_req ≡ ok ping_bytes
unfolding encode packet_body build_packet single_byte encode_varint encode_groups
encode-ping = refl

decode-ping : decode v3 ping_bytes ≡ ok (some (Packet.Packet.ping_req, 2))
decode-ping = decode-encode v3 Packet.Packet.ping_req ping_bytes [] encode-ping

ping-IsSettled : IsSettled (decode v3 ping_bytes)
ping-IsSettled h = let found = decode-ping in absurd (cc)

decode-append_example : decode v3 (ping_bytes ++ 16 ∷ []) ≡ decode v3 ping_bytes
decode-append_example = decode-append v3 ping_bytes (16 ∷ []) ping-IsSettled

decode_bounds_example : (1 ≤ 2) × (2 ≤ 2)
decode_bounds_example = decode_bounds v3 ping_bytes Packet.Packet.ping_req 2 decode-ping

-- A message and a ping, cut inside both.
abbrev three_reads : List Bytes
three_reads =
    (50 ∷ 23 ∷ 0 ∷ 3 ∷ 97 ∷ 47 ∷ [])
    ∷ (98 ∷ 0 ∷ 7 ∷ 13 ∷ 1 ∷ 1 ∷ 11 ∷ 200 ∷ 1 ∷ 38 ∷ 0 ∷ 1 ∷ 107 ∷ 0 ∷ 2 ∷ 195 ∷ 169 ∷ 1 ∷ 2 ∷ 192
        ∷ [])
    ∷ (0 ∷ [])
    ∷ []

abbrev two_packets : List Packet.Packet
two_packets = message_packet ∷ Packet.Packet.ping_req ∷ []

encode_all-two_packets : encode_all (encode v5) two_packets ≡ ok (join_reads three_reads)
unfolding encode_all encode packet_body build_packet single_byte encode_varint encode_groups
encode_all-two_packets = rw encode-message refl

abbrev empty_buffer : PacketBuffer
empty_buffer = record { buf = []; version = v5 }

abbrev start_connection : Connection
start_connection = record { protocol = new_protocol v5; inbound = new_flow 10; answers = [] }

read_loop-encode_all_example :
    read_loop empty_buffer three_reads start_connection
    ≡ ends_with (dispatch_all (map (as_received v5) two_packets) start_connection) (ok empty_buffer)
read_loop-encode_all_example =
    read_loop-encode_all v5 two_packets three_reads start_connection encode_all-two_packets

read_loop-join_reads_example :
    read_loop
      (record { buf = 192 ∷ []; version = v3 })
      ((0 ∷ 0 ∷ []) ∷ (0 ∷ []) ∷ [])
      start_connection
    ≡ dispatch_buffer
        (feed (record { buf = 192 ∷ []; version = v3 }) (0 ∷ 0 ∷ 0 ∷ []))
        start_connection
read_loop-join_reads_example =
    read_loop-join_reads (record { buf = 192 ∷ []; version = v3 }) ((0 ∷ 0 ∷ []) ∷ (0 ∷ []) ∷ [])
      start_connection

abbrev normal : Disconnect
normal = record { reason_code = 0; properties = none }

-- A message, a DISCONNECT and a ping, cut inside the message and inside DISCONNECT
abbrev two_reads : List Bytes
two_reads =
    (50 ∷ 23 ∷ 0 ∷ 3 ∷ 97 ∷ 47 ∷ 98 ∷ 0 ∷ 7 ∷ 13 ∷ 1 ∷ 1 ∷ 11 ∷ 200 ∷ 1 ∷ [])
    ∷ (38 ∷ 0 ∷ 1 ∷ 107 ∷ 0 ∷ 2 ∷ 195 ∷ 169 ∷ 1 ∷ 2 ∷ 224 ∷ [])
    ∷ (0 ∷ 192 ∷ 0 ∷ [])
    ∷ []

abbrev with_disconnect : List Packet.Packet
with_disconnect = message_packet ∷ Packet.Packet.disconnect normal ∷ Packet.Packet.ping_req ∷ []

encode_all-with_disconnect : encode_all (encode v5) with_disconnect ≡ ok (join_reads two_reads)
unfolding encode_all encode packet_body build_packet single_byte encode_varint encode_groups
    disconnect_body
encode_all-with_disconnect = rw encode-message refl

abbrev after_message : Connection
after_message = (dispatch_all (as_received v5 message_packet ∷ []) start_connection).1

message-dispatched :
    dispatch_all (map (as_received v5) (message_packet ∷ [])) start_connection
    ≡ (ok tt, after_message)
unfolding dispatch_all dispatch new_protocol new_flow handle_publish has contains_packet_id route
    select_recipient select_subscription select select_by_identifier identified_by get match_topic
    collect matching select_from accept deliver_qos1_publish deliver received properties_dict update
    publish_fields same_id new_index
message-dispatched = refl

read_loop-disconnect_example :
    read_loop empty_buffer two_reads start_connection ≡ (err disconnected_error, after_message)
read_loop-disconnect_example =
    read_loop-disconnect v5 (message_packet ∷ []) (Packet.Packet.ping_req ∷ []) normal two_reads
      start_connection after_message encode_all-with_disconnect message-dispatched

abbrev ping_buffer : PacketBuffer
ping_buffer = record { buf = ping_bytes; version = v3 }

Drains-drain_example : Drains ping_buffer (drain ping_buffer).packets (drain ping_buffer).outcome
Drains-drain_example = Drains-drain ping_buffer

abbrev one_used : PacketIdPool
one_used = record { next = 2; in_use = 1 ∷ [] }

one_used-IsPool : IsPool one_used
unfolding has
one_used-IsPool = record {
  next_low = omega arith;
  next_high = omega arith;
  identifiers = λ i h. ground arith;
  unique = unique_cons refl unique_nil;
}

acquire_lem_example :
    (65535 ≤ 1 → acquire one_used ≡ err runtime_error)
    × (1 < 65535
        → (pid : ℕ) × (pool' : PacketIdPool) × (acquire one_used ≡ ok (pid, pool'))
          × ((1 ≤ pid) × (pid ≤ 65535))
          × (has pid (1 ∷ []) ≡ false)
          × (pool'.in_use ≡ pid ∷ 1 ∷ [])
          × IsPool pool')
acquire_lem_example = acquire_lem one_used one_used-IsPool

release_lem_example :
    IsPool (release 1 one_used)
    × (has 1 (release 1 one_used).in_use ≡ false)
    × ((i : ℕ) → i ≢ 1 → has i (release 1 one_used).in_use ≡ has i (1 ∷ []))
release_lem_example = release_lem 1 one_used one_used-IsPool (omega arith)

encode_varint_total_example :
    (bs : Bytes) × (encode_varint 300 ≡ ok bs) × (1 ≤ length bs) × (length bs ≤ 4)
encode_varint_total_example = encode_varint_total 300 (omega arith)

encode_varint-300 : encode_varint 300 ≡ ok (172 ∷ 2 ∷ [])
unfolding encode_varint encode_groups
encode_varint-300 = refl

Decodes-varint_example : Decodes decode_varint (172 ∷ 2 ∷ []) 300
Decodes-varint_example = Decodes-varint 300 (172 ∷ 2 ∷ []) encode_varint-300

encode_str-e_acute : encode_str (233 ∷ []) ≡ ok (0 ∷ 2 ∷ 195 ∷ 169 ∷ [])
unfolding encode_str utf8_encode encode_char pack_u16
encode_str-e_acute = refl

Decodes-str_example : Decodes decode_str (0 ∷ 2 ∷ 195 ∷ 169 ∷ []) (233 ∷ [])
Decodes-str_example = Decodes-str (233 ∷ []) (0 ∷ 2 ∷ 195 ∷ 169 ∷ []) encode_str-e_acute

encode_bytes-two : encode_bytes_field (7 ∷ 8 ∷ []) ≡ ok (0 ∷ 2 ∷ 7 ∷ 8 ∷ [])
unfolding encode_bytes_field pack_u16
encode_bytes-two = refl

Decodes-bytes_field_example : Decodes decode_bytes_field (0 ∷ 2 ∷ 7 ∷ 8 ∷ []) (7 ∷ 8 ∷ [])
Decodes-bytes_field_example = Decodes-bytes_field (7 ∷ 8 ∷ []) (0 ∷ 2 ∷ 7 ∷ 8 ∷ []) encode_bytes-two

encode-message_properties :
    encode_publish_properties (some message_properties)
    ≡ ok (13 ∷ 1 ∷ 1 ∷ 11 ∷ 200 ∷ 1 ∷ 38 ∷ 0 ∷ 1 ∷ 107 ∷ 0 ∷ 2 ∷ 195 ∷ 169 ∷ [])
unfolding pack_u8 pack_u16 single_byte encode_str utf8_encode encode_char encode_varint
    encode_groups encode_properties encode_props_block encode_props encode_entry encode_value
    encode_pairs publish_fields properties_dict present user_entry update put id_code wire_type
    same_id
encode-message_properties = refl

Decodes-properties_example :
    Decodes decode_publish_properties
      (13 ∷ 1 ∷ 1 ∷ 11 ∷ 200 ∷ 1 ∷ 38 ∷ 0 ∷ 1 ∷ 107 ∷ 0 ∷ 2 ∷ 195 ∷ 169 ∷ [])
      (received publish_class (some message_properties))
Decodes-properties_example =
    Decodes-properties publish_class (some message_properties)
      (13 ∷ 1 ∷ 1 ∷ 11 ∷ 200 ∷ 1 ∷ 38 ∷ 0 ∷ 1 ∷ 107 ∷ 0 ∷ 2 ∷ 195 ∷ 169 ∷ [])
      encode-message_properties

-- "a/b", "+/#" and "$share/g/+/#" by their characters.
abbrev plain_filter : List ℕ
plain_filter = 97 ∷ 47 ∷ 98 ∷ []

abbrev wildcard_filter : List ℕ
wildcard_filter = 43 ∷ 47 ∷ 35 ∷ []

match_parts_iff_example :
    (match_parts ((43 ∷ []) ∷ (35 ∷ []) ∷ []) ((97 ∷ []) ∷ []) ≡ true)
    ↔ Matches ((43 ∷ []) ∷ (35 ∷ []) ∷ []) ((97 ∷ []) ∷ [])
match_parts_iff_example = match_parts_iff ((43 ∷ []) ∷ (35 ∷ []) ∷ []) ((97 ∷ []) ∷ [])

no_wildcard : (has 35 plain_filter ≡ false) × (has 43 plain_filter ≡ false)
unfolding has
no_wildcard = (refl, refl)

actual_matches-plain_example :
    (actual_matches plain_filter plain_filter ≡ true) ↔ (plain_filter ≡ plain_filter)
actual_matches-plain_example =
    actual_matches-plain plain_filter plain_filter no_wildcard.0 no_wildcard.1

no_slash : has 47 (103 ∷ []) ≡ false
unfolding has
no_slash = refl

topic_matches-shared_example :
    topic_matches
      (share_prefix ++ (103 ∷ 47 ∷ wildcard_filter))
      plain_filter
      default_stripped_prefixes
    ≡ ok (actual_matches wildcard_filter plain_filter)
topic_matches-shared_example =
    topic_matches-shared (103 ∷ []) wildcard_filter plain_filter default_stripped_prefixes no_slash

topic_matches_total_example :
    (actual : List ℕ) × (topic_matches
        (36 ∷ 113 ∷ 117 ∷ 101 ∷ 117 ∷ 101 ∷ 47 ∷ 97 ∷ [])
        plain_filter
        default_stripped_prefixes
      ≡ ok (actual_matches actual plain_filter))
topic_matches_total_example =
    topic_matches_total (36 ∷ 113 ∷ 117 ∷ 101 ∷ 117 ∷ 101 ∷ 47 ∷ 97 ∷ []) plain_filter
      default_stripped_prefixes

validate_publish-topic : validate_publish plain_filter ≡ ok tt
unfolding validate_publish has
validate_publish-topic = refl

plain_filter-actual :
    shared_filter_to_actual plain_filter default_stripped_prefixes ≡ ok plain_filter
unfolding shared_filter_to_actual strip_prefix starts_with
plain_filter-actual = refl

validate_publish-filter_example :
    (validate_subscribe_topic plain_filter ≡ ok tt)
    × ((topic_matches plain_filter wildcard_filter default_stripped_prefixes ≡ ok true)
        ↔ (plain_filter ≡ wildcard_filter))
validate_publish-filter_example =
    validate_publish-filter plain_filter plain_filter wildcard_filter default_stripped_prefixes
      validate_publish-topic plain_filter-actual

abbrev entry_of_wildcard : Item
entry_of_wildcard = (
  wildcard_filter,
  record { address = 1; auto_ack = true; actual_filter = []; subscription_identifier = none },
)

abbrev entry_of_plain : Item
entry_of_plain = (
  plain_filter,
  record { address = 2; auto_ack = false; actual_filter = []; subscription_identifier = some 4 },
)

select_from-best_example :
    (selection : SubscriptionSelection) × (item : Item) × (select_from
        (entry_of_wildcard ∷ entry_of_plain ∷ [])
      ≡ ok selection)
    × (selection.recipient ≡ some item)
    × Among item (entry_of_wildcard ∷ entry_of_plain ∷ [])
    × ((other : Item)
        → Among other (entry_of_wildcard ∷ entry_of_plain ∷ [])
        → tuple_less (item_key other) (item_key item) ≡ false)
select_from-best_example = select_from-best entry_of_wildcard (entry_of_plain ∷ [])

one_used-has : has 1 (1 ∷ []) ≡ true
unfolding has
one_used-has = refl

acquire-release_example :
    acquire (release 1 one_used)
    ≡ ok (1, record { next = after 1; in_use = 1 ∷ discard 1 (1 ∷ []) })
acquire-release_example = acquire-release 1 one_used one_used-has (omega arith) (omega arith)
