-- ===== src/Codec/Received.antt =====
-- codec.py: the packet that the other side gets. What the wire does not carry is at its default
-- there.
use fast_mqtt.Prelude.{ℕ, [], map, false, Option, none}
use mathlib.Core.Option
use fast_mqtt.Property.Connect.{connect_class, will_class}
use fast_mqtt.Property.ConnAck.{connack_class}
use fast_mqtt.Property.Publish.{publish_class, puback_class}
use fast_mqtt.Property.Subscribe.{subscribe_class, suback_class, unsubscribe_class, unsuback_class}
use fast_mqtt.Property.Disconnect.{disconnect_class, auth_class}
use fast_mqtt.Property.Class.{received}
use fast_mqtt.Packet.{
  Version, v3, v5, QoS, at_most_once, send_on_subscribe, Packet, Will, Connect, ConnAck, Publish,
  PubReply, SubscriptionRequest, Subscribe, SubAck, Unsubscribe, UnsubAck, Disconnect, Auth,
}
use fast_mqtt.Packet.{
  connect, conn_ack, publish, pub_ack, pub_rec, pub_rel, pub_comp, subscribe, sub_ack, unsubscribe,
  unsub_ack, ping_req, ping_resp, disconnect, auth,
}
use fast_mqtt.Codec.Reading.{received_in}

abbrev pub received_will : Version → Will → Will
received_will v w = record w { properties = received_in will_class v w.properties }

abbrev pub received_connect : Version → Connect → Connect
received_connect v p = record p {
  will = Option.map (received_will v) p.will;
  properties = received_in connect_class v p.properties;
}

abbrev pub received_connack : Version → ConnAck → ConnAck
received_connack v p = record p { properties = received_in connack_class v p.properties }

-- QoS 0 carries no packet identifier.
abbrev pub received_id : QoS → Option ℕ → Option ℕ
received_id at_most_once pid = none
received_id _ pid = pid

abbrev pub received_publish : Version → Publish → Publish
received_publish v p = record p {
  packet_id = received_id p.qos p.packet_id;
  properties = received_in publish_class v p.properties;
}

abbrev pub v5_code : Version → ℕ → ℕ
v5_code v3 n = 0
v5_code v5 n = n

abbrev pub received_reply : Version → PubReply → PubReply
received_reply v p = record p {
  reason_code = v5_code v p.reason_code;
  properties = received_in puback_class v p.properties;
}

-- Version 3 has one option, the QoS.
abbrev pub received_request : Version → SubscriptionRequest → SubscriptionRequest
received_request v3 s = record s {
  no_local = false;
  retain_as_published = false;
  retain_handling = send_on_subscribe;
}
received_request v5 s = s

abbrev pub received_subscribe : Version → Subscribe → Subscribe
received_subscribe v p = record p {
  subscriptions = map (received_request v) p.subscriptions;
  properties = received_in subscribe_class v p.properties;
}

abbrev pub received_suback : Version → SubAck → SubAck
received_suback v p = record p { properties = received_in suback_class v p.properties }

abbrev pub received_unsubscribe : Version → Unsubscribe → Unsubscribe
received_unsubscribe v p = record p { properties = received_in unsubscribe_class v p.properties }

abbrev pub received_unsuback : Version → UnsubAck → UnsubAck
received_unsuback v3 p = record p { reason_codes = []; properties = none }
received_unsuback v5 p = record p { properties = received unsuback_class p.properties }

abbrev pub received_disconnect : Version → Disconnect → Disconnect
received_disconnect v p = record p {
  reason_code = v5_code v p.reason_code;
  properties = received_in disconnect_class v p.properties;
}

abbrev pub received_auth : Auth → Auth
received_auth p = record p { properties = received auth_class p.properties }

abbrev pub as_received : Version → Packet → Packet
as_received v (connect p) = connect (received_connect v p)
as_received v (conn_ack p) = conn_ack (received_connack v p)
as_received v (publish p) = publish (received_publish v p)
as_received v (pub_ack p) = pub_ack (received_reply v p)
as_received v (pub_rec p) = pub_rec (received_reply v p)
as_received v (pub_rel p) = pub_rel (received_reply v p)
as_received v (pub_comp p) = pub_comp (received_reply v p)
as_received v (subscribe p) = subscribe (received_subscribe v p)
as_received v (sub_ack p) = sub_ack (received_suback v p)
as_received v (unsubscribe p) = unsubscribe (received_unsubscribe v p)
as_received v (unsub_ack p) = unsub_ack (received_unsuback v p)
as_received v ping_req = ping_req
as_received v ping_resp = ping_resp
as_received v (disconnect p) = disconnect (received_disconnect v p)
as_received v (auth p) = auth (received_auth p)
