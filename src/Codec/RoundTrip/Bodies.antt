-- ===== src/Codec/RoundTrip/Bodies.antt =====
-- codec.py: the bodies of `encode` and `decode`, by the packet type.
use fast_mqtt.Prelude.{◌≡◌, [], ok, ok-injective, subst}
use fast_mqtt.Bytes.{Bytes}
use fast_mqtt.Cursor.{ReadsToEnd, ReadsToEnd-Reads, Reads-pure, ReadsToEnd-map}
use fast_mqtt.Packet.{
  Version, Packet, connect, conn_ack, publish, pub_ack, pub_rec, pub_rel, pub_comp, subscribe,
  sub_ack, unsubscribe, unsub_ack, ping_req, ping_resp, disconnect, auth,
}
use fast_mqtt.Codec.Encode.{packet_type, packet_flags, packet_body}
use fast_mqtt.Codec.Bodies.{publish_flags}
use fast_mqtt.Codec.Decode.{
  decode_connect, decode_connack, decode_publish, decode_reply, decode_subscribe, decode_suback,
  decode_unsubscribe, decode_unsuback, decode_disconnect, decode_auth, decode_body,
}
use fast_mqtt.Codec.Received.{as_received}
use fast_mqtt.Codec.RoundTrip.Replies.{
  ReadsToEnd-connack, ReadsToEnd-publish, ReadsToEnd-reply, ReadsToEnd-disconnect, ReadsToEnd-auth,
}
use fast_mqtt.Codec.RoundTrip.Lists.{
  ReadsToEnd-subscribe, ReadsToEnd-suback, ReadsToEnd-unsubscribe, ReadsToEnd-unsuback,
}
use fast_mqtt.Codec.RoundTrip.Connects.{ReadsToEnd-connect}

-- A packet without a body.
empty :
    (p : Packet) (bs : Bytes)
    → ok [] ≡ ok bs
    → ReadsToEnd {A = Packet} (λ buf pos. ok (p, pos)) bs p
empty p bs h =
    subst (λ b. ReadsToEnd {A = Packet} (λ buf pos. ok (p, pos)) b p) (ok-injective h)
      (ReadsToEnd-Reads (Reads-pure p))

pub ReadsToEnd-body :
    (v : Version) (p : Packet) (bs : Bytes)
    → packet_body v p ≡ ok bs
    → ReadsToEnd (decode_body v (packet_type p) (packet_flags p)) bs (as_received v p)
unfolding packet_body decode_body
ReadsToEnd-body v (connect p) bs h =
    ReadsToEnd-map decode_connect connect (ReadsToEnd-connect v p bs h)
ReadsToEnd-body v (conn_ack p) bs h =
    ReadsToEnd-map (decode_connack v) conn_ack (ReadsToEnd-connack v p bs h)
ReadsToEnd-body v (publish p) bs h =
    ReadsToEnd-map (decode_publish (publish_flags p.dup p.qos p.retain) v) publish
      (ReadsToEnd-publish v p bs h)
ReadsToEnd-body v (pub_ack p) bs h =
    ReadsToEnd-map (decode_reply v) pub_ack (ReadsToEnd-reply v p bs h)
ReadsToEnd-body v (pub_rec p) bs h =
    ReadsToEnd-map (decode_reply v) pub_rec (ReadsToEnd-reply v p bs h)
ReadsToEnd-body v (pub_rel p) bs h =
    ReadsToEnd-map (decode_reply v) pub_rel (ReadsToEnd-reply v p bs h)
ReadsToEnd-body v (pub_comp p) bs h =
    ReadsToEnd-map (decode_reply v) pub_comp (ReadsToEnd-reply v p bs h)
ReadsToEnd-body v (subscribe p) bs h =
    ReadsToEnd-map (decode_subscribe v) subscribe (ReadsToEnd-subscribe v p bs h)
ReadsToEnd-body v (sub_ack p) bs h =
    ReadsToEnd-map (decode_suback v) sub_ack (ReadsToEnd-suback v p bs h)
ReadsToEnd-body v (unsubscribe p) bs h =
    ReadsToEnd-map (decode_unsubscribe v) unsubscribe (ReadsToEnd-unsubscribe v p bs h)
ReadsToEnd-body v (unsub_ack p) bs h =
    ReadsToEnd-map (decode_unsuback v) unsub_ack (ReadsToEnd-unsuback v p bs h)
ReadsToEnd-body v ping_req bs h = empty ping_req bs h
ReadsToEnd-body v ping_resp bs h = empty ping_resp bs h
ReadsToEnd-body v (disconnect p) bs h =
    ReadsToEnd-map (decode_disconnect v) disconnect (ReadsToEnd-disconnect v p bs h)
ReadsToEnd-body v (auth p) bs h = ReadsToEnd-map decode_auth auth (ReadsToEnd-auth p bs h)
