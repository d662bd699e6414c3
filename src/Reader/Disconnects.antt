-- ===== src/Reader/Disconnects.antt =====
-- A DISCONNECT of the broker in `_read_loop` of protocol.py.
use fast_mqtt.Prelude.{◌≡◌, refl, ap, ◌∙◌, List, [], ◌∷◌, ◌++◌, map}
use fast_mqtt.Prelude.{Result, ok, err, disconnected_error}
use fast_mqtt.Bytes.{Bytes}
use fast_mqtt.Packet
use fast_mqtt.Packet.{Version, Disconnect}
use fast_mqtt.Codec.Bodies.{encode_all}
use fast_mqtt.Codec.Encode.{encode}
use fast_mqtt.Codec.Received.{as_received}
use fast_mqtt.Connection.{Connection, dispatch}
use fast_mqtt.Reader.{PacketBuffer}
use fast_mqtt.Reader.Loop.{
  read_loop, join_reads, then_all, dispatch_all, ends_with, dispatch_all-append,
  read_loop-encode_all,
}

map-append :
    (f : Packet.Packet → Packet.Packet) (ps qs : List Packet.Packet)
    → map f (ps ++ qs) ≡ map f ps ++ map f qs
map-append f [] qs = refl
map-append f (p ∷ ps) qs = ap (λ r. f p ∷ r) (map-append f ps qs)

-- If packets, a DISCONNECT and more packets are encoded one after another, the reads joined are those
-- bytes, and the packets before DISCONNECT are dispatched and raise nothing, then the read loop of the
-- same version, from an empty buffer, ends with MQTTDisconnectedError and the connection as the
-- packets before DISCONNECT left it: none of those after it is dispatched.
pub read_loop-disconnect :
    (v : Version) (before later : List Packet.Packet) (packet : Disconnect) (reads : List Bytes)
    (c after : Connection)
    → encode_all (encode v) (before ++ Packet.Packet.disconnect packet ∷ later)
      ≡ ok (join_reads reads)
    → dispatch_all (map (as_received v) before) c ≡ (ok tt, after)
    → read_loop (record { buf = []; version = v }) reads c ≡ (err disconnected_error, after)
unfolding dispatch_all dispatch
read_loop-disconnect v before later packet reads c after h dispatched =
    let last : Result PacketBuffer = ok (record { buf = []; version = v }) in
    let there = Packet.Packet.disconnect packet ∷ later in
    let rest = map (as_received v) there in
    read_loop-encode_all v (before ++ there) reads c h
    ∙ ap (λ ps. ends_with (dispatch_all ps c) last) (map-append (as_received v) before there)
    ∙ ap (λ o. ends_with o last) (dispatch_all-append (map (as_received v) before) rest c)
    ∙ ap (λ o. ends_with (then_all o (dispatch_all rest)) last) dispatched
