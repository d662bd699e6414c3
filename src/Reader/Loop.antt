-- ===== src/Reader/Loop.antt =====
-- `_read_loop` of src/zmqtt/_internal/protocol.py: the packets in the buffer, then the next read.
use fast_mqtt.Reader.Stream.{fail}
use fast_mqtt.Reader.{next_packet}
use fast_mqtt.Reader.Prefix.{decode_bounds}
use fast_mqtt.Connection.{Connection, Dispatched, dispatch}
use fast_mqtt.Prelude.{
  ℕ, zero, suc, ◌<◌, ◌∙◌, sym, some, arith, length, length-drop, Error, out_of_fuel,
}
use fast_mqtt.Prelude.{subst, none}
use fast_mqtt.Prelude.{
  ◌≡◌, refl, ap, subst, none, List, [], ◌∷◌, ◌++◌, map, append-nil, append_assoc,
}
use fast_mqtt.Prelude.{drop-append, Result, ok, err, bind-ok, ok-injective}
use fast_mqtt.Bytes.{Bytes}
use fast_mqtt.Packet.{Version, Packet}
use fast_mqtt.Codec.Bodies.{encode_all}
use fast_mqtt.Codec.Encode.{encode}
use fast_mqtt.Codec.Frame.{decode}
use fast_mqtt.Codec.Received.{as_received}
use fast_mqtt.Codec.RoundTrip.Whole.{decode-encode}
use fast_mqtt.Reader.{PacketBuffer, feed, drain}
use fast_mqtt.Reader.Stream.{Drains, stop, take, Drains-drain, Drains-feed, Drains-feed_err}

-- How a loop ends: with the buffer at its end, or with the exception that left it, and what it made of
-- the connection.
abbrev pub Ended : Type 0
Ended = Result PacketBuffer × Connection

abbrev pub then_next : Dispatched → (Connection → Ended) → Ended
then_next (ok _, c) next = next c
then_next (err e, c) next = (err e, c)

-- `for packet in self._buf: await self._dispatch(packet)`: a packet is taken off the buffer, then
-- dispatched, before the next one is decoded.
unfoldable pub dispatch_rounds : ℕ → PacketBuffer → Connection → Ended
unfolding next_packet
dispatch_rounds zero b c = (err out_of_fuel, c)
dispatch_rounds (suc rounds) b c = elim (next_packet b) [
  | ok none ↦ (ok b, c)
  | ok (some (packet, b')) ↦ then_next (dispatch packet c) (λ c'. dispatch_rounds rounds b' c')
  | err e ↦ (err e, c)
]

unfoldable pub dispatch_buffer : PacketBuffer → Connection → Ended
unfolding dispatch_rounds
dispatch_buffer b c = dispatch_rounds (suc (length b.buf)) b c

abbrev pub then_read : Ended → (PacketBuffer → Connection → Ended) → Ended
then_read (ok b, c) next = next b c
then_read (err e, c) next = (err e, c)

-- `_read_loop` over a list of reads, until it waits for a read that has not come. No other coroutine
-- runs between its packets.
unfoldable pub read_loop : PacketBuffer → List Bytes → Connection → Ended
unfolding dispatch_buffer
read_loop b [] c = dispatch_buffer b c
read_loop b (chunk ∷ reads) c =
    then_read (dispatch_buffer b c) (λ b' c'. read_loop (feed b' chunk) reads c')

-- All that was read.
abbrev pub join_reads : List Bytes → Bytes
join_reads [] = []
join_reads (chunk ∷ reads) = chunk ++ join_reads reads

feed-feed :
    (b : PacketBuffer) (first second : Bytes)
    → feed (feed b first) second ≡ feed b (first ++ second)
unfolding feed
feed-feed b first second = ap (λ bs. record b { buf = bs }) (append_assoc b.buf first second)

-- Packets dispatched in order, until one of them raises.
abbrev pub then_all : Dispatched → (Connection → Dispatched) → Dispatched
then_all (ok _, c) next = next c
then_all (err e, c) next = (err e, c)

unfoldable pub dispatch_all : List Packet → Connection → Dispatched
dispatch_all [] c = (ok tt, c)
dispatch_all (packet ∷ packets) c = then_all (dispatch packet c) (λ c'. dispatch_all packets c')

-- The end of a loop whose packets were dispatched, if none raised
abbrev pub ends_with : Dispatched → Result PacketBuffer → Ended
ends_with (ok _, c) r = (r, c)
ends_with (err e, c) r = (err e, c)

next-ends :
    (o : Dispatched) (next : Connection → Ended) (all : Connection → Dispatched)
    (r : Result PacketBuffer)
    → ((c : Connection) → next c ≡ ends_with (all c) r)
    → then_next o next ≡ ends_with (then_all o all) r
next-ends (ok _, c) next all r h = h c
next-ends (err e, c) next all r h = refl

dispatch_rounds-Drains :
    {b : PacketBuffer} {ps : List Packet} {r : Result PacketBuffer}
    → Drains b ps r
    → (rounds : ℕ) → length b.buf < rounds
    → (c : Connection) → dispatch_rounds rounds b c ≡ ends_with (dispatch_all ps c) r
unfolding dispatch_rounds next_packet dispatch_all
dispatch_rounds-Drains (stop e) zero h c = elim h [ ]
dispatch_rounds-Drains (stop e) (suc rounds) h c = rw (e, dispatch_rounds) refl
dispatch_rounds-Drains (fail e) zero h c = elim h [ ]
dispatch_rounds-Drains (fail e) (suc rounds) h c = rw (e, dispatch_rounds) refl
dispatch_rounds-Drains (take e d) zero h c = elim h [ ]
dispatch_rounds-Drains (take {b = b} {p = p} {n = n} {ps = ps} {r = r} e d) (suc rounds) h c =
    let (one, most) = decode_bounds b.version b.buf p n e in
    rw (e, dispatch_rounds)
      (next-ends (dispatch p c) _ (dispatch_all ps) r
        (dispatch_rounds-Drains d rounds (omega (arith, length-drop n b.buf))))

dispatch_buffer-Drains :
    {b : PacketBuffer} {ps : List Packet} {r : Result PacketBuffer}
    → Drains b ps r
    → (c : Connection) → dispatch_buffer b c ≡ ends_with (dispatch_all ps c) r
unfolding dispatch_buffer
dispatch_buffer-Drains {b = b} d c = dispatch_rounds-Drains d (suc (length b.buf)) (omega arith) c

all-all :
    (o : Dispatched) (f g : Connection → Dispatched)
    → then_all o (λ c. then_all (f c) g) ≡ then_all (then_all o f) g
all-all (ok _, c) f g = refl
all-all (err e, c) f g = refl

pub dispatch_all-append :
    (ps qs : List Packet) (c : Connection)
    → dispatch_all (ps ++ qs) c ≡ then_all (dispatch_all ps c) (dispatch_all qs)
unfolding dispatch_all
dispatch_all-append [] qs c = refl
dispatch_all-append (p ∷ ps) qs c =
    let ih : (λ c'. dispatch_all (ps ++ qs) c')
        ≡ (λ c'. then_all (dispatch_all ps c') (dispatch_all qs)) =
      λ i c'. dispatch_all-append ps qs c' i in
    ap (λ k. then_all (dispatch p c) k) ih
    ∙ all-all (dispatch p c) (dispatch_all ps) (dispatch_all qs)

read-err :
    (o : Dispatched) (e : Error) (next : PacketBuffer → Connection → Ended)
    → then_read (ends_with o (err e)) next ≡ ends_with o (err e)
read-err (ok _, c) e next = refl
read-err (err e', c) e next = refl

read-ok :
    (o : Dispatched) (b : PacketBuffer) (next : PacketBuffer → Connection → Ended)
    (all : Connection → Dispatched) (r : Result PacketBuffer)
    → ((c : Connection) → next b c ≡ ends_with (all c) r)
    → then_read (ends_with o (ok b)) next ≡ ends_with (then_all o all) r
read-ok (ok _, c) b next all r h = h c
read-ok (err e, c) b next all r h = refl

-- One read, by the run over what was there before it.
after_run :
    (b : PacketBuffer) (chunk : Bytes) (reads : List Bytes) (ps : List Packet)
    (r : Result PacketBuffer) (c : Connection)
    → Drains b ps r
    → ((b' : PacketBuffer) (c' : Connection)
        → read_loop b' reads c' ≡ dispatch_buffer (feed b' (join_reads reads)) c')
    → read_loop b (chunk ∷ reads) c ≡ dispatch_buffer (feed b (chunk ++ join_reads reads)) c
unfolding read_loop
after_run b chunk reads ps (ok b') c d later =
    let more = chunk ++ join_reads reads in
    let end = feed b' more in
    let next : PacketBuffer → Connection → Ended = λ b'' c'. read_loop (feed b'' chunk) reads c' in
    let whole = dispatch_buffer-Drains (Drains-feed more d (Drains-drain end)) c in
    let from_end = λ (c' : Connection).
      later (feed b' chunk) c'
      ∙ ap (λ b''. dispatch_buffer b'' c') (feed-feed b' chunk (join_reads reads))
      ∙ dispatch_buffer-Drains (Drains-drain end) c' in
    ap (λ o. then_read o next) (dispatch_buffer-Drains d c)
    ∙ read-ok (dispatch_all ps c) b' next (dispatch_all (drain end).packets) (drain end).outcome
        from_end
    ∙ sym (
        whole
        ∙ ap (λ o. ends_with o (drain end).outcome) (dispatch_all-append ps (drain end).packets c))
after_run b chunk reads ps (err e) c d later =
    let next : PacketBuffer → Connection → Ended = λ b'' c'. read_loop (feed b'' chunk) reads c' in
    ap (λ o. then_read o next) (dispatch_buffer-Drains d c)
    ∙ read-err (dispatch_all ps c) e next
    ∙ sym (dispatch_buffer-Drains (Drains-feed_err (chunk ++ join_reads reads) d) c)

-- From any buffer and connection, the read loop leaves the connection, and ends with the buffer or
-- the exception, of one loop over the buffer with all the reads in it: how the bytes are cut into
-- reads is without effect.
pub read_loop-join_reads :
    (b : PacketBuffer) (reads : List Bytes) (c : Connection)
    → read_loop b reads c ≡ dispatch_buffer (feed b (join_reads reads)) c
unfolding read_loop feed
read_loop-join_reads b [] c = rw (append-nil b.buf) refl
read_loop-join_reads b (chunk ∷ reads) c =
    after_run b chunk reads (drain b).packets (drain b).outcome c (Drains-drain b)
      (λ b' c'. read_loop-join_reads b' reads c')

decode-nil : (v : Version) → decode v [] ≡ ok none
unfolding decode
decode-nil v = refl

-- The run over the encoded packets.
Drains-encode_all :
    (v : Version) (ps : List Packet) (bytes : Bytes)
    → encode_all (encode v) ps ≡ ok bytes
    → Drains
        (record { buf = bytes; version = v })
        (map (as_received v) ps)
        (ok (record { buf = []; version = v }))
unfolding encode_all
Drains-encode_all v [] bytes h =
    subst
      (λ bs. Drains (record { buf = bs; version = v }) [] (ok (record { buf = []; version = v })))
      (ok-injective h) (stop (decode-nil v))
Drains-encode_all v (p ∷ ps) bytes h = bind-ok (encode v p) _ h λ item item_ok h'.
    bind-ok (encode_all (encode v) ps) _ h' λ rest rest_ok h''.
      let later = Drains-encode_all v ps rest rest_ok in
      let whole = take (decode-encode v p item rest item_ok) (rw (drop-append item rest) later) in
      subst
        (λ bs.
          Drains (record { buf = bs; version = v }) (map (as_received v) (p ∷ ps))
            (ok (record { buf = []; version = v })))
        (ok-injective h'') whole

-- If a list of packets is encoded one after another, and the reads joined are those bytes, then the
-- read loop of the same version, from an empty buffer, dispatches the packets in order, each as the
-- other side gets it (`as_received`), until the dispatch of one raises, which ends the loop; if none
-- raises, the loop ends with an empty buffer.
pub read_loop-encode_all :
    (v : Version) (ps : List Packet) (reads : List Bytes) (c : Connection)
    → encode_all (encode v) ps ≡ ok (join_reads reads)
    → read_loop (record { buf = []; version = v }) reads c
      ≡ ends_with (dispatch_all (map (as_received v) ps) c) (ok (record { buf = []; version = v }))
unfolding feed
read_loop-encode_all v ps reads c h =
    read_loop-join_reads (record { buf = []; version = v }) reads c
    ∙ dispatch_buffer-Drains (Drains-encode_all v ps (join_reads reads) h) c
