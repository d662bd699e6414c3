-- ===== src/Codec/RoundTrip/Whole.antt =====
-- codec.py: the fixed header that `_build_packet` writes and `decode` reads, around a body.
use fast_mqtt.Prelude.{
  ℕ, zero, suc, ◌+◌, ◌*◌, ◌/◌, ◌%◌, ◌^◌, ◌≡◌, refl, ap, ◌∙◌, subst, bit_or, [], ◌∷◌, ◌++◌, Bool,
  true, false, some, arith, append_assoc, inl, inr, Option-cases,
}
use fast_mqtt.Prelude.{
  length, length-append, get_elem?, le→ltb, if◌then◌else◌, ok, ◌>>=◌, bind-ok, ok-injective,
}
use fast_mqtt.Bytes.{Bytes, single_byte, slice, has_bit}
use fast_mqtt.Bytes.At.{At, At-start, At-skip, take-At, length-At}
use fast_mqtt.Wire.{encode_varint, decode_varint, decode_groups}
use fast_mqtt.Wire.Varint.{Decodes-varint}
use fast_mqtt.Packet.{Version, Packet, PacketType, QoS, type_code, type_of_code, connect, publish}
use fast_mqtt.Codec.Bodies.{publish_flags}
use fast_mqtt.Codec.Encode.{build_packet, packet_type, packet_flags, packet_body, encode}
use fast_mqtt.Codec.Frame.{read_length, run_body, decode_framed, decode_sized, decode}
use fast_mqtt.Codec.Reading.{encode_varint-pos}
use fast_mqtt.Codec.Received.{as_received}
use fast_mqtt.Codec.RoundTrip.Bodies.{ReadsToEnd-body}

abbrev first_byte : Packet → ℕ
first_byte p = bit_or (type_code (packet_type p) * 16) (packet_flags p % 16)

publish_first :
    (dup : Bool) (qos : QoS) (retain : Bool)
    → (type_of_code (bit_or 48 (publish_flags dup qos retain % 16) / 16 % 16)
        ≡ some PacketType.publish)
      × (bit_or 48 (publish_flags dup qos retain % 16) % 16 ≡ publish_flags dup qos retain)
publish_first dup qos retain = ground arith

-- The first byte carries the type and the flags.
first_byte_parts :
    (p : Packet)
    → (type_of_code (first_byte p / 16 % 16) ≡ some (packet_type p))
      × (first_byte p % 16 ≡ packet_flags p)
first_byte_parts (connect p) = (refl, refl)
first_byte_parts (publish p) = publish_first p.dup p.qos p.retain
first_byte_parts _ = (refl, refl)

-- One round, after its byte: the two loops branch alike.
length_round :
    (rounds i multiplier acc : ℕ) (buf : Bytes) (value n : ℕ) (more : Bool)
    → (if more then decode_groups rounds (i + 1) (multiplier * 128) acc buf 1 else ok (acc, i + 1))
      ≡ ok (value, n)
    → (decode_groups rounds (i + 1) (multiplier * 128) acc buf 1 ≡ ok (value, n)
        → read_length rounds (i + 1) (multiplier * 128) acc buf ≡ ok (some (value, n)))
    → (if more
        then read_length rounds (i + 1) (multiplier * 128) acc buf
        else ok (some (acc, i + 1)))
      ≡ ok (some (value, n))
length_round rounds i multiplier acc buf value n true h ih = ih h
length_round rounds i multiplier acc buf value n false h ih = ap (λ r. ok (some r)) (ok-injective h)

-- The inline loop of `decode` reads what `decode_varint` reads at offset 1.
read_length-decode_groups :
    (rounds i multiplier acc : ℕ) (buf : Bytes) (value n : ℕ)
    → decode_groups rounds i multiplier acc buf 1 ≡ ok (value, n)
    → read_length rounds i multiplier acc buf ≡ ok (some (value, n))
unfolding decode_groups read_length
read_length-decode_groups zero i multiplier acc buf value n h = cc
read_length-decode_groups (suc rounds) i multiplier acc buf value n h =
    elim (Option-cases (get_elem? buf (1 + i))) [
      | inl end ↦ cc (rw (end, decode_groups) at h)
      | inr (byte, there) ↦
          rw (there, read_length)
            (length_round rounds i multiplier (acc + byte % 2 ^ 7 * multiplier) buf value n
              (has_bit byte 7) (rw (there, decode_groups) at h)
              (read_length-decode_groups rounds (i + 1) (multiplier * 128)
                (acc + byte % 2 ^ 7 * multiplier) buf value n))
    ]

module _ (v : Version) (p : Packet) (size body rest : Bytes) (h-body : packet_body v p ≡ ok body)
    (h-size : encode_varint (length body) ≡ ok size) where
  abbrev buffer : Bytes
  buffer = (first_byte p ∷ (size ++ body)) ++ rest

  after_first : At buffer 1 (size ++ (body ++ rest))
  after_first =
      subst (λ n. At buffer n (size ++ (body ++ rest))) (omega arith)
        (At-skip (first_byte p ∷ []) (size ++ (body ++ rest)) (
          subst (λ l. At buffer 0 (first_byte p ∷ l)) (append_assoc size body rest)
            (At-start buffer)))

  length_read : read_length 4 0 1 0 buffer ≡ ok (some (length body, length size))
  length_read = read_length-decode_groups 4 0 1 0 buffer (length body) (length size) (
      unfold decode_varint in
      (Decodes-varint (length body) size h-size).at buffer 1 (body ++ rest) after_first)

  body_slice : slice buffer (1 + length size) (1 + length size + length body) ≡ body
  body_slice = take-At body rest _ (At-skip size (body ++ rest) after_first) (omega arith)

  framed :
      decode_framed v buffer (1 + length size) (1 + length size + length body)
      ≡ ok (as_received v p)
  unfolding decode_framed
  framed =
      let parts = first_byte_parts p in
      let (end, e) = (ReadsToEnd-body v p body h-body).at body 0 (At-start body) in
      rw (parts.0) (rw (parts.1) (rw body_slice (rw (e, run_body))))

  decode_at : decode v buffer ≡ ok (some (as_received v p, 1 + length size + length body))
  unfolding decode decode_sized
  decode_at =
      rw
        (le→ltb (length buffer) 2 (
          omega (
            arith,
            length-At after_first,
            length-append size (body ++ rest),
            encode_varint-pos (length body) size h-size,
          )))
        (rw (length_read, ◌>>=◌)
          (rw
            (le→ltb (length buffer) (1 + length size + length body) (
              omega (
                arith,
                length-At after_first,
                length-append size (body ++ rest),
                length-append body rest,
              )))
            (rw framed refl)))

single_byte-eq : (n : ℕ) (bs : Bytes) → single_byte n ≡ ok bs → n ∷ [] ≡ bs
unfolding single_byte
single_byte-eq n bs h = ground arith

-- The parts of what `encode` returns.
pub encode-parts :
    (v : Version) (p : Packet) (bs : Bytes)
    → encode v p ≡ ok bs
    → (size body : Bytes) × (packet_body v p ≡ ok body)
      × (encode_varint (length body) ≡ ok size)
      × (first_byte p ∷ (size ++ body) ≡ bs)
unfolding encode build_packet
encode-parts v p bs h = bind-ok (packet_body v p) _ h λ body h-body h₁.
    bind-ok (single_byte (first_byte p)) _ h₁ λ first h-first h₂.
      bind-ok (encode_varint (length body)) _ h₂ λ size h-size e. (
        size,
        body,
        h-body,
        h-size,
        ap (λ l. l ++ (size ++ body)) (single_byte-eq (first_byte p) first h-first)
            ∙ ok-injective e,
      )

-- If `encode` accepts a packet, `decode` of the same version, at the bytes of the packet with any
-- bytes after them, returns the packet as the other side gets it (`as_received`) and the number of
-- the packet's bytes.
pub decode-encode :
    (v : Version) (p : Packet) (bs rest : Bytes)
    → encode v p ≡ ok bs
    → decode v (bs ++ rest) ≡ ok (some (as_received v p, length bs))
decode-encode v p bs rest h =
    let (size, body, h-body, h-size, e) = encode-parts v p bs h in
    subst (λ b. decode v (b ++ rest) ≡ ok (some (as_received v p, length b))) e
      (decode_at v p size body rest h-body h-size
        ∙ ap (λ n. ok (some (as_received v p, n))) (omega (arith, length-append size body)))
