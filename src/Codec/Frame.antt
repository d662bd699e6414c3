-- ===== src/Codec/Frame.antt =====
-- `decode` of codec.py: the fixed header, and the packet that it frames.
use fast_mqtt.Prelude.{ℕ, zero, suc, ◌+◌, ◌*◌, ◌/◌, ◌%◌, ◌^◌, Option, none, some}
use fast_mqtt.Prelude.{length, get_elem?, ltb, if◌then◌else◌, Result, ok, err, value_error, ◌>>=◌}
use fast_mqtt.Bytes.{Bytes, byte_at, slice, has_bit}
use fast_mqtt.Cursor.{Cursor}
use fast_mqtt.Packet.{Version, Packet, PacketType, type_of_code}
use fast_mqtt.Codec.Decode.{decode_body}

-- The loop over the bytes of the remaining length: `some` of the length and of the number of bytes,
-- `none` where the buffer ends before them.
unfoldable pub read_length : ℕ → ℕ → ℕ → ℕ → Bytes → Result (Option (ℕ × ℕ))
read_length zero i multiplier remaining buffer = err value_error
read_length (suc rounds) i multiplier remaining buffer = elim (get_elem? buffer (1 + i)) [
  | none ↦ ok none
  | some byte ↦
      let remaining' = remaining + byte % 2 ^ 7 * multiplier in
      let more = read_length rounds (i + 1) (multiplier * 128) remaining' buffer in
      if has_bit byte 7 then more else ok (some (remaining', i + 1))
]

-- `PacketType(n)`
abbrev pub valid_type : Option PacketType → Result PacketType
valid_type none = err value_error
valid_type (some t) = ok t

-- A body decoder runs from the start of the body.
abbrev pub run_body {ℓ} : {A : Type ℓ} → Cursor A → Bytes → Result A
run_body p body = elim (p body 0) [ ok (a, pos) ↦ ok a | err e ↦ err e ]

-- The packet of `total` bytes, after the header.
unfoldable pub decode_framed : Version → Bytes → ℕ → ℕ → Result Packet
unfolding decode_body
decode_framed v buffer header total = do
  first ← byte_at buffer 0
  t ← valid_type (type_of_code (first / 16 % 16))
  run_body (decode_body v t (first % 16)) (slice buffer header total)

-- Once the length is known: `None` until the body is there.
unfoldable pub decode_sized : Version → Bytes → Option (ℕ × ℕ) → Result (Option (Packet × ℕ))
unfolding decode_framed
decode_sized v buffer none = ok none
decode_sized v buffer (some (remaining, n)) =
    let total = 1 + n + remaining in
    if ltb (length buffer) total
    then ok none
    else (do p ← decode_framed v buffer (1 + n) total; ok (some (p, total)))

unfoldable pub decode : Version → Bytes → Result (Option (Packet × ℕ))
unfolding read_length decode_sized
decode v buffer =
    if ltb (length buffer) 2
    then ok none
    else (do size ← read_length 4 0 1 0 buffer; decode_sized v buffer size)
