-- ===== src/Wire.antt =====
-- src/zmqtt/_internal/packets/_wire.py
pub mod Varint
pub mod RoundTrip
use fast_mqtt.Prelude.{
  ℕ, zero, suc, ◌+◌, ◌*◌, ◌/◌, ◌%◌, ◌^◌, bit_or, List, [], ◌∷◌, ◌++◌, Bool, none, some,
}
use fast_mqtt.Prelude.{length, get_elem?, ltb, leb, ◌==◌, if◌then◌else◌, not}
use fast_mqtt.Prelude.{Result, ok, err, value_error, out_of_fuel, ◌>>=◌, ◌>>◌, refuse}
use fast_mqtt.Bytes.{Bytes, slice, has_bit, pack_u16, unpack_u16}
use fast_mqtt.Utf8.{Text, utf8_encode, utf8_decode}

-- `_MAX_MQTT_VARINT`
abbrev pub max_varint : ℕ
max_varint = 268_435_455

-- The `while True` loop, on the rounds that it may make.
unfoldable pub encode_groups : ℕ → ℕ → Result Bytes
encode_groups zero value = err out_of_fuel
encode_groups (suc rounds) value =
    let byte = value % 2 ^ 7 in
    let value' = value / 2 ^ 7 in
    let more = (do rest ← encode_groups rounds value'; ok (bit_or byte 0x80 ∷ rest)) in
    if value' == 0 then ok (byte ∷ []) else more

-- A value up to `max_varint` has at most four groups of seven bits.
unfoldable pub encode_varint : ℕ → Result Bytes
unfolding encode_groups
encode_varint value = do refuse (ltb max_varint value) value_error; encode_groups 4 value

-- `for i in range(4)`, on the rounds left.
unfoldable pub decode_groups : ℕ → ℕ → ℕ → ℕ → Bytes → ℕ → Result (ℕ × ℕ)
decode_groups zero i multiplier value buf offset = err value_error
decode_groups (suc rounds) i multiplier value buf offset = elim (get_elem? buf (offset + i)) [
  | none ↦ err value_error
  | some byte ↦
      let value' = value + byte % 2 ^ 7 * multiplier in
      let more = decode_groups rounds (i + 1) (multiplier * 128) value' buf offset in
      if has_bit byte 7 then more else ok (value', i + 1)
]

unfoldable pub decode_varint : Bytes → ℕ → Result (ℕ × ℕ)
unfolding decode_groups
decode_varint buf offset = decode_groups 4 0 1 0 buf offset

unfoldable pub encode_bytes_field : Bytes → Result Bytes
unfolding pack_u16
encode_bytes_field bytes = do prefix ← pack_u16 (length bytes); ok (prefix ++ bytes)

unfoldable pub encode_str : Text → Result Bytes
unfolding utf8_encode pack_u16
encode_str s = do
  encoded ← utf8_encode s
  prefix ← pack_u16 (length encoded)
  ok (prefix ++ encoded)

unfoldable pub decode_bytes_field : Bytes → ℕ → Result (Bytes × ℕ)
unfolding unpack_u16
decode_bytes_field buf offset = do
  refuse (ltb (length buf) (offset + 2)) value_error
  n ← unpack_u16 buf offset
  let end = offset + 2 + n
  refuse (ltb (length buf) end) value_error
  ok (slice buf (offset + 2) end, 2 + n)

unfoldable pub decode_str : Bytes → ℕ → Result (Text × ℕ)
unfolding unpack_u16 utf8_decode
decode_str buf offset = do
  refuse (ltb (length buf) (offset + 2)) value_error
  n ← unpack_u16 buf offset
  let end = offset + 2 + n
  refuse (ltb (length buf) end) value_error
  s ← utf8_decode (slice buf (offset + 2) end)
  ok (s, 2 + n)
