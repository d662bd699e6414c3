-- ===== src/Bytes.antt =====
-- What the packet code uses of Python's `bytes` and of `struct`: subscripts, slices, `pack` and
-- `unpack_from` for the formats B, H and I, in network byte order. A byte string is a list of
-- numbers.
pub mod At
use fast_mqtt.Prelude.{ℕ, ◌+◌, ◌-◌, ◌*◌, ◌/◌, ◌%◌, ◌^◌, List, [], ◌∷◌, Bool, none, some, Option}
use fast_mqtt.Prelude.{get_elem?, take, drop, ltb, ◌==◌, if◌then◌else◌}
use fast_mqtt.Prelude.{Error, Result, ok, err, index_error, struct_error, value_error, ◌>>=◌}

abbrev pub Bytes : Type 0
Bytes = List ℕ

abbrev pub or_raise : Error → Option ℕ → Result ℕ
or_raise e none = err e
or_raise e (some b) = ok b

-- `buf[pos]`
abbrev pub byte_at : Bytes → ℕ → Result ℕ
byte_at buf pos = or_raise index_error (get_elem? buf pos)

-- `buf[start:end]`
abbrev pub slice : Bytes → ℕ → ℕ → Bytes
slice buf start end = take (end - start) (drop start buf)

-- `struct.unpack_from("!H", buf, pos)`
unfoldable pub unpack_u16 : Bytes → ℕ → Result ℕ
unpack_u16 buf pos = do
  high ← or_raise struct_error (get_elem? buf pos)
  low ← or_raise struct_error (get_elem? buf (pos + 1))
  ok (high * 256 + low)

-- `struct.unpack_from("!I", buf, pos)`
unfoldable pub unpack_u32 : Bytes → ℕ → Result ℕ
unfolding unpack_u16
unpack_u32 buf pos = do
  high ← unpack_u16 buf pos
  low ← unpack_u16 buf (pos + 2)
  ok (high * 65536 + low)

-- `bytes([n])`
unfoldable pub single_byte : ℕ → Result Bytes
single_byte n = if ltb n 256 then ok (n ∷ []) else err value_error

-- `struct.pack` with the formats "!B", "!H" and "!I"
unfoldable pub pack_u8 : ℕ → Result Bytes
pack_u8 n = if ltb n 256 then ok (n ∷ []) else err struct_error

unfoldable pub pack_u16 : ℕ → Result Bytes
pack_u16 n = if ltb n 65536 then ok (n / 256 ∷ n % 256 ∷ []) else err struct_error

unfoldable pub pack_u32 : ℕ → Result Bytes
pack_u32 n =
    if ltb n (2 ^ 32)
    then ok (n / 16777216 ∷ n / 65536 % 256 ∷ n / 256 % 256 ∷ n % 256 ∷ [])
    else err struct_error

-- `bool(n & (1 << k))`
abbrev pub has_bit : ℕ → ℕ → Bool
has_bit n k = n / 2 ^ k % 2 == 1
