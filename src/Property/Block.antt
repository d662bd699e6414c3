-- ===== src/Property/Block.antt =====
-- `encode_props`, `encode_props_block` and `decode_props_block` of properties.py.
use fast_mqtt.Property.Ids.{id_eq}
use fast_mqtt.Prelude.{
  ℕ, zero, suc, ◌+◌, List, [], ◌∷◌, ◌++◌, Bool, true, false, Option, none, some,
}
use fast_mqtt.Prelude.{length, is_empty, ltb, if◌then◌else◌}
use fast_mqtt.Prelude.{Result, ok, err, value_error, type_error, out_of_fuel, ◌>>=◌}
use fast_mqtt.Bytes.{Bytes, pack_u8, pack_u16, pack_u32}
use fast_mqtt.Cursor.{Cursor, advance, pure, raise, next_byte, next_u16, next_u32}
use fast_mqtt.Cursor
use fast_mqtt.Dict.{Dict, get, put}
use fast_mqtt.Utf8.{Text}
use fast_mqtt.Wire.{
  encode_varint, decode_varint, encode_str, decode_str, encode_bytes_field, decode_bytes_field,
}
use fast_mqtt.Property.Ids.{
  PropertyId, id_code, id_of_code, WireType, byte, uint16, uint32, varint, str, bytes_data,
  string_pair, wire_type, user_property,
}

abbrev pub Pairs : Type 0
Pairs = List (Text × Text)

-- What a property dict holds under a key. Integers are natural numbers: the program has no use for
-- others, and `struct.pack` refuses them.
pub data Value : Type 0 where
  int : ℕ → Value
  flag : Bool → Value
  text : Text → Value
  blob : Bytes → Value
  pairs : Pairs → Value

abbrev pub Properties : Type 0
Properties = Dict PropertyId Value

abbrev pub bit : Bool → ℕ
bit true = 1
bit false = 0

-- `int(value)` on what the classes hold
abbrev pub int_of : Value → Result ℕ
int_of (int n) = ok n
int_of (flag b) = ok (bit b)
int_of _ = err type_error

unfoldable pub encode_value : WireType → Value → Result Bytes
encode_value byte v = do n ← int_of v; pack_u8 n
encode_value uint16 v = do n ← int_of v; pack_u16 n
encode_value uint32 v = do n ← int_of v; pack_u32 n
encode_value varint v = do n ← int_of v; encode_varint n
encode_value str (text s) = encode_str s
encode_value bytes_data (blob b) = encode_bytes_field b
encode_value _ _ = err type_error

-- `for k, v in value`
unfoldable pub encode_pairs : Pairs → Result Bytes
encode_pairs [] = ok []
encode_pairs ((k, v) ∷ more) = do
  key ← encode_str k
  value ← encode_str v
  rest ← encode_pairs more
  ok ((id_code user_property ∷ (key ++ value)) ++ rest)

-- One round of the loop of `encode_props`.
unfoldable pub encode_entry : PropertyId → Value → Result Bytes
unfolding encode_value encode_pairs wire_type
encode_entry user_property (pairs ps) = encode_pairs ps
encode_entry p v = do raw ← encode_value (wire_type p) v; ok (id_code p ∷ raw)

unfoldable pub encode_props : Properties → Result Bytes
unfolding encode_entry
encode_props [] = ok []
encode_props ((p, v) ∷ d) = do raw ← encode_entry p v; rest ← encode_props d; ok (raw ++ rest)

unfoldable pub encode_props_block : Properties → Result Bytes
unfolding encode_props
encode_props_block d =
    if is_empty d
    then encode_varint 0
    else (do raw ← encode_props d; size ← encode_varint (length raw); ok (size ++ raw))

-- `PropertyID(buf[pos])`; `pos += 1`
unfoldable pub read_id : Cursor PropertyId
unfolding id_of_code next_byte
read_id =
    Cursor.◌>>=◌ next_byte λ b. elim (id_of_code b) [ some p ↦ pure p | none ↦ raise value_error ]

unfoldable pub read_value : WireType → Cursor Value
read_value byte = Cursor.◌>>=◌ next_byte λ n. pure (int n)
read_value uint16 = Cursor.◌>>=◌ next_u16 λ n. pure (int n)
read_value uint32 = Cursor.◌>>=◌ next_u32 λ n. pure (int n)
read_value varint = Cursor.◌>>=◌ (advance decode_varint) λ n. pure (int n)
read_value str = Cursor.◌>>=◌ (advance decode_str) λ s. pure (text s)
read_value bytes_data = Cursor.◌>>=◌ (advance decode_bytes_field) λ b. pure (blob b)
read_value string_pair = raise type_error

-- `d.get(USER_PROPERTY, [])`
abbrev pub pairs_of : Option Value → Pairs
pairs_of (some (pairs ps)) = ps
pairs_of _ = []

unfoldable pub read_pair : Properties → Cursor Properties
read_pair d = Cursor.◌>>=◌ (advance decode_str) λ k.
    Cursor.◌>>=◌ (advance decode_str)
      λ v. pure (put user_property (pairs (pairs_of (get user_property d) ++ (k, v) ∷ [])) d)

-- The branches of one round: the dict with the property that was read.
unfoldable pub read_property : Properties → PropertyId → Cursor Properties
unfolding read_value read_pair wire_type
read_property d user_property = read_pair d
read_property d p = Cursor.◌>>=◌ (read_value (wire_type p)) λ v. pure (put p v d)

unfoldable pub read_entry : Properties → Cursor Properties
unfolding read_id read_property
read_entry d = Cursor.◌>>=◌ read_id (read_property d)

-- `while pos < end`, on rounds.
unfoldable pub read_entries : ℕ → ℕ → Properties → Cursor Properties
unfolding read_entry
read_entries zero end d buf pos = if ltb pos end then err out_of_fuel else ok (d, pos)
read_entries (suc rounds) end d buf pos =
    let more = Cursor.◌>>=◌ (read_entry d) (λ d'. read_entries rounds end d') buf pos in
    if ltb pos end then more else ok (d, pos)

-- `read_id` takes a byte off in each round, so there are rounds for every byte up to `end`.
unfoldable pub decode_props_block : Bytes → ℕ → Result (Properties × ℕ)
unfolding read_entries
decode_props_block buf offset = do
  (props_len, n) ← decode_varint buf offset
  (d, _) ← read_entries props_len (offset + n + props_len) [] buf (offset + n)
  ok (d, n + props_len)
