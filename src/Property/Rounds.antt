-- ===== src/Property/Rounds.antt =====
-- The loop of `decode_props_block` of properties.py: its rounds, as a relation.
use fast_mqtt.Prelude.{
  ℕ, zero, suc, ◌+◌, ◌≤◌, ◌≡◌, sym, ap, subst, [], ◌∷◌, ◌++◌, arith, append_assoc,
}
use fast_mqtt.Prelude.{length, length-append, lt→ltb, le→ltb}
use fast_mqtt.Prelude.{ok, bind-eq-ok}
use fast_mqtt.Bytes.{Bytes}
use fast_mqtt.Bytes.At.{At, At-skip}
use fast_mqtt.Cursor
use fast_mqtt.Cursor.{
  Cursor, Reads, Decodes, Reads-advance, Reads-bind, Reads-map, Reads-pure, Reads-next_byte,
  advance, pure, raise, next_byte, next_u16, next_u32,
}
use fast_mqtt.Wire.{decode_varint, decode_str, decode_bytes_field}
use fast_mqtt.Wire.Varint.{Decodes-varint}
use fast_mqtt.Wire.RoundTrip.{Decodes-str, Decodes-bytes_field, Reads-u8, Reads-u16, Reads-u32}
use fast_mqtt.Property.Ids.{
  PropertyId, id_code, id_of_code-id_code, WireType, byte, uint16, uint32, varint, str, bytes_data,
  id_eq,
}
use fast_mqtt.Property.Block.{Value, int, flag, text, blob, pairs, Properties, bit, int_of}
use fast_mqtt.Property.Block.{encode_value}
use fast_mqtt.Property.Block.{read_id, read_value, read_entry, read_entries}

-- The wire does not tell a flag from a number.
abbrev pub as_read : Value → Value
as_read (flag b) = int (bit b)
as_read v = v

pub Reads-id : (p : PropertyId) → Reads read_id (id_code p ∷ []) p
unfolding read_id
Reads-id p =
    Reads-bind next_byte _ (id_code p ∷ []) [] (Reads-next_byte (id_code p))
      (rw (id_of_code-id_code p) (Reads-pure p))

as_int : (v : Value) (n : ℕ) → int_of v ≡ ok n → as_read v ≡ int n
as_int (int m) n h = cc
as_int (flag b) n h = cc
as_int (text s) n h = cc
as_int (blob b) n h = cc
as_int (pairs ps) n h = cc

pub Reads-value :
    (t : WireType) (v : Value) (bs : Bytes)
    → encode_value t v ≡ ok bs
    → Reads (read_value t) bs (as_read v)
unfolding encode_value read_value
Reads-value byte v bs h =
    let (n, hn, e) = bind-eq-ok (int_of v) _ h in
    rw (as_int v n hn) (Reads-map next_byte int (Reads-u8 n bs e))
Reads-value uint16 v bs h =
    let (n, hn, e) = bind-eq-ok (int_of v) _ h in
    rw (as_int v n hn) (Reads-map next_u16 int (Reads-u16 n bs e))
Reads-value uint32 v bs h =
    let (n, hn, e) = bind-eq-ok (int_of v) _ h in
    rw (as_int v n hn) (Reads-map next_u32 int (Reads-u32 n bs e))
Reads-value varint v bs h =
    let (n, hn, e) = bind-eq-ok (int_of v) _ h in
    rw (as_int v n hn)
      (Reads-map (advance decode_varint) int (Reads-advance (Decodes-varint n bs e)))
Reads-value str (text s) bs h =
    Reads-map (advance decode_str) text (Reads-advance (Decodes-str s bs h))
Reads-value bytes_data (blob b) bs h =
    Reads-map (advance decode_bytes_field) blob (Reads-advance (Decodes-bytes_field b bs h))
Reads-value _ _ bs h = cc

-- A stretch of the block that takes the loop from one dict to another in a number of rounds.
pub data Rounds : Properties → Bytes → Properties → Type 0 where
  stop : {d : Properties} → Rounds d [] d
  round :
      {d d' d'' : Properties} {bs cs : Bytes}
      → Reads (read_entry d) bs d'
      → 1 ≤ length bs
      → Rounds d' cs d''
      → Rounds d (bs ++ cs) d''

pub Rounds-append :
    {d d' d'' : Properties} {bs cs : Bytes}
    → Rounds d bs d'
    → Rounds d' cs d''
    → Rounds d (bs ++ cs) d''
Rounds-append stop s = s
Rounds-append {d = d} {d'' = d''} {cs = cs} (round {bs = bs₁} {cs = cs₁} r h t) s =
    subst (λ b. Rounds d b d'') (sym (append_assoc bs₁ cs₁ cs)) (round r h (Rounds-append t s))

pub read_entries-Rounds :
    {d d' : Properties} {bs : Bytes}
    → Rounds d bs d'
    → (rounds end : ℕ) (buf : Bytes) (pos : ℕ) (rest : Bytes) → At buf pos (bs ++ rest)
    → end ≡ pos + length bs
    → length bs ≤ rounds
    → read_entries rounds end d buf pos ≡ ok (d', end)
unfolding read_entries
read_entries-Rounds {d = d} stop zero end buf pos rest here e h =
    rw (le→ltb pos end (omega arith)) (ap (λ n. ok (d, n)) (omega arith))
read_entries-Rounds {d = d} stop (suc rounds) end buf pos rest here e h =
    rw (le→ltb pos end (omega arith)) (ap (λ n. ok (d, n)) (omega arith))
read_entries-Rounds (round {bs = bs} {cs = cs} r one t) zero end buf pos rest here e h =
    absurd (omega (arith, length-append bs cs))
read_entries-Rounds (round {bs = bs} {cs = cs} r one t) (suc rounds) end buf pos rest here e h =
    let here' : At buf pos (bs ++ (cs ++ rest)) = rw (← append_assoc bs cs rest) here in
    rw (lt→ltb pos end (omega (arith, length-append bs cs))) (
      rw (r.at buf pos (cs ++ rest) here', Cursor.◌>>=◌)
        (read_entries-Rounds t rounds end buf (pos + length bs) rest (At-skip bs (cs ++ rest) here')
          (omega (arith, length-append bs cs)) (omega (arith, length-append bs cs))))
