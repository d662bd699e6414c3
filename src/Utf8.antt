-- ===== src/Utf8.antt =====
-- `str.encode("utf-8")` and `bytes.decode("utf-8")`, both strict. A text is the list of its code
-- points. The decoder is a machine that takes one byte at a time: it refuses overlong forms,
-- surrogates and what lies above U+10FFFF, as Python does.
pub mod RoundTrip
use fast_mqtt.Prelude.{
  ℕ, zero, suc, ◌+◌, ◌-◌, ◌*◌, ◌/◌, ◌%◌, List, [], ◌∷◌, ◌++◌, Option, none, some,
}
use fast_mqtt.Prelude.{Bool, true, false, ◌&&◌, ltb, leb, ◌==◌, if◌then◌else◌}
use fast_mqtt.Prelude.{Result, ok, err, unicode_error, ◌>>=◌}
use fast_mqtt.Bytes.{Bytes}

abbrev pub Text : Type 0
Text = List ℕ

-- `s == t`
unfoldable pub text_eq : Text → Text → Bool
text_eq [] [] = true
text_eq (a ∷ as') (b ∷ bs) = if a == b then text_eq as' bs else false
text_eq _ _ = false

unfoldable pub encode_char : ℕ → Result Bytes
encode_char c =
    if ltb c 0x80
    then ok (c ∷ [])
    else if ltb c 0x800
    then ok ((0xc0 + c / 64) ∷ (0x80 + c % 64) ∷ [])
    else if leb 0xd800 c && leb c 0xdfff
    then err unicode_error
    else if ltb c 0x10000
    then ok ((0xe0 + c / 4096) ∷ (0x80 + c / 64 % 64) ∷ (0x80 + c % 64) ∷ [])
    else if ltb c 0x110000
    then ok
        ((0xf0 + c / 262144) ∷ (0x80 + c / 4096 % 64) ∷ (0x80 + c / 64 % 64) ∷ (0x80 + c % 64) ∷ [])
    else err unicode_error

unfoldable pub utf8_encode : Text → Result Bytes
unfolding encode_char
utf8_encode [] = ok []
utf8_encode (c ∷ cs) = do x ← encode_char c; rest ← utf8_encode cs; ok (x ++ rest)

-- Between two characters, or inside one: the bytes still wanted, the range of the next one, and the
-- bits read so far.
pub data Pending : Type 0 where
  boundary : Pending
  inside : (left low high bits : ℕ) → Pending

unfoldable pub lead_byte : ℕ → Result (Pending × Option ℕ)
lead_byte b =
    if ltb b 0x80
    then ok (boundary, some b)
    else if ltb b 0xc2
    then err unicode_error
    else if ltb b 0xe0
    then ok (inside 0 0x80 0xbf (b - 0xc0), none)
    else if ltb b 0xf0
    then ok (
      inside 1 (if b == 0xe0 then 0xa0 else 0x80) (if b == 0xed then 0x9f else 0xbf) (b - 0xe0),
      none,
    )
    else if ltb b 0xf5
    then ok (
      inside 2 (if b == 0xf0 then 0x90 else 0x80) (if b == 0xf4 then 0x8f else 0xbf) (b - 0xf0),
      none,
    )
    else err unicode_error

-- `left` counts the bytes wanted after the next one.
unfoldable pub take_byte : Pending → ℕ → Result (Pending × Option ℕ)
unfolding lead_byte
take_byte boundary b = lead_byte b
take_byte (inside zero low high bits) b =
    if leb low b && leb b high
    then ok (boundary, some (bits * 64 + (b - 0x80)))
    else err unicode_error
take_byte (inside (suc left) low high bits) b =
    if leb low b && leb b high
    then ok (inside left 0x80 0xbf (bits * 64 + (b - 0x80)), none)
    else err unicode_error

abbrev pub emit : Option ℕ → Text → Text
emit none cs = cs
emit (some c) cs = c ∷ cs

unfoldable pub utf8_run : Pending → Bytes → Result Text
unfolding take_byte
utf8_run boundary [] = ok []
utf8_run (inside _ _ _ _) [] = err unicode_error
utf8_run p (b ∷ bs) = do (p', out) ← take_byte p b; rest ← utf8_run p' bs; ok (emit out rest)

unfoldable pub utf8_decode : Bytes → Result Text
unfolding utf8_run
utf8_decode bs = utf8_run boundary bs
