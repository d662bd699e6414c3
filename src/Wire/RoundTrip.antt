-- ===== src/Wire/RoundTrip.antt =====
-- The length-prefixed fields of _wire.py: the decoders at what the encoders write.
use fast_mqtt.Bytes.{single_byte}
use fast_mqtt.Cursor.{Reads, next_byte, next_u16, next_u32, Reads-next_byte}
use mathlib.Core.Path.{ap₂}
use fast_mqtt.Prelude.{ℕ, ◌+◌, ◌/◌, ◌%◌, ◌≤◌, ◌≡◌, refl, sym, ap, ◌∙◌, arith, append_assoc, subst}
use fast_mqtt.Prelude.{[], ◌∷◌, ◌++◌, length, length-append, le→ltb}
use fast_mqtt.Prelude.{Result, ok, ◌>>=◌, bind-eq-ok, ok-injective}
use fast_mqtt.Bytes.{Bytes, pack_u8, pack_u16, pack_u32, unpack_u16, slice}
use fast_mqtt.Bytes.At.{At, At-skip, get_elem?-At, take-At, length-At}
use fast_mqtt.Cursor.{Decodes}
use fast_mqtt.Utf8.{Text, utf8_encode}
use fast_mqtt.Utf8.RoundTrip.{utf8_decode-utf8_encode}
use fast_mqtt.Wire.{encode_bytes_field, decode_bytes_field, encode_str, decode_str}

pub pack_u16-eq-ok : (n : ℕ) (bs : Bytes) → pack_u16 n ≡ ok bs → bs ≡ n / 256 ∷ n % 256 ∷ []
unfolding pack_u16
pack_u16-eq-ok n bs h = ground arith

pub unpack_u16-At :
    (n : ℕ) (bs buf rest : Bytes) (pos : ℕ)
    → pack_u16 n ≡ ok bs
    → At buf pos (bs ++ rest)
    → unpack_u16 buf pos ≡ ok n
unfolding unpack_u16
unpack_u16-At n bs buf rest pos h here =
    let here' : At buf pos ((n / 256 ∷ []) ++ (n % 256 ∷ rest)) =
      subst (λ b. At buf pos (b ++ rest)) (pack_u16-eq-ok n bs h) here in
    rw (get_elem?-At here', unpack_u16)
      (rw (get_elem?-At (At-skip (n / 256 ∷ []) (n % 256 ∷ rest) here'))
        (ap (λ (v : ℕ). ok v) (omega arith)))

module _ (bytes prefix buf rest : Bytes) (pos : ℕ) (packed : pack_u16 (length bytes) ≡ ok prefix)
    (here : At buf pos ((prefix ++ bytes) ++ rest)) where
  two : length prefix ≡ 2
  two = rw (pack_u16-eq-ok (length bytes) prefix packed) refl

  prefix_first : At buf pos (prefix ++ (bytes ++ rest))
  prefix_first = rw (← append_assoc prefix bytes rest) here

  bytes_next : At buf (pos + 2) (bytes ++ rest)
  bytes_next =
      subst (λ n. At buf (pos + n) (bytes ++ rest)) two
        (At-skip prefix (bytes ++ rest) prefix_first)

  count_read : unpack_u16 buf pos ≡ ok (length bytes)
  count_read = unpack_u16-At (length bytes) prefix buf (bytes ++ rest) pos packed prefix_first

  fits : pos + 2 + length bytes ≤ length buf
  fits = omega (arith, length-At bytes_next, length-append bytes rest)

  field_slice : slice buf (pos + 2) (pos + 2 + length bytes) ≡ bytes
  field_slice = take-At bytes rest _ bytes_next (omega arith)

  decode_bytes_field_at : decode_bytes_field buf pos ≡ ok (bytes, 2 + length bytes)
  unfolding decode_bytes_field
  decode_bytes_field_at = rw (le→ltb (length buf) (pos + 2) (omega (arith, fits))) (
      rw (count_read, ◌>>=◌)
        (rw (le→ltb (length buf) (pos + 2 + length bytes) fits) (rw field_slice refl)))

  decode_str_at :
      (s : Text) → utf8_encode s ≡ ok bytes → decode_str buf pos ≡ ok (s, 2 + length bytes)
  unfolding decode_str
  decode_str_at s h = rw (le→ltb (length buf) (pos + 2) (omega (arith, fits))) (
      rw (count_read, ◌>>=◌)
        (rw (le→ltb (length buf) (pos + 2 + length bytes) fits)
          (rw field_slice (rw (utf8_decode-utf8_encode s bytes h) refl))))

  taken : 2 + length bytes ≡ length (prefix ++ bytes)
  taken = omega (arith, two, length-append prefix bytes)

-- If binary data is encoded as `bs`, then wherever `bs` stands in a buffer, decoding there returns
-- the data and takes just `bs`.
pub Decodes-bytes_field :
    (bytes bs : Bytes) → encode_bytes_field bytes ≡ ok bs → Decodes decode_bytes_field bs bytes
unfolding encode_bytes_field
Decodes-bytes_field bytes bs h =
    let (prefix, packed, e) = bind-eq-ok (pack_u16 (length bytes)) _ h in
    subst (λ b. Decodes decode_bytes_field b bytes) (ok-injective e)
      (record {
        at = λ buf pos rest here.
            decode_bytes_field_at bytes prefix buf rest pos packed here
            ∙ ap (λ n. ok (bytes, n)) (taken bytes prefix buf rest pos packed here);
      })

-- If a text is encoded as `bs`, then wherever `bs` stands in a buffer, decoding there returns the
-- text and takes just `bs`.
pub Decodes-str : (s : Text) (bs : Bytes) → encode_str s ≡ ok bs → Decodes decode_str bs s
unfolding encode_str
Decodes-str s bs h =
    let (bytes, encoded, h') = bind-eq-ok (utf8_encode s) _ h in
    let (prefix, packed, e) = bind-eq-ok (pack_u16 (length bytes)) _ h' in
    subst (λ b. Decodes decode_str b s) (ok-injective e)
      (record {
        at = λ buf pos rest here.
            decode_str_at bytes prefix buf rest pos packed here s encoded
            ∙ ap (λ n. ok (s, n)) (taken bytes prefix buf rest pos packed here);
      })

pub Reads-u16 : (n : ℕ) (bs : Bytes) → pack_u16 n ≡ ok bs → Reads next_u16 bs n
unfolding next_u16
Reads-u16 n bs h = record {
  at = λ buf pos rest here.
      rw (unpack_u16-At n bs buf rest pos h here, next_u16)
        (ap (λ k. ok (n, pos + k)) (ap length (sym (pack_u16-eq-ok n bs h))));
}

pub pack_u32-halves :
    (n : ℕ) (bs : Bytes)
    → pack_u32 n ≡ ok bs
    → (high low : Bytes) × (pack_u16 (n / 65536) ≡ ok high)
      × (pack_u16 (n % 65536) ≡ ok low)
      × (high ++ low ≡ bs)
      × (length high ≡ 2)
      × (length low ≡ 2)
unfolding pack_u32 pack_u16
pack_u32-halves n bs h = (
  n / 16777216 ∷ n / 65536 % 256 ∷ [],
  n / 256 % 256 ∷ n % 256 ∷ [],
  ground arith,
  ground arith,
  ground arith,
  refl,
  refl,
)

pub Reads-u32 : (n : ℕ) (bs : Bytes) → pack_u32 n ≡ ok bs → Reads next_u32 bs n
unfolding next_u32
Reads-u32 n bs h =
    let (high, low, eh, el, e, lh, ll) = pack_u32-halves n bs h in
    subst (λ b. Reads next_u32 b n) e
      (record {
        at = λ buf pos rest here.
            let here' : At buf pos (high ++ (low ++ rest)) =
              rw (← append_assoc high low rest) here in
            let next : At buf (pos + 2) (low ++ rest) =
              subst (λ k. At buf (pos + k) (low ++ rest)) lh (At-skip high (low ++ rest) here') in
            rw (unpack_u16-At (n / 65536) high buf (low ++ rest) pos eh here', next_u32)
              (rw (unpack_u16-At (n % 65536) low buf rest (pos + 2) el next)
                (ap₂ taken_u32 (omega arith) (omega (arith, length-append high low, lh, ll))));
      })
  where
    taken_u32 : ℕ → ℕ → Result (ℕ × ℕ)
    taken_u32 v k = ok (v, k)

pub Reads-u8 : (n : ℕ) (bs : Bytes) → pack_u8 n ≡ ok bs → Reads next_byte bs n
unfolding pack_u8
Reads-u8 n bs h = subst (λ b. Reads next_byte b n) (packed n bs h) (Reads-next_byte n)
  where
    packed : (k : ℕ) (cs : Bytes) → pack_u8 k ≡ ok cs → k ∷ [] ≡ cs
    packed k cs e = ground arith

pub Reads-single_byte : (n : ℕ) (bs : Bytes) → single_byte n ≡ ok bs → Reads next_byte bs n
unfolding single_byte
Reads-single_byte n bs h = subst (λ b. Reads next_byte b n) (packed n bs h) (Reads-next_byte n)
  where
    packed : (k : ℕ) (cs : Bytes) → single_byte k ≡ ok cs → k ∷ [] ≡ cs
    packed k cs e = ground arith
