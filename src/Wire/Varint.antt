-- ===== src/Wire/Varint.antt =====
-- The variable-length integers of _wire.py.
use mathlib.Core.Path.{ap₂}
use fast_mqtt.Prelude.{subst, refuse, value_error, le→ltb, Result}
use fast_mqtt.Prelude.{
  ℕ, zero, suc, ◌+◌, ◌*◌, ◌/◌, ◌%◌, ◌^◌, ◌≤◌, ◌<◌, ◌≡◌, refl, ap, ◌∙◌, bit_or, arith,
}
use fast_mqtt.Prelude.{[], ◌∷◌, ◌++◌, Bool, true, ◌&&◌, some, length, get_elem?, ltb, ◌==◌, ==_iff}
use fast_mqtt.Prelude.{ok, ◌>>=◌, Bool-cases, inl, inr, bind-eq-ok, ok-injective}
use fast_mqtt.Bytes.{Bytes, has_bit}
use fast_mqtt.Bytes.At.{At, At-skip, get_elem?-At}
use fast_mqtt.Cursor.{Decodes}
use native.Mathlib.Nat.{pow-suc, div-add-mod}
use fast_mqtt.Wire.{max_varint, encode_groups, encode_varint, decode_groups, decode_varint}

all_below : ℕ → (ℕ → Bool) → Bool
all_below zero p = true
all_below (suc n) p = p n && all_below n p

all_below-holds : (n : ℕ) (p : ℕ → Bool) (x : ℕ) → all_below n p ≡ true → x < n → p x ≡ true
unfolding all_below
all_below-holds zero p x h lt = absurd (omega arith)
all_below-holds (suc n) p x h lt = ground (arith, all_below-holds n p x)

bit_or_table : all_below 128 (λ b. bit_or b 0x80 == b + 128) ≡ true
unfolding all_below
bit_or_table = refl

pub set_top_bit : (b : ℕ) → b < 128 → bit_or b 0x80 ≡ b + 128
set_top_bit b h =
    (==_iff _ _).0 (all_below-holds 128 (λ x. bit_or x 0x80 == x + 128) b bit_or_table h)

-- Enough rounds always end the encoder's loop, and it writes at most a byte a round.
shrink : (rounds value : ℕ) → value < 128 ^ suc (suc rounds) → value / 2 ^ 7 < 128 ^ suc rounds
shrink rounds value h = omega (arith, pow-suc 128 (suc rounds))

encode_groups_total :
    (rounds value : ℕ)
    → value < 128 ^ suc rounds
    → (bs : Bytes) × (encode_groups (suc rounds) value ≡ ok bs)
      × (1 ≤ length bs)
      × (length bs ≤ rounds + 1)
unfolding encode_groups
encode_groups_total zero value h = (value ∷ [], ground arith, omega arith, omega arith)
encode_groups_total (suc rounds) value h =
    let (bs, e, low, high) = encode_groups_total rounds (value / 2 ^ 7) (shrink rounds value h) in
    elim (Bool-cases (value / 2 ^ 7 == 0)) [
      | inl last ↦ (value % 2 ^ 7 ∷ [], rw last refl, omega arith, omega arith)
      | inr more ↦
          (bit_or (value % 2 ^ 7) 0x80 ∷ bs, rw more (rw (e, ◌>>=◌) refl), omega arith, omega arith)
    ]

-- The lowest group of `value` and the rest, at a place value of `m`.
split_group : (value m : ℕ) → value * m ≡ value % 2 ^ 7 * m + value / 2 ^ 7 * (m * 128)
split_group value m = omega (arith, ap (λ (t : ℕ). t * m) (div-add-mod value 128))

abbrev found : ℕ → ℕ → Result (ℕ × ℕ)
found value n = ok (value, n)

finish :
    (value i m acc n : ℕ)
    → found (acc + value % 2 ^ 7 * m + value / 2 ^ 7 * (m * 128)) (i + 1 + n)
      ≡ found (acc + value * m) (i + suc n)
finish value i m acc n = ap₂ found (omega (arith, split_group value m)) (omega arith)

decode_last :
    (rounds i multiplier acc b : ℕ) (buf : Bytes) (offset : ℕ)
    → get_elem? buf (offset + i) ≡ some b
    → b < 128
    → decode_groups (suc rounds) i multiplier acc buf offset ≡ ok (acc + b * multiplier, i + 1)
unfolding decode_groups
decode_last rounds i multiplier acc b buf offset e h = rw (e, decode_groups) (ground arith)

top_group : (g : ℕ) → g < 128 → (g + 128) % 2 ^ 7 ≡ g
top_group g h = omega arith

top_bit_set : (g : ℕ) → g < 128 → has_bit (g + 128) 7 ≡ true
top_bit_set g h = ground arith

decode_more :
    (rounds i multiplier acc g : ℕ) (buf : Bytes) (offset : ℕ)
    → get_elem? buf (offset + i) ≡ some (g + 128)
    → g < 128
    → decode_groups (suc rounds) i multiplier acc buf offset
      ≡ decode_groups rounds (i + 1) (multiplier * 128) (acc + g * multiplier) buf offset
unfolding decode_groups
decode_more rounds i multiplier acc g buf offset e h =
    rw (e, decode_groups) (rw (top_bit_set g h) (rw (top_group g h) refl))

module _ (buf rest : Bytes) (offset : ℕ) where
  decode_groups-encode_groups :
      (rounds value i multiplier acc : ℕ) (bs : Bytes)
      → encode_groups rounds value ≡ ok bs
      → At buf (offset + i) (bs ++ rest)
      → decode_groups rounds i multiplier acc buf offset
        ≡ ok (acc + value * multiplier, i + length bs)
  unfolding encode_groups
  decode_groups-encode_groups zero value i multiplier acc bs h here = cc
  decode_groups-encode_groups (suc rounds) value i multiplier acc bs h here =
      elim (Bool-cases (value / 2 ^ 7 == 0)) [
        | inl last ↦
            let e : value % 2 ^ 7 ∷ [] ≡ bs = ok-injective (rw last at h) in
            rw (← e) (
              decode_last rounds i multiplier acc (value % 2 ^ 7) buf offset
                (get_elem?-At (rw (← e) at here)) (omega arith)
              ∙ ap (λ v. found (acc + v * multiplier) (i + 1)) (ground arith))
        | inr more ↦
            let (tail, et, e₀) =
              bind-eq-ok (encode_groups rounds (value / 2 ^ 7)) _ (rw more at h) in
            let g = value % 2 ^ 7 in
            let e : (g + 128) ∷ tail ≡ bs = rw (← set_top_bit g (omega arith)) (ok-injective e₀) in
            let here' : At buf (offset + i) (((g + 128) ∷ []) ++ (tail ++ rest)) =
              rw (← e) at here in
            rw (← e) (
              decode_more rounds i multiplier acc g buf offset (get_elem?-At here') (omega arith)
              ∙ decode_groups-encode_groups rounds (value / 2 ^ 7) (i + 1) (multiplier * 128)
                  (acc + g * multiplier) tail et
                  (subst (λ p. At buf p (tail ++ rest)) (omega arith)
                    (At-skip ((g + 128) ∷ []) (tail ++ rest) here'))
              ∙ finish value i multiplier acc (length tail))
      ]

-- If a value is encoded as `bs`, then wherever `bs` stands in a buffer, decoding there returns the
-- value and takes just `bs`.
pub Decodes-varint :
    (value : ℕ) (bs : Bytes) → encode_varint value ≡ ok bs → Decodes decode_varint bs value
unfolding encode_varint decode_varint
Decodes-varint value bs h =
    let (_, _, e) = bind-eq-ok (refuse (ltb max_varint value) value_error) _ h in
    record {
      at = λ buf pos rest here.
          decode_groups-encode_groups buf rest pos 4 value 0 1 0 bs e
            (subst (λ p. At buf p (bs ++ rest)) (omega arith) here)
          ∙ ap₂ found (omega arith) (omega arith);
    }

-- Every value up to 268435455 is encoded, as one to four bytes.
pub encode_varint_total :
    (value : ℕ)
    → value ≤ max_varint
    → (bs : Bytes) × (encode_varint value ≡ ok bs) × (1 ≤ length bs) × (length bs ≤ 4)
unfolding encode_varint
encode_varint_total value h =
    rw (le→ltb max_varint value h) (encode_groups_total 3 value (omega arith))
