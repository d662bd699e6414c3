-- ===== src/Reader/Prefix.antt =====
-- `decode` of codec.py on a buffer and on a longer one.
use fast_mqtt.Prelude.{get_elem?-append_some, slice-append}
use fast_mqtt.Prelude.{
  ℕ, zero, suc, ◌+◌, ◌*◌, ◌%◌, ◌^◌, ◌≤◌, ◌≡◌, ◌≢◌, refl, subst, [], ◌∷◌, ◌++◌, Bool, true, false,
  Option, none, some, arith, inl, inr, Bool-cases, Option-cases,
}
use fast_mqtt.Prelude.{
  length, length-append, get_elem?, ltb, le→ltb, if◌then◌else◌, Result, ok, err, ◌>>=◌, bind-ok,
}
use fast_mqtt.Bytes.{Bytes, byte_at, has_bit}
use fast_mqtt.Packet.{Version, Packet}
use fast_mqtt.Codec.Frame.{read_length, decode_framed, decode_sized, decode}

-- An answer other than `ok none`.
abbrev pub IsSettled {ℓ} : {A : Type ℓ} → Result (Option A) → Type ℓ
IsSettled r = r ≢ ok none

same_branch {ℓ} :
    {A : Type ℓ} (b : Bool) (x y z : Result (Option A))
    → IsSettled (if b then y else z)
    → (IsSettled y → x ≡ y)
    → (if b then x else z) ≡ (if b then y else z)
same_branch true x y z h k = k h
same_branch false x y z h k = refl

read_length-append :
    (rounds i multiplier remaining : ℕ) (buf more : Bytes)
    → IsSettled (read_length rounds i multiplier remaining buf)
    → read_length rounds i multiplier remaining (buf ++ more)
      ≡ read_length rounds i multiplier remaining buf
unfolding read_length
read_length-append zero i multiplier remaining buf more h = refl
read_length-append (suc rounds) i multiplier remaining buf more h =
    elim (Option-cases (get_elem? buf (1 + i))) [
      | inl end ↦ absurd (h (rw (end, read_length)))
      | inr (byte, there) ↦
          rw (there, get_elem?-append_some buf more (1 + i) byte there, read_length)
            (same_branch (has_bit byte 7)
              (read_length rounds (i + 1) (multiplier * 128) (remaining + byte % 2 ^ 7 * multiplier)
                (buf ++ more))
              (read_length rounds (i + 1) (multiplier * 128) (remaining + byte % 2 ^ 7 * multiplier)
                buf)
              (ok (some (remaining + byte % 2 ^ 7 * multiplier, i + 1)))
              (rw (there, read_length) at h)
              (read_length-append rounds (i + 1) (multiplier * 128)
                (remaining + byte % 2 ^ 7 * multiplier) buf more))
    ]

byte_at_zero : (buf more : Bytes) → 1 ≤ length buf → byte_at (buf ++ more) 0 ≡ byte_at buf 0
byte_at_zero [] more h = absurd (omega arith)
byte_at_zero (b ∷ buf) more h = refl

decode_framed-append :
    (v : Version) (buf more : Bytes) (header total : ℕ)
    → 1 ≤ header
    → header ≤ total
    → total ≤ length buf
    → decode_framed v (buf ++ more) header total ≡ decode_framed v buf header total
unfolding decode_framed
decode_framed-append v buf more header total one h k =
    rw (byte_at_zero buf more (omega arith)) (rw (slice-append header total buf more h k) refl)

not-short : (a b : ℕ) → ltb a b ≡ false → b ≤ a
not-short a b e = ground arith

decode_sized-append :
    (v : Version) (buf more : Bytes) (size : Option (ℕ × ℕ))
    → IsSettled (decode_sized v buf size)
    → decode_sized v (buf ++ more) size ≡ decode_sized v buf size
unfolding decode_sized
decode_sized-append v buf more none h = refl
decode_sized-append v buf more (some (remaining, n)) h =
    let total = 1 + n + remaining in
    elim (Bool-cases (ltb (length buf) total)) [
      | inl short ↦ absurd (h (rw short))
      | inr long ↦
          let enough : total ≤ length buf = not-short (length buf) total long in
          rw (
            long,
            le→ltb (length (buf ++ more)) total (omega (arith, length-append buf more)),
            decode_framed-append v buf more (1 + n) total (omega arith) (omega arith) enough,
          )
    ]

after_length :
    (v : Version) (buf more : Bytes) (r r' : Result (Option (ℕ × ℕ)))
    → (IsSettled r → r' ≡ r)
    → IsSettled (r >>= decode_sized v buf)
    → (r' >>= decode_sized v (buf ++ more)) ≡ (r >>= decode_sized v buf)
after_length v buf more (ok none) r' same h = absurd (h (unfold decode_sized in refl))
after_length v buf more (ok (some size)) r' same h =
    rw (same (λ e. cc)) (decode_sized-append v buf more (some size) h)
after_length v buf more (err e) r' same h = rw (same (λ e'. cc))

-- Where `decode` does not answer "not yet", its answer, be it a packet with its count of bytes or an
-- error, stays the same when more bytes follow.
pub decode-append :
    (v : Version) (buf more : Bytes)
    → IsSettled (decode v buf)
    → decode v (buf ++ more) ≡ decode v buf
unfolding decode
decode-append v buf more h = elim (Bool-cases (ltb (length buf) 2)) [
  | inl short ↦ absurd (h (rw short))
  | inr long ↦
      rw (long, le→ltb (length (buf ++ more)) 2 (ground (arith, length-append buf more)))
        (after_length v buf more (read_length 4 0 1 0 buf) (read_length 4 0 1 0 (buf ++ more))
          (read_length-append 4 0 1 0 buf more) (λ e. h (rw long e)))
]

sized_bounds :
    (v : Version) (buf : Bytes) (size : Option (ℕ × ℕ)) (p : Packet) (n : ℕ)
    → decode_sized v buf size ≡ ok (some (p, n))
    → (1 ≤ n) × (n ≤ length buf)
unfolding decode_sized
sized_bounds v buf none p n e = absurd (cc)
sized_bounds v buf (some (remaining, k)) p n e =
    elim (Bool-cases (ltb (length buf) (1 + k + remaining))) [
      | inl short ↦ let none_found = rw short at e in absurd (cc)
      | inr long ↦
          bind-ok (decode_framed v buf (1 + k) (1 + k + remaining)) _ (rw long at e) λ q _ found.
            let same : 1 + k + remaining ≡ n = cc in
            let enough : 1 + k + remaining ≤ length buf =
              not-short (length buf) (1 + k + remaining) long in
            subst (λ m. (1 ≤ m) × (m ≤ length buf)) same (omega arith, enough)
    ]

-- Where `decode` returns a packet, the count of bytes is at least one, and no more than the buffer
-- has.
pub decode_bounds :
    (v : Version) (buf : Bytes) (p : Packet) (n : ℕ)
    → decode v buf ≡ ok (some (p, n))
    → (1 ≤ n) × (n ≤ length buf)
unfolding decode
decode_bounds v buf p n h = elim (Bool-cases (ltb (length buf) 2)) [
  | inl short ↦ let none_found = rw short at h in absurd (cc)
  | inr long ↦
      bind-ok (read_length 4 0 1 0 buf) _ (rw long at h) λ size _ e. sized_bounds v buf size p n e
]
