-- ===== src/Cursor.antt =====
-- The packet decoders walk over a fixed buffer with a mutable variable `pos`. A cursor takes the
-- buffer and the position, and returns its value with the position after it.
use fast_mqtt.Bytes.{unpack_u16, unpack_u32}
use fast_mqtt.Prelude.{[], ◌∷◌}
use fast_mqtt.Prelude.{ℕ, ◌+◌, ◌≡◌, ap, ◌∙◌, ◌++◌, Bool, true, false, Option, none, some, arith}
use fast_mqtt.Prelude.{length, drop, length-append, append_assoc, append-nil}
use fast_mqtt.Prelude.{Error, Result, ok, err}
use fast_mqtt.Bytes.{Bytes, byte_at}
use fast_mqtt.Bytes.At.{At, At-skip, get_elem?-At, drop-At}

-- The decoders of one field return the number of bytes that they took.
abbrev pub Decoder {ℓ} : Type ℓ → Type ℓ
Decoder A = Bytes → ℕ → Result (A × ℕ)

abbrev pub Cursor {ℓ} : Type ℓ → Type ℓ
Cursor A = Bytes → ℕ → Result (A × ℕ)

infixl 5 ◌>>=◌ ◌>>◌
abbrev pub ◌>>=◌ {ℓ κ} : {A : Type ℓ} {B : Type κ} → Cursor A → (A → Cursor B) → Cursor B
◌>>=◌ p f buf pos = elim (p buf pos) [ ok (a, pos') ↦ f a buf pos' | err e ↦ err e ]

abbrev pub ◌>>◌ {ℓ κ} : {A : Type ℓ} {B : Type κ} → Cursor A → Cursor B → Cursor B
p >> q = p >>= λ _. q

abbrev pub pure {ℓ} : {A : Type ℓ} → A → Cursor A
pure a buf pos = ok (a, pos)

abbrev pub raise {ℓ} : {A : Type ℓ} → Error → Cursor A
raise e buf pos = err e

-- `value, n = decode(buf, pos); pos += n`
abbrev pub advance {ℓ} : {A : Type ℓ} → Decoder A → Cursor A
advance d buf pos = elim (d buf pos) [ ok (a, n) ↦ ok (a, pos + n) | err e ↦ err e ]

-- `value = None`, and a field that is read only if the flag is set
abbrev pub when {ℓ} : {A : Type ℓ} → Bool → Cursor A → Cursor (Option A)
when true p = p >>= λ a. pure (some a)
when false p = pure none

-- `buf[pos]; pos += 1`
unfoldable pub next_byte : Cursor ℕ
next_byte buf pos = elim (byte_at buf pos) [ ok b ↦ ok (b, pos + 1) | err e ↦ err e ]

-- `struct.unpack_from("!H", buf, pos)` and "!I", and the position moved over what was read
unfoldable pub next_u16 : Cursor ℕ
unfolding unpack_u16
next_u16 buf pos = elim (unpack_u16 buf pos) [ ok n ↦ ok (n, pos + 2) | err e ↦ err e ]

unfoldable pub next_u32 : Cursor ℕ
unfolding unpack_u32
next_u32 buf pos = elim (unpack_u32 buf pos) [ ok n ↦ ok (n, pos + 4) | err e ↦ err e ]

-- `buf[pos:]`
unfoldable pub remaining : Cursor Bytes
remaining buf pos = ok (drop pos buf, pos)

module _ {ℓ} {A : Type ℓ} where
  -- Wherever `bs` stands in a buffer, the decoder returns `a` and takes exactly `bs`.
  pub record Decodes (d : Decoder A) (bs : Bytes) (a : A) : Type ℓ where
    pub at :
        (buf : Bytes) (pos : ℕ) (rest : Bytes)
        → At buf pos (bs ++ rest)
        → d buf pos ≡ ok (a, length bs)

  pub record Reads (p : Cursor A) (bs : Bytes) (a : A) : Type ℓ where
    pub at :
        (buf : Bytes) (pos : ℕ) (rest : Bytes)
        → At buf pos (bs ++ rest)
        → p buf pos ≡ ok (a, pos + length bs)

  -- The same for a `bs` that ends the buffer; where the position ends does not matter.
  pub record ReadsToEnd (p : Cursor A) (bs : Bytes) (a : A) : Type ℓ where
    pub at : (buf : Bytes) (pos : ℕ) → At buf pos bs → (end : ℕ) × (p buf pos ≡ ok (a, end))

  pub Reads-advance : {d : Decoder A} {bs : Bytes} {a : A} → Decodes d bs a → Reads (advance d) bs a
  Reads-advance r = record { at = λ buf pos rest here. rw (r.at buf pos rest here, advance) }

  pub Reads-pure : (a : A) → Reads (pure a) [] a
  Reads-pure a = record { at = λ buf pos rest here. ap (λ n. ok (a, n)) (omega arith) }

  pub ReadsToEnd-Reads : {p : Cursor A} {bs : Bytes} {a : A} → Reads p bs a → ReadsToEnd p bs a
  ReadsToEnd-Reads {bs = bs} r = record {
    at = λ buf pos here. (pos + length bs, r.at buf pos [] (rw append-nil here));
  }

pub Reads-next_byte : (b : ℕ) → Reads next_byte (b ∷ []) b
unfolding next_byte
Reads-next_byte b = record { at = λ buf pos rest here. rw (get_elem?-At here, next_byte) }

pub ReadsToEnd-remaining : (bs : Bytes) → ReadsToEnd remaining bs bs
unfolding remaining
ReadsToEnd-remaining bs = record { at = λ buf pos here. (pos, rw (drop-At here)) }

module _ {ℓ κ} {A : Type ℓ} {B : Type κ} where
  pub Reads-bind :
      (p : Cursor A) (f : A → Cursor B) (bs cs : Bytes) {a : A} {b : B}
      → Reads p bs a
      → Reads (f a) cs b
      → Reads (p >>= f) (bs ++ cs) b
  Reads-bind p f bs cs {b = b} r s = record {
    at = λ buf pos rest here.
        let here' : At buf pos (bs ++ (cs ++ rest)) = rw (← append_assoc bs cs rest) here in
        rw (r.at buf pos (cs ++ rest) here', ◌>>=◌)
          (s.at buf (pos + length bs) rest (At-skip bs (cs ++ rest) here')
            ∙ ap (λ n. ok (b, n)) (omega (arith, length-append bs cs)));
  }

  pub ReadsToEnd-bind :
      (p : Cursor A) (f : A → Cursor B) (bs cs : Bytes) {a : A} {b : B}
      → Reads p bs a
      → ReadsToEnd (f a) cs b
      → ReadsToEnd (p >>= f) (bs ++ cs) b
  ReadsToEnd-bind p f bs cs r s = record {
    at = λ buf pos here.
        rw (r.at buf pos cs here, ◌>>=◌) (s.at buf (pos + length bs) (At-skip bs cs here));
  }

  -- The value that is built after the last field.
  pub ReadsToEnd-map :
      (p : Cursor A) (f : A → B) {bs : Bytes} {a : A}
      → ReadsToEnd p bs a
      → ReadsToEnd (p >>= λ x. pure (f x)) bs (f a)
  ReadsToEnd-map p f r = record {
    at = λ buf pos here. let (end, e) = r.at buf pos here in (end, rw (e, ◌>>=◌));
  }

  pub Reads-map :
      (p : Cursor A) (f : A → B) {bs : Bytes} {a : A}
      → Reads p bs a
      → Reads (p >>= λ x. pure (f x)) bs (f a)
  Reads-map p f r = record { at = λ buf pos rest here. rw (r.at buf pos rest here, ◌>>=◌) }
