-- ===== src/Codec/Reading.antt =====
-- codec.py: the lemmas on the shared steps of the decoders, at the bytes of the encoders.
use fast_mqtt.Property.Block.{Properties}
use fast_mqtt.Prelude.{map}
use fast_mqtt.Prelude.{
  ℕ, zero, suc, ◌+◌, ◌≤◌, ◌≡◌, ap, sym, subst, List, [], ◌∷◌, ◌++◌, Bool, true, false, Option, none,
  some, arith,
}
use fast_mqtt.Prelude.{
  length, length-append, ltb, le→ltb, lt→ltb, if◌then◌else◌, Result, ok, bind-ok, ok-injective,
  refuse, value_error,
}
use fast_mqtt.Bytes.{Bytes, single_byte}
use fast_mqtt.Bytes.At.{At, At-skip, length-At}
use fast_mqtt.Cursor
use fast_mqtt.Cursor.{
  Cursor, Decoder, Decodes, Reads, ReadsToEnd, Reads-advance, Reads-pure, Reads-bind, Reads-map,
  ReadsToEnd-Reads, ReadsToEnd-bind, ReadsToEnd-map, advance, pure, when, next_byte,
  Reads-next_byte,
}
use fast_mqtt.Wire.{max_varint, encode_groups, encode_varint}
use fast_mqtt.Property.Block.{encode_props_block, encode_props}
use fast_mqtt.Property.Class.{
  PropertyClass, encode_properties, decode_properties, received, Decodes-properties,
}
use fast_mqtt.Packet.{Version, v3, v5}
use fast_mqtt.Codec.Bodies.{only_v5, encode_optional, encode_all, byte_string, is_some}
use fast_mqtt.Codec.Steps.{require, has_more, versioned, read_list, read_all, trailing}

pub encode_varint-pos : (value : ℕ) (bs : Bytes) → encode_varint value ≡ ok bs → 1 ≤ length bs
unfolding encode_varint
encode_varint-pos value bs h =
    bind-ok (refuse (ltb max_varint value) value_error) _ h λ _ _ e. groups 3 value bs e
  where
    groups : (rounds v : ℕ) (cs : Bytes) → encode_groups (suc rounds) v ≡ ok cs → 1 ≤ length cs
    groups rounds v cs e = unfold encode_groups in ground arith

encode_props_block-pos :
    (d : Properties) (bs : Bytes) → encode_props_block d ≡ ok bs → 1 ≤ length bs
unfolding encode_props_block
encode_props_block-pos [] bs h = encode_varint-pos 0 bs h
encode_props_block-pos (x ∷ d) bs h = bind-ok (encode_props (x ∷ d)) _ h λ raw _ h₁.
    bind-ok (encode_varint (length raw)) _ h₁ λ size hs e.
      subst (λ b. 1 ≤ length b) (ok-injective e)
        (omega (arith, encode_varint-pos (length raw) size hs, length-append size raw))

module _ {P : Type 0} (c : PropertyClass P) where
  pub encode_properties-pos :
      (props : Option P) (bs : Bytes) → encode_properties c props ≡ ok bs → 1 ≤ length bs
  unfolding encode_properties
  encode_properties-pos none bs h = encode_varint-pos 0 bs h
  encode_properties-pos (some p) bs h = encode_props_block-pos _ bs h

  -- Properties as the other side has them: version 3 sends none.
  abbrev pub received_in : Version → Option P → Option P
  received_in v3 props = none
  received_in v5 props = received c props

  pub Reads-versioned :
      (v : Version) (props : Option P) (bs : Bytes)
      → only_v5 v (encode_properties c props) ≡ ok bs
      → Reads (versioned v (decode_properties c)) bs (received_in v props)
  Reads-versioned v3 props bs h =
      subst (λ b. Reads {A = Option P} (pure none) b none) (ok-injective h)
        (Reads-pure {A = Option P} none)
  Reads-versioned v5 props bs h = Reads-advance (Decodes-properties c props bs h)

module _ {ℓ} {A : Type ℓ} where
  pub Reads-require :
      (n : ℕ) (p : Cursor A) (bs : Bytes) {a : A}
      → n ≤ length bs
      → Reads p bs a
      → Reads (Cursor.◌>>=◌ (require n) λ _. p) bs a
  unfolding require
  Reads-require n p bs h r = record {
    at = λ buf pos rest here.
        rw
          (
            le→ltb (length buf) (pos + n) (omega (arith, length-At here, length-append bs rest)),
            require,
            Cursor.◌>>=◌,
          )
          (r.at buf pos rest here);
  }

  pub ReadsToEnd-require :
      (n : ℕ) (p : Cursor A) (bs : Bytes) {a : A}
      → n ≤ length bs
      → ReadsToEnd p bs a
      → ReadsToEnd (Cursor.◌>>=◌ (require n) λ _. p) bs a
  unfolding require
  ReadsToEnd-require n p bs h r = record {
    at = λ buf pos here.
        rw (le→ltb (length buf) (pos + n) (omega (arith, length-At here)), require, Cursor.◌>>=◌)
          (r.at buf pos here);
  }

  pub ReadsToEnd-more :
      (p : Bool → Cursor A) (bs : Bytes) {a : A}
      → 1 ≤ length bs
      → ReadsToEnd (p true) bs a
      → ReadsToEnd (Cursor.◌>>=◌ has_more p) bs a
  unfolding has_more
  ReadsToEnd-more p bs h r = record {
    at = λ buf pos here.
        rw (lt→ltb pos (length buf) (omega (arith, length-At here)), has_more, Cursor.◌>>=◌)
          (r.at buf pos here);
  }

  pub ReadsToEnd-no_more :
      (p : Bool → Cursor A) {a : A}
      → ReadsToEnd (p false) [] a
      → ReadsToEnd (Cursor.◌>>=◌ has_more p) [] a
  unfolding has_more
  ReadsToEnd-no_more p r = record {
    at = λ buf pos here.
        rw (le→ltb pos (length buf) (omega (arith, length-At here)), has_more, Cursor.◌>>=◌)
          (r.at buf pos here);
  }

  pub Reads-optional :
      (f : A → Result Bytes) (p : Cursor A) (o : Option A) (bs : Bytes)
      → ((a : A) (cs : Bytes) → f a ≡ ok cs → Reads p cs a)
      → encode_optional f o ≡ ok bs
      → Reads (when (is_some o) p) bs o
  unfolding encode_optional
  Reads-optional f p none bs each h =
      subst (λ b. Reads {A = Option A} (pure none) b none) (ok-injective h)
        (Reads-pure {A = Option A} none)
  Reads-optional f p (some a) bs each h = Reads-map p some (each a bs h)

module _ {ℓ} {A : Type ℓ} where
  -- A block that may be missing at the end of the packet.
  pub ReadsToEnd-trailing :
      (d : Decoder (Option A)) (bs : Bytes) {o : Option A}
      → 1 ≤ length bs
      → Decodes d bs o
      → ReadsToEnd (trailing v5 d) bs o
  unfolding trailing
  ReadsToEnd-trailing d bs h r =
      ReadsToEnd-more (λ more. if more then advance d else pure none) bs h
        (ReadsToEnd-Reads (Reads-advance r))

-- Items one after the other, up to the end of the buffer.
module _ {ℓ} {A : Type ℓ} (f : A → Result Bytes) (item : Cursor A) (seen : A → A)
    (each : (a : A) (cs : Bytes) → f a ≡ ok cs → Reads item cs (seen a))
    (long : (a : A) (cs : Bytes) → f a ≡ ok cs → 1 ≤ length cs) where
  read_list_end :
      (rounds : ℕ) (buf : Bytes) (pos : ℕ)
      → length buf ≤ pos
      → (end : ℕ) × (read_list rounds item buf pos ≡ ok ([], end))
  unfolding read_list
  read_list_end zero buf pos h = (pos, rw (le→ltb pos (length buf) h))
  read_list_end (suc rounds) buf pos h = (pos, rw (le→ltb pos (length buf) h))

  read_list_step :
      (rounds : ℕ) (buf : Bytes) (pos : ℕ) (one rest : Bytes) (a : A) (as' : List A) (end : ℕ)
      → Reads item one a
      → 1 ≤ length one
      → At buf pos (one ++ rest)
      → read_list rounds item buf (pos + length one) ≡ ok (as', end)
      → read_list (suc rounds) item buf pos ≡ ok (a ∷ as', end)
  unfolding read_list
  read_list_step rounds buf pos one rest a as' end r pos' here e =
      rw (lt→ltb pos (length buf) (omega (arith, length-At here, length-append one rest)))
        (rw (r.at buf pos rest here, Cursor.◌>>=◌) (rw (e, Cursor.◌>>=◌)))

  read_list-encode_all :
      (xs : List A) (bs : Bytes)
      → encode_all f xs ≡ ok bs
      → (rounds : ℕ) (buf : Bytes) (pos : ℕ) → length bs ≤ rounds
      → At buf pos bs
      → (end : ℕ) × (read_list rounds item buf pos ≡ ok (map seen xs, end))
  unfolding encode_all
  read_list-encode_all [] bs h rounds buf pos enough here =
      let here' : At buf pos [] = subst (λ b. At buf pos b) (sym (ok-injective h)) here in
      read_list_end rounds buf pos (omega (arith, length-At here'))
  read_list-encode_all (x ∷ xs) bs h zero buf pos enough here = bind-ok (f x) _ h λ one h-one h₁.
      bind-ok (encode_all f xs) _ h₁ λ rest _ e.
        absurd (omega (arith, ap length (ok-injective e), length-append one rest, long x one h-one))
  read_list-encode_all (x ∷ xs) bs h (suc rounds) buf pos enough here =
      bind-ok (f x) _ h λ one h-one h₁. bind-ok (encode_all f xs) _ h₁ λ rest h-rest e.
        let here' : At buf pos (one ++ rest) =
          subst (λ b. At buf pos b) (sym (ok-injective e)) here in
        let (end, e') =
          read_list-encode_all xs rest h-rest rounds buf (pos + length one)
            (omega (arith, ap length (ok-injective e), length-append one rest, long x one h-one))
            (At-skip one rest here') in
        (
          end,
          read_list_step rounds buf pos one rest (seen x) (map seen xs) end (each x one h-one)
              (long x one h-one) here' e',
        )

  pub ReadsToEnd-all :
      (xs : List A) (bs : Bytes)
      → encode_all f xs ≡ ok bs
      → ReadsToEnd (read_all item) bs (map seen xs)
  unfolding read_all
  ReadsToEnd-all xs bs h = record {
    at = λ buf pos here.
        read_list-encode_all xs bs h (length buf) buf pos (omega (arith, length-At here)) here;
  }

pub byte_string-eq : (codes : List ℕ) (bs : Bytes) → byte_string codes ≡ ok bs → codes ≡ bs
unfolding byte_string single_byte
byte_string-eq [] bs h = ok-injective h
byte_string-eq (c ∷ cs) bs h = bind-ok (single_byte c) _ h λ b hb h₁.
    bind-ok (byte_string cs) _ h₁ λ rest hr e. ground (arith, byte_string-eq cs rest hr, hb, e)
