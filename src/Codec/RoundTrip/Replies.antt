-- ===== src/Codec/RoundTrip/Replies.antt =====
-- codec.py: the encoders and decoders of CONNACK, PUBLISH, the replies to it, DISCONNECT and
-- AUTH.
use fast_mqtt.Prelude.{
  ℕ, zero, suc, ◌/◌, ◌%◌, ◌≡◌, ◌≤◌, refl, ap, subst, [], ◌∷◌, ◌++◌, Bool, true, false, Option, none,
  some, arith, append-nil, Bool-cases, inl, inr,
}
use fast_mqtt.Prelude.{length, length-append, ok, bind-ok, ok-injective}
use fast_mqtt.Bytes.{Bytes, single_byte, pack_u8, pack_u16, has_bit}
use fast_mqtt.Cursor
use fast_mqtt.Cursor.{
  Cursor, Reads, ReadsToEnd, Reads-advance, Reads-pure, Reads-bind, Reads-map, ReadsToEnd-Reads,
  ReadsToEnd-bind, ReadsToEnd-map, ReadsToEnd-remaining, advance, pure, raise, when, next_byte,
  next_u16, remaining, Reads-next_byte,
}
use fast_mqtt.Wire.{encode_str, decode_str}
use fast_mqtt.Wire.RoundTrip.{Decodes-str, Reads-u16, Reads-u8, Reads-single_byte, pack_u16-eq-ok}
use fast_mqtt.Property.Block.{bit}
use fast_mqtt.Property.Class.{
  received, encode_properties, decode_properties, Decodes-properties, PropertyClass,
}
use fast_mqtt.Property.ConnAck.{connack_class, encode_connack_properties, decode_connack_properties}
use fast_mqtt.Property.Publish.{
  publish_class, puback_class, encode_publish_properties, encode_puback_properties,
  decode_publish_properties, decode_puback_properties,
}
use fast_mqtt.Property.Disconnect.{
  disconnect_class, auth_class, encode_disconnect_properties, encode_auth_properties,
  decode_disconnect_properties, decode_auth_properties,
}
use fast_mqtt.Packet.{
  Version, v3, v5, QoS, at_most_once, at_least_once, exactly_once, qos_of_code, ConnAck, Publish,
  PubReply, Disconnect, Auth,
}
use fast_mqtt.Codec.Bodies.{
  only_v5, is_some, has_reason, publish_flags, encode_packet_id, connack_body, publish_body,
  reply_body, disconnect_body, auth_body,
}
use fast_mqtt.Codec.Steps.{require, versioned, trailing, read_reason, reason_if}
use fast_mqtt.Codec.Decode.{
  decode_connack, read_packet_id, decode_publish, decode_reply, decode_disconnect, decode_auth,
}
use fast_mqtt.Codec.Reading.{
  Reads-require, ReadsToEnd-require, ReadsToEnd-more, ReadsToEnd-no_more, ReadsToEnd-trailing,
  Reads-versioned, received_in, encode_properties-pos,
}
use fast_mqtt.Codec.Received.{
  received_connack, received_id, received_publish, received_reply, received_disconnect,
  received_auth, v5_code,
}

pub single_byte-eq : (n : ℕ) (bs : Bytes) → single_byte n ≡ ok bs → n ∷ [] ≡ bs
unfolding single_byte
single_byte-eq n bs h = ground arith

-- A block that version 5 sends at the end and that is read if bytes are left.
ReadsToEnd-trailing_block :
    {P : Type 0} (c : PropertyClass P) (v : Version) (props : Option P) (bs : Bytes)
    → only_v5 v (encode_properties c props) ≡ ok bs
    → ReadsToEnd (trailing v (decode_properties c)) bs (received_in c v props)
ReadsToEnd-trailing_block {P} c v3 props bs h =
    subst (λ b. ReadsToEnd {A = Option P} (trailing v3 (decode_properties c)) b none)
      (ok-injective h) (unfold trailing in ReadsToEnd-Reads (Reads-pure {A = Option P} none))
ReadsToEnd-trailing_block c v5 props bs h =
    ReadsToEnd-trailing (decode_properties c) bs (encode_properties-pos c props bs h)
      (Decodes-properties c props bs h)

session_flag : (b : Bool) → has_bit (bit b) 0 ≡ b
session_flag true = refl
session_flag false = refl

pub ReadsToEnd-connack :
    (v : Version) (p : ConnAck) (bs : Bytes)
    → connack_body v p ≡ ok bs
    → ReadsToEnd (decode_connack v) bs (received_connack v p)
unfolding connack_body decode_connack
ReadsToEnd-connack v p bs h = bind-ok (single_byte p.return_code) _ h λ code hcode h₁.
    bind-ok (only_v5 v (encode_connack_properties p.properties)) _ h₁ λ props hprops e.
      subst (λ b. ReadsToEnd (decode_connack v) b (received_connack v p)) (ok-injective e)
        (ReadsToEnd-require 2 _ (bit p.session_present ∷ (code ++ props))
          (omega
            (arith, length-append code props, ap length (single_byte-eq p.return_code code hcode)))
          (ReadsToEnd-bind next_byte _ (bit p.session_present ∷ []) (code ++ props)
            (Reads-next_byte (bit p.session_present))
            (ReadsToEnd-bind next_byte _ code props (Reads-single_byte p.return_code code hcode) (
              rw (session_flag p.session_present) (
                ReadsToEnd-map (trailing v decode_connack_properties) _
                  (ReadsToEnd-trailing_block connack_class v p.properties props hprops))))))

-- The flags of PUBLISH.
publish_flags_parts :
    (dup : Bool) (qos : QoS) (retain : Bool)
    → (qos_of_code (publish_flags dup qos retain / 2 % 4) ≡ some qos)
      × (has_bit (publish_flags dup qos retain) 3 ≡ dup)
      × (has_bit (publish_flags dup qos retain) 0 ≡ retain)
publish_flags_parts dup qos retain = ground arith

pub two_bytes : (n : ℕ) (bs : Bytes) → pack_u16 n ≡ ok bs → 2 ≤ length bs
two_bytes n bs h = omega (arith, ap length (pack_u16-eq-ok n bs h))

Reads-some_id :
    (pid : ℕ) (bs : Bytes)
    → pack_u16 pid ≡ ok bs
    → Reads (Cursor.◌>>=◌ (require 2) λ _. Cursor.◌>>=◌ next_u16 λ n. pure (some n)) bs (some pid)
Reads-some_id pid bs h =
    Reads-require 2 _ bs (two_bytes pid bs h) (Reads-map next_u16 some (Reads-u16 pid bs h))

Reads-packet_id :
    (qos : QoS) (pid : Option ℕ) (bs : Bytes)
    → encode_packet_id qos pid ≡ ok bs
    → Reads (read_packet_id qos) bs (received_id qos pid)
unfolding encode_packet_id read_packet_id
Reads-packet_id at_most_once pid bs h =
    subst (λ b. Reads {A = Option ℕ} (pure none) b none) (ok-injective h)
      (Reads-pure {A = Option ℕ} none)
Reads-packet_id at_least_once none bs h = cc
Reads-packet_id at_least_once (some pid) bs h = Reads-some_id pid bs h
Reads-packet_id exactly_once none bs h = cc
Reads-packet_id exactly_once (some pid) bs h = Reads-some_id pid bs h

pub ReadsToEnd-publish :
    (v : Version) (p : Publish) (bs : Bytes)
    → publish_body v p ≡ ok bs
    → ReadsToEnd (decode_publish (publish_flags p.dup p.qos p.retain) v) bs (received_publish v p)
unfolding publish_body decode_publish
ReadsToEnd-publish v p bs h = bind-ok (encode_str p.topic) _ h λ topic htopic h₁.
    bind-ok (encode_packet_id p.qos p.packet_id) _ h₁ λ pid hpid h₂.
      bind-ok (only_v5 v (encode_publish_properties p.properties)) _ h₂ λ props hprops e.
        let flags = publish_flags p.dup p.qos p.retain in
        subst (λ b. ReadsToEnd (decode_publish flags v) b (received_publish v p)) (ok-injective e)
          (rw
            (
              (publish_flags_parts p.dup p.qos p.retain).0,
              (publish_flags_parts p.dup p.qos p.retain).1,
              (publish_flags_parts p.dup p.qos p.retain).2,
            )
            (ReadsToEnd-bind (advance decode_str) _ topic (pid ++ (props ++ p.payload))
              (Reads-advance (Decodes-str p.topic topic htopic))
              (ReadsToEnd-bind (read_packet_id p.qos) _ pid (props ++ p.payload)
                (Reads-packet_id p.qos p.packet_id pid hpid)
                (ReadsToEnd-bind (versioned v decode_publish_properties) _ props p.payload
                  (Reads-versioned publish_class v p.properties props hprops)
                  (ReadsToEnd-map remaining (λ x. record (received_publish v p) { payload = x })
                    (ReadsToEnd-remaining p.payload))))))

module _ {P : Type 0} (c : PropertyClass P) where
  -- A reason code and properties, which version 5 leaves out where they say nothing.
  no_reason :
      (v : Version) (reason : ℕ) (props : Option P)
      → has_reason v reason (is_some props) ≡ false
      → ReadsToEnd {A = ℕ × Option P}
          (read_reason v (decode_properties c))
          []
          (v5_code v reason, received_in c v props)
  unfolding read_reason received
  no_reason v3 reason props h = ReadsToEnd-Reads (Reads-pure {A = ℕ × Option P} (0, none))
  no_reason v5 zero none h =
      ReadsToEnd-no_more (reason_if (decode_properties c))
        (ReadsToEnd-Reads (Reads-pure {A = ℕ × Option P} (0, none)))
  no_reason v5 (suc n) none h = absurd (ground arith)
  no_reason v5 zero (some p) h = absurd (cc)
  no_reason v5 (suc n) (some p) h = absurd (ground arith)

  with_reason :
      (v : Version) (reason : ℕ) (props : Option P) (code block : Bytes)
      → has_reason v reason (is_some props) ≡ true
      → Reads next_byte code reason
      → 1 ≤ length code
      → encode_properties c props ≡ ok block
      → ReadsToEnd {A = ℕ × Option P}
          (read_reason v (decode_properties c))
          (code ++ block)
          (v5_code v reason, received_in c v props)
  unfolding read_reason
  with_reason v3 reason props code block h r one e = absurd (cc)
  with_reason v5 reason props code block h r one e =
      ReadsToEnd-more (reason_if (decode_properties c)) (code ++ block)
        (omega (arith, length-append code block))
        (ReadsToEnd-bind next_byte _ code block r (
          ReadsToEnd-map (trailing v5 (decode_properties c)) (λ x. (reason, x))
            (ReadsToEnd-trailing (decode_properties c) block (encode_properties-pos c props block e)
              (Decodes-properties c props block e))))

pub ReadsToEnd-reply :
    (v : Version) (p : PubReply) (bs : Bytes)
    → reply_body v p ≡ ok bs
    → ReadsToEnd (decode_reply v) bs (received_reply v p)
unfolding reply_body decode_reply
ReadsToEnd-reply v p bs h = elim (Bool-cases (has_reason v p.reason_code (is_some p.properties))) [
  | inl long ↦ bind-ok (pack_u16 p.packet_id) _ (rw long at h) λ pid hpid h₁.
      bind-ok (pack_u8 p.reason_code) _ h₁ λ code hcode h₂.
        bind-ok (encode_puback_properties p.properties) _ h₂ λ block hblock e.
          subst (λ b. ReadsToEnd (decode_reply v) b (received_reply v p)) (ok-injective e)
            (reply_reads pid (code ++ block) hpid (
              with_reason puback_class v p.reason_code p.properties code block long
                (Reads-u8 p.reason_code code hcode) (one_byte p.reason_code code hcode) hblock))
  | inr short ↦
      subst (λ b. ReadsToEnd (decode_reply v) b (received_reply v p)) (append-nil bs)
        (reply_reads bs [] (rw short at h)
          (no_reason puback_class v p.reason_code p.properties short))
]
  where
    one_byte : (n : ℕ) (cs : Bytes) → pack_u8 n ≡ ok cs → 1 ≤ length cs
    one_byte n cs e = unfold pack_u8 in ground arith

    reply_reads :
        (pid rest : Bytes)
        → pack_u16 p.packet_id ≡ ok pid
        → ReadsToEnd {A = ℕ × _}
            (read_reason v decode_puback_properties)
            rest
            (v5_code v p.reason_code, received_in puback_class v p.properties)
        → ReadsToEnd (decode_reply v) (pid ++ rest) (received_reply v p)
    reply_reads pid rest hpid r =
        ReadsToEnd-require 2 _ (pid ++ rest)
          (omega (arith, length-append pid rest, two_bytes p.packet_id pid hpid))
          (ReadsToEnd-bind next_u16 _ pid rest (Reads-u16 p.packet_id pid hpid)
            (ReadsToEnd-map (read_reason v decode_puback_properties) _ r))

pub ReadsToEnd-disconnect :
    (v : Version) (p : Disconnect) (bs : Bytes)
    → disconnect_body v p ≡ ok bs
    → ReadsToEnd (decode_disconnect v) bs (received_disconnect v p)
unfolding disconnect_body decode_disconnect
ReadsToEnd-disconnect v p bs h =
    elim (Bool-cases (has_reason v p.reason_code (is_some p.properties))) [
      | inl long ↦ bind-ok (single_byte p.reason_code) _ (rw long at h) λ code hcode h₁.
          bind-ok (encode_disconnect_properties p.properties) _ h₁ λ block hblock e.
            subst (λ b. ReadsToEnd (decode_disconnect v) b (received_disconnect v p))
              (ok-injective e)
              (ReadsToEnd-map (read_reason v decode_disconnect_properties) _ (
                with_reason disconnect_class v p.reason_code p.properties code block long
                  (Reads-single_byte p.reason_code code hcode)
                  (omega (arith, ap length (single_byte-eq p.reason_code code hcode))) hblock))
      | inr short ↦
          subst (λ b. ReadsToEnd (decode_disconnect v) b (received_disconnect v p))
            (ok-injective (rw short at h))
            (ReadsToEnd-map (read_reason v decode_disconnect_properties) _
              (no_reason disconnect_class v p.reason_code p.properties short))
    ]

pub ReadsToEnd-auth :
    (p : Auth) (bs : Bytes) → auth_body p ≡ ok bs → ReadsToEnd decode_auth bs (received_auth p)
unfolding auth_body decode_auth
ReadsToEnd-auth p bs h = bind-ok (single_byte p.reason_code) _ h λ code hcode h₁.
    bind-ok (encode_auth_properties p.properties) _ h₁ λ block hblock e.
      subst (λ b. ReadsToEnd decode_auth b (received_auth p)) (ok-injective e)
        (ReadsToEnd-require 1 _ (code ++ block)
          (omega
            (arith, length-append code block, ap length (single_byte-eq p.reason_code code hcode)))
          (ReadsToEnd-bind next_byte _ code block (Reads-single_byte p.reason_code code hcode) (
            ReadsToEnd-map (trailing v5 decode_auth_properties)
              (λ x. record (received_auth p) { properties = x })
              (ReadsToEnd-trailing decode_auth_properties block
                (encode_properties-pos auth_class p.properties block hblock)
                (Decodes-properties auth_class p.properties block hblock)))))
