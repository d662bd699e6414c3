-- ===== src/Codec/RoundTrip/Lists.antt =====
-- codec.py: the encoders and decoders of SUBSCRIBE, SUBACK, UNSUBSCRIBE and UNSUBACK.
use fast_mqtt.Codec.Decode.{options_request}
use fast_mqtt.Codec.RoundTrip.Replies.{two_bytes, single_byte-eq}
use fast_mqtt.Utf8.{utf8_encode}
use fast_mqtt.Prelude.{
  bit_or, ℕ, ◌*◌, ◌/◌, ◌%◌, ◌≡◌, ◌≤◌, refl, ap, sym, subst, List, [], ◌∷◌, ◌++◌, Bool, Option, some,
  arith, append-nil, map,
}
use fast_mqtt.Prelude.{length, length-append, ok, bind-ok, ok-injective}
use fast_mqtt.Bytes.{Bytes, single_byte, pack_u16, has_bit}
use fast_mqtt.Utf8.{Text}
use fast_mqtt.Cursor
use fast_mqtt.Cursor.{
  Cursor, Reads, ReadsToEnd, Reads-advance, Reads-pure, Reads-bind, Reads-map, ReadsToEnd-Reads,
  ReadsToEnd-bind, ReadsToEnd-map, ReadsToEnd-remaining, advance, pure, raise, when, next_byte,
  next_u16, remaining, Reads-next_byte,
}
use fast_mqtt.Wire.{encode_str, decode_str}
use fast_mqtt.Wire.RoundTrip.{Decodes-str, Reads-u16, Reads-single_byte}
use fast_mqtt.Property.Block.{bit}
use fast_mqtt.Property.Class.{encode_properties, decode_properties, PropertyClass}
use fast_mqtt.Property.Subscribe.{
  subscribe_class, suback_class, unsubscribe_class, unsuback_class, encode_subscribe_properties,
  encode_suback_properties, encode_unsubscribe_properties, encode_unsuback_properties,
}
use fast_mqtt.Packet.{
  Version, v3, v5, QoS, qos_of_code, qos_code, RetainHandling, retain_code, retain_of_code,
  SubscriptionRequest, Subscribe, SubAck, Unsubscribe, UnsubAck,
}
use fast_mqtt.Codec.Bodies.{
  only_v5, subscription_options, encode_request, encode_all, subscribe_body, suback_body,
  unsubscribe_body, unsuback_body, byte_string,
}
use fast_mqtt.Codec.Steps.{require, versioned, read_all}
use fast_mqtt.Codec.Decode.{
  read_request, decode_subscribe, decode_suback, decode_unsubscribe, decode_unsuback,
}
use fast_mqtt.Codec.Reading.{
  Reads-require, ReadsToEnd-require, Reads-versioned, received_in, ReadsToEnd-all, byte_string-eq,
}
use fast_mqtt.Codec.Received.{
  received_request, received_subscribe, received_suback, received_unsubscribe, received_unsuback,
}

-- The options byte of a request, taken apart.
module _ (qos : QoS) (no_local retain_as_published : Bool) (handling : RetainHandling) where
  abbrev options : ℕ
  options =
      bit_or (bit_or (bit_or (qos_code qos) (bit no_local * 4)) (bit retain_as_published * 8))
        (retain_code handling * 16)

  abbrev IsTakenApart : Type 0
  IsTakenApart =
      (qos_of_code (options % 4) ≡ some qos)
      × (retain_of_code (options / 16 % 4) ≡ some handling)
      × (has_bit options 2 ≡ no_local)
      × (has_bit options 3 ≡ retain_as_published)

take_apart : (qos : QoS) (a b : Bool) (handling : RetainHandling) → IsTakenApart qos a b handling
take_apart qos a b handling = ground arith

v3_options : (qos : QoS) → qos_of_code (qos_code qos % 4) ≡ some qos
v3_options qos = ground arith

Reads-options :
    (v : Version) (s : SubscriptionRequest)
    → Reads (options_request v s.topic_filter (subscription_options v s)) [] (received_request v s)
unfolding options_request
Reads-options v3 s = rw (v3_options s.qos) (Reads-pure (received_request v3 s))
Reads-options v5 s =
    let parts = take_apart s.qos s.no_local s.retain_as_published s.retain_handling in
    rw (parts.0) (rw (parts.1) (rw (parts.2) (rw (parts.3) (Reads-pure s))))

Reads-request :
    (v : Version) (s : SubscriptionRequest) (bs : Bytes)
    → encode_request v s ≡ ok bs
    → Reads (read_request v) bs (received_request v s)
unfolding encode_request read_request
Reads-request v s bs h = bind-ok (encode_str s.topic_filter) _ h λ filter hfilter h₁.
    bind-ok (single_byte (subscription_options v s)) _ h₁ λ options hoptions e.
      subst (λ b. Reads (read_request v) b (received_request v s)) (ok-injective e)
        (Reads-bind (advance decode_str) _ filter options
          (Reads-advance (Decodes-str s.topic_filter filter hfilter))
          (Reads-require 1 _ options (omega (arith, ap length (single_byte-eq _ options hoptions)))
            (subst
              (λ b.
                Reads (Cursor.◌>>=◌ next_byte (options_request v s.topic_filter)) b
                  (received_request v s))
              (append-nil options)
              (Reads-bind next_byte (options_request v s.topic_filter) options []
                (Reads-single_byte (subscription_options v s) options hoptions)
                (Reads-options v s)))))

encode_str-pos : (s : Text) (bs : Bytes) → encode_str s ≡ ok bs → 1 ≤ length bs
unfolding encode_str
encode_str-pos s bs h = bind-ok (utf8_encode s) _ h λ encoded _ h₁.
    bind-ok (pack_u16 (length encoded)) _ h₁ λ prefix hp e.
      subst (λ b. 1 ≤ length b) (ok-injective e)
        (omega (arith, length-append prefix encoded, two_bytes (length encoded) prefix hp))

encode_request-pos :
    (v : Version) (s : SubscriptionRequest) (bs : Bytes)
    → encode_request v s ≡ ok bs
    → 1 ≤ length bs
unfolding encode_request
encode_request-pos v s bs h = bind-ok (encode_str s.topic_filter) _ h λ filter hfilter h₁.
    bind-ok (single_byte (subscription_options v s)) _ h₁ λ options _ e.
      subst (λ b. 1 ≤ length b) (ok-injective e)
        (omega (arith, length-append filter options, encode_str-pos s.topic_filter filter hfilter))

-- The identifier, the properties, and a rest to the end of the packet.
module _ {A P : Type 0} {Q : Type 0} (c : PropertyClass P) (p : Cursor A)
    (build : ℕ → Option P → A → Q) where
  abbrev numbered : Version → Cursor Q
  numbered v = Cursor.◌>>=◌ (require 2) λ _. Cursor.◌>>=◌ next_u16 λ n.
      Cursor.◌>>=◌ (versioned v (decode_properties c))
        λ props. Cursor.◌>>=◌ p λ a. pure (build n props a)

  ReadsToEnd-numbered :
      (v : Version) (n : ℕ) (props : Option P) (a : A) (pid block rest : Bytes)
      → pack_u16 n ≡ ok pid
      → only_v5 v (encode_properties c props) ≡ ok block
      → ReadsToEnd p rest a
      → ReadsToEnd (numbered v) (pid ++ (block ++ rest)) (build n (received_in c v props) a)
  ReadsToEnd-numbered v n props a pid block rest hn hb r =
      ReadsToEnd-require 2 _ (pid ++ (block ++ rest))
        (omega (arith, length-append pid (block ++ rest), two_bytes n pid hn))
        (ReadsToEnd-bind next_u16 _ pid (block ++ rest) (Reads-u16 n pid hn) (
          ReadsToEnd-bind (versioned v (decode_properties c)) _ block rest
            (Reads-versioned c v props block hb)
            (ReadsToEnd-map p (build n (received_in c v props)) r)))

pub ReadsToEnd-subscribe :
    (v : Version) (p : Subscribe) (bs : Bytes)
    → subscribe_body v p ≡ ok bs
    → ReadsToEnd (decode_subscribe v) bs (received_subscribe v p)
unfolding subscribe_body decode_subscribe
ReadsToEnd-subscribe v p bs h = bind-ok (pack_u16 p.packet_id) _ h λ pid hpid h₁.
    bind-ok (only_v5 v (encode_subscribe_properties p.properties)) _ h₁ λ block hblock h₂.
      bind-ok (encode_all (encode_request v) p.subscriptions) _ h₂ λ rest hrest e.
        subst (λ b. ReadsToEnd (decode_subscribe v) b (received_subscribe v p)) (ok-injective e)
          (ReadsToEnd-numbered subscribe_class (read_all (read_request v))
            (λ n props requests. record {
              packet_id = n;
              subscriptions = requests;
              properties = props;
            })
            v p.packet_id p.properties _ pid block rest hpid hblock
            (ReadsToEnd-all (encode_request v) (read_request v) (received_request v)
              (λ s cs e'. Reads-request v s cs e') (λ s cs e'. encode_request-pos v s cs e')
              p.subscriptions rest hrest))

map_same {ℓ} : {A : Type ℓ} (xs : List A) → map (λ x. x) xs ≡ xs
map_same [] = refl
map_same (x ∷ xs) = ap (λ l. x ∷ l) (map_same xs)

pub ReadsToEnd-unsubscribe :
    (v : Version) (p : Unsubscribe) (bs : Bytes)
    → unsubscribe_body v p ≡ ok bs
    → ReadsToEnd (decode_unsubscribe v) bs (received_unsubscribe v p)
unfolding unsubscribe_body decode_unsubscribe
ReadsToEnd-unsubscribe v p bs h = bind-ok (pack_u16 p.packet_id) _ h λ pid hpid h₁.
    bind-ok (only_v5 v (encode_unsubscribe_properties p.properties)) _ h₁ λ block hblock h₂.
      bind-ok (encode_all encode_str p.topic_filters) _ h₂ λ rest hrest e.
        subst (λ b. ReadsToEnd (decode_unsubscribe v) b (received_unsubscribe v p)) (ok-injective e)
          (ReadsToEnd-numbered unsubscribe_class (read_all (advance decode_str))
            (λ n props filters. record {
              packet_id = n;
              topic_filters = filters;
              properties = props;
            })
            v p.packet_id p.properties _ pid block rest hpid hblock
            (subst (λ l. ReadsToEnd (read_all (advance decode_str)) rest l)
              (map_same p.topic_filters)
              (ReadsToEnd-all encode_str (advance decode_str) (λ s. s)
                (λ s cs e'. Reads-advance (Decodes-str s cs e')) encode_str-pos p.topic_filters rest
                hrest)))

codes_remaining :
    (codes : List ℕ) (bs : Bytes) → byte_string codes ≡ ok bs → ReadsToEnd remaining bs codes
codes_remaining codes bs h =
    subst (λ l. ReadsToEnd remaining bs l) (sym (byte_string-eq codes bs h))
      (ReadsToEnd-remaining bs)

pub ReadsToEnd-suback :
    (v : Version) (p : SubAck) (bs : Bytes)
    → suback_body v p ≡ ok bs
    → ReadsToEnd (decode_suback v) bs (received_suback v p)
unfolding suback_body decode_suback
ReadsToEnd-suback v p bs h = bind-ok (pack_u16 p.packet_id) _ h λ pid hpid h₁.
    bind-ok (only_v5 v (encode_suback_properties p.properties)) _ h₁ λ block hblock h₂.
      bind-ok (byte_string p.return_codes) _ h₂ λ rest hrest e.
        subst (λ b. ReadsToEnd (decode_suback v) b (received_suback v p)) (ok-injective e)
          (ReadsToEnd-numbered suback_class remaining
            (λ n props codes. record { packet_id = n; return_codes = codes; properties = props }) v
            p.packet_id p.properties p.return_codes pid block rest hpid hblock
            (codes_remaining p.return_codes rest hrest))

pub ReadsToEnd-unsuback :
    (v : Version) (p : UnsubAck) (bs : Bytes)
    → unsuback_body v p ≡ ok bs
    → ReadsToEnd (decode_unsuback v) bs (received_unsuback v p)
unfolding unsuback_body decode_unsuback
ReadsToEnd-unsuback v3 p bs h =
    ReadsToEnd-require 2 _ bs (two_bytes p.packet_id bs h)
      (ReadsToEnd-map next_u16 _ (ReadsToEnd-Reads (Reads-u16 p.packet_id bs h)))
ReadsToEnd-unsuback v5 p bs h = bind-ok (pack_u16 p.packet_id) _ h λ pid hpid h₁.
    bind-ok (encode_unsuback_properties p.properties) _ h₁ λ block hblock h₂.
      bind-ok (byte_string p.reason_codes) _ h₂ λ rest hrest e.
        subst (λ b. ReadsToEnd (decode_unsuback v5) b (received_unsuback v5 p)) (ok-injective e)
          (ReadsToEnd-numbered unsuback_class remaining
            (λ n props codes. record { packet_id = n; reason_codes = codes; properties = props }) v5
            p.packet_id p.properties p.reason_codes pid block rest hpid hblock
            (codes_remaining p.reason_codes rest hrest))
