-- ===== src/Utf8/RoundTrip.antt =====
-- The UTF-8 codec that _wire.py uses: the decoder at what the encoder writes.
use fast_mqtt.Prelude.{ℕ, ◌≡◌, subst, [], ◌∷◌, ◌++◌, arith}
use fast_mqtt.Prelude.{ok, bind-eq-ok, ok-injective}
use fast_mqtt.Bytes.{Bytes}
use fast_mqtt.Utf8.{Text, encode_char, utf8_encode, boundary, utf8_run, utf8_decode}

-- The bytes of one character bring the machine back to the boundary and yield that character.
utf8_run-encode_char :
    (c : ℕ) (bs rest : Bytes) (cs : Text)
    → encode_char c ≡ ok bs
    → utf8_run boundary rest ≡ ok cs
    → utf8_run boundary (bs ++ rest) ≡ ok (c ∷ cs)
unfolding encode_char utf8_run
utf8_run-encode_char c bs rest cs h e = ground arith

utf8_run-utf8_encode : (s : Text) (bs : Bytes) → utf8_encode s ≡ ok bs → utf8_run boundary bs ≡ ok s
unfolding utf8_encode
utf8_run-utf8_encode [] bs h = unfold utf8_run in ground arith
utf8_run-utf8_encode (c ∷ cs) bs h =
    let (x, hx, h₁) = bind-eq-ok (encode_char c) _ h in
    let (rest, hrest, h₂) = bind-eq-ok (utf8_encode cs) _ h₁ in
    subst (λ r. utf8_run boundary r ≡ ok (c ∷ cs)) (ok-injective h₂)
      (utf8_run-encode_char c x rest cs hx (utf8_run-utf8_encode cs rest hrest))

-- If a text has a UTF-8 encoding, decoding it returns the text.
pub utf8_decode-utf8_encode :
    (s : Text) (bs : Bytes) → utf8_encode s ≡ ok bs → utf8_decode bs ≡ ok s
unfolding utf8_decode
utf8_decode-utf8_encode s bs h = utf8_run-utf8_encode s bs h
