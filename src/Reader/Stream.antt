-- ===== src/Reader/Stream.antt =====
-- The runs of the `for` loop over a `PacketBuffer`, and what more bytes do to them.
use fast_mqtt.Prelude.{
  ℕ, zero, suc, ◌<◌, ◌≡◌, ◌≢◌, inl, inr, refl, sym, ◌∙◌, List, [], ◌∷◌, ◌++◌, Option, none, some,
  arith,
}
use fast_mqtt.Prelude.{
  length, length-drop, drop, drop-append_left, Error, Result, Result-cases, ok, err,
}
use fast_mqtt.Bytes.{Bytes}
use fast_mqtt.Packet.{Packet}
use fast_mqtt.Codec.Frame.{decode}
use fast_mqtt.Reader.{PacketBuffer, feed, next_packet, drain_rounds, drain}
use fast_mqtt.Reader.Prefix.{decode-append, decode_bounds}

-- The runs of the `for` loop, whatever the rounds.
pub data Drains : PacketBuffer → List Packet → Result PacketBuffer → Type 0 where
  stop : {b : PacketBuffer} → decode b.version b.buf ≡ ok none → Drains b [] (ok b)
  fail : {b : PacketBuffer} {e : Error} → decode b.version b.buf ≡ err e → Drains b [] (err e)
  take :
      {b : PacketBuffer} {p : Packet} {n : ℕ} {ps : List Packet} {r : Result PacketBuffer}
      → decode b.version b.buf ≡ ok (some (p, n))
      → Drains (record b { buf = drop n b.buf }) ps r
      → Drains b (p ∷ ps) r

drain_rounds-Drains :
    {b : PacketBuffer} {ps : List Packet} {r : Result PacketBuffer}
    → Drains b ps r
    → (rounds : ℕ) → length b.buf < rounds
    → drain_rounds rounds b ≡ record { packets = ps; outcome = r }
unfolding drain_rounds next_packet
drain_rounds-Drains (stop e) zero h = elim h [ ]
drain_rounds-Drains (stop e) (suc rounds) h = rw (e, drain_rounds) refl
drain_rounds-Drains (fail e) zero h = elim h [ ]
drain_rounds-Drains (fail e) (suc rounds) h = rw (e, drain_rounds) refl
drain_rounds-Drains (take e d) zero h = elim h [ ]
drain_rounds-Drains (take {b = b} {p = p} {n = n} e d) (suc rounds) h =
    let (one, most) = decode_bounds b.version b.buf p n e in
    rw (e, drain_rounds-Drains d rounds (omega (arith, length-drop n b.buf)), drain_rounds) refl

-- The loop has a run from every buffer.
run_exists :
    (rounds : ℕ) (b : PacketBuffer)
    → length b.buf < rounds
    → (ps : List Packet) × (r : Result PacketBuffer) × Drains b ps r
run_exists zero b h = elim h [ ]
run_exists (suc rounds) b h = elim (Result-cases (decode b.version b.buf)) [
  | inl (none, e) ↦ ([], ok b, stop e)
  | inl (some (p, n), e) ↦
      let (one, most) = decode_bounds b.version b.buf p n e in
      let (ps, r, d) =
        run_exists rounds (record b { buf = drop n b.buf }) (omega (arith, length-drop n b.buf)) in
      (p ∷ ps, r, take e d)
  | inr (error, e) ↦ ([], err error, fail e)
]

-- The loop over a buffer ends: what `drain` returns is a run of `decode` that stops at "not yet" or
-- at an error of `decode`, and never at the end of the rounds.
pub Drains-drain : (b : PacketBuffer) → Drains b (drain b).packets (drain b).outcome
unfolding drain
Drains-drain b =
    let (ps, r, d) = run_exists (suc (length b.buf)) b (omega arith) in
    rw (drain_rounds-Drains d (suc (length b.buf)) (omega arith)) d

-- It is the only run.
pub drain-Drains :
    {b : PacketBuffer} {ps : List Packet} {r : Result PacketBuffer}
    → Drains b ps r
    → drain b ≡ record { packets = ps; outcome = r }
unfolding drain
drain-Drains {b = b} d = drain_rounds-Drains d (suc (length b.buf)) (omega arith)

packet≢none : {q : Packet × ℕ} → ok (some q) ≢ ok none
packet≢none h = cc

err≢none : {e : Error} → ◌≢◌ {A = Result (Option (Packet × ℕ))} (err e) (ok none)
err≢none h = cc

-- More bytes after a run that stopped.
pub Drains-feed :
    {b b' : PacketBuffer} {ps qs : List Packet} {r : Result PacketBuffer} (more : Bytes)
    → Drains b ps (ok b')
    → Drains (feed b' more) qs r
    → Drains (feed b more) (ps ++ qs) r
unfolding feed
Drains-feed more (stop e) d = d
Drains-feed more (take {b = b} {p = p} {n = n} e d) d' =
    let (one, most) = decode_bounds b.version b.buf p n e in
    take (decode-append b.version b.buf more (λ h. packet≢none (sym e ∙ h)) ∙ e)
      (rw (drop-append_left n b.buf more most) (Drains-feed more d d'))

-- More bytes after a run that failed.
pub Drains-feed_err :
    {b : PacketBuffer} {ps : List Packet} {error : Error} (more : Bytes)
    → Drains b ps (err error)
    → Drains (feed b more) ps (err error)
unfolding feed
Drains-feed_err more (fail {b = b} e) =
    fail (decode-append b.version b.buf more (λ h. err≢none (sym e ∙ h)) ∙ e)
Drains-feed_err more (take {b = b} {p = p} {n = n} e d) =
    let (one, most) = decode_bounds b.version b.buf p n e in
    take (decode-append b.version b.buf more (λ h. packet≢none (sym e ∙ h)) ∙ e)
      (rw (drop-append_left n b.buf more most) (Drains-feed_err more d))
