-- ===== src/Reader.antt =====
-- src/zmqtt/_internal/packets/reader.py: `PacketBuffer`.
pub mod Prefix
pub mod Stream
pub mod Loop
pub mod Disconnects
use fast_mqtt.Prelude.{ℕ, zero, suc, List, [], ◌∷◌, ◌++◌, Option, none, some}
use fast_mqtt.Prelude.{length, drop, Error, Result, ok, err, out_of_fuel}
use fast_mqtt.Bytes.{Bytes}
use fast_mqtt.Packet.{Version, Packet}
use fast_mqtt.Codec.Frame.{decode}

-- The version never changes.
pub record PacketBuffer : Type 0 where
  pub buf : Bytes
  pub version : Version

-- `feed`
unfoldable pub feed : PacketBuffer → Bytes → PacketBuffer
feed b bytes = record b { buf = b.buf ++ bytes }

-- One round of `__iter__`: the next packet, taken off the buffer; `none` at its `return`.
unfoldable pub next_packet : PacketBuffer → Result (Option (Packet × PacketBuffer))
next_packet b = elim (decode b.version b.buf) [
  | ok none ↦ ok none
  | ok (some (packet, consumed)) ↦ ok (some (packet, record b { buf = drop consumed b.buf }))
  | err e ↦ err e
]

-- A `for` over the buffer: the packets that it yields, and the buffer, or the error that ends it.
pub record Drained : Type 0 where
  pub packets : List Packet
  pub outcome : Result PacketBuffer

unfoldable pub drain_rounds : ℕ → PacketBuffer → Drained
unfolding next_packet
drain_rounds zero b = record { packets = []; outcome = err out_of_fuel }
drain_rounds (suc rounds) b = elim (next_packet b) [
  | ok none ↦ record { packets = []; outcome = ok b }
  | ok (some (packet, b')) ↦
      let rest = drain_rounds rounds b' in
      record { packets = packet ∷ rest.packets; outcome = rest.outcome }
  | err e ↦ record { packets = []; outcome = err e }
]

-- A packet takes bytes off, so one round more than there are bytes is enough.
unfoldable pub drain : PacketBuffer → Drained
unfolding drain_rounds
drain b = drain_rounds (suc (length b.buf)) b
