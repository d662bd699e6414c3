-- ===== src/State.antt =====
-- src/zmqtt/_internal/state.py: `PacketIdPool`.
pub mod PacketIds
pub mod Reuse
use fast_mqtt.Prelude.{ℕ, zero, suc, ◌+◌, ◌%◌, List, [], ◌∷◌, Bool, true, false, ◌||◌, not}
use fast_mqtt.Prelude.{
  length, has, ltb, leb, ◌==◌, if◌then◌else◌, Result, ok, err, runtime_error, out_of_fuel, ◌>>=◌,
}

-- `in_use` is the list of the elements of the set.
pub record PacketIdPool : Type 0 where
  pub next : ℕ
  pub in_use : List ℕ

abbrev pub max_packet_id : ℕ
max_packet_id = 65535

-- `in_use.discard(pid)`
unfoldable pub discard : ℕ → List ℕ → List ℕ
discard pid [] = []
discard pid (used ∷ in_use) =
    let rest = discard pid in_use in if pid == used then rest else (used ∷ rest)

-- The next identifier, 1 after the last.
abbrev pub after : ℕ → ℕ
after pid = pid % 65535 + 1

-- `while self._next in self._in_use`
unfoldable pub find_unused : ℕ → ℕ → List ℕ → Result ℕ
unfolding has
find_unused zero next in_use = err out_of_fuel
find_unused (suc rounds) next in_use =
    let rest = find_unused rounds (after next) in_use in if has next in_use then rest else ok next

unfoldable pub new_pool : PacketIdPool
new_pool = record { next = 1; in_use = [] }

-- The loop runs once for every identifier at most.
unfoldable pub acquire : PacketIdPool → Result (ℕ × PacketIdPool)
acquire pool = if leb 65535 (length pool.in_use) then err runtime_error else (do
  pid ← find_unused 65535 pool.next pool.in_use
  ok (pid, record { next = after pid; in_use = pid ∷ pool.in_use }))

unfoldable pub release : ℕ → PacketIdPool → PacketIdPool
unfolding discard
release pid pool = record {
  next = if ltb pid pool.next then pid else pool.next;
  in_use = discard pid pool.in_use;
}
