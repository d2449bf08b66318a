-- ===== src/Node/Sync/Counts.antt =====
-- crates/node/src/game/host/sync.rs: what an acknowledgement of a pending tick does.
use w3c_flo.Common.{ℕ, ◌-◌, ◌≡◌, Option, none, some, List, []}
use w3c_flo.Common.Maps.{SortedMap, insert, remove}
use w3c_flo.Node.Sync.{SyncMap, Pending, AckReturn, ok, find_agreed}
use w3c_flo.Node.Sync.Desync.{PlayerDesync, Checks}
use w3c_flo.Node.Sync.Desync.Vote.{AllAre}
use w3c_flo.Node.Sync.Desync.Report.{IsReport}
use w3c_flo.Node.Sync.Valid.{IsComplete}

-- A pending tick with one more checksum.
abbrev pub acked_checks : ℕ → ℕ → Checks → Checks
acked_checks player_id checksum checks = record checks {
  checksums = insert player_id checksum checks.checksums;
}

abbrev pub reply : ℕ → ℕ → ℕ → Option ℕ → Option (List PlayerDesync) → AckReturn
reply game_tick t rtt agreed desync = ok (record {
  game_tick = game_tick;
  player_tick = t;
  rtt = rtt;
  agreed_checksum = agreed;
  desync = desync;
})

-- The acknowledgement of a pending tick `t`, which now has the checksums `checks`. What the slab keeps of
-- the tick is `kept`.
pub data Counts {Slab : Type 0} (m : SyncMap Slab) (now t : ℕ) (item : Pending) (checks : Checks)
    (checksum : ℕ) (pending_tick : SortedMap ℕ) (kept : Option Pending) (result : AckReturn)
    : Type 0 where
  waits :
      ¬ IsComplete m.players checks.checksums
      → pending_tick ≡ m.pending_tick
      → kept ≡ some (record item { checks = checks })
      → result ≡ reply m.tick t (now - item.t) none none
      → Counts m now t item checks checksum pending_tick kept result
  agreed :
      IsComplete m.players checks.checksums
      → (c : ℕ) → AllAre c checks.checksums
      → pending_tick ≡ remove t m.pending_tick
      → kept ≡ none
      → result ≡ reply m.tick t (now - item.t) (some checksum) none
      → Counts m now t item checks checksum pending_tick kept result
  disputed :
      IsComplete m.players checks.checksums
      → ¬ ((c : ℕ) × AllAre c checks.checksums)
      → (found : List PlayerDesync) → IsReport checks found
      → pending_tick ≡ remove t m.pending_tick
      → kept ≡ none
      → result ≡ reply m.tick t (now - item.t) (find_agreed [] checks.checksums) (some found)
      → Counts m now t item checks checksum pending_tick kept result
