-- ===== src/Node/Sync/Remove.antt =====
-- crates/node/src/game/host/sync.rs: a player leaves the game.
use w3c_flo.Common.{ℕ, Option, List, [], ◌∷◌, ◌++◌, if◌then◌else◌, length, Outcome, done, ◌>>=◌}
use w3c_flo.Common.Maps.{SortedMap, remove}
use w3c_flo.Node.Sync.{SyncMap, Pending, item_at, take_desync}
use w3c_flo.Node.Sync.Slab.{SlabOps}
use w3c_flo.Node.Sync.Desync.{PlayerDesync, check_desync, should_check_desync}

module _ (S : SlabOps Pending) where
  open S use {Slab, free, write}

  pub record Removal : Type 0 where
    pub slab : Slab
    pub buf : List PlayerDesync
    pub finished : List (ℕ × ℕ)

  -- One turn of the first loop of `remove_player`, with `n` players left.
  unfoldable pub remove_from_tick : ℕ → ℕ → ℕ × ℕ → Removal → Outcome Removal
  remove_from_tick n player_id (t, id) r = do
    item ← item_at S r.slab id
    let checks = record (item.checks) { checksums = remove player_id item.checks.checksums }
    let slab = write id (record item { checks = checks }) r.slab
    if should_check_desync checks n
        then (do
          found ← check_desync checks
          done (record {
            slab = slab;
            buf = r.buf ++ found;
            finished = r.finished ++ ((t, id) ∷ []);
          }))
        else done (record r { slab = slab })

  unfoldable pub remove_from_ticks : ℕ → ℕ → SortedMap ℕ → Removal → Outcome Removal
  remove_from_ticks n player_id [] r = done r
  remove_from_ticks n player_id (entry ∷ pending) r = do
    r' ← remove_from_tick n player_id entry r
    remove_from_ticks n player_id pending r'

  -- The slab holds the keys of the ticks; that a key is not there, where the code panics, is left out.
  unfoldable pub drop_finished : List (ℕ × ℕ) → SyncMap Slab → SyncMap Slab
  drop_finished [] m = m
  drop_finished ((t, id) ∷ finished) m =
      drop_finished finished
        (record m { pending_tick = remove t m.pending_tick; pending_slab = free id m.pending_slab })

  unfoldable pub remove_player :
      SyncMap Slab → ℕ → Outcome (SyncMap Slab × Option (List PlayerDesync))
  remove_player m player_id = do
    let players = remove player_id m.players
    r ←
        remove_from_ticks (length players) player_id m.pending_tick
          (record { slab = m.pending_slab; buf = []; finished = [] })
    let m' = drop_finished r.finished (record m { players = players; pending_slab = r.slab })
    done (record m' { desync_buf = [] }, take_desync r.buf)
