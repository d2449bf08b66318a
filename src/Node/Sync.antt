-- ===== src/Node/Sync.antt =====
-- crates/node/src/game/host/sync.rs: which players have acknowledged which tick of the game clock.
-- A u32 wraps at 2 ^ 32, as in a release build; `now` is the instant of the call. A player id, which is
-- only compared, is a number. `panic` is a slab key that is not there, or code marked unreachable.
pub mod Slab
pub mod Desync
pub mod Remove
pub mod Removed
pub mod RemovedAll
pub mod Leave
pub mod Valid
pub mod Clock
pub mod Counts
pub mod Acked
pub mod Ack
pub mod New
use w3c_flo.Common.{
  ℕ, suc, ◌+◌, ◌-◌, ◌%◌, ◌^◌, Bool, true, false, not, Option, none, some, List, [], ◌∷◌, ◌++◌, map,
  ◌==◌, ltb, leb, if◌then◌else◌, length, Outcome, done, panic, ◌>>=◌,
}
use w3c_flo.Common.Maps.{SortedMap, get, has_key, insert, remove}
use Slab.{SlabOps}
use Desync.{PlayerDesync, Checks, check_desync, should_check_desync}

pub record Pending : Type 0 where
  pub checks : Checks
  pub t : ℕ

pub record PlayerState : Type 0 where
  pub tick : ℕ
  pub time : ℕ

pub record SyncMap (Slab : Type 0) : Type 0 where
  pub tick : ℕ
  pub time : ℕ
  pub players : SortedMap PlayerState
  pub pending_tick : SortedMap ℕ
  pub pending_slab : Slab
  pub desync_buf : List PlayerDesync

pub data ClockResult : Type 0 where
  lag : List ℕ → ClockResult
  tick : ClockResult

pub record AckResult : Type 0 where
  pub game_tick : ℕ
  pub player_tick : ℕ
  pub rtt : ℕ
  pub agreed_checksum : Option ℕ
  pub desync : Option (List PlayerDesync)

pub data AckReturn : Type 0 where
  ok : AckResult → AckReturn
  player_not_found : ℕ → AckReturn
  tick_not_found : PlayerDesync → AckReturn

-- u32 arithmetic.
abbrev pub u32 : ℕ → ℕ
u32 n = n % 2 ^ 32

abbrev pub u32_sub : ℕ → ℕ → ℕ
u32_sub a b = (a + 2 ^ 32 - b) % 2 ^ 32

-- `crate::constants::GAME_PLAYER_LAGGING_THRESHOLD_MS`.
abbrev pub lagging_threshold_ms : ℕ
lagging_threshold_ms = 3000

unfoldable pub player_states : List ℕ → SortedMap PlayerState
player_states [] = []
player_states (p ∷ ps) = insert p (record { tick = 0; time = 0 }) (player_states ps)

-- The players that have not sent a checksum.
unfoldable pub missing_from : SortedMap PlayerState → SortedMap ℕ → List ℕ
missing_from [] checksums = []
missing_from ((p, _) ∷ players) checksums =
    let rest = missing_from players checksums in if has_key p checksums then rest else p ∷ rest

-- `take_desync`.
abbrev pub take_desync : List PlayerDesync → Option (List PlayerDesync)
take_desync [] = none
take_desync (d ∷ ds) = some (d ∷ ds)

-- The first player that is not in the buffer, and its checksum.
unfoldable pub is_reported : ℕ → List PlayerDesync → Bool
is_reported p [] = false
is_reported p (d ∷ ds) = if d.player_id == p then true else is_reported p ds

unfoldable pub find_agreed : List PlayerDesync → SortedMap ℕ → Option ℕ
find_agreed buf [] = none
find_agreed buf ((p, c) ∷ checksums) =
    let rest = find_agreed buf checksums in if is_reported p buf then rest else some c

-- The agreed checksum of a tick, where `found` is what `check_desync` wrote to the buffer. The buffer has
-- been emptied by `take_desync` when it is looked at.
unfoldable pub agreed_checksum : Checks → ℕ → List PlayerDesync → Option ℕ
unfolding find_agreed
agreed_checksum checks checksum [] = some checksum
agreed_checksum checks checksum (_ ∷ _) = find_agreed [] checks.checksums

module _ (S : SlabOps Pending) where
  open S use {Slab, empty, alloc, read, write, free}

  unfoldable pub new : List ℕ → SyncMap Slab
  new players = record {
    tick = 0;
    time = 0;
    players = player_states players;
    pending_tick = [];
    pending_slab = empty;
    desync_buf = [];
  }

  -- `pending_slab[id]`.
  abbrev pub item_at : Slab → ℕ → Outcome Pending
  item_at slab id = elim (read id slab) [ none ↦ panic | some item ↦ done item ]

  -- `pending_slab.remove(id)`.
  abbrev pub free_at : ℕ → Slab → Outcome Slab
  free_at id slab = elim (read id slab) [ none ↦ panic | some item ↦ done (free id slab) ]

  -- Whether the tick has been pending too long, and then the players that it waits for.
  unfoldable pub timeout_players : SyncMap Slab → ℕ → Pending → Option (List ℕ)
  timeout_players m time_increment item =
      if ltb lagging_threshold_ms (u32_sub (u32 (m.time + time_increment)) item.checks.time)
      then some (missing_from m.players item.checks.checksums)
      else none

  -- Only the oldest pending tick is looked at: the loop leaves after its first turn.
  unfoldable pub check_timeout : SyncMap Slab → ℕ → SortedMap ℕ → Outcome (Option (List ℕ))
  unfolding timeout_players
  check_timeout m time_increment [] = done none
  check_timeout m time_increment ((_, id) ∷ _) = do
    item ← item_at m.pending_slab id
    done (timeout_players m time_increment item)

  unfoldable pub add_tick : SyncMap Slab → ℕ → ℕ → SyncMap Slab
  add_tick m time_increment now =
      let tick = u32 (m.tick + 1) in
      let time = u32 (m.time + time_increment) in
      let item : Pending = record {
        checks = record { tick = tick; time = time; checksums = [] };
        t = now;
      } in
      let (id, slab) = alloc item m.pending_slab in
      record m {
        tick = tick;
        time = time;
        pending_tick = insert tick id m.pending_tick;
        pending_slab = slab;
      }

  unfoldable pub lag_or_tick : SyncMap Slab → ℕ → ℕ → Option (List ℕ) → SyncMap Slab × ClockResult
  unfolding add_tick
  lag_or_tick m time_increment now (some players) = (m, lag players)
  lag_or_tick m time_increment now none = (add_tick m time_increment now, tick)

  unfoldable pub clock : SyncMap Slab → ℕ → ℕ → Outcome (SyncMap Slab × ClockResult)
  unfolding check_timeout lag_or_tick
  clock m time_increment now = do
    timeout ← check_timeout m time_increment m.pending_tick
    done (lag_or_tick m time_increment now timeout)

  -- `saturating_sub` stops at 0, as `-` does.
  unfoldable pub player_pending_ticks : SyncMap Slab → ℕ → Option ℕ
  player_pending_ticks m player_id = elim (get player_id m.players) [
    | none ↦ none
    | some v ↦ some (m.tick - v.tick)
  ]

  -- The end of `ack`, once all players have sent a checksum for the tick.
  unfoldable pub finish_tick :
      SyncMap Slab → ℕ → ℕ → ℕ → ℕ → Checks → Outcome (SyncMap Slab × AckReturn)
  finish_tick m t id rtt checksum checks = do
    found ← check_desync checks
    slab ← free_at id m.pending_slab
    let m' = record m {
      pending_tick = remove t m.pending_tick;
      pending_slab = slab;
      desync_buf = [];
    }
    done (
      m',
      ok (record {
        game_tick = m.tick;
        player_tick = t;
        rtt = rtt;
        agreed_checksum = agreed_checksum checks checksum found;
        desync = take_desync found;
      }),
    )

  -- A pending tick has the player's checksum written.
  unfoldable pub ack_tick : SyncMap Slab → ℕ → ℕ → ℕ → ℕ → ℕ → Outcome (SyncMap Slab × AckReturn)
  ack_tick m player_id checksum now t id = do
    item ← item_at m.pending_slab id
    let checks = record (item.checks) {
      checksums = insert player_id checksum item.checks.checksums;
    }
    let m' = record m {
      players = insert player_id (record { tick = t; time = checks.time }) m.players;
      pending_slab = write id (record item { checks = checks }) m.pending_slab;
    }
    if should_check_desync checks (length m'.players)
        then finish_tick m' t id (now - item.t) checksum checks
        else done (
          m',
          ok (record {
            game_tick = m.tick;
            player_tick = t;
            rtt = now - item.t;
            agreed_checksum = none;
            desync = none;
          }),
        )

  unfoldable pub ack : SyncMap Slab → ℕ → ℕ → ℕ → Outcome (SyncMap Slab × AckReturn)
  ack m player_id checksum now = elim (get player_id m.players) [
    | none ↦ done (m, player_not_found player_id)
    | some state ↦
        let t = u32 (state.tick + 1) in
        elim (get t m.pending_tick) [
          | none ↦ done (
            record m { players = insert player_id (record state { tick = t }) m.players },
            tick_not_found
                (record { player_id = player_id; tick = t; time = m.time; checksum = checksum }),
          )
          | some id ↦ ack_tick m player_id checksum now t id
        ]
  ]
