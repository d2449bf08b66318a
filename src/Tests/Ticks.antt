-- ===== src/Tests/Ticks.antt =====
-- Players that acknowledge ticks, with a slab that is a list of entries.
use w3c_flo.Common.{ℕ, suc, ◌+◌, ◌^◌, ◌<◌, ◌≤◌, ◌≡◌, refl, none, [], ◌∷◌, arith, done, max}
use w3c_flo.Common.Maps.{SortedMap, get, has_key, insert, remove, get-insert, get-remove}
use w3c_flo.Node.Sync.{SyncMap, Pending, ClockResult, new, lag_or_tick, clock}
use w3c_flo.Node.Sync.Slab.{SlabOps, SlabLaws}
use w3c_flo.Node.Sync.Desync.{Checks, check_desync}
use w3c_flo.Node.Sync.Valid.{IsValid}
use w3c_flo.Node.Sync.New.{new_map-IsValid, is_listed}
use w3c_flo.Node.Sync.Clock.{Clocks, clock-IsValid}

-- A key above all keys in use.
abbrev pub next_key : SortedMap Pending → ℕ
next_key [] = 0
next_key ((k, _) ∷ m) = max (suc k) (next_key m)

get-above : (k : ℕ) (m : SortedMap Pending) → next_key m ≤ k → get k m ≡ none
unfolding get
get-above k [] h = refl
get-above k ((j, v) ∷ m) h = ground (arith, get-above k m)

abbrev pub list_slab : SlabOps Pending
list_slab = record {
  Slab = SortedMap Pending;
  empty = [];
  alloc = λ a s. (next_key s, insert (next_key s) a s);
  read = get;
  write = insert;
  free = remove;
}

pub list_slab-SlabLaws : SlabLaws list_slab
list_slab-SlabLaws = record {
  alloc_fresh = λ a s. get-above (next_key s) s (omega arith);
  read-alloc = λ a s k. get-insert (next_key s) k a s;
  read-write = λ k j a b s h. get-insert k j a s;
  read-free = λ k j s. get-remove k j s;
}

-- Two players, before and after the first tick.
abbrev two_players : SyncMap (SortedMap Pending)
two_players = new list_slab (1 ∷ 2 ∷ [])

abbrev one_tick : SyncMap (SortedMap Pending)
one_tick = (lag_or_tick list_slab two_players 100 7 none).0

two_players_tick : two_players.tick + 1 < 2 ^ 32
unfolding new
two_players_tick = omega arith

new_map-IsValid_example :
    IsValid list_slab two_players
    × ((k : ℕ) → has_key k two_players.players ≡ is_listed k (1 ∷ 2 ∷ []))
    × (two_players.tick ≡ 0)
    × (two_players.time ≡ 0)
new_map-IsValid_example = new_map-IsValid list_slab (1 ∷ 2 ∷ [])

clock-IsValid_example :
    (r : SyncMap (SortedMap Pending) × ClockResult) × (clock list_slab two_players 100 7 ≡ done r)
    × IsValid list_slab r.0
    × Clocks list_slab list_slab-SlabLaws two_players 100 7 r
clock-IsValid_example =
    clock-IsValid list_slab list_slab-SlabLaws two_players 100 7
      (new_map-IsValid list_slab (1 ∷ 2 ∷ [])).0 two_players_tick

-- Three players of a tick, of which the second disagrees.
abbrev disputed_checks : Checks
disputed_checks = record { tick = 1; time = 100; checksums = (1, 555) ∷ (2, 556) ∷ (3, 555) ∷ [] }

check_desync_run :
    check_desync disputed_checks
    ≡ done (record { player_id = 2; tick = 1; time = 100; checksum = 556 } ∷ [])
unfolding check_desync insert get
check_desync_run = refl
