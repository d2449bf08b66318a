-- ===== src/Node/Sync/New.antt =====
-- crates/node/src/game/host/sync.rs: the map that a game starts with.
use w3c_flo.Common.{ℕ, ◌≡◌, refl, Bool, true, false, List, [], ◌∷◌, arith, ◌==◌, if◌then◌else◌}
use w3c_flo.Common.Maps.{get, has_key, IsSorted, insert-Above, has_key-insert}
use w3c_flo.Node.Sync.{Pending, new, player_states}
use w3c_flo.Node.Sync.Slab.{SlabOps}
use w3c_flo.Node.Sync.Valid.{IsValid}

player_states-IsSorted : (players : List ℕ) → IsSorted (player_states players)
unfolding player_states
player_states-IsSorted [] = tt
player_states-IsSorted (p ∷ ps) =
    insert-Above p 0 _ (player_states ps) (omega arith) (player_states-IsSorted ps)

abbrev pub is_listed : ℕ → List ℕ → Bool
is_listed k [] = false
is_listed k (p ∷ ps) = if p == k then true else is_listed k ps

has_key-player_states :
    (k : ℕ) (players : List ℕ) → has_key k (player_states players) ≡ is_listed k players
unfolding player_states has_key
has_key-player_states k [] = refl
has_key-player_states k (p ∷ ps) = ground (
  arith,
  has_key-insert p k (record { tick = 0; time = 0 }) (player_states ps),
  has_key-player_states k ps,
)

new_map_lem : (S : SlabOps Pending) (players : List ℕ) → IsValid S (new S players)
unfolding new get has_key
new_map_lem S players = record {
  players_sorted = player_states-IsSorted players;
  ticks_sorted = tt;
  reached = λ t h. absurd (cc h);
  distinct = λ t t' id h g. absurd (cc h);
  pending = λ t id h. absurd (cc h);
}

-- The map of a new game is well-formed, for any list of player ids; its players are those of the list,
-- and the clock stands at tick 0 and time 0.
pub new_map-IsValid :
    (S : SlabOps Pending) (players : List ℕ)
    → IsValid S (new S players)
      × ((k : ℕ) → has_key k (new S players).players ≡ is_listed k players)
      × ((new S players).tick ≡ 0)
      × ((new S players).time ≡ 0)
unfolding new
new_map-IsValid S players =
    (new_map_lem S players, (λ k. has_key-player_states k players), refl, refl)
