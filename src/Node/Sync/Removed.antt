-- ===== src/Node/Sync/Removed.antt =====
-- crates/node/src/game/host/sync.rs: the ticks after a player has left.
use w3c_flo.Common.{
  ℕ, ◌≡◌, ◌≢◌, refl, ◌⊎◌, inl, inr, some, [], ◌∷◌, ◌++◌, length, done, arith, Bool-cases,
}
use w3c_flo.Common.Maps.{
  SortedMap, remove, IsSorted, remove-Above, has_key-remove, has_key-remove_cases,
}
use w3c_flo.Common.Maps.Keys.{Within}
use w3c_flo.Node.Sync.{Pending, PlayerState, item_at}
use w3c_flo.Node.Sync.Slab.{SlabOps, SlabLaws}
use w3c_flo.Node.Sync.Desync.{Checks, should_check_desync}
use w3c_flo.Node.Sync.Desync.Report.{check_desync-IsReport}
use w3c_flo.Node.Sync.Valid.{HasPending}
use w3c_flo.Node.Sync.Remove.{Removal, remove_from_tick}

module _ (S : SlabOps Pending) (L : SlabLaws S) (players : SortedMap PlayerState)
    (player_id : ℕ) where
  abbrev pub left_players : SortedMap PlayerState
  left_players = remove player_id players

  -- A tick as it was before the player left.
  abbrev pub HasOld : S.Slab → ℕ × ℕ → Type 0
  HasOld slab (t, id) =
      (item : Pending) × (S.read id slab ≡ some item)
      × (item.checks.tick ≡ t)
      × IsSorted item.checks.checksums
      × Within item.checks.checksums players

  abbrev pub Keeps : ℕ → S.Slab → S.Slab → Type 0
  Keeps id slab slab' = (id' : ℕ) → id ≢ id' → S.read id' slab' ≡ S.read id' slab

  abbrev pub TurnEnds : ℕ × ℕ → Removal S → Removal S → Type 0
  TurnEnds (t, id) r r' =
      (r'.finished ≡ r.finished ++ ((t, id) ∷ []))
      ⊎ ((r'.finished ≡ r.finished) × HasPending S left_players r'.slab t id)

  abbrev removed_checks : Checks → Checks
  removed_checks checks = record checks { checksums = remove player_id checks.checksums }

  removed_checks-Within :
      (checks : Checks)
      → Within checks.checksums players
      → Within (removed_checks checks).checksums left_players
  removed_checks-Within checks w k h =
      let (ne, old) = has_key-remove_cases player_id k checks.checksums h in
      ground (arith, has_key-remove player_id k players, w k old, ne)

  pub remove_from_tick-TurnEnds :
      (e : ℕ × ℕ) (r : Removal S)
      → HasOld r.slab e
      → (r' : Removal S) × (remove_from_tick S (length left_players) player_id e r ≡ done r')
        × Keeps e.1 r.slab r'.slab
        × TurnEnds e r r'
  unfolding remove_from_tick
  remove_from_tick-TurnEnds (t, id) r (item, read, tick, sorted, within) =
      elim (Bool-cases (should_check_desync (removed_checks item.checks) (length left_players))) [
        | inl complete ↦
            let (found, e, _) =
              check_desync-IsReport (removed_checks item.checks)
                (remove-Above player_id 0 item.checks.checksums sorted) in
            (
              record { slab = slab; buf = r.buf ++ found; finished = r.finished ++ ((t, id) ∷ []) },
              rw (item_at, read, complete, e) refl,
              keeps,
              inl refl,
            )
        | inr incomplete ↦ (
          record r { slab = slab },
          rw (item_at, read, incomplete) refl,
          keeps,
          inr (
            refl,
            (
              item',
              ground (arith, L.read-write id id item' item r.slab read),
              (
                tick,
                remove-Above player_id 0 item.checks.checksums sorted,
                removed_checks-Within item.checks within,
                incomplete,
              ),
            ),
          ),
        )
      ]
    where
      item' : Pending
      item' = record item { checks = removed_checks item.checks }

      slab : S.Slab
      slab = S.write id item' r.slab

      keeps : Keeps id r.slab slab
      keeps id' ne = ground (arith, L.read-write id id' item' item r.slab read, ne)
