-- ===== src/Node/Sync/Valid.antt =====
-- crates/node/src/game/host/sync.rs: what holds of a `SyncMap` between two calls.
use w3c_flo.Common.{ℕ, ◌≤◌, ◌<◌, ◌≡◌, ◌∙◌, ap, ◌↔◌, inl, inr, true, false, some, length, arith}
use w3c_flo.Common.Maps.{SortedMap, get, has_key, IsSorted}
use w3c_flo.Common.Maps.Keys.{Within, Within-length}
use w3c_flo.Node.Sync.{SyncMap, Pending, PlayerState}
use w3c_flo.Node.Sync.Slab.{SlabOps}
use w3c_flo.Node.Sync.Desync.{Checks, should_check_desync}

-- The checksums of a tick that not all players have acknowledged.
abbrev pub IsPending : SortedMap PlayerState → ℕ → Pending → Type 0
IsPending players t item =
    (item.checks.tick ≡ t)
    × IsSorted item.checks.checksums
    × Within item.checks.checksums players
    × (should_check_desync item.checks (length players) ≡ false)

module _ (S : SlabOps Pending) where
  abbrev pub HasPending : SortedMap PlayerState → S.Slab → ℕ → ℕ → Type 0
  HasPending players slab t id =
      (item : Pending) × (S.read id slab ≡ some item) × IsPending players t item

  -- Each pending tick is one that the clock has reached, has a value of its own in the slab, holds
  -- checksums of players of the game only, and lacks that of some player, unless there is none left.
  pub record IsValid (m : SyncMap S.Slab) : Type 0 where
    pub players_sorted : IsSorted m.players
    pub ticks_sorted : IsSorted m.pending_tick
    pub reached : (t : ℕ) → has_key t m.pending_tick ≡ true → t ≤ m.tick
    pub distinct :
        (t t' id : ℕ) → get t m.pending_tick ≡ some id → get t' m.pending_tick ≡ some id → t ≡ t'
    pub pending :
        (t id : ℕ) → get t m.pending_tick ≡ some id → HasPending m.players m.pending_slab t id

  pub HasPending-keep :
      (players players' : SortedMap PlayerState) (slab slab' : S.Slab) (t id : ℕ)
      → Within players players'
      → length players' ≡ length players
      → S.read id slab' ≡ S.read id slab
      → HasPending players slab t id
      → HasPending players' slab' t id
  HasPending-keep players players' slab slab' t id w l e (item, r, (k, s, c, f)) =
      (item, e ∙ r, (k, s, (λ q h. w q (c q h)), ap (should_check_desync item.checks) l ∙ f))

-- All players have acknowledged.
abbrev pub IsComplete : SortedMap PlayerState → SortedMap ℕ → Type 0
IsComplete players checksums = (q : ℕ) → has_key q players ≡ true → has_key q checksums ≡ true

-- Counting the checksums tells whether all players have acknowledged.
pub should_check_desync-IsComplete :
    (players : SortedMap PlayerState) (p : Checks)
    → IsSorted players
    → IsSorted p.checksums
    → Within p.checksums players
    → 0 < length players
    → (should_check_desync p (length players) ≡ true) ↔ IsComplete players p.checksums
unfolding should_check_desync
should_check_desync-IsComplete players p s t w l = (
  λ h. elim (Within-length 0 0 p.checksums players t s w) [
    | inl less ↦ absurd (ground arith)
    | inr (e, f) ↦ f
  ],
  λ f. elim (Within-length 0 0 players p.checksums s t f) [
    | inl less ↦ ground arith
    | inr (e, g) ↦ ground arith
  ],
)
