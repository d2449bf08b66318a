-- ===== src/Node/Sync/Clock.antt =====
-- crates/node/src/game/host/sync.rs: `clock` keeps the map well-formed and does not panic.
use w3c_flo.Common.{
  ℕ, ltb, ◌-◌, ◌%◌, Bool-cases, not, ◌&&◌, ◌+◌, ◌^◌, ◌≤◌, ◌<◌, ◌≡◌, refl, sym, ◌∙◌, subst, ap, ◌≢◌,
  inl, inr, Option, none, some, List, [], ◌∷◌, arith, done, panic, Outcome, >>=-eq-done,
}
use mathlib.Core.Option.{some-injective}
use w3c_flo.Common.Maps.{
  SortedMap, insert, get, has_key, insert-Above, has_key-get, get-insert_cases,
  has_key-insert_cases,
}
use w3c_flo.Node.Sync.{
  SyncMap, Pending, PlayerState, ClockResult, u32, check_timeout, timeout_players, lag_or_tick,
  add_tick, clock, item_at, lag, tick, missing_from, lagging_threshold_ms, u32_sub,
}
use w3c_flo.Node.Sync.New.{is_listed}
use w3c_flo.Node.Sync.Slab.{SlabOps, SlabLaws}
use w3c_flo.Node.Sync.Desync.{should_check_desync}
use w3c_flo.Node.Sync.Valid.{IsPending, HasPending, IsValid, HasPending-keep}

module _ (S : SlabOps Pending) (L : SlabLaws S) where
  module _ (m : SyncMap S.Slab) (time_increment now : ℕ) (v : IsValid S m)
      (no_wrap : m.tick + 1 < 2 ^ 32) where
    item : Pending
    item = record {
      checks = record {
        tick = u32 (m.tick + 1);
        time = u32 (m.time + time_increment);
        checksums = [];
      };
      t = now;
    }

    fresh : (t : ℕ) {id : ℕ} → get t m.pending_tick ≡ some id → t ≤ m.tick
    fresh t h = v.reached t (has_key-get t m.pending_tick h)

    item-IsPending : IsPending m.players (u32 (m.tick + 1)) item
    unfolding item has_key should_check_desync
    item-IsPending = (refl, tt, (λ k h. absurd (cc h)), ground arith)

    -- The slab gives the new tick a key that no pending tick has.
    new_key : (t : ℕ) → get t m.pending_tick ≢ some (S.alloc item m.pending_slab).0
    new_key t h =
        let (_, r, _) = v.pending t _ h in absurd (cc (r, L.alloc_fresh item m.pending_slab))

    old_read :
        (t id : ℕ)
        → get t m.pending_tick ≡ some id
        → S.read id (S.alloc item m.pending_slab).1 ≡ S.read id m.pending_slab
    old_read t id h = ground (arith, L.read-alloc item m.pending_slab id, new_key t)

    new_read : S.read (S.alloc item m.pending_slab).0 (S.alloc item m.pending_slab).1 ≡ some item
    new_read = ground (arith, L.read-alloc item m.pending_slab (S.alloc item m.pending_slab).0)

    new_HasPending :
        (t id : ℕ)
        → u32 (m.tick + 1) ≡ t
        → (S.alloc item m.pending_slab).0 ≡ id
        → HasPending S m.players (S.alloc item m.pending_slab).1 t id
    new_HasPending t id e f =
        subst (λ x. HasPending S m.players (S.alloc item m.pending_slab).1 x id) e
          (subst (λ y. HasPending S m.players (S.alloc item m.pending_slab).1 (u32 (m.tick + 1)) y)
            f (item, new_read, item-IsPending))

    add_tick-IsValid : IsValid S (add_tick S m time_increment now)
    unfolding add_tick item
    add_tick-IsValid = record {
      players_sorted = v.players_sorted;
      ticks_sorted = insert-Above _ 0 _ m.pending_tick (omega arith) v.ticks_sorted;
      reached = λ t h. elim (has_key-insert_cases _ t _ m.pending_tick h) [
        | inl e ↦ omega arith
        | inr old ↦ omega (arith, v.reached t old)
      ];
      distinct = λ t t' id h g. elim (get-insert_cases _ t _ m.pending_tick h) [
        | inl (e, e') ↦ elim (get-insert_cases _ t' _ m.pending_tick g) [
          | inl (f, _) ↦ omega arith
          | inr (_, g') ↦ absurd (new_key t' (g' ∙ ap some (sym e')))
        ]
        | inr (_, h') ↦ elim (get-insert_cases _ t' _ m.pending_tick g) [
          | inl (_, f') ↦ absurd (new_key t (h' ∙ ap some (sym f')))
          | inr (_, g') ↦ v.distinct t t' id h' g'
        ]
      ];
      pending = λ t id h. elim (get-insert_cases _ t _ m.pending_tick h) [
        | inl (e, f) ↦ new_HasPending t id e f
        | inr (_, h') ↦
            HasPending-keep S m.players m.players m.pending_slab _ t id (λ k hk. hk) refl
              (old_read t id h') (v.pending t id h')
      ];
    }

  pub lag_or_tick-IsValid :
      (m : SyncMap S.Slab) (time_increment now : ℕ)
      → IsValid S m
      → m.tick + 1 < 2 ^ 32
      → (timeout : Option (List ℕ)) → IsValid S (lag_or_tick S m time_increment now timeout).0
  unfolding lag_or_tick
  lag_or_tick-IsValid m time_increment now v no_wrap (some players) = v
  lag_or_tick-IsValid m time_increment now v no_wrap none =
      add_tick-IsValid m time_increment now v no_wrap

  -- The oldest tick has been pending for more than 3 seconds when the clock has moved on.
  abbrev pub Overdue : SyncMap S.Slab → ℕ → ℕ → Pending → Type 0
  Overdue m time_increment id item =
      (t : ℕ) × (rest : SortedMap ℕ) × (m.pending_tick ≡ ((t, id) ∷ rest))
      × (S.read id m.pending_slab ≡ some item)
      × (3000 < ((m.time + time_increment) % 2 ^ 32 + 2 ^ 32 - item.checks.time) % 2 ^ 32)

  -- What a turn of the clock does: it moves on, with a new pending tick, or it changes nothing and names
  -- the players that have not acknowledged the oldest tick.
  pub data Clocks (m : SyncMap S.Slab) (time_increment now : ℕ) (r : SyncMap S.Slab × ClockResult)
      : Type 0 where
    moves_on :
        r.1 ≡ tick
        → r.0.tick ≡ m.tick + 1
        → r.0.time ≡ (m.time + time_increment) % 2 ^ 32
        → (id : ℕ) → r.0.pending_tick ≡ insert (m.tick + 1) id m.pending_tick
        → S.read id r.0.pending_slab
          ≡ some (record {
            checks = record {
              tick = m.tick + 1;
              time = (m.time + time_increment) % 2 ^ 32;
              checksums = [];
            };
            t = now;
          })
        → ((id : ℕ) (item : Pending) → ¬ Overdue m time_increment id item)
        → Clocks m time_increment now r
    lags :
        (id : ℕ) (item : Pending)
        → Overdue m time_increment id item
        → (players : List ℕ)
        → ((k : ℕ)
            → is_listed k players ≡ (has_key k m.players && not (has_key k item.checks.checksums)))
        → r ≡ (m, lag players)
        → Clocks m time_increment now r

  missing_from-listed :
      (k : ℕ) (players : SortedMap PlayerState) (checksums : SortedMap ℕ)
      → is_listed k (missing_from players checksums)
        ≡ (has_key k players && not (has_key k checksums))
  unfolding missing_from has_key
  missing_from-listed k [] checksums = refl
  missing_from-listed k ((p, state) ∷ players) checksums = elim (Bool-cases (has_key p checksums)) [
    | inl there ↦ rw there (ground (arith, there, missing_from-listed k players checksums))
    | inr away ↦ rw away (ground (arith, away, missing_from-listed k players checksums))
  ]

  module _ (m : SyncMap S.Slab) (time_increment now : ℕ) (v : IsValid S m)
      (no_wrap : m.tick + 1 < 2 ^ 32) where
    moves_on-Clocks :
        ((id : ℕ) (item : Pending) → ¬ Overdue m time_increment id item)
        → Clocks m time_increment now (lag_or_tick S m time_increment now none)
    unfolding lag_or_tick add_tick item
    moves_on-Clocks f =
        moves_on refl same_tick refl
          (S.alloc (item m time_increment now v no_wrap) m.pending_slab).0
          (ap
            (λ t.
              insert t (S.alloc (item m time_increment now v no_wrap) m.pending_slab).0
                m.pending_tick)
            same_tick)
          (new_read m time_increment now v no_wrap
            ∙ ap
                (λ t. some (record {
                  checks = record {
                    tick = t;
                    time = (m.time + time_increment) % 2 ^ 32;
                    checksums = [];
                  };
                  t = now;
                }))
                same_tick)
          f
      where
        same_tick : u32 (m.tick + 1) ≡ m.tick + 1
        same_tick = omega arith

    oldest-Clocks :
        (t id : ℕ) (rest : SortedMap ℕ) (oldest : Pending)
        → m.pending_tick ≡ ((t, id) ∷ rest)
        → S.read id m.pending_slab ≡ some oldest
        → Clocks m time_increment now
            (lag_or_tick S m time_increment now (timeout_players S m time_increment oldest))
    unfolding timeout_players lag_or_tick
    oldest-Clocks t id rest oldest e r =
        elim (Bool-cases
          (ltb lagging_threshold_ms (u32_sub (u32 (m.time + time_increment)) oldest.checks.time))) [
            | inl late ↦ rw late (
                lags id oldest (t, rest, e, r, ground (arith, late))
                  (missing_from m.players oldest.checks.checksums)
                  (λ k. missing_from-listed k m.players oldest.checks.checksums) refl)
            | inr early ↦ rw early (
                moves_on-Clocks (λ id' item' (t', rest', e', r', l).
                  let same_id : id ≡ id' = cc (e, e') in
                  let same_item : oldest ≡ item' =
                    some-injective _ _ (sym r ∙ ap (λ x. S.read x m.pending_slab) same_id ∙ r') in
                  absurd (ground (arith, early, l, ap (λ (x : Pending). x.checks.time) same_item))))
          ]

    clock-Clocks :
        (pending : SortedMap ℕ)
        → m.pending_tick ≡ pending
        → (timeout : Option (List ℕ)) × (check_timeout S m time_increment pending ≡ done timeout)
          × Clocks m time_increment now (lag_or_tick S m time_increment now timeout)
    unfolding check_timeout
    clock-Clocks [] e =
        (none, refl, moves_on-Clocks (λ id' item' (t', rest', e', _, _). cc (e, e')))
    clock-Clocks ((t, id) ∷ rest) e =
        let (oldest, r, _) = v.pending t id (ap (get t) e ∙ (unfold get in ground arith)) in
        (
          timeout_players S m time_increment oldest,
          rw (item_at, r) refl,
          oldest-Clocks t id rest oldest e r,
        )

  -- In a well-formed map whose tick is below the last u32, a turn of the clock does not panic, and the
  -- map that it leaves is well-formed. When the oldest pending tick is older than 3000 ms at the new
  -- time, nothing changes, and the answer names the players that have not acknowledged it, those and no
  -- other. Otherwise tick and time move on and the new tick is pending, with no checksum.
  pub clock-IsValid :
      (m : SyncMap S.Slab) (time_increment now : ℕ)
      → IsValid S m
      → m.tick + 1 < 2 ^ 32
      → (r : SyncMap S.Slab × ClockResult) × (clock S m time_increment now ≡ done r)
        × IsValid S r.0
        × Clocks m time_increment now r
  unfolding clock
  clock-IsValid m time_increment now v no_wrap =
      let (timeout, e, c) = clock-Clocks m time_increment now v no_wrap m.pending_tick refl in
      (
        lag_or_tick S m time_increment now timeout,
        rw e refl,
        lag_or_tick-IsValid m time_increment now v no_wrap timeout,
        c,
      )

  players_of :
      SortedMap PlayerState → Outcome (SyncMap S.Slab × ClockResult) → SortedMap PlayerState
  players_of other (done r) = r.0.players
  players_of other panic = other

  lag_or_tick-players :
      (m : SyncMap S.Slab) (time_increment now : ℕ) (timeout : Option (List ℕ))
      → (lag_or_tick S m time_increment now timeout).0.players ≡ m.players
  unfolding lag_or_tick add_tick
  lag_or_tick-players m time_increment now none = refl
  lag_or_tick-players m time_increment now (some players) = refl

  -- A turn of the clock keeps the players.
  pub clock-players :
      (m : SyncMap S.Slab) (time_increment now : ℕ) {r : SyncMap S.Slab × ClockResult}
      → clock S m time_increment now ≡ done r
      → r.0.players ≡ m.players
  unfolding clock players_of
  clock-players m time_increment now e =
      let (timeout, _, f) = >>=-eq-done (check_timeout S m time_increment m.pending_tick) _ e in
      sym (ap (players_of m.players) f) ∙ lag_or_tick-players m time_increment now timeout
