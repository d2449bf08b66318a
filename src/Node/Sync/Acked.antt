-- ===== src/Node/Sync/Acked.antt =====
-- crates/node/src/game/host/sync.rs: the map after an acknowledgement of a pending tick.
use w3c_flo.Common.{
  ℕ, ◌-◌, ◌≡◌, refl, sym, ◌↔◌, ◌∙◌, subst, ap, ◌≢◌, ◌⊎◌, inl, inr, true, false, none, some, List,
  [], ◌∷◌, length, arith, Bool-cases, done, ℕ_discrete,
}
use mathlib.Core.Option.{some-injective}
use w3c_flo.Common.Maps.{
  SortedMap, get, has_key, insert, remove, IsSorted, insert-Above, has_key-insert_cases,
  has_key-insert_old, has_key-remove_cases, remove-Above, length-insert_old, length-has_key,
  get-remove_cases,
}
use w3c_flo.Common.Maps.Keys.{Within}
use w3c_flo.Node.Sync.{
  SyncMap, Pending, PlayerState, AckReturn, ack_tick, finish_tick, agreed_checksum, take_desync,
  item_at, free_at,
}
use w3c_flo.Node.Sync.Slab.{SlabOps, SlabLaws}
use w3c_flo.Node.Sync.Desync.{PlayerDesync, Checks, should_check_desync}
use w3c_flo.Node.Sync.Desync.Vote.{AllAre}
use w3c_flo.Node.Sync.Desync.Report.{IsReport, check_desync-IsReport}
use w3c_flo.Node.Sync.Valid.{
  IsPending, HasPending, IsValid, HasPending-keep, IsComplete, should_check_desync-IsComplete,
}
use w3c_flo.Node.Sync.Counts.{acked_checks, reply, Counts, waits, agreed, disputed}

module _ (S : SlabOps Pending) (L : SlabLaws S) (m : SyncMap S.Slab) (v : IsValid S m)
    (player_id checksum : ℕ) (known : has_key player_id m.players ≡ true) (t id : ℕ)
    (at : get t m.pending_tick ≡ some id) (item : Pending)
    (stored : S.read id m.pending_slab ≡ some item) (is_pending : IsPending m.players t item) where
  abbrev pub checks : Checks
  checks = acked_checks player_id checksum item.checks

  abbrev pub players : SortedMap PlayerState
  players = insert player_id (record { tick = t; time = item.checks.time }) m.players

  -- The map with the checksum written.
  acked : SyncMap S.Slab
  acked = record m {
    players = players;
    pending_slab = S.write id (record item { checks = checks }) m.pending_slab;
  }

  players_Within : Within m.players players
  players_Within k h = has_key-insert_old player_id k _ m.players h

  length-players : length players ≡ length m.players
  length-players = length-insert_old player_id 0 _ m.players v.players_sorted known

  checks_Within : Within checks.checksums m.players
  checks_Within k h = elim (has_key-insert_cases player_id k checksum item.checks.checksums h) [
    | inl e ↦ subst (λ x. has_key x m.players ≡ true) e known
    | inr old ↦ is_pending.2 k old
  ]

  checks_IsSorted : IsSorted checks.checksums
  checks_IsSorted =
      insert-Above player_id 0 checksum item.checks.checksums (omega arith) is_pending.1

  item_read : S.read id acked.pending_slab ≡ some (record item { checks = checks })
  unfolding acked
  item_read =
      ground
        (arith, L.read-write id id (record item { checks = checks }) item m.pending_slab stored)

  other_id : (t' id' : ℕ) → t ≢ t' → get t' m.pending_tick ≡ some id' → id ≢ id'
  other_id t' id' ne h e = ne (v.distinct t t' id' (at ∙ ap some e) h)

  other_read :
      (t' id' : ℕ)
      → t ≢ t'
      → get t' m.pending_tick ≡ some id'
      → S.read id' acked.pending_slab ≡ S.read id' m.pending_slab
  unfolding acked
  other_read t' id' ne h = ground (
    arith,
    L.read-write id id' (record item { checks = checks }) item m.pending_slab stored,
    other_id t' id' ne h,
  )

  players-IsSorted : IsSorted players
  players-IsSorted = insert-Above player_id 0 _ m.players (omega arith) v.players_sorted

  acked_HasPending :
      should_check_desync checks (length players) ≡ false
      → (t' id' : ℕ) → t ≡ t'
      → id ≡ id'
      → HasPending S players acked.pending_slab t' id'
  acked_HasPending w t' id' e f =
      subst (λ x. HasPending S players acked.pending_slab x id') e
        (subst (λ y. HasPending S players acked.pending_slab t y) f
          (
            record item { checks = checks },
            item_read,
            (is_pending.0, checks_IsSorted, (λ k h. players_Within k (checks_Within k h)), w),
          ))

  acked-IsValid : should_check_desync checks (length players) ≡ false → IsValid S acked
  unfolding acked
  acked-IsValid w = record {
    players_sorted = players-IsSorted;
    ticks_sorted = v.ticks_sorted;
    reached = v.reached;
    distinct = v.distinct;
    pending = λ t' id' h. elim (ℕ_discrete t t') [
      | yes e ↦
          acked_HasPending w t' id' e
            (some-injective _ _ (sym at ∙ ap (λ x. get x m.pending_tick) e ∙ h))
      | no ne ↦
          HasPending-keep S m.players players m.pending_slab acked.pending_slab t' id'
            players_Within length-players (other_read t' id' ne h) (v.pending t' id' h)
    ];
  }

  -- The map without the tick.
  finished : SyncMap S.Slab
  unfolding acked
  finished = record acked {
    pending_tick = remove t m.pending_tick;
    pending_slab = S.free id acked.pending_slab;
    desync_buf = [];
  }

  finished_read : S.read id finished.pending_slab ≡ none
  unfolding finished
  finished_read = ground (arith, L.read-free id id acked.pending_slab)

  finished_other :
      (t' id' : ℕ)
      → t ≢ t'
      → get t' m.pending_tick ≡ some id'
      → S.read id' finished.pending_slab ≡ S.read id' m.pending_slab
  unfolding finished
  finished_other t' id' ne h =
      ground
        (arith, L.read-free id id' acked.pending_slab, other_read t' id' ne h, other_id t' id' ne h)

  finished-IsValid : IsValid S finished
  unfolding finished acked
  finished-IsValid = record {
    players_sorted = players-IsSorted;
    ticks_sorted = remove-Above t 0 m.pending_tick v.ticks_sorted;
    reached = λ t' h. v.reached t' (has_key-remove_cases t t' m.pending_tick h).1;
    distinct = λ t' t'' id' h g.
        v.distinct t' t'' id' (get-remove_cases t t' m.pending_tick h).1
          (get-remove_cases t t'' m.pending_tick g).1;
    pending = λ t' id' h.
        let (ne, h') = get-remove_cases t t' m.pending_tick h in
        HasPending-keep S m.players players m.pending_slab _ t' id' players_Within length-players
          (ground (
            arith,
            L.read-free id id' acked.pending_slab,
            other_read t' id' ne h',
            other_id t' id' ne h',
          ))
          (v.pending t' id' h');
  }

  -- Counting tells whether all players have acknowledged, before and after the write.
  counted :
      (should_check_desync checks (length players) ≡ true) ↔ IsComplete m.players checks.checksums
  counted =
      subst (λ n. (should_check_desync checks n ≡ true) ↔ IsComplete m.players checks.checksums)
        (sym length-players)
        (should_check_desync-IsComplete m.players checks v.players_sorted checks_IsSorted
          checks_Within (length-has_key player_id m.players known))

  finished_Counts :
      (now : ℕ)
      → IsComplete m.players checks.checksums
      → (found : List PlayerDesync)
      → ((((c : ℕ) × AllAre c checks.checksums) × (found ≡ []))
          ⊎ (¬ ((c : ℕ) × AllAre c checks.checksums) × IsReport checks found))
      → Counts m now t item checks checksum finished.pending_tick
          (S.read id finished.pending_slab)
          (reply m.tick t
            (now - item.t)
            (agreed_checksum checks checksum found)
            (take_desync found))
  unfolding finished agreed_checksum
  finished_Counts now f [] (inl ((c, all), e)) = agreed f c all refl finished_read refl
  finished_Counts now f (d ∷ ds) (inl (_, e)) = cc
  finished_Counts now f [] (inr (_, (l, _))) = absurd (omega arith)
  finished_Counts now f (d ∷ ds) (inr (differ, report)) =
      disputed f differ (d ∷ ds) report refl finished_read refl

  -- What the acknowledgement of a pending tick returns.
  abbrev pub Acknowledged : ℕ → SyncMap S.Slab × AckReturn → Type 0
  Acknowledged now r =
      (ack_tick S m player_id checksum now t id ≡ done r)
      × IsValid S r.0
      × (r.0.players ≡ players)
      × Counts m now t item checks checksum r.0.pending_tick (S.read id r.0.pending_slab) r.1
      × ((t' id' : ℕ)
          → t ≢ t'
          → get t' m.pending_tick ≡ some id'
          → S.read id' r.0.pending_slab ≡ S.read id' m.pending_slab)

  pub ack_tick-Acknowledged : (now : ℕ) → (r : SyncMap S.Slab × AckReturn) × Acknowledged now r
  unfolding ack_tick finish_tick acked finished
  ack_tick-Acknowledged now = elim (Bool-cases (should_check_desync checks (length players))) [
    | inl all ↦
        let (reported, e, cases) = check_desync-IsReport checks checks_IsSorted in
        (
          (
            finished,
            reply m.tick t (now - item.t) (agreed_checksum checks checksum reported)
                (take_desync reported),
          ),
          (
            rw (ack_tick, item_at, stored, all, e, free_at, item_read) refl,
            finished-IsValid,
            refl,
            finished_Counts now (counted.0 all) reported cases,
            finished_other,
          ),
        )
    | inr some_missing ↦ (
      (acked, reply m.tick t (now - item.t) none none),
      (
        rw (ack_tick, item_at, stored, some_missing) refl,
        acked-IsValid some_missing,
        refl,
        waits (λ f. absurd (cc (some_missing, counted.1 f))) refl item_read refl,
        other_read,
      ),
    )
  ]
