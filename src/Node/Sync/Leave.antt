-- ===== src/Node/Sync/Leave.antt =====
-- crates/node/src/game/host/sync.rs: `remove_player` keeps the map well-formed and does not panic.
use w3c_flo.Common.{
  ℕ, suc, ◌≤◌, ◌≡◌, ◌≢◌, refl, sym, ◌∙◌, ap, subst, ◌⊎◌, inl, inr, true, false, Option, some, List,
  [], ◌∷◌, done, arith, Every, Every-map,
}
use w3c_flo.Common.Maps.{
  SortedMap, get, has_key, remove, IsSorted, Above, Above-entries, Every-get, remove-Above,
  get-remove_cases, has_key-remove_cases,
}
use w3c_flo.Node.Sync.{SyncMap, Pending, PlayerState, take_desync}
use w3c_flo.Node.Sync.Slab.{SlabOps, SlabLaws}
use w3c_flo.Node.Sync.Desync.{PlayerDesync}
use w3c_flo.Node.Sync.Valid.{HasPending, IsValid, HasPending-keep}
use w3c_flo.Node.Sync.Remove.{Removal, drop_finished, remove_player}
use w3c_flo.Node.Sync.Removed.{left_players, HasOld}
use w3c_flo.Node.Sync.RemovedAll.{Apart, LoopEnds, remove_from_ticks-LoopEnds}

module _ (orig : SortedMap ℕ)
    (distinct : (t t' id : ℕ) → get t orig ≡ some id → get t' orig ≡ some id → t ≡ t') where
  abbrev IsEntry : ℕ × ℕ → Type 0
  IsEntry e = get e.0 orig ≡ some e.1

  apart_head :
      (e : ℕ × ℕ) (low : ℕ) (es : SortedMap ℕ)
      → suc e.0 ≤ low
      → Above low es
      → IsEntry e
      → Every IsEntry es
      → Every (λ e'. e.1 ≢ e'.1) es
  apart_head e low [] l s i is = tt
  apart_head e low ((t, id) ∷ es) l s i is = (
    (λ q. absurd (apart_numbers (distinct e.0 t id (i ∙ ap some q) is.0))),
    apart_head e (suc t) es (omega (arith, s.0)) s.1 i is.1,
  )
    where
      apart_numbers : e.0 ≢ t
      apart_numbers q = omega (arith, s.0)

  entries-Apart : (low : ℕ) (es : SortedMap ℕ) → Above low es → Every IsEntry es → Apart es
  entries-Apart low [] s is = tt
  entries-Apart low (e ∷ es) s is =
      (apart_head e (suc e.0) es (omega arith) s.1 is.0 is.1, entries-Apart (suc e.0) es s.1 is.1)

  module _ (S : SlabOps Pending) (L : SlabLaws S) where
    -- What is left once the finished ticks are taken off.
    record Dropped (finished : List (ℕ × ℕ)) (m m' : SyncMap S.Slab) : Type 0 where
      gets :
          (t id : ℕ)
          → get t m'.pending_tick ≡ some id
          → (has_key t finished ≡ false)
            × (get t m.pending_tick ≡ some id)
            × (S.read id m'.pending_slab ≡ S.read id m.pending_slab)
      ticks_sorted : IsSorted m.pending_tick → IsSorted m'.pending_tick
      keys : (t : ℕ) → has_key t m'.pending_tick ≡ true → has_key t m.pending_tick ≡ true
      same_players : m'.players ≡ m.players
      same_tick : m'.tick ≡ m.tick

    drop_finished-Dropped :
        (finished : List (ℕ × ℕ)) (m : SyncMap S.Slab)
        → Every IsEntry finished
        → ((t id : ℕ) → get t m.pending_tick ≡ some id → get t orig ≡ some id)
        → Dropped finished m (drop_finished S finished m)
    unfolding drop_finished has_key
    drop_finished-Dropped [] m is sub = record {
      gets = λ t id h. (refl, h, refl);
      ticks_sorted = λ s. s;
      keys = λ t h. h;
      same_players = refl;
      same_tick = refl;
    }
    drop_finished-Dropped ((t, id) ∷ finished) m is sub =
        let m1 : SyncMap S.Slab = record m {
          pending_tick = remove t m.pending_tick;
          pending_slab = S.free id m.pending_slab;
        } in
        let rest =
          drop_finished-Dropped finished m1 is.1
            (λ t' id' h. sub t' id' (get-remove_cases t t' m.pending_tick h).1) in
        record {
          gets = λ t' id' h.
              let (unfinished, g, read) = rest.gets t' id' h in
              let (ne, g') = get-remove_cases t t' m.pending_tick g in
              (
                ground (arith, unfinished, ne),
                g',
                read ∙ ground (arith, L.read-free id id' m.pending_slab, other_id t' id' ne g'),
              );
          ticks_sorted = λ s. rest.ticks_sorted (remove-Above t 0 m.pending_tick s);
          keys = λ t' h. (has_key-remove_cases t t' m.pending_tick (rest.keys t' h)).1;
          same_players = rest.same_players;
          same_tick = rest.same_tick;
        }
      where
        other_id : (t' id' : ℕ) → t ≢ t' → get t' m.pending_tick ≡ some id' → id ≢ id'
        other_id t' id' ne g q = ne (distinct t t' id' (is.0 ∙ ap some q) (sub t' id' g))

module _ (S : SlabOps Pending) (L : SlabLaws S) (m : SyncMap S.Slab) (v : IsValid S m)
    (player_id : ℕ) where
  remaining : SortedMap PlayerState
  remaining = left_players S L m.players player_id

  start : Removal S
  start = record { slab = m.pending_slab; buf = []; finished = [] }

  entries : Every (λ e. get e.0 m.pending_tick ≡ some e.1) m.pending_tick
  entries = Above-entries 0 m.pending_tick v.ticks_sorted

  entries-HasOld : Every (HasOld S L m.players player_id m.pending_slab) m.pending_tick
  entries-HasOld =
      Every-map
        (λ e g. let (item, read, (a, b, c, _)) = v.pending e.0 e.1 g in (item, read, a, b, c))
        m.pending_tick entries

  -- The map between the two loops, and after them.
  between : Removal S → SyncMap S.Slab
  unfolding remaining
  between r = record m { players = remaining; pending_slab = r.slab }

  dropped : Removal S → SyncMap S.Slab
  dropped r = record (drop_finished S r.finished (between r)) { desync_buf = [] }

  dropped-IsValid :
      (r : Removal S)
      → LoopEnds S L m.players player_id
          (λ e. get e.0 m.pending_tick ≡ some e.1)
          m.pending_tick
          start
          r
      → IsValid S (dropped r)
  unfolding dropped between start remaining
  dropped-IsValid r loop =
      let d =
        drop_finished-Dropped m.pending_tick v.distinct S L r.finished (between r)
          (loop.finishes tt entries) (λ t id h. h) in
      record {
        players_sorted =
            subst IsSorted (sym d.same_players)
              (remove-Above player_id 0 m.players v.players_sorted);
        ticks_sorted = d.ticks_sorted v.ticks_sorted;
        reached = λ t h. subst (λ x. t ≤ x) (sym d.same_tick) (v.reached t (d.keys t h));
        distinct = λ t t' id h g. v.distinct t t' id (d.gets t id h).1 (d.gets t' id g).1;
        pending = λ t id h.
            let (unfinished, g, read) = d.gets t id h in
            subst (λ x. HasPending S x (dropped r).pending_slab t id) (sym d.same_players)
              (elim (Every-get
                (λ e. (has_key e.0 r.finished ≡ true) ⊎ HasPending S remaining r.slab e.0 e.1) t
                m.pending_tick loop.settles g) [
                  | inl f ↦ absurd (cc (f, unfinished))
                  | inr has ↦
                      HasPending-keep S remaining remaining r.slab (dropped r).pending_slab t id
                        (λ k w. w) refl read has
                ]);
      }

pub remove_player-IsValid :
    (S : SlabOps Pending) (L : SlabLaws S) (m : SyncMap S.Slab) (player_id : ℕ)
    → IsValid S m
    → (r : SyncMap S.Slab × Option (List PlayerDesync)) × (remove_player S m player_id ≡ done r)
      × IsValid S r.0
      × (r.0.players ≡ remove player_id m.players)
unfolding remove_player start between dropped remaining
remove_player-IsValid S L m player_id v =
    let (r, e, loop) =
      remove_from_ticks-LoopEnds S L m.players player_id (λ e. get e.0 m.pending_tick ≡ some e.1)
        m.pending_tick (start S L m v player_id)
        (entries-Apart m.pending_tick v.distinct 0 m.pending_tick v.ticks_sorted
          (entries S L m v player_id))
        (entries-HasOld S L m v player_id) in
    let d =
      drop_finished-Dropped m.pending_tick v.distinct S L r.finished (between S L m v player_id r)
        (loop.finishes tt (entries S L m v player_id)) (λ t id h. h) in
    (
      (dropped S L m v player_id r, take_desync r.buf),
      rw e refl,
      dropped-IsValid S L m v player_id r loop,
      d.same_players,
    )
