-- ===== src/Node/Sync/RemovedAll.antt =====
-- crates/node/src/game/host/sync.rs: all ticks after a player has left.
use w3c_flo.Common.{
  ℕ, ◌≡◌, ◌≢◌, refl, sym, ◌∙◌, ◌⊎◌, inl, inr, true, List, [], ◌∷◌, ◌++◌, length, done, arith, Every,
  Every-append,
}
use w3c_flo.Common.Maps.{SortedMap, has_key}
use w3c_flo.Node.Sync.{Pending, PlayerState}
use w3c_flo.Node.Sync.Slab.{SlabOps, SlabLaws}
use w3c_flo.Node.Sync.Valid.{HasPending, HasPending-keep}
use w3c_flo.Node.Sync.Remove.{Removal, remove_from_ticks}
use w3c_flo.Node.Sync.Removed.{left_players, HasOld, Keeps, TurnEnds, remove_from_tick-TurnEnds}

has_key-append_left :
    (k : ℕ) (xs ys : SortedMap ℕ) → has_key k xs ≡ true → has_key k (xs ++ ys) ≡ true
unfolding has_key
has_key-append_left k [] ys h = cc
has_key-append_left k ((j, v) ∷ xs) ys h = ground (arith, has_key-append_left k xs ys)

has_key-append_last : (k v : ℕ) (xs : SortedMap ℕ) → has_key k (xs ++ ((k, v) ∷ [])) ≡ true
unfolding has_key
has_key-append_last k v [] = ground arith
has_key-append_last k v ((j, w) ∷ xs) = ground (arith, has_key-append_last k v xs)

-- No two entries share a key of the slab.
abbrev pub Apart : List (ℕ × ℕ) → Type 0
Apart [] = Unit {0}
Apart (e ∷ es) = Every (λ e'. e.1 ≢ e'.1) es × Apart es

module _ (S : SlabOps Pending) (L : SlabLaws S) (players : SortedMap PlayerState) (player_id : ℕ)
    (P : ℕ × ℕ → Type 0) where
  keep_old :
      (id : ℕ) (slab slab' : S.Slab) (todo : List (ℕ × ℕ))
      → Keeps S L players player_id id slab slab'
      → Every (λ e. id ≢ e.1) todo
      → Every (HasOld S L players player_id slab) todo
      → Every (HasOld S L players player_id slab') todo
  keep_old id slab slab' [] keeps ne old = tt
  keep_old id slab slab' ((t, id') ∷ todo) keeps ne ((item, read, a, b, c), old) =
      ((item, keeps id' ne.0 ∙ read, a, b, c), keep_old id slab slab' todo keeps ne.1 old)

  -- What holds once the entries `todo` have had their turn.
  pub record LoopEnds (todo : List (ℕ × ℕ)) (r r' : Removal S) : Type 0 where
    pub keeps : (id : ℕ) → Every (λ e. id ≢ e.1) todo → S.read id r'.slab ≡ S.read id r.slab
    pub grows : (t : ℕ) → has_key t r.finished ≡ true → has_key t r'.finished ≡ true
    pub settles :
        Every
          (λ e.
            (has_key e.0 r'.finished ≡ true)
            ⊎ HasPending S (left_players S L players player_id) r'.slab e.0 e.1)
          todo
    pub finishes : Every P r.finished → Every P todo → Every P r'.finished

  turn_grows :
      (e : ℕ × ℕ) (r r' : Removal S)
      → TurnEnds S L players player_id e r r'
      → (t : ℕ) → has_key t r.finished ≡ true
      → has_key t r'.finished ≡ true
  turn_grows e r r' (inl f) t h = rw f (has_key-append_left t r.finished (e ∷ []) h)
  turn_grows e r r' (inr (f, _)) t h = rw f h

  turn_finishes :
      (e : ℕ × ℕ) (r r' : Removal S)
      → TurnEnds S L players player_id e r r'
      → Every P r.finished
      → P e
      → Every P r'.finished
  turn_finishes e r r' (inl f) h p = rw f (Every-append P r.finished (e ∷ []) h (p, tt))
  turn_finishes e r r' (inr (f, _)) h p = rw f h

  loop_step :
      (e : ℕ × ℕ) (todo : List (ℕ × ℕ)) (r r' r'' : Removal S)
      → Every (λ e'. e.1 ≢ e'.1) todo
      → Keeps S L players player_id e.1 r.slab r'.slab
      → TurnEnds S L players player_id e r r'
      → LoopEnds todo r' r''
      → LoopEnds (e ∷ todo) r r''
  loop_step e todo r r' r'' ne keeps turn loop = record {
    keeps = λ id h. loop.keeps id h.1 ∙ keeps id (λ q. h.0 (sym q));
    grows = λ t h. loop.grows t (turn_grows e r r' turn t h);
    settles = (settled turn, loop.settles);
    finishes = λ h p. loop.finishes (turn_finishes e r r' turn h p.0) p.1;
  }
    where
      settled :
          TurnEnds S L players player_id e r r'
          → (has_key e.0 r''.finished ≡ true)
            ⊎ HasPending S (left_players S L players player_id) r''.slab e.0 e.1
      settled (inl f) = inl (loop.grows e.0 (rw f (has_key-append_last e.0 e.1 r.finished)))
      settled (inr (_, has)) = inr (
          HasPending-keep S (left_players S L players player_id)
            (left_players S L players player_id) r'.slab r''.slab e.0 e.1 (λ k h. h) refl
            (loop.keeps e.1 ne) has)

  pub remove_from_ticks-LoopEnds :
      (todo : List (ℕ × ℕ)) (r : Removal S)
      → Apart todo
      → Every (HasOld S L players player_id r.slab) todo
      → (r' : Removal S) × (remove_from_ticks S
            (length (left_players S L players player_id))
            player_id
            todo
            r
          ≡ done r')
        × LoopEnds todo r r'
  unfolding remove_from_ticks
  remove_from_ticks-LoopEnds [] r apart old = (
    r,
    refl,
    record { keeps = λ id h. refl; grows = λ t h. h; settles = tt; finishes = λ h p. h },
  )
  remove_from_ticks-LoopEnds (e ∷ todo) r apart old =
      let (r', f, keeps, turn) = remove_from_tick-TurnEnds S L players player_id e r old.0 in
      let (r'', g, loop) =
        remove_from_ticks-LoopEnds todo r' apart.1
          (keep_old e.1 r.slab r'.slab todo keeps apart.0 old.1) in
      (r'', rw f g, loop_step e todo r r' r'' apart.0 keeps turn loop)
