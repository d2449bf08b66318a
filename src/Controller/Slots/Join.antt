-- ===== src/Controller/Slots/Join.antt =====
-- `join` seats a player.
use w3c_flo.Common.{
  ℕ, ◌≡◌, ◌≢◌, refl, ap, ◌∙◌, true, false, some, get_elem?, set, done, arith,
  lt-length_of_get_elem?, get_elem?-set_self, get_elem?-set_ne,
}
use w3c_flo.Controller.Types.{PlayerRef, Slot}
use w3c_flo.Controller.Slots.{Slots, acquire_slot_mut, is_full, join}
use w3c_flo.Controller.Slots.Acquire.{acquire_slot_mut-Acquires, Acquires-IsValid}
use w3c_flo.Controller.Slots.Colors.{is_open_slot, is_used}
use w3c_flo.Controller.Slots.Position.{IsFirst}
use w3c_flo.Controller.Slots.Valid.{IsValid, IsValid-set}

-- The player sits on slot `idx`, the first that was open; the other slots are as before.
pub record Joins (s s' : Slots) (player : PlayerRef) (idx : ℕ) : Type 0 where
  pub was_open : IsFirst is_open_slot s.inner idx
  pub slot : Slot
  pub at : get_elem? s'.inner idx ≡ some slot
  pub seated : slot.player ≡ some player
  pub used : is_used slot ≡ true
  pub others : (j : ℕ) → idx ≢ j → get_elem? s'.inner j ≡ get_elem? s.inner j
  pub valid : IsValid s'

abbrev seated : PlayerRef → Slot → Slot
seated player slot = record slot { player = some player }

join_runs :
    (s s' : Slots) (player : PlayerRef) (idx : ℕ) (slot : Slot)
    → acquire_slot_mut s ≡ done (s', some idx)
    → get_elem? s'.inner idx ≡ some slot
    → join s player ≡ done (record s' { inner = set s'.inner idx (seated player slot) }, some idx)
unfolding join
join_runs s s' player idx slot runs e = ground (arith, runs, e)

-- While a slot is open, a player who joins is seated on the first open slot, and the lobby stays valid.
pub join-Joins :
    (s : Slots) (player : PlayerRef)
    → IsValid s
    → is_full s ≡ false
    → (s' : Slots) × (idx : ℕ) × (join s player ≡ done (s', some idx)) × Joins s s' player idx
join-Joins s player v h =
    let (s1, idx, runs, a) = acquire_slot_mut-Acquires s v h in
    let v1 = Acquires-IsValid s s1 idx v a in
    let stored : s1.inner ≡ set s.inner idx a.slot = ap (λ (x : Slots). x.inner) a.stored in
    let at : get_elem? s1.inner idx ≡ some a.slot =
      ap (λ xs. get_elem? xs idx) stored
      ∙ get_elem?-set_self s.inner idx a.slot (lt-length_of_get_elem? s.inner idx a.was_open.at) in
    let new = seated player a.slot in
    (
      record s1 { inner = set s1.inner idx new },
      idx,
      join_runs s s1 player idx a.slot runs at,
      record {
        was_open = a.was_open;
        slot = new;
        at = get_elem?-set_self s1.inner idx new (lt-length_of_get_elem? s1.inner idx at);
        seated = refl;
        used = a.used;
        others = λ j ne.
            get_elem?-set_ne s1.inner new ne
            ∙ ap (λ xs. get_elem? xs j) stored
            ∙ get_elem?-set_ne s.inner a.slot ne;
        valid =
            IsValid-set s1 idx new v1 a.color
              (λ k t ne g p q. v1.distinct k idx t a.slot ne g at p q);
      },
    )
