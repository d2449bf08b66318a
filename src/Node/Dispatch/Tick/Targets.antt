-- ===== src/Node/Dispatch/Tick/Targets.antt =====
-- crates/node/src/game/host/dispatch.rs: the players that a desync report names are looked for.
use w3c_flo.Common.{
  ℕ, ◌≡◌, refl, ap, ◌∙◌, true, false, List, [], ◌∷◌, ◌⊎◌, inl, inr, arith, ◌==◌, Every, Every-map,
  Bool-cases, if_cases,
}
use w3c_flo.Common.Maps.{SortedMap, SortedSet, has_key, insert, has_key-insert}
use w3c_flo.Node.Sync.{is_reported}
use w3c_flo.Node.Sync.Desync.{PlayerDesync}
use w3c_flo.Node.Dispatch.Packets.{PlayerInfo}
use w3c_flo.Node.Dispatch.Shared.{Host}
use w3c_flo.Node.Dispatch.Tick.{desync_targets}

-- A player of the report is handled, is not on the map or is one of the targets.
abbrev pub Covers : SortedSet → List PlayerDesync → SortedMap PlayerInfo → PlayerDesync → Type 0
Covers handled targets m d =
    (has_key d.player_id handled ≡ true)
    ⊎ (has_key d.player_id m ≡ false)
    ⊎ (is_reported d.player_id targets ≡ true)

reported_first :
    (p : ℕ) (d : PlayerDesync) (ds : List PlayerDesync)
    → (d.player_id ≡ p) ⊎ (is_reported p ds ≡ true)
    → is_reported p (d ∷ ds) ≡ true
unfolding is_reported
reported_first p d ds h = ground (arith, h)

Covers-inserted :
    (handled : SortedSet) (targets : List PlayerDesync) (m : SortedMap PlayerInfo)
    (d e : PlayerDesync)
    → has_key d.player_id m ≡ true
    → Covers (insert d.player_id tt handled) targets m e
    → Covers handled (d ∷ targets) m e
Covers-inserted handled targets m d e on (inl h) = elim (Bool-cases (d.player_id == e.player_id)) [
  | inl same ↦ inr (inr (reported_first e.player_id d targets (inl (ground (arith, same)))))
  | inr other ↦ inl (ground (arith, h, other, has_key-insert d.player_id e.player_id tt handled))
]
Covers-inserted handled targets m d e on (inr (inl h)) = inr (inl h)
Covers-inserted handled targets m d e on (inr (inr h)) =
    inr (inr (reported_first e.player_id d targets (inr h)))

Covers-away :
    (handled : SortedSet) (targets : List PlayerDesync) (m : SortedMap PlayerInfo)
    (d e : PlayerDesync)
    → has_key d.player_id m ≡ false
    → Covers (insert d.player_id tt handled) targets m e
    → Covers handled targets m e
Covers-away handled targets m d e off (inl h) = elim (Bool-cases (d.player_id == e.player_id)) [
  | inl same ↦ inr (inl (ap (λ k. has_key k m) (ground (arith, same)) ∙ off))
  | inr other ↦ inl (ground (arith, h, other, has_key-insert d.player_id e.player_id tt handled))
]
Covers-away handled targets m d e off (inr h) = inr h

pub desync_targets-Covers :
    (handled : SortedSet) (ds : List PlayerDesync) (m : SortedMap PlayerInfo) (H : Host) (now : ℕ)
    → Every (Covers handled (desync_targets H now handled ds m) m) ds
unfolding desync_targets
desync_targets-Covers handled [] m H now = tt
desync_targets-Covers handled (d ∷ ds) m H now =
    let handled' = insert d.player_id tt handled in
    let rest = desync_targets-Covers handled ds m H now in
    let fresh = desync_targets-Covers handled' ds m H now in
    if_cases (λ targets. Every (Covers handled targets m) (d ∷ ds)) (has_key d.player_id handled) _
      _ (λ old. (inl old, rest))
      (λ new.
        if_cases (λ targets. Every (Covers handled targets m) (d ∷ ds)) (has_key d.player_id m) _ _
          (λ on. (
            inr (inr (reported_first d.player_id d _ (inl refl))),
            Every-map (λ e c. Covers-inserted handled _ m d e on c) ds fresh,
          ))
          (λ off. (inr (inl off), Every-map (λ e c. Covers-away handled _ m d e off c) ds fresh)))
