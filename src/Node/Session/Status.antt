-- ===== src/Node/Session/Status.antt =====
-- crates/types/src/node.rs: the status of a game and of a player in it, and
-- crates/node/src/game/mod.rs: who asks for a change of the latter.
use w3c_flo.Common.{ℕ, zero, suc, Bool, true, ◌==◌, ==_iff, ◌≡◌, refl}

pub data NodeGameStatus : Type 0 where
  created waiting loading running ended : NodeGameStatus

pub data SlotClientStatus : Type 0 where
  pending connected joined loading loaded disconnected left : SlotClientStatus

pub data SlotClientStatusUpdateSource : Type 0 where
  node controller client : SlotClientStatusUpdateSource

-- The discriminants, in which the derived `==` compares.
abbrev pub game_discriminant : NodeGameStatus → ℕ
game_discriminant created = 0
game_discriminant waiting = 1
game_discriminant NodeGameStatus.loading = 2
game_discriminant running = 3
game_discriminant ended = 4

abbrev pub client_discriminant : SlotClientStatus → ℕ
client_discriminant pending = 0
client_discriminant connected = 1
client_discriminant joined = 2
client_discriminant SlotClientStatus.loading = 3
client_discriminant loaded = 4
client_discriminant disconnected = 5
client_discriminant left = 6

abbrev pub same_game : NodeGameStatus → NodeGameStatus → Bool
same_game a b = game_discriminant a == game_discriminant b

abbrev pub same_client : SlotClientStatus → SlotClientStatus → Bool
same_client a b = client_discriminant a == client_discriminant b

abbrev of_discriminant : ℕ → NodeGameStatus
of_discriminant zero = created
of_discriminant (suc zero) = waiting
of_discriminant (suc (suc zero)) = NodeGameStatus.loading
of_discriminant (suc (suc (suc zero))) = running
of_discriminant (suc (suc (suc (suc n)))) = ended

of_discriminant-game_discriminant : (a : NodeGameStatus) → of_discriminant (game_discriminant a) ≡ a
of_discriminant-game_discriminant created = refl
of_discriminant-game_discriminant waiting = refl
of_discriminant-game_discriminant NodeGameStatus.loading = refl
of_discriminant-game_discriminant running = refl
of_discriminant-game_discriminant ended = refl

abbrev client_of_discriminant : ℕ → SlotClientStatus
client_of_discriminant zero = pending
client_of_discriminant (suc zero) = connected
client_of_discriminant (suc (suc zero)) = joined
client_of_discriminant (suc (suc (suc zero))) = SlotClientStatus.loading
client_of_discriminant (suc (suc (suc (suc zero)))) = loaded
client_of_discriminant (suc (suc (suc (suc (suc zero))))) = disconnected
client_of_discriminant (suc (suc (suc (suc (suc (suc n)))))) = left

of_client_discriminant : (a : SlotClientStatus) → client_of_discriminant (client_discriminant a) ≡ a
of_client_discriminant pending = refl
of_client_discriminant connected = refl
of_client_discriminant joined = refl
of_client_discriminant SlotClientStatus.loading = refl
of_client_discriminant loaded = refl
of_client_discriminant disconnected = refl
of_client_discriminant left = refl

pub same_client-≡ : (a b : SlotClientStatus) → same_client a b ≡ true → a ≡ b
same_client-≡ a b h = cc (
  of_client_discriminant a,
  of_client_discriminant b,
  (==_iff (client_discriminant a) (client_discriminant b)).0 h,
)

pub same_game-≡ : (a b : NodeGameStatus) → same_game a b ≡ true → a ≡ b
same_game-≡ a b h = cc (
  of_discriminant-game_discriminant a,
  of_discriminant-game_discriminant b,
  (==_iff (game_discriminant a) (game_discriminant b)).0 h,
)
