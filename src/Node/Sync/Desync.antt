-- ===== src/Node/Sync/Desync.antt =====
-- crates/node/src/game/host/sync.rs: the checksums of one tick, and the vote on them.
pub mod Vote
pub mod Report
use w3c_flo.Common.{
  ℕ, ◌-◌, Bool, true, false, Option, none, some, List, [], ◌∷◌, ◌++◌, ◌==◌, leb, if◌then◌else◌,
  length, take, Outcome, done, panic, ◌>>=◌, index,
}
use w3c_flo.Common.Maps.{SortedMap, get, insert}

pub record PlayerDesync : Type 0 where
  pub player_id : ℕ
  pub tick : ℕ
  pub time : ℕ
  pub checksum : ℕ

-- A pending tick, without the instant at which it began.
pub record Checks : Type 0 where
  pub tick : ℕ
  pub time : ℕ
  pub checksums : SortedMap ℕ

unfoldable pub should_check_desync : Checks → ℕ → Bool
should_check_desync p player_count =
    if player_count == 0 then false else leb player_count (length p.checksums)

-- The first loop: does some checksum differ from the first one?
unfoldable pub differs_from : Option ℕ → SortedMap ℕ → Bool
differs_from last [] = false
differs_from none ((_, c) ∷ checksums) = differs_from (some c) checksums
differs_from (some value) ((_, c) ∷ checksums) =
    let rest = differs_from (some value) checksums in if value == c then rest else true

-- A checksum and the players that sent it.
abbrev pub Vote : Type 0
Vote = ℕ × List ℕ

abbrev pub voters : Option (List ℕ) → List ℕ
voters none = []
voters (some players) = players

unfoldable pub vote_map : SortedMap (List ℕ) → SortedMap ℕ → SortedMap (List ℕ)
vote_map votes [] = votes
vote_map votes ((player_id, c) ∷ checksums) =
    vote_map (insert c (voters (get c votes) ++ (player_id ∷ [])) votes) checksums

-- `sort_by_key` with the number of players, which is stable.
unfoldable pub insert_vote : Vote → List Vote → List Vote
insert_vote v [] = v ∷ []
insert_vote v (w ∷ votes) =
    let rest = insert_vote v votes in
    if leb (length v.1) (length w.1) then v ∷ w ∷ votes else w ∷ rest

unfoldable pub sort_votes : List Vote → List Vote
unfolding insert_vote
sort_votes [] = []
sort_votes (v ∷ votes) = insert_vote v (sort_votes votes)

unfoldable pub report_players : Checks → ℕ → List ℕ → List PlayerDesync
report_players p checksum [] = []
report_players p checksum (player_id ∷ players) =
    record { player_id = player_id; tick = p.tick; time = p.time; checksum = checksum }
    ∷ report_players p checksum players

unfoldable pub report_votes : Checks → List Vote → List PlayerDesync
unfolding report_players
report_votes p [] = []
report_votes p ((checksum, players) ∷ votes) =
    report_players p checksum players ++ report_votes p votes

-- The `match` on the number of different checksums, fewest votes first.
unfoldable pub report_sorted : Checks → List Vote → Outcome (List PlayerDesync)
unfolding report_votes
report_sorted p [] = panic
report_sorted p (v ∷ []) = panic
report_sorted p (v ∷ w ∷ []) =
    done
      (if length v.1 == length w.1 then report_votes p (v ∷ w ∷ []) else report_players p v.0 v.1)
report_sorted p (v ∷ w ∷ x ∷ votes) = do
  let sorted = v ∷ w ∷ x ∷ votes
  last ← index sorted (length sorted - 1)
  second_last ← index sorted (length sorted - 2)
  done (
      if length last.1 == length second_last.1
      then report_votes p sorted
      else report_votes p (take (length sorted - 1) sorted))

-- What is appended to the buffer.
unfoldable pub check_desync : Checks → Outcome (List PlayerDesync)
unfolding differs_from vote_map sort_votes report_sorted
check_desync p =
    if differs_from none p.checksums
    then report_sorted p (sort_votes (vote_map [] p.checksums))
    else done []
