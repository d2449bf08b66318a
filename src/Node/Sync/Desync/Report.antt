-- ===== src/Node/Sync/Desync/Report.antt =====
-- crates/node/src/game/host/sync.rs: what `check_desync` reports.
use w3c_flo.Common.{
  ℕ, zero, suc, ◌-◌, ◌<◌, ◌≡◌, refl, sym, ◌⊎◌, inl, inr, false, none, some, List, [], ◌∷◌, ◌==◌,
  leb, if◌then◌else◌, if_cases, length, take, done, arith, Every, Bool-cases, Every-append,
  Every-take, length-append, get_elem?_of_lt, get_elem?, >>=-index, ◌∙◌, subst,
}
use w3c_flo.Common.Maps.{SortedMap, get, IsSorted, Above-entries}
use w3c_flo.Node.Sync.Desync.{
  PlayerDesync, Checks, differs_from, Vote, vote_map, insert_vote, sort_votes, report_players,
  report_votes, report_sorted, check_desync,
}
use w3c_flo.Node.Sync.Desync.Vote.{
  AllAre, IsVoteOf, differs_from-AllAre, AllAre-differs_from, vote_map-IsVoteOf, length-vote_map,
}

length-insert_vote :
    (v : Vote) (votes : List Vote) → length (insert_vote v votes) ≡ suc (length votes)
unfolding insert_vote
length-insert_vote v [] = refl
length-insert_vote v (w ∷ votes) = ground (arith, length-insert_vote v votes)

length-sort_votes : (votes : List Vote) → length (sort_votes votes) ≡ length votes
unfolding sort_votes
length-sort_votes [] = refl
length-sort_votes (v ∷ votes) =
    omega (arith, length-insert_vote v (sort_votes votes), length-sort_votes votes)

module _ {κ} (P : Vote → Type κ) where
  insert_vote-Every :
      (v : Vote) (votes : List Vote) → P v → Every P votes → Every P (insert_vote v votes)
  unfolding insert_vote
  insert_vote-Every v [] h s = (h, tt)
  insert_vote-Every v (w ∷ votes) h s =
      if_cases (Every P) (leb (length v.1) (length w.1)) (v ∷ w ∷ votes) (w ∷ insert_vote v votes)
        (λ _. (h, s)) (λ _. (s.0, insert_vote-Every v votes h s.1))

  sort_votes-Every : (votes : List Vote) → Every P votes → Every P (sort_votes votes)
  unfolding sort_votes
  sort_votes-Every [] s = tt
  sort_votes-Every (v ∷ votes) s =
      insert_vote-Every v (sort_votes votes) s.0 (sort_votes-Every votes s.1)

-- The entry is a player of the tick, with the checksum that it sent.
abbrev pub IsReportOf : Checks → PlayerDesync → Type 0
IsReportOf p d =
    (get d.player_id p.checksums ≡ some d.checksum) × (d.tick ≡ p.tick) × (d.time ≡ p.time)

-- A report that is not empty, and right.
abbrev pub IsReport : Checks → List PlayerDesync → Type 0
IsReport p found = (0 < length found) × Every (IsReportOf p) found

report_players-Every :
    (p : Checks) (checksum : ℕ) (players : List ℕ)
    → Every (λ q. get q p.checksums ≡ some checksum) players
    → Every (IsReportOf p) (report_players p checksum players)
unfolding report_players
report_players-Every p checksum [] s = tt
report_players-Every p checksum (q ∷ players) s =
    ((s.0, refl, refl), report_players-Every p checksum players s.1)

length-report_players :
    (p : Checks) (checksum : ℕ) (players : List ℕ)
    → length (report_players p checksum players) ≡ length players
unfolding report_players
length-report_players p checksum [] = refl
length-report_players p checksum (q ∷ players) =
    omega (arith, length-report_players p checksum players)

report_players-IsReport :
    (p : Checks) (v : Vote) → IsVoteOf p.checksums v → IsReport p (report_players p v.0 v.1)
report_players-IsReport p v h =
    (omega (arith, length-report_players p v.0 v.1, h.0), report_players-Every p v.0 v.1 h.1)

report_votes-Every :
    (p : Checks) (votes : List Vote)
    → Every (IsVoteOf p.checksums) votes
    → Every (IsReportOf p) (report_votes p votes)
unfolding report_votes
report_votes-Every p [] s = tt
report_votes-Every p ((checksum, players) ∷ votes) s =
    Every-append (IsReportOf p) (report_players p checksum players) (report_votes p votes)
      (report_players-Every p checksum players s.0.1) (report_votes-Every p votes s.1)

report_votes-IsReport :
    (p : Checks) (v : Vote) (votes : List Vote)
    → Every (IsVoteOf p.checksums) (v ∷ votes)
    → IsReport p (report_votes p (v ∷ votes))
unfolding report_votes
report_votes-IsReport p (c, players) votes s = (
  omega (
    arith,
    length-append (report_players p c players) (report_votes p votes),
    length-report_players p c players,
    s.0.0,
  ),
  report_votes-Every p ((c, players) ∷ votes) s,
)

report_votes-take-IsReport :
    (p : Checks) (v : Vote) (votes : List Vote) (n : ℕ)
    → 0 < n
    → Every (IsVoteOf p.checksums) (v ∷ votes)
    → IsReport p (report_votes p (take n (v ∷ votes)))
report_votes-take-IsReport p v votes zero l s = absurd (omega arith)
report_votes-take-IsReport p v votes (suc n) l s =
    report_votes-IsReport p v (take n votes) (s.0, Every-take (IsVoteOf p.checksums) n votes s.1)

-- With two checksums at least, no arm is unreachable and no index is out of bounds.
report_sorted-IsReport :
    (p : Checks) (votes : List Vote)
    → 1 < length votes
    → Every (IsVoteOf p.checksums) votes
    → (found : List PlayerDesync) × (report_sorted p votes ≡ done found) × IsReport p found
unfolding report_sorted
report_sorted-IsReport p [] l s = absurd (omega arith)
report_sorted-IsReport p (v ∷ []) l s = absurd (omega arith)
report_sorted-IsReport p (v ∷ w ∷ []) l s = (
  _,
  refl,
  if_cases (IsReport p) (length v.1 == length w.1) _ _ (λ _. report_votes-IsReport p v (w ∷ []) s)
      (λ _. report_players-IsReport p v s.0),
)
report_sorted-IsReport p (v ∷ w ∷ x ∷ votes) l s =
    let sorted = v ∷ w ∷ x ∷ votes in
    let (last, e) : (v : Vote) × (get_elem? sorted (length sorted - 1) ≡ some v) =
      get_elem?_of_lt sorted (length sorted - 1) (omega arith) in
    let (second_last, f) : (v : Vote) × (get_elem? sorted (length sorted - 2) ≡ some v) =
      get_elem?_of_lt sorted (length sorted - 2) (omega arith) in
    (
      if length last.1 == length second_last.1
          then report_votes p sorted
          else report_votes p (take (length sorted - 1) sorted),
      >>=-index sorted (length sorted - 1) _ e ∙ >>=-index sorted (length sorted - 2) _ f,
      if_cases (IsReport p) (length last.1 == length second_last.1) _ _
          (λ _. report_votes-IsReport p v (w ∷ x ∷ votes) s)
          (λ _. report_votes-take-IsReport p v (w ∷ x ∷ votes) (length sorted - 1) (omega arith) s),
    )

all_same :
    (checksums : SortedMap ℕ) → differs_from none checksums ≡ false → (c : ℕ) × AllAre c checksums
unfolding differs_from
all_same [] h = (0, tt)
all_same ((p, c) ∷ checksums) h = (c, (refl, differs_from-AllAre c checksums h))

all_same-differs_from :
    (checksums : SortedMap ℕ) (c : ℕ) → AllAre c checksums → differs_from none checksums ≡ false
unfolding differs_from
all_same-differs_from [] c h = refl
all_same-differs_from ((p, d) ∷ checksums) c h =
    subst (λ x. differs_from (some x) checksums ≡ false) (sym h.0)
      (AllAre-differs_from c checksums h.1)

-- The checksums that a sorted map holds are voted on without a panic. Nothing is reported when they are
-- all the same; when some differ, the report is not empty, and each entry of it is a player that sent
-- the checksum named, with the tick's number and time.
pub check_desync-IsReport :
    (p : Checks)
    → IsSorted p.checksums
    → (found : List PlayerDesync) × (check_desync p ≡ done found)
      × ((((c : ℕ) × AllAre c p.checksums) × (found ≡ []))
          ⊎ (¬ ((c : ℕ) × AllAre c p.checksums) × IsReport p found))
unfolding check_desync
check_desync-IsReport p s = elim (Bool-cases (differs_from none p.checksums)) [
  | inl differ ↦
      let votes = vote_map [] p.checksums in
      let (found, e, r) =
        report_sorted-IsReport p (sort_votes votes)
          (omega (arith, length-sort_votes votes, length-vote_map p.checksums differ))
          (sort_votes-Every (IsVoteOf p.checksums) votes
            (vote_map-IsVoteOf p.checksums p.checksums [] (Above-entries 0 p.checksums s) tt)) in
      (
        found,
        rw differ e,
        inr ((λ (c, h). absurd (cc (differ, all_same-differs_from p.checksums c h))), r),
      )
  | inr same ↦ ([], rw same refl, inl (all_same p.checksums same, refl))
]
