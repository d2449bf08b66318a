-- ===== src/Node/Sync/Desync/Vote.antt =====
-- crates/node/src/game/host/sync.rs: the vote on the checksums of a tick, on every branch.
use w3c_flo.Common.{
  ℕ, ◌<◌, ◌≡◌, refl, sym, ◌≢◌, inl, inr, true, false, Option, none, some, List, [], ◌∷◌, ◌++◌, ◌==◌,
  length, arith, Every, Bool-cases, length-append,
}
use w3c_flo.Common.Maps.{
  SortedMap, get, has_key, insert, Every-insert, Every-get, two_keys, has_key-insert,
}
use w3c_flo.Node.Sync.Desync.{differs_from, Vote, voters, vote_map}

-- All checksums are `c`.
abbrev pub AllAre : ℕ → SortedMap ℕ → Type 0
AllAre c checksums = Every (λ e. e.1 ≡ c) checksums

pub differs_from-AllAre :
    (c : ℕ) (checksums : SortedMap ℕ) → differs_from (some c) checksums ≡ false → AllAre c checksums
unfolding differs_from
differs_from-AllAre c [] h = tt
differs_from-AllAre c ((p, d) ∷ checksums) h = ground (arith, differs_from-AllAre c checksums)

pub AllAre-differs_from :
    (c : ℕ) (checksums : SortedMap ℕ) → AllAre c checksums → differs_from (some c) checksums ≡ false
unfolding differs_from
AllAre-differs_from c [] h = refl
AllAre-differs_from c ((p, d) ∷ checksums) h = ground (arith, AllAre-differs_from c checksums h.1)

-- A vote is not without voters, and each of them sent its checksum.
abbrev pub IsVoteOf : SortedMap ℕ → Vote → Type 0
IsVoteOf checksums vote =
    (0 < length vote.1) × Every (λ player_id. get player_id checksums ≡ some vote.0) vote.1

Every-snoc {ℓ κ} :
    {A : Type ℓ} (P : A → Type κ) (xs : List A) (x : A)
    → Every P xs
    → P x
    → Every P (xs ++ (x ∷ []))
Every-snoc P [] x h p = (p, tt)
Every-snoc P (y ∷ xs) x h p = (h.0, Every-snoc P xs x h.1 p)

pub vote_map-IsVoteOf :
    (all checksums : SortedMap ℕ) (votes : SortedMap (List ℕ))
    → Every (λ e. get e.0 all ≡ some e.1) checksums
    → Every (IsVoteOf all) votes
    → Every (IsVoteOf all) (vote_map votes checksums)
unfolding vote_map
vote_map-IsVoteOf all [] votes h s = s
vote_map-IsVoteOf all ((p, c) ∷ checksums) votes h s =
    vote_map-IsVoteOf all checksums (insert c (voters (get c votes) ++ (p ∷ [])) votes) h.1 (
      Every-insert (IsVoteOf all) c (voters (get c votes) ++ (p ∷ [])) votes
        (
          omega (arith, length-append (voters (get c votes)) (p ∷ [])),
          Every-snoc (λ q. get q all ≡ some c) (voters (get c votes)) p old h.0,
        )
        s)
  where
    of_voters : (o : Option (List ℕ)) → o ≡ get c votes → Every (λ q. get q all ≡ some c) (voters o)
    of_voters none e = tt
    of_voters (some ps) e = (Every-get (IsVoteOf all) c votes s (sym e)).1

    old : Every (λ q. get q all ≡ some c) (voters (get c votes))
    old = of_voters (get c votes) refl

pub vote_map-has_key_old :
    (c : ℕ) (checksums : SortedMap ℕ) (votes : SortedMap (List ℕ))
    → has_key c votes ≡ true
    → has_key c (vote_map votes checksums) ≡ true
unfolding vote_map
vote_map-has_key_old c [] votes h = h
vote_map-has_key_old c ((p, d) ∷ checksums) votes h =
    vote_map-has_key_old c checksums (insert d (voters (get d votes) ++ (p ∷ [])) votes)
      (ground (arith, has_key-insert d c (voters (get d votes) ++ (p ∷ [])) votes))

-- A checksum that differs from `c` is a key of the vote.
pub vote_map_other :
    (c : ℕ) (checksums : SortedMap ℕ) (votes : SortedMap (List ℕ))
    → differs_from (some c) checksums ≡ true
    → (d : ℕ) × (c ≢ d) × (has_key d (vote_map votes checksums) ≡ true)
unfolding differs_from vote_map
vote_map_other c [] votes h = cc
vote_map_other c ((p, d) ∷ checksums) votes h = elim (Bool-cases (c == d)) [
  | inl e ↦
      vote_map_other c checksums (insert d (voters (get d votes) ++ (p ∷ [])) votes) (ground arith)
  | inr ne ↦ (
    d,
    (λ e. ground arith),
    vote_map-has_key_old d checksums (insert d (voters (get d votes) ++ (p ∷ [])) votes)
        (ground (arith, has_key-insert d d (voters (get d votes) ++ (p ∷ [])) votes)),
  )
]

-- When checksums differ, the vote has two of them at least: the arm marked unreachable is.
pub length-vote_map :
    (checksums : SortedMap ℕ)
    → differs_from none checksums ≡ true
    → 1 < length (vote_map [] checksums)
unfolding differs_from vote_map get
length-vote_map [] h = cc
length-vote_map ((p, c) ∷ checksums) h =
    let (d, ne, k) = vote_map_other c checksums (insert c (p ∷ []) []) h in
    two_keys c d (vote_map [] ((p, c) ∷ checksums)) ne
      (vote_map-has_key_old c checksums (insert c (p ∷ []) [])
        (ground (arith, has_key-insert c c (p ∷ []) [])))
      k
