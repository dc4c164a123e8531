-- ===== src/Leaderboard/Ranking/Competition.antt =====
-- The rank of internal/leaderboard/engine.go against its definition: one more than the number of
-- farms with strictly more coins.
use ssh_farm.Prelude.{
  ℕ, suc, ◌+◌, ◌≡◌, refl, ℤ, ltb_ℤ, ◌≤ℤ◌, true, if◌then◌else◌, List, [], ◌∷◌, Option, none, some,
  All, length, inl, inr, eq_of_parts, Bool-cases, arith,
}
use ssh_farm.Leaderboard.Ranking.{
  LeaderboardRow, RankedRow, Moderator, Settings, Counts, is_skipped, filtered, falls_below,
  next_rank, ranked_row, rank_from, rank_rows, count_names, no_names, rebuilt,
}

-- The number of rows with strictly more than the given coins.
unfoldable pub richer : ℤ → List LeaderboardRow → ℕ
richer c [] = 0
richer c (r ∷ rows) = (if ltb_ℤ c r.coins then 1 else 0) + richer c rows

abbrev pub IsAtMost : ℤ → LeaderboardRow → Type 0
IsAtMost c r = r.coins ≤ℤ c

abbrev pub IsAtLeast : ℤ → LeaderboardRow → Type 0
IsAtLeast c r = c ≤ℤ r.coins

-- Sorted by falling coins, as Store.LeaderboardSnapshot returns the rows.
abbrev pub IsFalling : List LeaderboardRow → Type 0
IsFalling [] = Unit
IsFalling (r ∷ rows) = All (IsAtMost r.coins) rows × IsFalling rows

filtered-All :
    (c : Settings) (now : ℤ) (P : LeaderboardRow → Type 0) (rows : List LeaderboardRow)
    → All P rows
    → All P (filtered c now rows)
unfolding filtered
filtered-All c now P [] h = tt
filtered-All c now P (r ∷ rows) h = elim (Bool-cases (is_skipped c now r)) [
  | inl e ↦ rw (e, filtered) (filtered-All c now P rows h.1)
  | inr e ↦ rw (e, filtered) (h.0, filtered-All c now P rows h.1)
]

filtered-IsFalling :
    (c : Settings) (now : ℤ) (rows : List LeaderboardRow)
    → IsFalling rows
    → IsFalling (filtered c now rows)
unfolding filtered
filtered-IsFalling c now [] h = tt
filtered-IsFalling c now (r ∷ rows) h = elim (Bool-cases (is_skipped c now r)) [
  | inl e ↦ rw (e, filtered) (filtered-IsFalling c now rows h.1)
  | inr e ↦
      rw (e, filtered)
        (filtered-All c now (IsAtMost r.coins) rows h.0, filtered-IsFalling c now rows h.1)
]

richer_none : (c : ℤ) (rows : List LeaderboardRow) → All (IsAtMost c) rows → richer c rows ≡ 0
unfolding richer
richer_none c [] h = refl
richer_none c (r ∷ rows) h = ground (arith, h, richer_none c rows h.1)

richer-All :
    (c : ℤ) (d : ℤ) (rows : List LeaderboardRow)
    → All (IsAtLeast d) rows
    → ltb_ℤ c d ≡ true
    → richer c rows ≡ length rows
unfolding richer
richer-All c d [] h e = refl
richer-All c d (r ∷ rows) h e = ground (arith, h, e, richer-All c d rows h.1 e)

All-weaken :
    (c d : ℤ) (rows : List LeaderboardRow)
    → c ≤ℤ d
    → All (IsAtLeast d) rows
    → All (IsAtLeast c) rows
All-weaken c d [] h k = tt
All-weaken c d (r ∷ rows) h k = (omega (arith, k.0), All-weaken c d rows h k.1)

-- The loop's state after the rows `done`: the row before has the least coins of them.
IsRanked : List LeaderboardRow → Option LeaderboardRow → ℕ → Type 0
IsRanked done none rank = (done ≡ []) × (rank ≡ 1)
IsRanked done (some p) rank = All (IsAtLeast p.coins) done × (rank ≡ 1 + richer p.coins done)

-- The next row has at most the coins of the row before.
IsNext : Option LeaderboardRow → LeaderboardRow → Type 0
IsNext none r = Unit
IsNext (some p) r = IsAtMost p.coins r

next_rank-richer :
    (done : List LeaderboardRow) (before : Option LeaderboardRow) (rank : ℕ) (r : LeaderboardRow)
    → IsRanked done before rank
    → IsNext before r
    → next_rank (length done) before rank r ≡ 1 + richer r.coins done
unfolding IsRanked IsNext next_rank falls_below richer
next_rank-richer done none rank r (e, h) k = rw (e, h) refl
next_rank-richer done (some p) rank r (h, e) k = elim (Bool-cases (ltb_ℤ r.coins p.coins)) [
  | inl d ↦ rw (d, if◌then◌else◌, richer-All r.coins p.coins done h d) (omega arith)
  | inr d ↦ rw (d, if◌then◌else◌, e, eq_of_parts r.coins p.coins (ground (arith, k, d))) refl
]

IsAtLeast-next :
    (done : List LeaderboardRow) (before : Option LeaderboardRow) (rank : ℕ) (r : LeaderboardRow)
    → IsRanked done before rank
    → IsNext before r
    → All (IsAtLeast r.coins) done
unfolding IsRanked IsNext
IsAtLeast-next done none rank r (e, h) k = rw (e) tt
IsAtLeast-next done (some p) rank r (h, e) k = All-weaken r.coins p.coins done k h

richer_self :
    (r : LeaderboardRow) (rows : List LeaderboardRow)
    → richer r.coins (r ∷ rows) ≡ richer r.coins rows
unfolding richer
richer_self r rows = ground arith

IsRanked-next :
    (done : List LeaderboardRow) (before : Option LeaderboardRow) (rank : ℕ) (r : LeaderboardRow)
    → IsRanked done before rank
    → IsNext before r
    → IsRanked (r ∷ done) (some r) (next_rank (length done) before rank r)
unfolding IsRanked
IsRanked-next done before rank r h k = (
  (omega arith, IsAtLeast-next done before rank r h k),
  rw (richer_self r done) (next_rank-richer done before rank r h k),
)

-- The rank of a row among the rows that are ranked already and those that are still to come.
abbrev HasRank : List LeaderboardRow → List LeaderboardRow → RankedRow → Type 0
HasRank done rows x = x.rank ≡ 1 + (richer x.row.coins done + richer x.row.coins rows)

HasRank-shift :
    (r : LeaderboardRow) (done rows : List LeaderboardRow) (xs : List RankedRow)
    → All (HasRank (r ∷ done) rows) xs
    → All (HasRank done (r ∷ rows)) xs
unfolding richer
HasRank-shift r done rows [] h = tt
HasRank-shift r done rows (x ∷ xs) h = (omega (arith, h.0), HasRank-shift r done rows xs h.1)

IsBelow : Option LeaderboardRow → List LeaderboardRow → Type 0
IsBelow none rows = Unit
IsBelow (some p) rows = All (IsAtMost p.coins) rows

IsBelow-IsNext :
    (before : Option LeaderboardRow) (r : LeaderboardRow) (rows : List LeaderboardRow)
    → IsBelow before (r ∷ rows)
    → IsNext before r
unfolding IsBelow IsNext
IsBelow-IsNext none r rows h = tt
IsBelow-IsNext (some p) r rows h = h.0

rank_from-ranked :
    (m : Moderator) (counts : Counts) (done : List LeaderboardRow) (before : Option LeaderboardRow)
    → (rank : ℕ) (rows : List LeaderboardRow) → IsRanked done before rank
    → IsBelow before rows
    → IsFalling rows
    → All (HasRank done rows) (rank_from m counts (length done) before rank rows)
unfolding rank_from ranked_row IsBelow
rank_from-ranked m counts done before rank [] h b f = tt
rank_from-ranked m counts done before rank (r ∷ rows) h b f = (
  rw (next_rank-richer done before rank r h next, richer_self r rows, richer_none r.coins rows f.0)
      (omega arith),
  HasRank-shift r done rows later (
      rank_from-ranked m counts (r ∷ done) (some r) new_rank rows
        (IsRanked-next done before rank r h next) f.0 f.1),
)
  where
    next : IsNext before r
    next = IsBelow-IsNext before r rows b

    new_rank : ℕ
    new_rank = next_rank (length done) before rank r

    later : List RankedRow
    later = rank_from m counts (suc (length done)) (some r) new_rank rows

-- The rank of a farm: one more than the number of rows with strictly more coins.
abbrev pub IsCompetitionRank : List LeaderboardRow → RankedRow → Type 0
IsCompetitionRank rows x = x.rank ≡ 1 + richer x.row.coins rows

HasRank-start :
    (rows : List LeaderboardRow) (xs : List RankedRow)
    → All (HasRank [] rows) xs
    → All (IsCompetitionRank rows) xs
unfolding richer
HasRank-start rows [] h = tt
HasRank-start rows (x ∷ xs) h = (omega (arith, h.0), HasRank-start rows xs h.1)

-- On rows sorted by falling coins every rank that a rebuild assigns is one more than the number of
-- kept rows with strictly more coins: ties share a rank and the next amount skips as many.
pub rebuilt-IsCompetitionRank :
    (c : Settings) (m : Moderator) (now : ℤ) (rows : List LeaderboardRow)
    → IsFalling rows
    → All (IsCompetitionRank (filtered c now rows)) (rebuilt c m now rows)
unfolding rebuilt rank_rows richer IsRanked IsBelow
rebuilt-IsCompetitionRank c m now rows h = HasRank-start kept (rebuilt c m now rows) (
    rank_from-ranked m (count_names m kept no_names) [] none 1 kept (refl, refl) tt
      (filtered-IsFalling c now rows h))
  where
    kept : List LeaderboardRow
    kept = filtered c now rows
