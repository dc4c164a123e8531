-- ===== src/Leaderboard/Boards/Viewer.antt =====
-- Which row of internal/leaderboard/engine.go's board is the viewer's.
use ssh_farm.Prelude.{
  ℕ, suc, ◌+◌, ◌≡◌, refl, ap, sym, subst, ◌∙◌, true, false, if◌then◌else◌, List, [], ◌∷◌, Option,
  none, some, length, get_elem?, get_elem?-take, get_elem?-drop, take, drop, All, All-split, ◌⊎◌,
  inl, inr, Bool-cases, arith,
}
use ssh_farm.Leaderboard.Ranking.{RankedRow}
use ssh_farm.Leaderboard.Boards.{SaveRef, is_you, top_count, last_you, first_you, you_index}

-- The row at an index is the viewer's.
abbrev pub IsYouAt : SaveRef → List RankedRow → ℕ → Type 0
IsYouAt you rows i = (r : RankedRow) × (get_elem? rows i ≡ some r) × (is_you r you ≡ true)

abbrev pub IsNotYou : SaveRef → RankedRow → Type 0
IsNotYou you r = is_you r you ≡ false

-- What a search from index i on returns: an index of the viewer's row, or that there is none.
IsFound : SaveRef → ℕ → List RankedRow → Option ℕ → Type 0
IsFound you i rows none = All (IsNotYou you) rows
IsFound you i rows (some k) = (j : ℕ) × (k ≡ i + j) × IsYouAt you rows j

IsFound-later :
    (you : SaveRef) (i : ℕ) (r : RankedRow) (rows : List RankedRow) (o : Option ℕ)
    → is_you r you ≡ false
    → IsFound you (suc i) rows o
    → IsFound you i (r ∷ rows) o
unfolding IsFound
IsFound-later you i r rows none e h = (e, h)
IsFound-later you i r rows (some k) e (j, d, h) = (suc j, omega (arith, d), h)

first_you-IsFound :
    (you : SaveRef) (i : ℕ) (rows : List RankedRow) → IsFound you i rows (first_you you i rows)
unfolding first_you IsFound
first_you-IsFound you i [] = tt
first_you-IsFound you i (r ∷ rows) = elim (Bool-cases (is_you r you)) [
  | inl e ↦ rw (first_you, e) (0, omega arith, (r, refl, e))
  | inr e ↦
      rw (first_you, e)
        (IsFound-later you i r rows (first_you you (suc i) rows) e
          (first_you-IsFound you (suc i) rows))
]

-- What the search of the top rows returns, which starts from an index found before.
IsLast : SaveRef → ℕ → Option ℕ → List RankedRow → Option ℕ → Type 0
IsLast you i found rows o =
    ((o ≡ found) × All (IsNotYou you) rows)
    ⊎ ((k : ℕ) × (j : ℕ) × (o ≡ some k) × (k ≡ i + j) × IsYouAt you rows j)

IsLast-skip :
    (you : SaveRef) (i : ℕ) (found : Option ℕ) (r : RankedRow) (rows : List RankedRow)
    → (o : Option ℕ) → is_you r you ≡ false
    → IsLast you (suc i) found rows o
    → IsLast you i found (r ∷ rows) o
unfolding IsLast
IsLast-skip you i found r rows o e (inl (d, h)) = inl (d, (e, h))
IsLast-skip you i found r rows o e (inr (k, j, d, q, h)) = inr (k, suc j, d, omega (arith, q), h)

IsLast-match :
    (you : SaveRef) (i : ℕ) (found : Option ℕ) (r : RankedRow) (rows : List RankedRow)
    → (o : Option ℕ) → is_you r you ≡ true
    → IsLast you (suc i) (some i) rows o
    → IsLast you i found (r ∷ rows) o
unfolding IsLast
IsLast-match you i found r rows o e (inl (d, h)) = inr (i, 0, d, omega arith, (r, refl, e))
IsLast-match you i found r rows o e (inr (k, j, d, q, h)) = inr (k, suc j, d, omega (arith, q), h)

last_you-IsLast :
    (you : SaveRef) (i : ℕ) (found : Option ℕ) (rows : List RankedRow)
    → IsLast you i found rows (last_you you i found rows)
unfolding last_you IsLast
last_you-IsLast you i found [] = inl (refl, tt)
last_you-IsLast you i found (r ∷ rows) = elim (Bool-cases (is_you r you)) [
  | inl e ↦
      subst
        (λ b.
          IsLast you i found (r ∷ rows) (last_you you (suc i) (if b then some i else found) rows))
        (sym e)
        (IsLast-match you i found r rows (last_you you (suc i) (some i) rows) e
          (last_you-IsLast you (suc i) (some i) rows))
  | inr e ↦
      subst
        (λ b.
          IsLast you i found (r ∷ rows) (last_you you (suc i) (if b then some i else found) rows))
        (sym e)
        (IsLast-skip you i found r rows (last_you you (suc i) found rows) e
          (last_you-IsLast you (suc i) found rows))
]

-- The index that the board takes for the viewer's, or none when no row is the viewer's.
abbrev pub IsIndex : SaveRef → List RankedRow → Option ℕ → Type 0
IsIndex you rows none = All (IsNotYou you) rows
IsIndex you rows (some i) = IsYouAt you rows i

IsIndex-rest :
    (you : SaveRef) (n : ℕ) (rows : List RankedRow) (o : Option ℕ)
    → All (IsNotYou you) (take n rows)
    → IsFound you n (drop n rows) o
    → IsIndex you rows o
unfolding IsFound
IsIndex-rest you n rows none h k = All-split (IsNotYou you) n rows h k
IsIndex-rest you n rows (some i) h (j, e, (r, d, y)) =
    (r, ap (get_elem? rows) e ∙ (sym (get_elem?-drop n rows j) ∙ d), y)

at_start : (k j : ℕ) → k ≡ 0 + j → k ≡ j
at_start k j e = omega (arith, e)

pub you_index-IsIndex :
    (you : SaveRef) (rows : List RankedRow) → IsIndex you rows (you_index you rows)
unfolding you_index IsLast
you_index-IsIndex you rows = from_top (last_you-IsLast you 0 none (take n rows))
  where
    n : ℕ
    n = top_count (length rows)

    from_top :
        IsLast you 0 none (take n rows) (last_you you 0 none (take n rows))
        → IsIndex you rows (you_index you rows)
    from_top (inl (e, h)) =
        rw (you_index, e)
          (IsIndex-rest you n rows (first_you you n (drop n rows)) h
            (first_you-IsFound you n (drop n rows)))
    from_top (inr (k, j, e, q, (r, d, y))) =
        rw (you_index, e) (r, ap (get_elem? rows) (at_start k j q) ∙ get_elem?-take n rows j d, y)
