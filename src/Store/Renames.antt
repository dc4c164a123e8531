-- ===== src/Store/Renames.antt =====
-- GateRename of internal/store/store.go: how many renames it lets through.
use ssh_farm.Prelude.{
  max_int64, map, add64_pos, ◌⊎◌, ℕ, ◌+◌, ◌≤◌, ◌≡◌, refl, ap, sym, subst, ◌∙◌, ◌<◌, ℤ, pos,
  pos_part, ◌≤ℤ◌, leb_ℤ, eqb_ℤ, add64, ◌+ℤ◌, +ℤ_parts, wrap_id, parts_apart, Bool, true, false, not,
  ◌&&◌, if◌then◌else◌, List, [], ◌∷◌, Bool-cases, inl, inr, arith, All,
}
use ssh_farm.Store.{
  RenameRow, RenameGate, rename_allowed, rename_locked, rename_rate_limited, refill, new_day, spend,
  gate_rename,
}

-- The rows that the server writes: counts within their limits.
abbrev pub IsCounted : RenameRow → Type 0
IsCounted r =
    (pos 0 ≤ℤ r.day_count)
    × (r.day_count ≤ℤ pos 60)
    × (pos 0 ≤ℤ r.burst_count)
    × (r.burst_count ≤ℤ pos 5)

unfoldable pub one_if_allowed : RenameGate → ℕ
one_if_allowed rename_allowed = 1
one_if_allowed rename_locked = 0
one_if_allowed rename_rate_limited = 0

-- Attempts at the given times, one after the other: how many are allowed, and the row after them.
unfoldable pub attempts : List ℤ → RenameRow → ℕ × RenameRow
attempts [] r = (0, r)
attempts (now ∷ times) r =
    let (gate, next) = gate_rename now r in
    let (n, last) = attempts times next in (one_if_allowed gate + n, last)

add64_one : (n : ℤ) → pos 0 ≤ℤ n → n ≤ℤ pos 60 → add64 n (pos 1) ≡ n +ℤ pos 1
unfolding add64
add64_one n h k = wrap_id (n +ℤ pos 1) (ground (arith, +ℤ_parts n (pos 1)))

-- What one attempt on the same day leaves: the counts within their limits, and the day's count up by
-- one exactly when it was allowed.
IsSpent : RenameRow → RenameGate × RenameRow → Type 0
IsSpent r (gate, next) =
    (next.day_start ≡ r.day_start)
    × IsCounted next
    × (pos_part next.day_count ≡ one_if_allowed gate + pos_part r.day_count)

refill-IsCounted :
    (now : ℤ) (r : RenameRow)
    → IsCounted r
    → IsCounted (refill now r)
      × ((refill now r).day_count ≡ r.day_count)
      × ((refill now r).day_start ≡ r.day_start)
unfolding refill
refill-IsCounted now r h =
    elim (Bool-cases (not (eqb_ℤ r.last_at (pos 0)) && leb_ℤ (add64 r.last_at (pos 60)) now)) [
      | inl e ↦ rw (e, if◌then◌else◌) ((h.0, h.1, omega arith, omega arith), refl, refl)
      | inr e ↦ rw (e, if◌then◌else◌) (h, refl, refl)
    ]

new_day-same :
    (now : ℤ) (r : RenameRow)
    → leb_ℤ (add64 r.day_start (pos 86400)) now ≡ false
    → new_day now r ≡ r
unfolding new_day
new_day-same now r e = rw (e, if◌then◌else◌) refl

new_day-over :
    (now : ℤ) (r : RenameRow)
    → leb_ℤ (add64 r.day_start (pos 86400)) now ≡ true
    → new_day now r ≡ record r { day_start = now; day_count = pos 0 }
unfolding new_day
new_day-over now r e = rw (e, if◌then◌else◌) refl

spend-IsCounted :
    (now : ℤ) (s : RenameRow)
    → IsCounted s
    → leb_ℤ (pos 5) s.burst_count ≡ false
    → leb_ℤ (pos 60) s.day_count ≡ false
    → IsCounted (spend now s) × (pos_part (spend now s).day_count ≡ 1 + pos_part s.day_count)
unfolding spend
spend-IsCounted now s h b d =
    let p = add64_one s.day_count h.0 h.1 in
    let q = add64_one s.burst_count h.2 (omega (arith, h.3)) in
    rw (p, q)
      (ground (arith, h, b, d, +ℤ_parts s.day_count (pos 1), +ℤ_parts s.burst_count (pos 1)))

spend_start : (now : ℤ) (s : RenameRow) → (spend now s).day_start ≡ s.day_start
unfolding spend
spend_start now s = refl

IsSpent-if :
    (r : RenameRow) (b : Bool) (x y : RenameGate × RenameRow)
    → IsSpent r x
    → (b ≡ false → IsSpent r y)
    → IsSpent r (if b then x else y)
IsSpent-if r true x y h k = h
IsSpent-if r false x y h k = k refl

refused-IsSpent :
    (r : RenameRow) (g : RenameGate) → IsCounted r → one_if_allowed g ≡ 0 → IsSpent r (g, r)
unfolding IsSpent
refused-IsSpent r g h e = (refl, h, rw (e) (omega arith))

gate_rename-IsSpent :
    (now : ℤ) (r : RenameRow)
    → IsCounted r
    → leb_ℤ (add64 r.day_start (pos 86400)) now ≡ false
    → IsSpent r (gate_rename now r)
unfolding gate_rename one_if_allowed IsSpent
gate_rename-IsSpent now r h e =
    IsSpent-if r r.locked (rename_locked, r) _ (refused-IsSpent r rename_locked h refl)
      (λ free.
        IsSpent-if r (leb_ℤ (pos 5) t.burst_count) (rename_rate_limited, r) _
          (refused-IsSpent r rename_rate_limited h refl)
          (λ burst.
            subst
              (λ u. IsSpent r (
                if leb_ℤ (pos 60) u.day_count
                then (rename_rate_limited, r)
                else (rename_allowed, spend now u)))
              (sym same)
              (IsSpent-if r (leb_ℤ (pos 60) t.day_count) (rename_rate_limited, r) _
                (refused-IsSpent r rename_rate_limited h refl) (spent burst))))
  where
    t : RenameRow
    t = refill now r

    refilled : IsCounted t × (t.day_count ≡ r.day_count) × (t.day_start ≡ r.day_start)
    refilled = refill-IsCounted now r h

    same : new_day now t ≡ t
    same = new_day-same now t (ap (λ x. leb_ℤ (add64 x (pos 86400)) now) refilled.2 ∙ e)

    spent :
        leb_ℤ (pos 5) t.burst_count ≡ false
        → leb_ℤ (pos 60) t.day_count ≡ false
        → IsSpent r (rename_allowed, spend now t)
    spent burst day =
        let (counted, more) = spend-IsCounted now t refilled.0 burst day in
        (spend_start now t ∙ refilled.2, counted, more ∙ ap (λ x. 1 + pos_part x) refilled.1)

-- While the day lasts that the row counts, no more are let through than what is left of 60.
attempts_same_day :
    (times : List ℤ) (r : RenameRow)
    → IsCounted r
    → All (λ now. leb_ℤ (add64 r.day_start (pos 86400)) now ≡ false) times
    → (attempts times r).0 + pos_part r.day_count ≤ 60
unfolding attempts IsSpent
attempts_same_day [] r h day = ground (arith, h, parts_apart r.day_count)
attempts_same_day (now ∷ times) r h day =
    let (start, counted, more) = gate_rename-IsSpent now r h day.0 in
    let rest =
      attempts_same_day times (gate_rename now r).1 counted
        (subst (λ x. All (λ at. leb_ℤ (add64 x (pos 86400)) at ≡ false) times) (sym start) day.1) in
    omega (arith, more, rest)

-- What the first attempt that is let through on a new day leaves: the day starts then, with one.
IsOpened : ℤ → RenameRow → RenameGate × RenameRow → Type 0
IsOpened now r (rename_allowed, next) =
    (next.day_start ≡ now) × IsCounted next × (pos_part next.day_count ≡ 1)
IsOpened now r (rename_locked, next) = next ≡ r
IsOpened now r (rename_rate_limited, next) = next ≡ r

IsOpened-if :
    (now : ℤ) (r : RenameRow) (b : Bool) (x y : RenameGate × RenameRow)
    → IsOpened now r x
    → (b ≡ false → IsOpened now r y)
    → IsOpened now r (if b then x else y)
IsOpened-if now r true x y h k = h
IsOpened-if now r false x y h k = k refl

gate_rename-IsOpened :
    (now : ℤ) (r : RenameRow)
    → IsCounted r
    → leb_ℤ (add64 r.day_start (pos 86400)) now ≡ true
    → IsOpened now r (gate_rename now r)
unfolding gate_rename IsOpened
gate_rename-IsOpened now r h e =
    IsOpened-if now r r.locked (rename_locked, r) _ refl
      (λ free.
        IsOpened-if now r (leb_ℤ (pos 5) t.burst_count) (rename_rate_limited, r) _ refl
          (λ burst.
            subst
              (λ u. IsOpened now r (
                if leb_ℤ (pos 60) u.day_count
                then (rename_rate_limited, r)
                else (rename_allowed, spend now u)))
              (sym rolled) (opened burst)))
  where
    t : RenameRow
    t = refill now r

    refilled : IsCounted t × (t.day_count ≡ r.day_count) × (t.day_start ≡ r.day_start)
    refilled = refill-IsCounted now r h

    day : RenameRow
    day = record t { day_start = now; day_count = pos 0 }

    rolled : new_day now t ≡ day
    rolled = new_day-over now t (ap (λ x. leb_ℤ (add64 x (pos 86400)) now) refilled.2 ∙ e)

    day-IsCounted : IsCounted day
    day-IsCounted = (omega arith, omega arith, refilled.0.2, refilled.0.3)

    opened : leb_ℤ (pos 5) t.burst_count ≡ false → IsOpened now r (rename_allowed, spend now day)
    opened burst =
        let (counted, more) = spend-IsCounted now day day-IsCounted burst refl in
        (spend_start now day, counted, more)

-- Rising times from the first on, and all of them less than a day after it.
abbrev pub IsRising : ℕ → List ℕ → Type 0
IsRising from [] = Unit
IsRising from (now ∷ times) = (from ≤ now) × IsRising now times

abbrev pub IsWithinDay : ℕ → List ℕ → Type 0
IsWithinDay first times = All (λ now. now < first + 86400) times

-- Once a day has started within the stretch, it lasts for the rest of it.
same_day :
    (first start : ℕ) (times : List ℕ)
    → first ≤ start
    → start + 86400 ≤ max_int64
    → IsWithinDay first times
    → All (λ now. leb_ℤ (add64 (pos start) (pos 86400)) now ≡ false) (map pos times)
same_day first start [] h m w = tt
same_day first start (now ∷ times) h m w =
    (rw (add64_pos start 86400 m) (ground (arith, h, w.0)), same_day first start times h m w.1)

still_over :
    (n : ℤ) (from now : ℕ) → from ≤ now → leb_ℤ n (pos from) ≡ true → leb_ℤ n (pos now) ≡ true
still_over n from now h e = ground arith

module _ (first : ℕ) (clock : first + 172800 ≤ max_int64) where
  -- After an attempt on a new day: refused, the row is as it was, and the rest counts as for it.
  after_opening :
      (now : ℕ) (times : List ℕ) (r : RenameRow) (g : RenameGate × RenameRow)
      → first ≤ now
      → IsWithinDay first (now ∷ times)
      → (attempts (map pos times) r).0 ≤ 60
      → IsOpened (pos now) r g
      → one_if_allowed g.0 + (attempts (map pos times) g.1).0 ≤ 60
  unfolding IsOpened one_if_allowed
  after_opening now times r (rename_locked, s) b within rest e =
      subst (λ x. 0 + (attempts (map pos times) x).0 ≤ 60) (sym e) (omega (arith, rest))
  after_opening now times r (rename_rate_limited, s) b within rest e =
      subst (λ x. 0 + (attempts (map pos times) x).0 ≤ 60) (sym e) (omega (arith, rest))
  after_opening now times r (rename_allowed, s) b within rest (start, counted, one) =
      let more = attempts_same_day (map pos times) s counted (
        subst (λ x. All (λ at. leb_ℤ (add64 x (pos 86400)) at ≡ false) (map pos times)) (sym start)
          (same_day first now times b (omega (arith, within.0, clock)) within.1)) in
      omega (arith, more, one)

  -- A day that is over starts anew at most once.
  attempts_new_day :
      (times : List ℕ) (from : ℕ) (r : RenameRow)
      → IsCounted r
      → first ≤ from
      → IsRising from times
      → IsWithinDay first times
      → leb_ℤ (add64 r.day_start (pos 86400)) (pos from) ≡ true
      → (attempts (map pos times) r).0 ≤ 60
  unfolding attempts
  attempts_new_day [] from r h b rising within over = omega arith
  attempts_new_day (now ∷ times) from r h b rising within over =
      let late = still_over (add64 r.day_start (pos 86400)) from now rising.0 over in
      let later : first ≤ now = omega (arith, b, rising.0) in
      after_opening now times r (gate_rename (pos now) r) later within
        (attempts_new_day times now r h later rising.1 within.1 late)
        (gate_rename-IsOpened (pos now) r h late)

  attempts_two_days :
      (times : List ℕ) (from : ℕ) (r : RenameRow)
      → IsCounted r
      → first ≤ from
      → IsRising from times
      → IsWithinDay first times
      → (attempts (map pos times) r).0 + pos_part r.day_count ≤ 120
  unfolding attempts IsSpent
  attempts_two_days [] from r h b rising within = ground (arith, h, parts_apart r.day_count)
  attempts_two_days (now ∷ times) from r h b rising within =
      elim (Bool-cases (leb_ℤ (add64 r.day_start (pos 86400)) (pos now))) [
        | inl over ↦
            let n =
              attempts_new_day (now ∷ times) now r h (omega (arith, b, rising.0))
                (omega arith, rising.1) within over in
            ground (arith, n, h, parts_apart r.day_count)
        | inr same ↦
            let (start, counted, more) = gate_rename-IsSpent (pos now) r h same in
            let rest =
              attempts_two_days times now (gate_rename (pos now) r).1 counted
                (omega (arith, b, rising.0)) rising.1 within.1 in
            omega (arith, more, rest)
      ]

-- On a row whose counts are within their limits, with a clock that stays two days below
-- math.MaxInt64: attempts at rising times from the epoch on, within less than a day of the first. The
-- row's day may end among them, and the next one starts at the first attempt that is then let through.
-- Together with those that the row counts no more than 120 are let through, 60 on each of two days;
-- and no more than 60 if the row's day is over at the first.
pub attempts_per_day :
    (first : ℕ) (times : List ℕ) (r : RenameRow)
    → IsCounted r
    → IsRising first times
    → IsWithinDay first times
    → first + 172800 ≤ max_int64
    → ((attempts (map pos times) r).0 + pos_part r.day_count ≤ 120)
      × ((leb_ℤ (add64 r.day_start (pos 86400)) (pos first) ≡ false)
          ⊎ ((attempts (map pos times) r).0 ≤ 60))
attempts_per_day first times r h rising within clock = (
  attempts_two_days first clock times first r h (omega arith) rising within,
  elim (Bool-cases (leb_ℤ (add64 r.day_start (pos 86400)) (pos first))) [
    | inl over ↦ inr (attempts_new_day first clock times first r h (omega arith) rising within over)
    | inr same ↦ inl same
  ],
)
