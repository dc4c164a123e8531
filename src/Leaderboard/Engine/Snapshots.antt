-- ===== src/Leaderboard/Engine/Snapshots.antt =====
-- Concurrent callers of Engine.Get of internal/leaderboard/engine.go: one rebuild at a time, and
-- a cache that is the last good read of the source.
use ssh_farm.Prelude.{
  ℕ, suc, ◌≡◌, refl, ap, sym, subst, ℤ, ltb_ℤ, true, false, if◌then◌else◌, List, [], ◌∷◌, Option,
  none, some, ◌⊎◌, inl, inr, Bool, Bool-cases, Option-cases, arith,
}
use ssh_farm.Leaderboard.Ranking.{LeaderboardRow, RankedRow, Moderator, Settings, rebuilt}
use ssh_farm.Leaderboard.Engine.{
  Engine, Entry, cached, waits, builds, new_engine, is_fresh, time_sub, enter_idle, enter, rebuild,
  finish,
}

-- What a rebuild read: the rows of the source, none for an error, the unix time of the filter, and the
-- time at which the rebuild ended.
pub record Read : Type 0 where
  pub source : Option (List LeaderboardRow)
  pub now : ℤ
  pub at : ℤ

-- An engine with the number of calls that are rebuilding and of those that wait for the running
-- rebuild, and what the rebuilds that have ended read, the last one first.
pub record System : Type 0 where
  pub engine : Engine
  pub rebuilding : ℕ
  pub waiting : ℕ
  pub reads : List Read

-- A call enters at some time and is answered from the cache, waits, or starts a rebuild; a rebuild
-- ends with what the source returned, and those who wait for it go on.
pub data Step (c : Settings) (m : Moderator) : System → System → Type 0 where
  hit :
      (s : System) (now at : ℤ) (rows : List RankedRow) (e : Engine)
      → enter c now s.engine ≡ (cached rows at, e)
      → Step c m s (record s { engine = e })
  join :
      (s : System) (now : ℤ) (e : Engine)
      → enter c now s.engine ≡ (waits, e)
      → Step c m s (record s { engine = e; waiting = suc s.waiting })
  start :
      (s : System) (now : ℤ) (e : Engine)
      → enter c now s.engine ≡ (builds, e)
      → Step c m s (record s { engine = e; rebuilding = suc s.rebuilding })
  complete :
      (s : System) (n : ℕ) (r : Read)
      → s.rebuilding ≡ suc n
      → Step c m s (record {
        engine = finish (rebuild c m r.now r.source) r.at s.engine;
        rebuilding = n;
        waiting = 0;
        reads = r ∷ s.reads;
      })

pub data Reached (c : Settings) (m : Moderator) : System → Type 0 where
  fresh :
      (zero_time : ℤ)
      → Reached c m
          (record { engine = new_engine zero_time; rebuilding = 0; waiting = 0; reads = [] })
  after : {s t : System} → Reached c m s → Step c m s t → Reached c m t

-- The cache against the reads, the last one first: it holds what the last successful read gives, with
-- its time; a failed read leaves it, and before any success there is none.
unfoldable pub IsLastGood : Settings → Moderator → List Read → Engine → Type 0
IsLastGood c m [] e = e.ranked ≡ none
IsLastGood c m (r ∷ reads) e = elim r.source [
  | none ↦ IsLastGood c m reads e
  | some rows ↦ (e.ranked ≡ some (rebuilt c m r.now rows)) × (e.built_at ≡ r.at)
]

-- No rebuild runs and nobody waits for one, or exactly one runs.
abbrev pub IsSingleFlight : System → Type 0
IsSingleFlight s =
    ((s.engine.building ≡ false) × (s.rebuilding ≡ 0) × (s.waiting ≡ 0))
    ⊎ ((s.engine.building ≡ true) × (s.rebuilding ≡ 1))

abbrev pub IsConsistent : Settings → Moderator → System → Type 0
IsConsistent c m s = IsSingleFlight s × IsLastGood c m s.reads s.engine

-- What a caller finds when it has the mutex.
IsEntered : Settings → ℤ → Engine → Entry × Engine → Type 0
IsEntered c now e (cached rows at, f) =
    (f ≡ e)
    × (e.building ≡ false)
    × (e.ranked ≡ some rows)
    × (at ≡ e.built_at)
    × (ltb_ℤ (time_sub now at) c.ttl ≡ true)
IsEntered c now e (waits, f) = (f ≡ e) × (e.building ≡ true)
IsEntered c now e (builds, f) = (e.building ≡ false) × (f ≡ record e { building = true })

enter_idle-IsEntered :
    (c : Settings) (now : ℤ) (e : Engine) (o : Option (List RankedRow))
    → e.building ≡ false
    → e.ranked ≡ o
    → IsEntered c now e (enter_idle (is_fresh c now e) o e)
unfolding enter_idle IsEntered is_fresh
enter_idle-IsEntered c now e none b h = (b, refl)
enter_idle-IsEntered c now e (some rows) b h =
    elim (Bool-cases (ltb_ℤ (time_sub now e.built_at) c.ttl)) [
      | inl d ↦ rw (d, enter_idle) (refl, b, h, refl, d)
      | inr d ↦ rw (d, enter_idle) (b, refl)
    ]

enter-IsEntered : (c : Settings) (now : ℤ) (e : Engine) → IsEntered c now e (enter c now e)
unfolding enter IsEntered
enter-IsEntered c now e = elim (Bool-cases e.building) [
  | inl b ↦
      subst
        (λ x.
          IsEntered c now e (if x then (waits, e) else enter_idle (is_fresh c now e) e.ranked e))
        (sym b) (refl, b)
  | inr b ↦
      subst
        (λ x.
          IsEntered c now e (if x then (waits, e) else enter_idle (is_fresh c now e) e.ranked e))
        (sym b) (enter_idle-IsEntered c now e e.ranked b refl)
]

-- Only the cached rows and their time matter.
moved-IsLastGood :
    (c : Settings) (m : Moderator) (reads : List Read) (e : Engine) (building : Bool)
    → IsLastGood c m reads e
    → IsLastGood c m reads (record e { building = building })
unfolding IsLastGood
moved-IsLastGood c m [] e b h = h
moved-IsLastGood c m (r ∷ reads) e b h = elim (Option-cases r.source) [
  | inl d ↦ rw (d) (moved-IsLastGood c m reads e b (rw (d) at h))
  | inr (rows, d) ↦ rw (d) (rw (d) at h)
]

read-IsLastGood :
    (c : Settings) (m : Moderator) (reads : List Read) (source : Option (List LeaderboardRow))
    → (now at : ℤ) (e : Engine) → IsLastGood c m reads e
    → IsLastGood c m
        (record { source = source; now = now; at = at } ∷ reads)
        (finish (rebuild c m now source) at e)
unfolding IsLastGood rebuild finish
read-IsLastGood c m reads none now at e h = moved-IsLastGood c m reads e false h
read-IsLastGood c m reads (some rows) now at e h = (refl, refl)

finish_idle : (o : Option (List RankedRow)) (at : ℤ) (e : Engine) → (finish o at e).building ≡ false
unfolding finish
finish_idle none at e = refl
finish_idle (some rows) at e = refl

alone : (s : System) (n : ℕ) → IsSingleFlight s → s.rebuilding ≡ suc n → n ≡ 0
alone s n (inl (b, z, w)) e = omega (arith, z, e)
alone s n (inr (b, z)) e = omega (arith, z, e)

idle_single : (s : System) → IsSingleFlight s → s.engine.building ≡ false → s.rebuilding ≡ 0
idle_single s (inl (b, z, w)) e = z
idle_single s (inr (b, z)) e = cc (b, e)

busy_single : (s : System) → IsSingleFlight s → s.engine.building ≡ true → s.rebuilding ≡ 1
busy_single s (inl (b, z, w)) e = cc (b, e)
busy_single s (inr (b, z)) e = z

Step-IsConsistent :
    (c : Settings) (m : Moderator) {s t : System}
    → Step c m s t
    → IsConsistent c m s
    → IsConsistent c m t
unfolding IsEntered
Step-IsConsistent c m (hit s now at rows e d) (flight, snap) =
    let (same, idle, kept, time, young) =
      subst (IsEntered c now s.engine) d (enter-IsEntered c now s.engine) in
    subst (λ x. IsConsistent c m (record s { engine = x })) (sym same) (flight, snap)
Step-IsConsistent c m (join s now e d) (flight, snap) =
    let (same, busy) = subst (IsEntered c now s.engine) d (enter-IsEntered c now s.engine) in
    subst (λ x. IsConsistent c m (record s { engine = x; waiting = suc s.waiting })) (sym same)
      (inr (busy, busy_single s flight busy), snap)
Step-IsConsistent c m (start s now e d) (flight, snap) =
    let (idle, same) = subst (IsEntered c now s.engine) d (enter-IsEntered c now s.engine) in
    subst (λ x. IsConsistent c m (record s { engine = x; rebuilding = suc s.rebuilding }))
      (sym same)
      (
        inr (refl, ap suc (idle_single s flight idle)),
        moved-IsLastGood c m s.reads s.engine true snap,
      )
Step-IsConsistent c m (complete s n r e) (flight, snap) = (
  inl (finish_idle (rebuild c m r.now r.source) r.at s.engine, alone s n flight e, refl),
  read-IsLastGood c m s.reads r.source r.now r.at s.engine snap,
)

-- In every state that concurrent callers reach, either no rebuild runs and nobody waits for one, or
-- exactly one runs; and the cache holds what the last rebuild that could read the source made of it,
-- with the time at which it ended: a rebuild that fails leaves it, and before any success there is no
-- snapshot.
pub Reached-IsConsistent :
    (c : Settings) (m : Moderator) {s : System} → Reached c m s → IsConsistent c m s
unfolding IsLastGood
Reached-IsConsistent c m (fresh t) = (inl (refl, refl, refl), refl)
Reached-IsConsistent c m (after r st) = Step-IsConsistent c m st (Reached-IsConsistent c m r)

-- A caller that is answered from the cache gets the cached rows with the time of their rebuild, which
-- is less than the ttl ago, while no rebuild runs, and leaves the engine as it was.
pub enter_cached :
    (c : Settings) (now at : ℤ) (rows : List RankedRow) (e f : Engine)
    → enter c now e ≡ (cached rows at, f)
    → (f ≡ e)
      × (e.building ≡ false)
      × (e.ranked ≡ some rows)
      × (at ≡ e.built_at)
      × (ltb_ℤ (time_sub now at) c.ttl ≡ true)
unfolding IsEntered
enter_cached c now at rows e f d = subst (IsEntered c now e) d (enter-IsEntered c now e)
