-- ===== src/Moderation/Filter/Boot.antt =====
-- Init and Reload of internal/moderation/denylist.go: a process that requires moderation serves with
-- a list from its file, or not at all.
use ssh_farm.Prelude.{
  ℕ, ◌≡◌, ◌≢◌, refl, ap, sym, subst, ◌∙◌, Bool, true, false, if◌then◌else◌, List, [], ◌∷◌, Option,
  none, some, String, str_eq, ◌⊎◌, inl, inr, Bool-cases, Sum-cases, Option-cases,
}
use ssh_farm.Moderation.Text.{Text}
use ssh_farm.Moderation.Denylist.{Denylist, Term, new_denylist}
use ssh_farm.Moderation.Filter.{
  Files, LoadError, nothing_to_reload, Process, unloaded, build, parse_denylist, load_denylist_file,
  start_with, init, swap, reload_from, reload, loaded,
}

-- The result of a load, without its error.
unfoldable pub listed {ℓ} : {E : Type ℓ} → E ⊎ Denylist → Option Denylist
listed (inl e) = none
listed (inr dl) = some dl

unfoldable pub read_list : (ℕ → ℕ) → Option (List Term × List Text) → Option Denylist
read_list lower none = none
read_list lower (some (terms, allow)) = listed (new_denylist lower terms allow)

-- What the file at a path holds: nothing if it cannot be read or unmarshalled or is no list.
unfoldable pub held : Files → String → Option Denylist
held f path = elim (f.read_file path) [ none ↦ none | some b ↦ read_list f.lower (f.unmarshal b) ]

unfoldable pub prefer : Option Denylist → Option Denylist → Option Denylist
prefer none earlier = earlier
prefer (some dl) earlier = some dl

-- The list of the last time that the file held one, the last time first.
unfoldable pub last_good : String → List Files → Option Denylist
last_good path [] = none
last_good path (f ∷ fs) = prefer (held f path) (last_good path fs)

-- What a process may do: Init once, and then reload its list and read it, while the files change. The
-- files are those that Init and each reload found, the last first.
pub data Serving (require : Bool) (path : String) : List Files → Process → Type 1 where
  booted :
      (f : Files) {p : Process}
      → init f path require unloaded ≡ (none, p)
      → Serving require path (f ∷ []) p
  reloaded :
      (f : Files) {fs : List Files} {p q : Process} (e : Option LoadError)
      → Serving require path fs p
      → reload f p ≡ (e, q)
      → Serving require path (f ∷ fs) q
  lists :
      (f : Files) {fs : List Files} {p q : Process} (dl : Option Denylist)
      → Serving require path fs p
      → loaded f p ≡ (dl, q)
      → Serving require path fs q

-- The list in force is that of the last time that the file at the process's path held one.
abbrev pub IsModerated : String → List Files → Process → Type 0
IsModerated path fs p =
    (p.dev_mode ≡ false)
    × (str_eq path "" ≡ false)
    × (p.source_path ≡ some path)
    × ((dl : Denylist) × (p.current ≡ some dl) × (last_good path fs ≡ some dl))

listed-build :
    (lower : ℕ → ℕ) (o : Option (List Term × List Text))
    → listed (build lower o) ≡ read_list lower o
unfolding listed build read_list
listed-build lower none = refl
listed-build lower (some (terms, allow)) = elim (Sum-cases (new_denylist lower terms allow)) [
  | inl (e, d) ↦ rw (d, build, read_list, listed) refl
  | inr (dl, d) ↦ rw (d, build, read_list, listed) refl
]

listed-load : (f : Files) (path : String) → listed (load_denylist_file f path) ≡ held f path
unfolding load_denylist_file parse_denylist held listed
listed-load f path = elim (Option-cases (f.read_file path)) [
  | inl d ↦ rw (d, load_denylist_file, held, listed) refl
  | inr (b, d) ↦ rw (d, load_denylist_file, held) (listed-build f.lower (f.unmarshal b))
]

last_good-new :
    (f : Files) (fs : List Files) (path : String) (dl : Denylist)
    → load_denylist_file f path ≡ inr dl
    → last_good path (f ∷ fs) ≡ some dl
unfolding last_good listed prefer
last_good-new f fs path dl d =
    ap (λ x. prefer x (last_good path fs)) (sym (listed-load f path) ∙ ap listed d)

last_good-old :
    (f : Files) (fs : List Files) (path : String) (e : LoadError)
    → load_denylist_file f path ≡ inl e
    → last_good path (f ∷ fs) ≡ last_good path fs
unfolding last_good listed prefer
last_good-old f fs path e d =
    ap (λ x. prefer x (last_good path fs)) (sym (listed-load f path) ∙ ap listed d)

-- A start that succeeds leaves a moderated process.
IsStarted : Files → String → Option LoadError × Process → Type 0
IsStarted f path (some e, p) = Unit
IsStarted f path (none, p) = IsModerated path (f ∷ []) p

start_with-IsStarted :
    (f : Files) (path : String) (p : Process)
    → str_eq path "" ≡ false
    → IsStarted f path (start_with path (load_denylist_file f path) p)
unfolding start_with IsStarted
start_with-IsStarted f path p e = elim (Sum-cases (load_denylist_file f path)) [
  | inl (err, d) ↦ rw (d, start_with) tt
  | inr (dl, d) ↦ rw (d, start_with) (refl, e, refl, (dl, refl, last_good-new f [] path dl d))
]

init-IsStarted : (f : Files) (path : String) (p : Process) → IsStarted f path (init f path true p)
unfolding init IsStarted
init-IsStarted f path p = elim (Bool-cases (str_eq path "")) [
  | inl e ↦ rw (e, if◌then◌else◌) tt
  | inr e ↦ rw (e, if◌then◌else◌) (start_with-IsStarted f path p e)
]

swap-IsModerated :
    (f : Files) (fs : List Files) (path : String) (p : Process)
    → IsModerated path fs p
    → IsModerated path (f ∷ fs) (swap (load_denylist_file f path) p).1
unfolding swap
swap-IsModerated f fs path p (dev, full, source, (old, current, good)) =
    elim (Sum-cases (load_denylist_file f path)) [
      | inl (err, d) ↦
          rw (d, swap) (dev, full, source, (old, current, last_good-old f fs path err d ∙ good))
      | inr (dl, d) ↦ rw (d, swap) (dev, full, source, (dl, refl, last_good-new f fs path dl d))
    ]

reload-swap :
    (f : Files) (p : Process) (path : String)
    → str_eq path "" ≡ false
    → p.source_path ≡ some path
    → reload f p ≡ swap (load_denylist_file f path) p
unfolding reload reload_from
reload-swap f p path full source =
    ap (λ s. reload_from f s p) source ∙ rw (full, if◌then◌else◌) refl

reload-refused :
    (f : Files) (p : Process) (path : String)
    → str_eq path "" ≡ true
    → p.source_path ≡ some path
    → reload f p ≡ (some nothing_to_reload, p)
unfolding reload reload_from
reload-refused f p path blank source =
    ap (λ s. reload_from f s p) source ∙ rw (blank, if◌then◌else◌) refl

reload-IsModerated :
    (f : Files) (fs : List Files) (path : String) (p : Process)
    → IsModerated path fs p
    → IsModerated path (f ∷ fs) (reload f p).1
reload-IsModerated f fs path p h =
    subst (λ r. IsModerated path (f ∷ fs) r.1) (sym (reload-swap f p path h.1 h.2))
      (swap-IsModerated f fs path p h)

loaded-IsModerated :
    (f : Files) (fs : List Files) (path : String) (p : Process)
    → IsModerated path fs p
    → IsModerated path fs (loaded f p).1
unfolding loaded
loaded-IsModerated f fs path p h = let (dl, current, good) = h.3 in rw (current, loaded) h

-- A process that Init has accepted with moderation required is never in dev mode, and its list is
-- always that of the last time, at Init or a reload, that the file at its path could be read,
-- unmarshalled and built into a list: no failed reload and no fixture takes its place.
pub Serving-IsModerated :
    {path : String} {fs : List Files} {p : Process} → Serving true path fs p → IsModerated path fs p
unfolding IsStarted
Serving-IsModerated {path} (booted f e) =
    subst (IsStarted f path) e (init-IsStarted f path unloaded)
Serving-IsModerated {path} (reloaded f {fs} {p} e h d) =
    subst (IsModerated path (f ∷ fs)) (ap (λ x. x.1) d)
      (reload-IsModerated f fs path p (Serving-IsModerated h))
Serving-IsModerated {path} (lists f {fs} {p} dl h d) =
    subst (IsModerated path fs) (ap (λ x. x.1) d)
      (loaded-IsModerated f fs path p (Serving-IsModerated h))

-- What a reload did: nothing and an error, or a new list and no error.
abbrev pub IsReloaded : Files → Process → Option LoadError × Process → Type 0
IsReloaded f p r =
    ((r.0 ≢ none) × (r.1 ≡ p))
    ⊎ ((r.0 ≡ none)
        × ((path : String) × (dl : Denylist) × (p.source_path ≡ some path)
            × (load_denylist_file f path ≡ inr dl)
            × (r.1 ≡ record p { current = some dl })))

swap-IsReloaded :
    (f : Files) (path : String) (p : Process)
    → p.source_path ≡ some path
    → IsReloaded f p (swap (load_denylist_file f path) p)
unfolding swap
swap-IsReloaded f path p source = elim (Sum-cases (load_denylist_file f path)) [
  | inl (err, d) ↦ rw (d, swap) (inl (λ x. cc, refl))
  | inr (dl, d) ↦ rw (d, swap) (inr (refl, (path, dl, source, d, refl)))
]

-- A reload that reports an error leaves the process as it was, and one that does not changes the
-- list to what the file at the process's path holds, and nothing else.
pub reload_lem : (f : Files) (p : Process) → IsReloaded f p (reload f p)
unfolding reload reload_from
reload_lem f p = elim (Option-cases p.source_path) [
  | inl e ↦ subst (IsReloaded f p) (sym (ap (λ s. reload_from f s p) e)) (inl (λ x. cc, refl))
  | inr (path, e) ↦ elim (Bool-cases (str_eq path "")) [
    | inl d ↦ subst (IsReloaded f p) (sym (reload-refused f p path d e)) (inl (λ x. cc, refl))
    | inr d ↦ subst (IsReloaded f p) (sym (reload-swap f p path d e)) (swap-IsReloaded f path p e)
  ]
]
