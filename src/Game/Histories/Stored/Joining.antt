-- ===== src/Game/Histories/Stored/Joining.antt =====
-- A session that joins an actor of internal/game keeps the store and the actors in agreement.
use ssh_farm.Prelude.{
  ℕ, suc, ℤ, ◌≡◌, refl, ap, sym, subst, ◌∙◌, Bool, true, false, if◌then◌else◌, Option, none, some,
  inl, inr, -ℤ_parts, arith,
}
use ssh_farm.Content.{Content}
use ssh_farm.Sim.State.{
  State, new, decode_state, upgrade_state, upgrade_to_2, upgrade_to_3, upgrade_to_4,
  upgrade_scarecrow,
}
use ssh_farm.Sim.Upgrades.{decode_state_lem}
use ssh_farm.Store.{SaveKey, SaveRow}
use ssh_farm.Game.Actors.{Env, Actor, new_actor, catch_up}
use ssh_farm.Game.Actors.Marking.{IsTimely}
use ssh_farm.Game.Actors.Keeping.{IsKept, catch_up-IsKept}
use ssh_farm.Game.Manager.{
  World, Connection, set_actor, kick, take_over, join_held, join, load_state, open_state, open_row,
  keyed_key, takeover_notice,
}
use ssh_farm.Game.Histories.{IsTimelyState}
use ssh_farm.Game.Histories.Stored.{
  IsHeld, IsStored, set_actor-IsStored, kick-IsStored, kept-IsHeld,
}

module _ (env : Env) where
  -- An actor that is kept, with another session or its own, is backed by the same row.
  pub marked-IsHeld :
      (k : SaveKey) (o : Option (SaveRow env.Payload)) (a b : Actor) (session : Option ℕ)
      → IsKept (record a { session = session }) b
      → IsHeld env k o (some a)
      → IsHeld env k o (some b)
  marked-IsHeld k o a b session (key, same, inl e) held =
      kept-IsHeld env k o a b key (inl (ap (λ x. x.state) e)) (inl (ap (λ x. x.dirty) e)) held
  marked-IsHeld k o a b session (key, same, inr e) held =
      kept-IsHeld env k o a b key (inr e) (inr e) held

  pub either-IsStored :
      {A : Type 0} (b : Bool) (x y : A × World env.Payload)
      → IsStored env x.1
      → IsStored env y.1
      → IsStored env (if b then x else y).1
  either-IsStored true x y h k = h
  either-IsStored false x y h k = k

  pub IsStored-cases :
      {A : Type 0} (b : Bool) (x y : A × World env.Payload)
      → (b ≡ true → IsStored env x.1)
      → (b ≡ false → IsStored env y.1)
      → IsStored env (if b then x else y).1
  IsStored-cases true x y h k = h refl
  IsStored-cases false x y h k = k refl

  take_over-IsStored :
      (now : ℤ) (created : Bool) (k : SaveKey) (a : Actor) (w : World env.Payload)
      → IsTimely now a.state
      → IsStored env w
      → IsHeld env k (w.saves k) (some a)
      → IsStored env (take_over env now created k a w).1
  unfolding take_over kick
  take_over-IsStored now created k a w timely all held =
      set_actor-IsStored env (some b) k v (kick-IsStored env a.session takeover_notice next all)
        (kicked a.session)
    where
      next : World env.Payload
      next = record w { next_id = suc w.next_id }

      v : World env.Payload
      v = kick a.session takeover_notice next

      b : Actor
      b = (catch_up env now (record a { session = some (suc w.next_id) })).0

      kept : IsHeld env k (w.saves k) (some b)
      kept =
          marked-IsHeld k (w.saves k) a b (some (suc w.next_id))
            (catch_up-IsKept env now (record a { session = some (suc w.next_id) }) timely) held

      kicked : (o : Option ℕ) → IsHeld env k ((kick o takeover_notice next).saves k) (some b)
      kicked none = kept
      kicked (some id) = kept

  pub join_held-IsStored :
      (now : ℤ) (created : Bool) (k : SaveKey) (a : Actor) (o : Option ℕ) (w : World env.Payload)
      → IsTimely now a.state
      → IsStored env w
      → IsHeld env k (w.saves k) (some a)
      → IsStored env (join_held env now created k a o w).1
  unfolding join_held
  join_held-IsStored now created k a none w timely all held =
      take_over-IsStored now created k a w timely all held
  join_held-IsStored now created k a (some owner) w timely all held =
      either-IsStored env.refuses _ (take_over env now created k a w) all
        (take_over-IsStored now created k a w timely all held)

  -- What a row loads to is what it decodes to again.
  decoded_again : (t s : State) → decode_state t ≡ some s → decode_state s ≡ some s
  decoded_again t s q = elim (decode_state_lem t) [
    | inl (v, u, d, v4, old, fixed) ↦
        subst (λ x. decode_state x ≡ some x) (some_inj u (sym d ∙ q)) fixed
    | inr (v, d) ↦ absurd (nothing (sym d ∙ q))
  ]
    where
      nothing : ◌≡◌ {A = Option State} none (some s) → ⊥
      nothing e = cc

      some_inj : (u : State) → ◌≡◌ {A = Option State} (some u) (some s) → u ≡ s
      some_inj u e = cc

  load_again : (p : env.Payload) (s : State) → load_state env p ≡ some s → decode_state s ≡ some s
  unfolding load_state
  load_again p s = from (env.unmarshal p)
    where
      from :
          (o : Option State)
          → (elim o as (λ x. Option State) [ none ↦ none | some t ↦ decode_state t ]) ≡ some s
          → decode_state s ≡ some s
      from none e = cc
      from (some t) e = decoded_again t s e

  open_state-IsStored :
      (r : Connection) (created : Bool) (row : SaveRow env.Payload) (o : Option State)
      → (w : World env.Payload) → load_state env row.state ≡ o
      → IsTimelyState r.now o
      → w.saves (keyed_key r.identity) ≡ some row
      → IsStored env w
      → IsStored env (open_state env r created o w).1
  unfolding open_state set_actor new_actor join
  open_state-IsStored r created row none w load timely here all = all
  open_state-IsStored r created row (some s) w load timely here all =
      join_held-IsStored r.now created k (new_actor (suc w.next_id) k s) none
        (set_actor (some (new_actor (suc w.next_id) k s)) k w) timely
        (set_actor-IsStored env (some (new_actor (suc w.next_id) k s)) k w all held) held
    where
      k : SaveKey
      k = keyed_key r.identity

      held : IsHeld env k (w.saves k) (some (new_actor (suc w.next_id) k s))
      held =
          subst (λ x. IsHeld env k x (some (new_actor (suc w.next_id) k s))) (sym here)
            (refl, inr (inr (load ∙ sym (load_again row.state s load))))

  pub open_row-IsStored :
      (r : Connection) (created : Bool) (row : SaveRow env.Payload) (w : World env.Payload)
      → IsTimelyState r.now (load_state env row.state)
      → w.saves (keyed_key r.identity) ≡ some row
      → IsStored env w
      → IsStored env (open_row env r created row w).1
  unfolding open_row
  open_row-IsStored r created row w timely here all =
      open_state-IsStored r created row (load_state env row.state) w refl timely here all

  -- A new save is of the current version.
  pub decode_new :
      (c : Content) (seed : ℕ) (now : ℤ) → decode_state (new c seed now) ≡ some (new c seed now)
  unfolding new decode_state upgrade_state upgrade_to_2 upgrade_to_3 upgrade_to_4 upgrade_scarecrow
  decode_new c seed now = refl

  pub new-IsTimely : (c : Content) (seed : ℕ) (now : ℤ) → IsTimely now (new c seed now)
  unfolding new
  new-IsTimely c seed now = ground (arith, -ℤ_parts now now)
