-- ===== src/Admission/Gate/Promotion.antt =====
-- What `_promote_waiters_locked` does to a queue of waiters.
use uni_api.Prelude.{
  ℕ, ◌+◌, ◌≤◌, ◌≡◌, refl, ap, ◌∙◌, ◌⊎◌, inl, inr, List, [], ◌∷◌, ◌++◌, arith, ltb, Bool-cases,
  length,
}
use uni_api.Admission.Gate.{queued, granted, Gate, grant, promote}
use uni_api.Admission.Gate.Queue.{
  IsAbsent, AllDistinct, AllIn, set_state_self, set_state_other, AllIn-set,
}

-- A queue of waiters `ws`, after a promotion that granted the first ones.
pub record Promoted (g next : Gate) (ws grants : List ℕ) : Type 0 where
  pub order : grants ++ next.waiters ≡ ws
  pub active : next.active ≡ g.active + length grants
  pub acquired : next.acquired_total ≡ g.acquired_total + length grants
  pub within : g.active ≤ g.capacity → next.active ≤ g.capacity
  pub full : (next.waiters ≡ []) ⊎ (g.capacity ≤ next.active)
  pub capacity : next.capacity ≡ g.capacity
  pub waiter_limit : next.waiter_limit ≡ g.waiter_limit
  pub created : next.created ≡ g.created
  pub given : AllIn granted next.waiter_state grants
  pub left : AllIn queued next.waiter_state next.waiters
  pub others : (id : ℕ) → IsAbsent id ws → next.waiter_state id ≡ g.waiter_state id

pub promote-Promoted :
    (ws : List ℕ) (g : Gate)
    → AllDistinct ws
    → AllIn queued g.waiter_state ws
    → Promoted g (promote ws g).0 ws (promote ws g).1
unfolding promote grant AllDistinct AllIn IsAbsent
promote-Promoted [] g d q = record {
  order = refl;
  active = omega arith;
  acquired = omega arith;
  within = λ h. h;
  full = inl refl;
  capacity = refl;
  waiter_limit = refl;
  created = refl;
  given = tt;
  left = tt;
  others = λ id a. refl;
}
promote-Promoted (w ∷ ws) g d q = elim (Bool-cases (ltb g.active g.capacity)) [
  | inl room ↦
      let next_queued = AllIn-set queued granted g.waiter_state w ws d.0 q.1 in
      let rest = promote-Promoted ws (grant w g) d.1 next_queued in
      rw (promote, q.0, room)
        (record {
          order = ap (λ xs. w ∷ xs) rest.order;
          active = omega (arith, rest.active);
          acquired = omega (arith, rest.acquired);
          within = λ h. rest.within (ground (arith, room));
          full = rest.full;
          capacity = rest.capacity;
          waiter_limit = rest.waiter_limit;
          created = rest.created;
          given = (rest.others w d.0 ∙ set_state_self w granted g.waiter_state, rest.given);
          left = rest.left;
          others = λ id a. rest.others id a.1 ∙ set_state_other w id granted g.waiter_state a.0;
        })
  | inr none_left ↦
      rw (promote, none_left)
        (record {
          order = refl;
          active = omega arith;
          acquired = omega arith;
          within = λ h. h;
          full = inr (ground (arith, none_left));
          capacity = refl;
          waiter_limit = refl;
          created = refl;
          given = tt;
          left = q;
          others = λ id a. refl;
        })
]
