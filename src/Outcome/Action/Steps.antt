-- ===== src/Outcome/Action/Steps.antt =====
-- What an action does to the state, whether it returns or raises: a relation that holds between the
-- state before and the state behind it.
use skifer.Prelude.{◌≡◌, refl, ap, subst, Option, none, some, Bool-cases, inl, inr}
use skifer.Outcome.{Error, Result, ok, err}
use skifer.Outcome.Action.{
  Action, ◌>>=◌, give, throw, read, try_or, attempt, proceed, handled, is_interrupt,
}

abbrev pub Steps : {W A : Type 0} → (W → W → Type 0) → Action W A → Type 0
Steps {W} R m = (w : W) → R w (m w).1

pub record IsOrder {W : Type 0} (R : W → W → Type 0) : Type 0 where
  pub stay : (w : W) → R w w
  pub join : (u v w : W) → R u v → R v w → R u w

module _ {W : Type 0} {R : W → W → Type 0} (order : IsOrder R) where
  proceed_steps :
      {A B : Type 0} (next : A → Action W B)
      → ((a : A) → Steps R (next a))
      → (w : W) (r : Result A × W) → R w r.1
      → R w (proceed next r).1
  proceed_steps next steps w (ok a, v) here = order.join w v (next a v).1 here (steps a v)
  proceed_steps next steps w (err e, v) here = here

  pub bind-Steps :
      {A B : Type 0} (first : Action W A) (next : A → Action W B)
      → Steps R first
      → ((a : A) → Steps R (next a))
      → Steps R (first >>= next)
  unfolding ◌>>=◌
  bind-Steps first next here steps w = proceed_steps next steps w (first w) (here w)

  pub give-Steps : {A : Type 0} (a : A) → Steps R (give a)
  unfolding give
  give-Steps a w = order.stay w

  pub throw-Steps : (A : Type 0) (e : Error) → Steps R (throw {A = A} e)
  unfolding throw
  throw-Steps A e w = order.stay w

  pub read-Steps : {A : Type 0} (f : W → A) → Steps R (read f)
  unfolding read
  read-Steps f w = order.stay w

  attempted :
      {A : Type 0} (w : W) (r : Result A × W)
      → R w r.1
      → R w
          (handled {W = W} {A = Option A}
            (λ e. give none)
            (proceed {W = W} {A = A} {B = Option A} (λ a. give (some a)) r)).1
  unfolding give
  attempted w (ok a, v) here = here
  attempted w (err e, v) here = elim (Bool-cases (is_interrupt e)) [
    | inl p ↦ rw p here
    | inr p ↦ rw p here
  ]

  pub attempt-Steps : {A : Type 0} (body : Action W A) → Steps R body → Steps R (attempt body)
  unfolding try_or ◌>>=◌ give
  attempt-Steps body here w = attempted w (body w) (here w)

-- A chain, by what its first action came to.
pub bind_cases :
    {W A B : Type 0} (first : Action W A) (next : A → Action W B) (w : W)
    (P : Result B × W → Type 0)
    → ((a : A) (v : W) → first w ≡ (ok a, v) → P (next a v))
    → ((e : Error) (v : W) → first w ≡ (err e, v) → P (err e, v))
    → P ((first >>= next) w)
unfolding ◌>>=◌
bind_cases {W} {A} first next w P returned raised_error = go (first w) refl
  where
    go : (r : Result A × W) → first w ≡ r → P (proceed next r)
    go (ok a, v) p = returned a v p
    go (err e, v) p = raised_error e v p

-- From a state with the first property, an action leaves one with the second, also where it raises.
abbrev pub Ensures : {W A : Type 0} → (W → Type 0) → (W → Type 0) → Action W A → Type 0
Ensures {W} P Q m = (w : W) → P w → Q (m w).1

pub bind-Ensures :
    {W A B : Type 0} (P Q S : W → Type 0) (first : Action W A) (next : A → Action W B)
    → ((w : W) → Q w → S w)
    → Ensures P Q first
    → ((a : A) → Ensures Q S (next a))
    → Ensures P S (first >>= next)
bind-Ensures P Q S first next weaker here steps w p =
    bind_cases first next w (λ r. S r.1) (λ a v e. steps a v (subst (λ r. Q r.1) e (here w p)))
      (λ e v q. weaker v (subst (λ r. Q r.1) q (here w p)))

pub bind_returns :
    {W A B : Type 0} (first : Action W A) (next : A → Action W B) (w v : W) (a : A)
    → first w ≡ (ok a, v)
    → (first >>= next) w ≡ next a v
unfolding ◌>>=◌
bind_returns first next w v a e = ap (proceed next) e
