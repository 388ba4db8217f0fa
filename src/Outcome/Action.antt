-- ===== src/Outcome/Action.antt =====
-- Actions on a state that may raise. What was written before a raise stays written.
pub mod Steps
use skifer.Prelude.{Bool, true, false, Option, none, some, if◌then◌else◌}
use skifer.Outcome.{Error, interrupted, Result, ok, err}

abbrev pub is_interrupt : Error → Bool
is_interrupt interrupted = true
is_interrupt _ = false

abbrev pub Action : Type 0 → Type 0 → Type 0
Action W A = W → Result A × W

module _ {W : Type 0} where
  abbrev pub proceed : {A B : Type 0} → (A → Action W B) → Result A × W → Result B × W
  proceed next (ok a, w) = next a w
  proceed next (err e, w) = (err e, w)

  infixl 5 ◌>>=◌ ◌>>◌
  unfoldable pub ◌>>=◌ : {A B : Type 0} → Action W A → (A → Action W B) → Action W B
  ◌>>=◌ first next w = proceed next (first w)

  abbrev pub ◌>>◌ : {A B : Type 0} → Action W A → Action W B → Action W B
  first >> next = first >>= λ _. next

  unfoldable pub give : {A : Type 0} → A → Action W A
  give a w = (ok a, w)

  unfoldable pub throw : {A : Type 0} → Error → Action W A
  throw e w = (err e, w)

  -- A value of the state.
  unfoldable pub read : {A : Type 0} → (W → A) → Action W A
  read f w = (ok (f w), w)

  unfoldable pub answer : {A : Type 0} → (W → Result A × W) → Action W A
  answer f w = f w

  -- `except Exception`: an interrupt passes.
  abbrev pub handled : {A : Type 0} → (Error → Action W A) → Result A × W → Result A × W
  handled handler (ok a, w) = (ok a, w)
  handled handler (err e, w) = if is_interrupt e then (err e, w) else handler e w

  unfoldable pub try_or : {A : Type 0} → Action W A → (Error → Action W A) → Action W A
  try_or body handler w = handled handler (body w)

  -- A body whose exception is dropped.
  abbrev pub attempt : {A : Type 0} → Action W A → Action W (Option A)
  attempt body = try_or (body >>= λ a. give (some a)) (λ e. give none)
