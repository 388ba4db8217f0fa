-- ===== src/Capabilities/Governed/Chains.antt =====
-- Properties of a chain of actions by its steps.
use skifer.Prelude.{String, ◌≡◌, refl, sym, subst, Option}
use skifer.Outcome.{Error, Result, ok, err}
use skifer.Capabilities.History
use skifer.Capabilities.History.{CapabilityStateEvent}
use skifer.Capabilities.Governed.{Host, World}
use skifer.Capabilities.Governed.Effects.{M, ◌>>=◌, continue, lift, read_latest}

module _ {h : Host} {A B : Type 0} (P : Result B × World h → Type 0) where
  pub continue_lem :
      (r : Result A) (f : A → M h B) (w : World h)
      → ((e : Error) → r ≡ err e → P (err e, w))
      → ((a : A) → r ≡ ok a → P (f a w))
      → P (continue r f w)
  continue_lem (ok a) f w p q = q a refl
  continue_lem (err e) f w p q = p e refl

  -- A check in front of an action.
  pub lift_lem :
      (r : Result A) (f : A → M h B) (w : World h)
      → ((e : Error) → r ≡ err e → P (err e, w))
      → ((a : A) → r ≡ ok a → P (f a w))
      → P ((lift r >>= f) w)
  unfolding lift ◌>>=◌
  lift_lem r f w p q = continue_lem r f w p q

  -- Any action in front of another.
  pub bind_lem :
      (m : M h A) (f : A → M h B) (w : World h)
      → ((e : Error) → (m w).0 ≡ err e → P (err e, (m w).1))
      → ((a : A) → (m w).0 ≡ ok a → P (f a (m w).1))
      → P ((m >>= f) w)
  unfolding ◌>>=◌
  bind_lem m f w p q = continue_lem (m w).0 f (m w).1 p q

-- A question to the journal, whose answer is known.
pub read_latest_lem :
    {h : Host} {B : Type 0} (P : Result B × World h → Type 0) (d : String)
    (f : Option CapabilityStateEvent → M h B) (w : World h) (prior : Option CapabilityStateEvent)
    → History.latest_state h.lib h.lower d w.rows ≡ ok prior
    → P (f prior w)
    → P ((read_latest d >>= f) w)
unfolding read_latest ◌>>=◌
read_latest_lem P d f w prior p q = subst (λ x. P (continue x f w)) (sym p) q
