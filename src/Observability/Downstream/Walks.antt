-- ===== src/Observability/Downstream/Walks.antt =====
-- Walks over lineage edges, the specification of what is downstream.
use skifer.Prelude.{ℕ, zero, suc, String, ◌≡◌, some, List, ◌∷◌}
use skifer.Observability.Downstream.{Edge, ends}

pub data Has (e : Edge) : List Edge → Type 0 where
  here : {es : List Edge} → Has e (e ∷ es)
  there : {f : Edge} {es : List Edge} → Has e es → Has e (f ∷ es)

-- A walk of so many edges.
pub data Walk (es : List Edge) (root : String) : ℕ → String → Type 0 where
  stay : Walk es root zero root
  step :
      {n : ℕ} {x y : String} (e : Edge)
      → Walk es root n x
      → Has e es
      → ends e ≡ some (x, y)
      → Walk es root (suc n) y
