-- ===== src/Observability/Downstream.antt =====
-- incidents.py: the datasets downstream of another one, `_bounded_downstream_datasets`.
pub mod Walks
pub mod Layers
pub mod Rounds
pub mod Sound
pub mod Exact
use Prim.Native.String.{compare}
use Prim.Native.Nat.{Ordering}
use skifer.Prelude.{
  ℕ, zero, suc, ◌+◌, String, Bool, true, false, not, ◌&&◌, ◌==◌, Option, none, some, List, [], ◌∷◌,
  length, ltb, leb, if◌then◌else◌,
}
use skifer.Observability.Checks.{truthy, or_text}

-- A lineage edge; an attribute that the edge does not have is `none`.
pub record Edge : Type 0 where
  pub source_table : Option String
  pub source_fqn : Option String
  pub target_table : Option String
  pub target_fqn : Option String

-- `_edge_value`, tested for truth as the caller does.
abbrev edge_value : Option String → Option String → Option String
edge_value key fallback = truthy (or_text key fallback)

abbrev both : Option String → Option String → Option (String × String)
both (some s) (some t) = some (s, t)
both _ _ = none

-- The ends of an edge that has both.
unfoldable pub ends : Edge → Option (String × String)
ends e = both (edge_value e.source_table e.source_fqn) (edge_value e.target_table e.target_fqn)

-- `depths`: a dictionary from names to depths.
abbrev pub Depths : Type 0
Depths = List (String × ℕ)

unfoldable pub depth_of : String → Depths → Option ℕ
depth_of x [] = none
depth_of x ((y, d) ∷ ds) = if y == x then some d else depth_of x ds

-- `depths[x] = n`
unfoldable pub put : String → ℕ → Depths → Depths
put x n [] = (x, n) ∷ []
put x n ((y, d) ∷ ds) = let rest = put x n ds in if y == x then (y, n) ∷ ds else (y, d) ∷ rest

-- `target not in depths or depth < depths[target]`
unfoldable pub improves : ℕ → Option ℕ → Bool
improves n none = true
improves n (some d) = ltb n d

-- What an edge does whose source has a depth, if any.
unfoldable pub reach_target : ℕ → String → Option ℕ → Depths → Depths × Bool
unfolding depth_of put improves
reach_target max_depth target none ds = (ds, false)
reach_target max_depth target (some d) ds =
    if ltb max_depth (d + 1)
    then (ds, false)
    else if improves (d + 1) (depth_of target ds)
    then (put target (d + 1) ds, true)
    else (ds, false)

unfoldable pub relax : ℕ → Option (String × String) → Depths → Depths × Bool
unfolding reach_target
relax max_depth none ds = (ds, false)
relax max_depth (some (source, target)) ds = reach_target max_depth target (depth_of source ds) ds

-- One round over the edges, and whether it changed a depth.
unfoldable pub scan : ℕ → List Edge → Depths → Depths × Bool
unfolding ends relax
scan max_depth [] ds = (ds, false)
scan max_depth (e ∷ es) ds =
    let first = relax max_depth (ends e) ds in
    let rest = scan max_depth es first.0 in (rest.0, if first.1 then true else rest.1)

-- The rounds: at most so many, and none after one that changed nothing.
unfoldable pub rounds : ℕ → ℕ → List Edge → Depths → Depths
unfolding scan
rounds zero max_depth es ds = ds
rounds (suc n) max_depth es ds =
    let next = scan max_depth es ds in
    let rest = rounds n max_depth es next.0 in if next.1 then rest else next.0

abbrev text_leb : String → String → Bool
text_leb a b = elim (compare a b) [ Ordering.gt ↦ false | _ ↦ true ]

unfoldable pub insert_sorted : String → List String → List String
insert_sorted x [] = x ∷ []
insert_sorted x (y ∷ ys) =
    let rest = insert_sorted x ys in if text_leb x y then x ∷ y ∷ ys else y ∷ rest

-- `sorted`
unfoldable pub sorted : List String → List String
unfolding insert_sorted
sorted [] = []
sorted (x ∷ xs) = insert_sorted x (sorted xs)

unfoldable pub names_within : String → ℕ → Depths → List String
names_within root max_depth [] = []
names_within root max_depth ((x, d) ∷ ds) =
    let rest = names_within root max_depth ds in
    if not (x == root) && leb d max_depth then x ∷ rest else rest

unfoldable pub bounded_downstream_datasets : List Edge → String → ℕ → List String
unfolding rounds sorted names_within
bounded_downstream_datasets es root zero = []
bounded_downstream_datasets es root (suc max_depth) =
    sorted (
      names_within root (suc max_depth)
        (rounds (length es + 1) (suc max_depth) es ((root, 0) ∷ [])))
