-- ===== src/Observability/Downstream/Rounds.antt =====
-- What the rounds of the relaxation keep and what they reach.
use skifer.Prelude.{
  ℕ, zero, suc, ◌+◌, ◌≤◌, String, ◌≡◌, refl, subst, true, false, ◌==◌, eq_iff, eq_refl, inl, inr,
  Option, none, some, List, [], ◌∷◌, ltb, arith, if◌then◌else◌, Bool-cases, Option-cases,
}
use skifer.Observability.Downstream.{
  Edge, ends, Depths, depth_of, put, improves, reach_target, relax, scan, rounds,
}
use skifer.Observability.Downstream.Walks.{Has, here, there, Walk, stay, step}

-- The depth of a dataset is there, and at most `n`.
abbrev pub Below : Depths → String → ℕ → Type 0
Below ds x n = (d : ℕ) × (depth_of x ds ≡ some d) × (d ≤ n)

depth_of-put :
    (x y : String) (n : ℕ) (ds : Depths)
    → depth_of y (put x n ds) ≡ (if x == y then some n else depth_of y ds)
unfolding depth_of put
depth_of-put x y n [] = refl
depth_of-put x y n ((z, d) ∷ ds) = elim (Bool-cases (z == x)) [
  | inl same ↦ rw ((eq_iff z x).0 same) (ground (arith, eq_refl x))
  | inr other ↦ elim (Bool-cases (x == y)) [
    | inl at_y ↦
        let e = (eq_iff x y).0 at_y in ground (arith, depth_of-put x y n ds, other, at_y, e)
    | inr not_y ↦ ground (arith, depth_of-put x y n ds, other, not_y)
  ]
]

module _ (max_depth : ℕ) where
  put-Below :
      (x y : String) (n m : ℕ) (ds : Depths)
      → improves n (depth_of x ds) ≡ true
      → Below ds y m
      → Below (put x n ds) y m
  unfolding improves
  put-Below x y n m ds better (d, at, low) = elim (Bool-cases (x == y)) [
    | inl same ↦
        let e = (eq_iff x y).0 same in
        (
          n,
          ground (arith, depth_of-put x y n ds),
          ground (arith, subst (λ z. improves n (depth_of z ds) ≡ true) e better),
        )
    | inr other ↦ (d, ground (arith, depth_of-put x y n ds), low)
  ]

  reach_target-Below :
      (t y : String) (m : ℕ) (o : Option ℕ) (ds : Depths)
      → Below ds y m
      → Below (reach_target max_depth t o ds).0 y m
  unfolding reach_target
  reach_target-Below t y m none ds low = low
  reach_target-Below t y m (some d) ds low = elim (Bool-cases (ltb max_depth (d + 1))) [
    | inl deep ↦ rw deep low
    | inr shallow ↦ rw shallow (elim (Bool-cases (improves (d + 1) (depth_of t ds))) [
      | inl better ↦ rw better (put-Below t y (d + 1) m ds better low)
      | inr worse ↦ rw worse low
    ])
  ]

  relax-Below :
      (o : Option (String × String)) (y : String) (m : ℕ) (ds : Depths)
      → Below ds y m
      → Below (relax max_depth o ds).0 y m
  unfolding relax
  relax-Below none y m ds low = low
  relax-Below (some (s, t)) y m ds low = reach_target-Below t y m (depth_of s ds) ds low

  scan-Below :
      (es : List Edge) (y : String) (m : ℕ) (ds : Depths)
      → Below ds y m
      → Below (scan max_depth es ds).0 y m
  unfolding scan
  scan-Below [] y m ds low = low
  scan-Below (e ∷ es) y m ds low =
      scan-Below es y m (relax max_depth (ends e) ds).0 (relax-Below (ends e) y m ds low)

  not_improved : (n : ℕ) (o : Option ℕ) → improves n o ≡ false → (d : ℕ) × (o ≡ some d) × (d ≤ n)
  unfolding improves
  not_improved n none h = cc
  not_improved n (some d) h = (d, refl, ground (arith, h))

  reach_target-target :
      (t : String) (d : ℕ) (ds : Depths)
      → d + 1 ≤ max_depth
      → Below (reach_target max_depth t (some d) ds).0 t (d + 1)
  unfolding reach_target
  reach_target-target t d ds room = elim (Bool-cases (ltb max_depth (d + 1))) [
    | inl deep ↦ absurd (ground (arith, deep))
    | inr shallow ↦ rw shallow (elim (Bool-cases (improves (d + 1) (depth_of t ds))) [
      | inl better ↦
          rw better (d + 1, ground (arith, depth_of-put t t (d + 1) ds, eq_refl t), omega arith)
      | inr worse ↦ rw worse (not_improved (d + 1) (depth_of t ds) worse)
    ])
  ]

  -- An edge whose source is low enough brings its target down.
  relax-target :
      (s t : String) (n : ℕ) (ds : Depths)
      → Below ds s n
      → n + 1 ≤ max_depth
      → Below (relax max_depth (some (s, t)) ds).0 t (n + 1)
  unfolding relax
  relax-target s t n ds (d, at, low) room = rw at (
      let (k, there_at, short) = reach_target-target t d ds (omega (arith, low, room)) in
      (k, there_at, omega (arith, short, low)))

  scan-target :
      (es : List Edge) (e : Edge) (s t : String) (n : ℕ) (ds : Depths)
      → Has e es
      → ends e ≡ some (s, t)
      → Below ds s n
      → n + 1 ≤ max_depth
      → Below (scan max_depth es ds).0 t (n + 1)
  unfolding scan
  scan-target [] e s t n ds at is_edge low room = elim at [ ]
  scan-target (f ∷ es) _ s t n ds here is_edge low room =
      scan-Below es t (n + 1) (relax max_depth (ends f) ds).0
        (rw is_edge (relax-target s t n ds low room))
  scan-target (f ∷ es) e s t n ds (there at) is_edge low room =
      scan-target es e s t n (relax max_depth (ends f) ds).0 at is_edge
        (relax-Below (ends f) s n ds low) room

  relax-unchanged :
      (o : Option (String × String)) (ds : Depths)
      → (relax max_depth o ds).1 ≡ false
      → (relax max_depth o ds).0 ≡ ds
  unfolding relax reach_target
  relax-unchanged none ds h = refl
  relax-unchanged (some (s, t)) ds h = elim (Option-cases (depth_of s ds)) [
    | inl none_at ↦ rw none_at refl
    | inr (d, at) ↦ rw at (ground (arith, (rw at at h)))
  ]

  scan-unchanged :
      (es : List Edge) (ds : Depths)
      → (scan max_depth es ds).1 ≡ false
      → (scan max_depth es ds).0 ≡ ds
  unfolding scan
  scan-unchanged [] ds h = refl
  scan-unchanged (e ∷ es) ds h =
      let same = relax-unchanged (ends e) ds (ground (arith, h)) in
      let later : (scan max_depth es (relax max_depth (ends e) ds).0).1 ≡ false =
        ground (arith, h) in
      rw same (scan-unchanged es ds (rw same at later))

-- Every dataset within `n` edges has a depth of at most `n`, up to so many edges.
abbrev pub IsLow : List Edge → String → ℕ → ℕ → Depths → Type 0
IsLow es root max_depth k ds =
    (n : ℕ) (x : String) → n ≤ k → n ≤ max_depth → Walk es root n x → Below ds x n

module _ (max_depth : ℕ) (es : List Edge) (root : String) where
  scan-IsLow :
      (k : ℕ) (ds : Depths)
      → IsLow es root max_depth k ds
      → IsLow es root max_depth (suc k) (scan max_depth es ds).0
  scan-IsLow k ds low zero x short room stay =
      scan-Below max_depth es root 0 ds (low 0 root (omega arith) (omega arith) stay)
  scan-IsLow k ds low (suc n) y short room (step {x} e walk at is_edge) =
      let (d, found, few) =
        scan-target max_depth es e x y n ds at is_edge
          (low n x (omega (arith, short)) (omega (arith, room)) walk) (omega (arith, room)) in
      (d, found, omega (arith, few))

  -- A round that changed nothing has settled all depths.
  settled :
      (ds : Depths)
      → (scan max_depth es ds).0 ≡ ds
      → Below ds root 0
      → (n : ℕ) (x : String) → n ≤ max_depth
      → Walk es root n x
      → Below ds x n
  settled ds same low zero x room stay = low
  settled ds same low (suc n) y room (step {x} e walk at is_edge) =
      let (d, found, few) =
        scan-target max_depth es e x y n ds at is_edge
          (settled ds same low n x (omega (arith, room)) walk) (omega (arith, room)) in
      (d, rw same at found, omega (arith, few))

  pub rounds-IsLow :
      (n k m : ℕ) (ds : Depths)
      → m ≤ n + k
      → IsLow es root max_depth k ds
      → IsLow es root max_depth m (rounds n max_depth es ds)
  unfolding rounds
  rounds-IsLow zero k m ds few low = λ i x short. low i x (omega (arith, few, short))
  rounds-IsLow (suc n) k m ds few low = elim (Bool-cases (scan max_depth es ds).1) [
    | inl changed ↦ rw changed (
        rounds-IsLow n (suc k) m (scan max_depth es ds).0 (omega (arith, few))
          (scan-IsLow k ds low))
    | inr settled_now ↦
        let same = scan-unchanged max_depth es ds settled_now in
        rw settled_now
          (rw same (λ i x short. settled ds same (low 0 root (omega arith) (omega arith) stay) i x))
  ]
