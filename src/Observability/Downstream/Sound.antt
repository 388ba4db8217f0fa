-- ===== src/Observability/Downstream/Sound.antt =====
-- Every depth that the rounds write is the length of a walk.
use skifer.Prelude.{
  ℕ, zero, suc, ◌+◌, ◌≤◌, String, ◌≡◌, refl, sym, subst, ◌==◌, eq_iff, inl, inr, Option, none, some,
  List, [], ◌∷◌, All, ltb, arith, Bool-cases,
}
use skifer.Observability.Downstream.{
  Edge, ends, Depths, depth_of, put, improves, reach_target, relax, scan, rounds,
}
use skifer.Observability.Downstream.Walks.{Has, here, there, Walk, step}

-- Each depth is the length of a walk, and at most the maximum.
abbrev pub IsWalked : List Edge → String → ℕ → Depths → Type 0
IsWalked es root max_depth ds =
    All (λ entry. Walk es root entry.1 entry.0 × (entry.1 ≤ max_depth)) ds

module _ (max_depth : ℕ) (es : List Edge) (root : String) where
  abbrev Good : Depths → Type 0
  Good = IsWalked es root max_depth

  depth_of-Walk :
      (x : String) (d : ℕ) (ds : Depths) → Good ds → depth_of x ds ≡ some d → Walk es root d x
  unfolding depth_of
  depth_of-Walk x d [] g h = cc
  depth_of-Walk x d ((y, k) ∷ ds) g h = elim (Bool-cases (y == x)) [
    | inl same ↦
        let p = (eq_iff y x).0 same in
        let q : k ≡ d = ground (arith, h, same) in
        subst (λ k. Walk es root k x) q (subst (Walk es root k) p g.0.0)
    | inr other ↦ depth_of-Walk x d ds g.1 (ground (arith, h, other))
  ]

  put-IsWalked :
      (x : String) (n : ℕ) (ds : Depths)
      → Walk es root n x
      → n ≤ max_depth
      → Good ds
      → Good (put x n ds)
  unfolding put
  put-IsWalked x n [] walk few g = ((walk, few), tt)
  put-IsWalked x n ((y, d) ∷ ds) walk few g = elim (Bool-cases (y == x)) [
    | inl same ↦ rw same ((subst (Walk es root n) (sym ((eq_iff y x).0 same)) walk, few), g.1)
    | inr other ↦ rw other (g.0, put-IsWalked x n ds walk few g.1)
  ]

  reach_target-IsWalked :
      (t : String) (o : Option ℕ) (ds : Depths)
      → ((d : ℕ) → o ≡ some d → Walk es root (d + 1) t)
      → Good ds
      → Good (reach_target max_depth t o ds).0
  unfolding reach_target
  reach_target-IsWalked t none ds walk g = g
  reach_target-IsWalked t (some d) ds walk g = elim (Bool-cases (ltb max_depth (d + 1))) [
    | inl deep ↦ rw deep g
    | inr shallow ↦ rw shallow (elim (Bool-cases (improves (d + 1) (depth_of t ds))) [
      | inl better ↦ rw better (put-IsWalked t (d + 1) ds (walk d refl) (ground (arith, shallow)) g)
      | inr worse ↦ rw worse g
    ])
  ]

  relax-IsWalked :
      (e : Edge) (ds : Depths)
      → Has e es
      → Good ds
      → (o : Option (String × String)) → ends e ≡ o
      → Good (relax max_depth o ds).0
  unfolding relax
  relax-IsWalked e ds at g none is_edge = g
  relax-IsWalked e ds at g (some (s, t)) is_edge =
      reach_target-IsWalked t (depth_of s ds) ds
        (λ d found.
          subst (λ n. Walk es root n t) (omega arith)
            (step e (depth_of-Walk s d ds g found) at is_edge))
        g

  scan-IsWalked :
      (fs : List Edge) (ds : Depths)
      → ((e : Edge) → Has e fs → Has e es)
      → Good ds
      → Good (scan max_depth fs ds).0
  unfolding scan
  scan-IsWalked [] ds part g = g
  scan-IsWalked (e ∷ fs) ds part g =
      scan-IsWalked fs (relax max_depth (ends e) ds).0 (λ f at. part f (there at))
        (relax-IsWalked e ds (part e here) g (ends e) refl)

  pub rounds-IsWalked : (n : ℕ) (ds : Depths) → Good ds → Good (rounds n max_depth es ds)
  unfolding rounds
  rounds-IsWalked zero ds g = g
  rounds-IsWalked (suc n) ds g =
      let next = scan-IsWalked es ds (λ e at. at) g in
      elim (Bool-cases (scan max_depth es ds).1) [
        | inl changed ↦ rw changed (rounds-IsWalked n (scan max_depth es ds).0 next)
        | inr done ↦ rw done next
      ]
