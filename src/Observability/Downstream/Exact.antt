-- ===== src/Observability/Downstream/Exact.antt =====
-- The datasets downstream are those that a short enough walk leads to.
use skifer.Prelude.{
  ℕ, zero, suc, ◌+◌, ◌≤◌, String, ◌≡◌, ◌≢◌, ◌↔◌, refl, sym, ◌∙◌, subst, Bool, true, false, not,
  ◌&&◌, ◌==◌, eq_iff, eq_refl, inl, inr, some, List, [], ◌∷◌, length, elem, leb, arith, Bool-cases,
}
use skifer.Observability.Downstream.{
  Edge, Depths, depth_of, rounds, insert_sorted, sorted, names_within, bounded_downstream_datasets,
}
use skifer.Observability.Downstream.Walks.{Walk, stay}
use skifer.Observability.Downstream.Layers.{short_walk}
use skifer.Observability.Downstream.Rounds.{Below, IsLow, rounds-IsLow}
use skifer.Observability.Downstream.Sound.{IsWalked, rounds-IsWalked}

pub different : (a b : String) → a ≢ b → (a == b) ≡ false
different a b h = elim (Bool-cases (a == b)) [
  | inl same ↦ absurd (h ((eq_iff a b).0 same))
  | inr other ↦ other
]

elem-insert_sorted :
    (x y : String) (ys : List String) → elem x (insert_sorted y ys) ≡ elem x (y ∷ ys)
unfolding insert_sorted
elem-insert_sorted x y [] = refl
elem-insert_sorted x y (z ∷ ys) = ground (arith, elem-insert_sorted x y ys)

elem-sorted : (x : String) (xs : List String) → elem x (sorted xs) ≡ elem x xs
unfolding sorted
elem-sorted x [] = refl
elem-sorted x (y ∷ xs) = ground (arith, elem-insert_sorted x y (sorted xs), elem-sorted x xs)

module _ (es : List Edge) (root : String) (max_depth : ℕ) where
  names-Walk :
      (x : String) (ds : Depths)
      → IsWalked es root max_depth ds
      → elem x (names_within root max_depth ds) ≡ true
      → (root ≢ x) × (n : ℕ) × (n ≤ max_depth) × Walk es root n x
  unfolding names_within
  names-Walk x [] g h = cc
  names-Walk x ((y, d) ∷ ds) g h =
      elim (Bool-cases (not (y == root) && leb d max_depth && y == x)) [
        | inl here ↦
            let p = (eq_iff y x).0 (ground (arith, here)) in
            (
              (λ q. ground (arith, here, (eq_iff y root).1 (p ∙ sym q))),
              d,
              g.0.1,
              subst (Walk es root d) p g.0.0,
            )
        | inr there ↦ names-Walk x ds g.1 (ground (arith, h, there))
      ]

  depth-names :
      (x : String) (d : ℕ) (ds : Depths)
      → root ≢ x
      → depth_of x ds ≡ some d
      → d ≤ max_depth
      → elem x (names_within root max_depth ds) ≡ true
  unfolding names_within depth_of
  depth-names x d [] other found few = cc
  depth-names x d ((y, k) ∷ ds) other found few = elim (Bool-cases (y == x)) [
    | inl same ↦
        let p = (eq_iff y x).0 same in
        let k_is_d : k ≡ d = ground (arith, found, same) in
        ground (arith, few, k_is_d, same, different y root (λ q. other (sym q ∙ p)))
    | inr elsewhere ↦
        let later = depth-names x d ds other (ground (arith, found, elsewhere)) few in
        ground (arith, later)
  ]

  no_walk : (n : ℕ) (x : String) {b : Bool} → root ≢ x → n ≤ 0 → Walk es root n x → b ≡ true
  no_walk zero x other room stay = absurd (other refl)
  no_walk (suc n) x other room walk = absurd (omega (arith, room))

  start-IsLow : IsLow es root max_depth 0 ((root, 0) ∷ [])
  unfolding depth_of
  start-IsLow zero x few room stay = (0, ground (arith, eq_refl root), omega arith)
  start-IsLow (suc n) x few room walk = absurd (omega (arith, few))

  walked : (n : ℕ) → IsWalked es root max_depth (rounds n max_depth es ((root, 0) ∷ []))
  walked n = rounds-IsWalked max_depth es root n ((root, 0) ∷ []) ((stay, omega arith), tt)

  -- The rounds suffice: every walk within the maximum has left its mark.
  reached :
      (x : String) (n : ℕ)
      → n ≤ max_depth
      → Walk es root n x
      → Below (rounds (length es + 1) max_depth es ((root, 0) ∷ [])) x n
  reached x n room walk =
      let (m, short, few, walk') = short_walk es root n x walk in
      let (d, found, low) =
        rounds-IsLow max_depth es root (length es + 1) 0 (length es + 1) ((root, 0) ∷ [])
          (omega arith) start-IsLow m x (omega (arith, few)) (omega (arith, short, room)) walk' in
      (d, found, omega (arith, low, short))

-- A dataset is among those found downstream exactly if it is not the root and a walk of at most the
-- maximal depth leads to it from the root: the rounds, one more than there are edges, are enough,
-- whatever the order of the edges and whatever cycles they make.
pub bounded_downstream_datasets-Walk :
    (es : List Edge) (root : String) (max_depth : ℕ) (x : String)
    → (elem x (bounded_downstream_datasets es root max_depth) ≡ true)
      ↔ ((root ≢ x) × (n : ℕ) × (n ≤ max_depth) × Walk es root n x)
unfolding bounded_downstream_datasets
bounded_downstream_datasets-Walk es root zero x =
    (λ h. cc, λ (other, n, room, walk). no_walk es root zero n x other room walk)
bounded_downstream_datasets-Walk es root (suc d) x =
    let ds = rounds (length es + 1) (suc d) es ((root, 0) ∷ []) in
    let names = names_within root (suc d) ds in
    (
      λ h.
          names-Walk es root (suc d) x ds (walked es root (suc d) (length es + 1))
            (sym (elem-sorted x names) ∙ h),
      λ (other, n, room, walk).
          let (k, found, low) = reached es root (suc d) x n room walk in
          elem-sorted x names
          ∙ depth-names es root (suc d) x k ds other found (omega (arith, low, room)),
    )
