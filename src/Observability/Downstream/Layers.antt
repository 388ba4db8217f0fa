-- ===== src/Observability/Downstream/Layers.antt =====
-- A walk that is longer than the list of edges can be replaced by one that is not.
use skifer.Prelude.{
  ℕ, zero, suc, ◌≤◌, ◌<◌, String, ◌≡◌, sym, subst, Bool, true, false, ◌&&◌, ◌||◌, ◌==◌, eq_iff,
  eq_refl, ◌⊎◌, inl, inr, Option, none, some, List, [], ◌∷◌, length, leb, any, arith, if◌then◌else◌,
  Bool-cases,
}
use native.Mathlib.Nat.{eq-or-lt_of_le}
use skifer.Observability.Downstream.{Edge, ends}
use skifer.Observability.Downstream.Walks.{Has, here, there, Walk, stay, step}

le_cases : (a b : ℕ) → (a ≤ b) ⊎ (b ≤ a)
le_cases a b = elim (Bool-cases (leb a b)) [
  | inl p ↦ inl (ground (arith, p))
  | inr p ↦ inr (ground (arith, p))
]

-- How many elements pass.
count : {A : Type 0} → (A → Bool) → List A → ℕ
count p [] = 0
count p (x ∷ xs) = let rest = count p xs in if p x then suc rest else rest

crosses : (String → Bool) → String → Option (String × String) → Bool
crosses p y none = false
crosses p y (some (s, t)) = t == y && p s

lands : (String → Bool) → Option (String × String) → Bool
lands p none = false
lands p (some (s, t)) = p t

module _ (es : List Edge) (root : String) where
  -- Reached by at most so many edges.
  within : ℕ → String → Bool
  unfolding crosses
  within zero x = root == x
  within (suc n) x = within n x || any (λ e. crosses (within n) x (ends e)) es

count-le-length : {A : Type 0} (p : A → Bool) (xs : List A) → count p xs ≤ length xs
unfolding count
count-le-length p [] = omega arith
count-le-length p (x ∷ xs) = ground (arith, count-le-length p xs)

-- A larger test passes as many elements only if it passes the same ones.
module _ (p q : Edge → Bool) (larger : (e : Edge) → p e ≡ true → q e ≡ true) where
  count_mono : (xs : List Edge) → count p xs ≤ count q xs
  unfolding count
  count_mono [] = omega arith
  count_mono (x ∷ xs) = ground (arith, count_mono xs, larger x)

  count_same :
      (xs : List Edge) → count p xs ≡ count q xs → (e : Edge) → Has e xs → q e ≡ true → p e ≡ true
  unfolding count
  count_same [] same e at h = elim at [ ]
  count_same (x ∷ xs) same e here h = ground (arith, count_mono xs, larger x)
  count_same (x ∷ xs) same e (there at) h =
      let later = count_same xs (ground (arith, count_mono xs, larger x)) e at h in later

any-Has : (p : Edge → Bool) (xs : List Edge) (e : Edge) → Has e xs → p e ≡ true → any p xs ≡ true
any-Has p [] e at h = elim at [ ]
any-Has p (x ∷ xs) e here h = ground arith
any-Has p (x ∷ xs) e (there at) h = ground (arith, any-Has p xs e at h)

Has-any :
    (p : Edge → Bool) (xs : List Edge) → any p xs ≡ true → (e : Edge) × Has e xs × (p e ≡ true)
Has-any p [] h = cc
Has-any p (x ∷ xs) h = elim (Bool-cases (p x)) [
  | inl yes_x ↦ (x, here, yes_x)
  | inr no_x ↦ let (e, at, passes) = Has-any p xs (ground arith) in (e, there at, passes)
]

crosses-ends :
    (p : String → Bool) (y : String) (o : Option (String × String))
    → crosses p y o ≡ true
    → (s : String) × (o ≡ some (s, y)) × (p s ≡ true)
unfolding crosses
crosses-ends p y none h = cc
crosses-ends p y (some (s, t)) h = (s, ground (arith, (eq_iff t y).0), ground arith)

module _ (es : List Edge) (root : String) where
  within-Walk :
      (n : ℕ) (x : String) → within es root n x ≡ true → (m : ℕ) × (m ≤ n) × Walk es root m x
  unfolding within
  within-Walk zero x h = (0, omega arith, subst (Walk es root 0) ((eq_iff root x).0 h) stay)
  within-Walk (suc n) x h = elim (Bool-cases (within es root n x)) [
    | inl before ↦ let (m, short, walk) = within-Walk n x before in (m, omega (arith, short), walk)
    | inr now ↦
        let (e, at, crossed) =
          Has-any (λ e. crosses (within es root n) x (ends e)) es (ground arith) in
        let (s, is_edge, source) = crosses-ends (within es root n) x (ends e) crossed in
        let (m, short, walk) = within-Walk n s source in
        (suc m, omega (arith, short), step e walk at is_edge)
  ]

  Walk-within : (n : ℕ) (x : String) → Walk es root n x → within es root n x ≡ true
  unfolding within crosses
  Walk-within zero x stay = eq_refl x
  Walk-within (suc n) x (step {x = s} e walk at is_edge) = ground (
    arith,
    any-Has (λ e. crosses (within es root n) x (ends e)) es e at
        (rw is_edge (ground (arith, eq_refl x, Walk-within n s walk))),
  )

  -- The edges that end within so many edges of the root.
  abbrev landed : ℕ → Edge → Bool
  landed n e = lands (within es root n) (ends e)

  abbrev IsStable : ℕ → Type 0
  IsStable n = (x : String) → within es root (suc n) x ≡ true → within es root n x ≡ true

  landed_grows : (n : ℕ) (e : Edge) → landed n e ≡ true → landed (suc n) e ≡ true
  unfolding lands within
  landed_grows n e h = ground arith

  -- No further edge is reached, so no further dataset is.
  IsStable-when : (n : ℕ) → count (landed n) es ≡ count (landed (suc n)) es → IsStable n
  unfolding within lands crosses
  IsStable-when n same x h = elim (Bool-cases (within es root n x)) [
    | inl before ↦ before
    | inr now ↦
        let (e, at, crossed) =
          Has-any (λ e. crosses (within es root n) x (ends e)) es (ground arith) in
        let (s, is_edge, source) = crosses-ends (within es root n) x (ends e) crossed in
        let arrived =
          count_same (landed n) (landed (suc n)) (landed_grows n) es same e at (rw is_edge h) in
        rw is_edge at arrived
  ]

  IsStable-stays : (n : ℕ) → IsStable n → IsStable (suc n)
  unfolding within crosses
  IsStable-stays n stable x h = elim (Bool-cases (within es root (suc n) x)) [
    | inl before ↦ before
    | inr now ↦
        let (e, at, crossed) =
          Has-any (λ e. crosses (within es root (suc n)) x (ends e)) es (ground arith) in
        let (s, is_edge, source) = crosses-ends (within es root (suc n)) x (ends e) crossed in
        let crossed_before : crosses (within es root n) x (ends e) ≡ true =
          rw is_edge (ground (arith, eq_refl x, stable s source)) in
        ground (arith, any-Has (λ e. crosses (within es root n) x (ends e)) es e at crossed_before)
  ]

  one_more : (n : ℕ) → n ≤ count (landed n) es → (suc n ≤ count (landed (suc n)) es) ⊎ IsStable n
  one_more n full =
      let grows = count_mono (landed n) (landed (suc n)) (landed_grows n) es in
      elim (eq-or-lt_of_le grows) [
        | inl same ↦ inr (IsStable-when n same)
        | inr less ↦ inl (omega (arith, full, less))
      ]

  -- Either every layer so far brought an edge, or one of them is stable.
  IsStable-or_full : (n : ℕ) → (n ≤ count (landed n) es) ⊎ ((j : ℕ) × (j < n) × IsStable j)
  IsStable-or_full zero = inl (omega arith)
  IsStable-or_full (suc n) = elim (IsStable-or_full n) [
    | inr (j, less, stable) ↦ inr (j, omega (arith, less), stable)
    | inl full ↦ elim (one_more n full) [
      | inl more ↦ inl more
      | inr stable ↦ inr (n, omega arith, stable)
    ]
  ]

  some-IsStable : (j : ℕ) × (j ≤ length es) × IsStable j
  some-IsStable = elim (IsStable-or_full (suc (length es))) [
    | inl full ↦ absurd (omega (arith, full, count-le-length (landed (suc (length es))) es))
    | inr (j, less, stable) ↦ (j, omega (arith, less), stable)
  ]

  IsStable-from : (j n : ℕ) → IsStable j → j ≤ n → IsStable n
  IsStable-from j zero stable h = subst IsStable (omega (arith, h)) stable
  IsStable-from j (suc n) stable h = elim (eq-or-lt_of_le h) [
    | inl same ↦ subst IsStable same stable
    | inr less ↦ IsStable-stays n (IsStable-from j n stable (omega (arith, less)))
  ]

  within_stable :
      (j n : ℕ)
      → IsStable j
      → j ≤ n
      → (x : String) → within es root n x ≡ true
      → within es root j x ≡ true
  within_stable j zero stable h x reached =
      subst (λ k. within es root k x ≡ true) (omega (arith, h)) reached
  within_stable j (suc n) stable h x reached = elim (eq-or-lt_of_le h) [
    | inl same ↦ subst (λ k. within es root k x ≡ true) (sym same) reached
    | inr less ↦
        let below : j ≤ n = omega (arith, less) in
        within_stable j n stable below x (IsStable-from j n stable below x reached)
  ]

  -- Some walk of at most as many edges as there are leads where a walk leads.
  pub short_walk :
      (n : ℕ) (x : String)
      → Walk es root n x
      → (m : ℕ) × (m ≤ n) × (m ≤ length es) × Walk es root m x
  short_walk n x walk = elim (le_cases n (length es)) [
    | inl short ↦ (n, omega arith, short, walk)
    | inr long ↦
        let (j, few, stable) = some-IsStable in
        let reached =
          within_stable j n stable (omega (arith, long, few)) x (Walk-within n x walk) in
        let (m, short, walk') = within-Walk j x reached in
        (m, omega (arith, short, few, long), omega (arith, short, few), walk')
  ]
