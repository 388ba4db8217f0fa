-- ===== src/Observability/Recipients/Notified.antt =====
-- Who is told of an incident.
use skifer.Prelude.{
  ℕ, ◌≤◌, String, ◌≡◌, ◌↔◌, refl, sym, subst, Bool, true, false, not, ◌&&◌, ◌||◌, ◌==◌, eq_iff,
  eq_refl, inl, inr, Option, none, some, List, [], ◌∷◌, ◌++◌, any, any-append_one, All, elem, arith,
  Bool-cases,
}
use skifer.Observability.Downstream.{Edge, bounded_downstream_datasets}
use skifer.Observability.Downstream.Walks.{Walk, stay}
use skifer.Observability.Downstream.Exact.{bounded_downstream_datasets-Walk}
use skifer.Observability.Recipients.{
  Strip, Owner, Recipient, same_key, recipient_from_owner, add, add_owners, resolve_recipients,
}

-- Somebody with this contact and channel is told.
unfoldable pub told : Recipient → List Recipient → Bool
told r rs = any (λ s. same_key s r) rs

-- No two recipients have the same contact and channel.
unfoldable pub distinct_keys : List Recipient → Bool
distinct_keys [] = true
distinct_keys (r ∷ rs) = not (any (λ s. same_key r s) rs) && distinct_keys rs

told-append_one :
    (r x : Recipient) (rs : List Recipient) → told r (rs ++ x ∷ []) ≡ (told r rs || same_key x r)
unfolding told
told-append_one r x rs = any-append_one (λ s. same_key s r) rs x

distinct_keys-append :
    (x : Recipient) (rs : List Recipient)
    → distinct_keys rs ≡ true
    → told x rs ≡ false
    → distinct_keys (rs ++ x ∷ []) ≡ true
unfolding distinct_keys told
distinct_keys-append x [] d h = refl
distinct_keys-append x (r ∷ rs) d h =
    ground (arith, distinct_keys-append x rs, any-append_one (λ s. same_key r s) rs x)

distinct_keys-add :
    (o : Option Recipient) (rs : List Recipient)
    → distinct_keys rs ≡ true
    → distinct_keys (add o rs) ≡ true
unfolding add told
distinct_keys-add none rs d = d
distinct_keys-add (some r) rs d = ground (arith, distinct_keys-append r rs d)

told-add :
    (r : Recipient) (o : Option Recipient) (rs : List Recipient)
    → told r rs ≡ true
    → told r (add o rs) ≡ true
unfolding add
told-add r none rs h = h
told-add r (some s) rs h = ground (arith, told-append_one r s rs)

told-added : (r : Recipient) (rs : List Recipient) → told r (add (some r) rs) ≡ true
unfolding add told
told-added r rs = ground (arith, told-append_one r r rs, eq_refl r.contact, eq_refl r.via)

module _ (strip : Strip) (owner_for : String → Option Owner) where
  -- What the owner of a dataset gives.
  abbrev pub recipient_of : String → Option Recipient
  recipient_of fqn = recipient_from_owner strip (owner_for fqn) fqn

  distinct_keys-add_owners :
      (fqns : List String) (rs : List Recipient)
      → distinct_keys rs ≡ true
      → distinct_keys (add_owners strip owner_for fqns rs) ≡ true
  unfolding add_owners
  distinct_keys-add_owners [] rs d = d
  distinct_keys-add_owners (fqn ∷ fqns) rs d =
      distinct_keys-add_owners fqns (add (recipient_of fqn) rs)
        (distinct_keys-add (recipient_of fqn) rs d)

  told-add_owners :
      (r : Recipient) (fqns : List String) (rs : List Recipient)
      → told r rs ≡ true
      → told r (add_owners strip owner_for fqns rs) ≡ true
  unfolding add_owners
  told-add_owners r [] rs h = h
  told-add_owners r (fqn ∷ fqns) rs h =
      told-add_owners r fqns (add (recipient_of fqn) rs) (told-add r (recipient_of fqn) rs h)

  told-owner :
      (r : Recipient) (fqn : String) (fqns : List String) (rs : List Recipient)
      → elem fqn fqns ≡ true
      → recipient_of fqn ≡ some r
      → told r (add_owners strip owner_for fqns rs) ≡ true
  unfolding add_owners
  told-owner r fqn [] rs h e = cc
  told-owner r fqn (f ∷ fqns) rs h e = elim (Bool-cases (f == fqn)) [
    | inl same ↦
        let p = (eq_iff f fqn).0 same in
        rw p (rw e (told-add_owners r fqns (add (some r) rs) (told-added r rs)))
    | inr other ↦ told-owner r fqn fqns (add (recipient_of f) rs) (ground (arith, h, other)) e
  ]

  -- Each recipient is the one that the owner of its dataset gives.
  abbrev Sourced : (String → Type 0) → List Recipient → Type 0
  Sourced P rs = All (λ r. P r.source_fqn × (recipient_of r.source_fqn ≡ some r)) rs

  source_of : (fqn : String) (r : Recipient) → recipient_of fqn ≡ some r → r.source_fqn ≡ fqn
  unfolding recipient_from_owner
  source_of fqn r h = ground arith

  Sourced-append :
      (P : String → Type 0) (fqn : String) (r : Recipient) (rs : List Recipient)
      → P fqn
      → recipient_of fqn ≡ some r
      → Sourced P rs
      → Sourced P (rs ++ r ∷ [])
  Sourced-append P fqn r [] p h s =
      (subst (λ f. P f × (recipient_of f ≡ some r)) (sym (source_of fqn r h)) (p, h), tt)
  Sourced-append P fqn r (x ∷ rs) p h s = (s.0, Sourced-append P fqn r rs p h s.1)

  Sourced-add :
      (P : String → Type 0) (fqn : String) (rs : List Recipient) (o : Option Recipient)
      → recipient_of fqn ≡ o
      → P fqn
      → Sourced P rs
      → Sourced P (add o rs)
  unfolding add
  Sourced-add P fqn rs none h p s = s
  Sourced-add P fqn rs (some r) h p s = elim (Bool-cases (any (λ s. same_key s r) rs)) [
    | inl known ↦ rw known s
    | inr unknown ↦ rw unknown (Sourced-append P fqn r rs p h s)
  ]

  Sourced-add_owners :
      (P : String → Type 0) (fqns : List String) (rs : List Recipient)
      → ((fqn : String) → elem fqn fqns ≡ true → P fqn)
      → Sourced P rs
      → Sourced P (add_owners strip owner_for fqns rs)
  unfolding add_owners
  Sourced-add_owners P [] rs p s = s
  Sourced-add_owners P (f ∷ fqns) rs p s =
      Sourced-add_owners P fqns (add (recipient_of f) rs) (λ g at. p g (ground (arith, at)))
        (Sourced-add P f rs (recipient_of f) refl (p f (ground (arith, eq_refl f))) s)

  abbrev pub Affected : List Edge → String → ℕ → String → Type 0
  Affected edges target max_depth fqn = (n : ℕ) × (n ≤ max_depth) × Walk edges target n fqn

  listed-Affected :
      (edges : List Edge) (target : String) (max_depth : ℕ) (fqn : String)
      → (elem fqn (target ∷ bounded_downstream_datasets edges target max_depth) ≡ true)
        ↔ Affected edges target max_depth fqn
  listed-Affected edges target max_depth fqn = elim (Bool-cases (target == fqn)) [
    | inl same ↦
        let p = (eq_iff target fqn).0 same in
        (
          λ h. (0, omega arith, subst (Walk edges target 0) p stay),
          λ affected. ground (arith, same),
        )
    | inr other ↦
        let exact = bounded_downstream_datasets-Walk edges target max_depth fqn in
        (
          λ h. let (apart, n, short, walk) = exact.0 (ground (arith, h, other)) in (n, short, walk),
          λ (n, short, walk). ground (
            arith,
            exact.1 ((λ q. ground (arith, other, (eq_iff target fqn).1 q)), n, short, walk),
          ),
        )
  ]

-- Those who are told of an incident: no two have the same contact and channel; each is what the
-- owner of its dataset gives, and that dataset is the target or is reached from it by a walk of at most
-- the maximal depth; and whatever recipient the owner of such a dataset gives, somebody with its
-- contact and channel is told.
pub resolve_recipients-Affected :
    (strip : Strip) (owner_for : String → Option Owner) (edges : List Edge) (target : String)
    (max_depth : ℕ)
    → (distinct_keys (resolve_recipients strip owner_for edges target max_depth) ≡ true)
      × All
          (λ r.
            Affected strip owner_for edges target max_depth r.source_fqn
            × (recipient_of strip owner_for r.source_fqn ≡ some r))
          (resolve_recipients strip owner_for edges target max_depth)
      × ((fqn : String) (r : Recipient)
          → Affected strip owner_for edges target max_depth fqn
          → recipient_of strip owner_for fqn ≡ some r
          → told r (resolve_recipients strip owner_for edges target max_depth) ≡ true)
unfolding resolve_recipients distinct_keys
resolve_recipients-Affected strip owner_for edges target max_depth =
    let fqns = target ∷ bounded_downstream_datasets edges target max_depth in
    let listed = listed-Affected strip owner_for edges target max_depth in
    (
      distinct_keys-add_owners strip owner_for fqns [] refl,
      Sourced-add_owners strip owner_for (Affected strip owner_for edges target max_depth) fqns []
          (λ fqn at. (listed fqn).0 at) tt,
      λ fqn r affected h. told-owner strip owner_for r fqn fqns [] ((listed fqn).1 affected) h,
    )
