-- ===== src/Capabilities/Governed/Trace.antt =====
-- What an action may do to the outside world and to the journal, with a rule for each way to build
-- an action.
pub mod Attest
pub mod Quiet
use skifer.Prelude.{
  ℕ, zero, suc, ◌+◌, ◌≤◌, ◌<◌, String, ◌≡◌, refl, Bool, true, false, ◌||◌, ◌==◌, Option, none, some,
  List, [], ◌∷◌, ◌++◌, arith, if◌then◌else◌, Bool-cases, inl, inr,
}
use skifer.Outcome.{Error, interrupted, Result, ok, err}
use skifer.Json.{Value, JsonLibrary}
use skifer.Capabilities.Model.{CapabilityDefinition}
use skifer.Capabilities.Autonomy.{ExecutionState}
use skifer.Capabilities.History
use skifer.Capabilities.History.{CapabilityStateEvent, Row, insert_or_ignore, has_event}
use skifer.Capabilities.History.Rows.{
  has_request, has_request-insert_or_ignore, Grown, Grown-refl, Grown-trans,
}
use skifer.Capabilities.Governed.{Host, World, ExternalCall}
use skifer.Capabilities.Governed.Effects.{
  M, ◌>>=◌, continue, pure, lift, raise, recover, catch, ask, call_out, look_up, read_latest,
  read_events, append, event, attest,
}

-- The calls that were made for a request.
unfoldable pub calls_for : String → List ExternalCall → ℕ
calls_for d [] = 0
calls_for d (c ∷ cs) = let rest = calls_for d cs in if c.request_hash == d then suc rest else rest

module _ {lib : JsonLibrary} (uuid : ℕ → String) where
  -- Each row's identity was given out before this moment.
  abbrev pub Issued : ℕ → List (Row lib) → Type 0
  Issued tick [] = Unit
  Issued tick (r ∷ rs) = ((t : ℕ) × (t < tick) × (r.event_id ≡ uuid t)) × Issued tick rs

  pub Issued-mono : (s t : ℕ) (rows : List (Row lib)) → s ≤ t → Issued s rows → Issued t rows
  Issued-mono s t [] le p = tt
  Issued-mono s t (r ∷ rs) le p = ((p.0.0, omega arith, p.0.2), Issued-mono s t rs le p.1)

  pub Issued-append :
      (t : ℕ) (rows : List (Row lib)) (r : Row lib)
      → Issued t rows
      → (s : ℕ) × (s < t) × (r.event_id ≡ uuid s)
      → Issued t (rows ++ r ∷ [])
  Issued-append t [] r p q = (q, tt)
  Issued-append t (x ∷ rows) r p q = (p.0, Issued-append t rows r p.1 q)

-- No call for any request, and at most one for the request `d`.
abbrev pub no_call : String → ℕ
no_call x = 0

abbrev pub one_call : String → String → ℕ
one_call d x = if d == x then 1 else 0

module _ {h : Host} where
  -- From `w` to `v`: the calls stay within an allowance, what the journal knows stays known, and
  -- the rows' identities are those given out.
  pub record Within (allow : String → ℕ) (w v : World h) : Type 0 where
    pub calls : (d : String) → calls_for d v.calls ≤ calls_for d w.calls + allow d
    pub kept : (d : String) → has_request d w.rows ≡ true → has_request d v.rows ≡ true
    pub later : w.tick ≤ v.tick
    pub grown : Grown w.rows v.rows
    pub issued : Issued h.uuid w.tick w.rows → Issued h.uuid v.tick v.rows

  pub Within-refl : (w : World h) → Within no_call w w
  Within-refl w = record {
    calls = λ d. omega arith;
    kept = λ d p. p;
    later = omega arith;
    grown = Grown-refl w.rows;
    issued = λ p. p;
  }

  pub Within-trans :
      (a b c : String → ℕ) {w v u : World h}
      → ((d : String) → a d + b d ≤ c d)
      → Within a w v
      → Within b v u
      → Within c w u
  Within-trans a b c {w} {v} {u} le p q = record {
    calls = λ d. omega (arith, p.calls d, q.calls d, le d);
    kept = λ d x. q.kept d (p.kept d x);
    later = omega (arith, p.later, q.later);
    grown = Grown-trans w.rows v.rows u.rows p.grown q.grown;
    issued = λ x. q.issued (p.issued x);
  }

  -- The action stays within the allowance, whether it returns or raises.
  pub record Runs {A : Type 0} (allow : String → ℕ) (m : M h A) : Type 0 where
    pub at : (w : World h) → Within allow w (m w).1

  abbrev pub Quiet : {A : Type 0} → M h A → Type 0
  Quiet m = Runs no_call m

module _ {h : Host} {A : Type 0} where
  pub Quiet-pure : (a : A) → Quiet {h = h} (pure a)
  unfolding pure
  Quiet-pure a = record { at = λ w. Within-refl w }

  pub Quiet-lift : (r : Result A) → Quiet {h = h} (lift r)
  unfolding lift
  Quiet-lift r = record { at = λ w. Within-refl w }

  pub Quiet-raise : (e : Error) → Quiet {h = h} (raise {A = A} e)
  unfolding raise
  Quiet-raise e = record { at = λ w. Within-refl w }

  pub Quiet-ask : (f : ℕ → A) → Quiet {h = h} (ask f)
  unfolding ask
  Quiet-ask f = record {
    at = λ w. record {
      calls = λ d. omega arith;
      kept = λ d p. p;
      later = omega arith;
      grown = Grown-refl w.rows;
      issued = λ p. Issued-mono h.uuid w.tick (w.tick + 1) w.rows (omega arith) p;
    };
  }

  pub Quiet-look_up : (d x : String) (f : ℕ → A) → Quiet {h = h} (look_up d x f)
  unfolding look_up
  Quiet-look_up d x f = record {
    at = λ w. record {
      calls = λ e. omega arith;
      kept = λ e p. p;
      later = omega arith;
      grown = Grown-refl w.rows;
      issued = λ p. Issued-mono h.uuid w.tick (w.tick + 1) w.rows (omega arith) p;
    };
  }

  pub Runs-call_out : (d x : String) (f : ℕ → A) → Runs {h = h} (one_call d) (call_out d x f)
  unfolding call_out calls_for
  Runs-call_out d x f = record {
    at = λ w. record {
      calls = λ e. ground arith;
      kept = λ e p. p;
      later = omega arith;
      grown = Grown-refl w.rows;
      issued = λ p. Issued-mono h.uuid w.tick (w.tick + 1) w.rows (omega arith) p;
    };
  }

  pub Runs-if :
      (allow : String → ℕ) (b : Bool) (m n : M h A)
      → Runs allow m
      → Runs allow n
      → Runs allow (if b then m else n)
  Runs-if allow true m n p q = p
  Runs-if allow false m n p q = q

  pub Quiet-Runs : (d : String) (m : M h A) → Quiet m → Runs (one_call d) m
  Quiet-Runs d m p = record {
    at = λ w.
        Within-trans no_call (one_call d) (one_call d) (λ e. omega arith) (p.at w)
          (record {
            calls = λ e. omega arith;
            kept = λ e x. x;
            later = omega arith;
            grown = Grown-refl (m w).1.rows;
            issued = λ x. x;
          });
  }

  pub Runs-catch :
      (allow : String → ℕ) (m : M h A) (f : Error → M h A)
      → Runs allow m
      → ((e : Error) → Quiet (f e))
      → Runs allow (catch m f)
  unfolding catch
  Runs-catch allow m f p q = record { at = λ w. go (m w).0 w (m w).1 (p.at w) }
    where
      go : (r : Result A) (w v : World h) → Within allow w v → Within allow w (recover r f v).1
      go (ok a) w v x = x
      go (err interrupted) w v x = x
      go (err e) w v x = Within-trans allow no_call allow (λ d. omega arith) x ((q e).at v)

module _ {h : Host} {A B : Type 0} where
  pub Runs-bind_sum :
      (a b c : String → ℕ) (m : M h A) (f : A → M h B)
      → ((d : String) → a d + b d ≤ c d)
      → Runs a m
      → ((x : A) → Runs b (f x))
      → Runs c (m >>= f)
  unfolding ◌>>=◌
  Runs-bind_sum a b c m f le p q = record { at = λ w. go (m w).0 w (m w).1 (p.at w) }
    where
      go : (r : Result A) (w v : World h) → Within a w v → Within c w (continue r f v).1
      go (ok x) w v s = Within-trans a b c le s ((q x).at v)
      go (err e) w v s = Within-trans a no_call c (λ d. omega (arith, le d)) s (Within-refl v)

  -- First an action that calls nothing.
  pub Runs-bind :
      (allow : String → ℕ) (m : M h A) (f : A → M h B)
      → Quiet m
      → ((x : A) → Runs allow (f x))
      → Runs allow (m >>= f)
  Runs-bind allow m f p q = Runs-bind_sum no_call allow allow m f (λ d. omega arith) p q

  -- Behind the action nothing is called.
  pub Runs-then :
      (allow : String → ℕ) (m : M h A) (f : A → M h B)
      → Runs allow m
      → ((x : A) → Quiet (f x))
      → Runs allow (m >>= f)
  Runs-then allow m f p q = Runs-bind_sum allow no_call allow m f (λ d. omega arith) p q

pub Quiet-read_latest : {h : Host} (d : String) → Quiet {h = h} (read_latest d)
unfolding read_latest
Quiet-read_latest d = record { at = λ w. Within-refl w }

pub Quiet-read_events : {h : Host} (d : String) (n : ℕ) → Quiet {h = h} (read_events d n)
unfolding read_events
Quiet-read_events d n = record { at = λ w. Within-refl w }
