-- ===== src/Capabilities/Governed/Once/Compensated.antt =====
-- At most one external call, over a compensation.
use skifer.Prelude.{String, Option, some}
use skifer.Outcome.{Result, ok, err}
use skifer.Capabilities.Executors.{CapabilityResult}
use skifer.Capabilities.Governed.{Host, World}
use skifer.Capabilities.Governed.Effects.{M, ◌>>=◌, continue}
use skifer.Capabilities.Governed.Execute.{Request, execute_as}
use skifer.Capabilities.Governed.Compensate.{Compensation, compensate, complete}
use skifer.Capabilities.Governed.Trace.{Quiet, Quiet-lift, Quiet-read_latest}
use skifer.Capabilities.Governed.Trace.Attest.{Quiet-attest}
use skifer.Capabilities.Governed.Trace.Quiet.{quiet}
use skifer.Capabilities.Governed.Once.{IsSound, Within-IsSound, Distinct, execute_as-IsSound}

module _ {h : Host} (distinct : Distinct h) where
  -- An action that calls nothing, in front of another.
  Quiet-IsSound :
      {A B : Type 0} (m : M h A) (f : A → M h B) (w : World h)
      → Quiet m
      → ((x : A) (v : World h) → IsSound v → IsSound (f x v).1)
      → IsSound w
      → IsSound ((m >>= f) w).1
  unfolding ◌>>=◌
  Quiet-IsSound {A = A} m f w q p s = go (m w).0 (m w).1 (Within-IsSound (q.at w) s)
    where
      go : (o : Result A) (v : World h) → IsSound v → IsSound (continue o f v).1
      go (ok x) v t = p x v t
      go (err e) v t = t

  compensated-IsSound :
      (r : Request) (known : Option String) (c : Compensation) (hash : String) (w : World h)
      → IsSound w
      → IsSound ((execute_as r known >>= complete c hash) w).1
  unfolding ◌>>=◌
  compensated-IsSound r known c hash w s =
      go (execute_as r known w).0 (execute_as r known w).1 (execute_as-IsSound distinct r known w s)
    where
      q : (result : CapabilityResult) → Quiet {h = h} (complete c hash result)
      q result = unfold complete in search (quiet, Quiet-attest)

      go :
          (o : Result CapabilityResult) (v : World h)
          → IsSound v
          → IsSound (continue o (complete c hash) v).1
      go (ok x) v t = Within-IsSound ((q x).at v) t
      go (err e) v t = t

  pub compensate-IsSound : (c : Compensation) (w : World h) → IsSound w → IsSound (compensate c w).1
  unfolding compensate
  compensate-IsSound c w s =
      Quiet-IsSound _ _ w (Quiet-lift _)
        (λ _ w. Quiet-IsSound _ _ w (Quiet-lift _) (λ _ w.
          Quiet-IsSound _ _ w (Quiet-read_latest _) (λ latest w.
            Quiet-IsSound _ _ w (Quiet-lift _) (λ original w.
              Quiet-IsSound _ _ w (Quiet-lift _) (λ _ w.
                Quiet-IsSound _ _ w (Quiet-lift _) (λ definition w.
                  Quiet-IsSound _ _ w (Quiet-lift _) (λ hash w.
                    Quiet-IsSound _ _ w (Quiet-attest _ _ _ _ _)
                      (λ _ w. compensated-IsSound _ (some hash) c hash w))))))))
        s
