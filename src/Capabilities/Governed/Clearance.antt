-- ===== src/Capabilities/Governed/Clearance.antt =====
-- What stands behind each call of an executor.
use skifer.Prelude.{
  ◌<◌, String, ◌≡◌, ◌≢◌, refl, subst, Bool, true, false, ◌&&◌, Option, none, some, arith,
  if◌then◌else◌,
}
use skifer.Outcome.{Result, ok}
use skifer.Json.{Value}
use skifer.Json.Copy.{copy_json_safe}
use skifer.Capabilities.Model.{is_irreversible}
use skifer.Capabilities.Autonomy.{AutonomyMode, shadow_mode, resolve_autonomy_mode, is_guarded}
use skifer.Capabilities.Lease.{CredentialLease}
use skifer.Capabilities.Executors.{CapabilityResult}
use skifer.Capabilities.History
use skifer.Capabilities.History.{CapabilityStateEvent}
use skifer.Capabilities.Governed.{Host, World}
use skifer.Capabilities.Governed.Effects.{M, ◌>>=◌, lift, raise, read_latest}
use skifer.Capabilities.Governed.Chains.{lift_lem, bind_lem}
use skifer.Capabilities.Governed.Checks.{authorize}
use skifer.Capabilities.Governed.Execute.{
  Request, execute, execute_as, identity, dispatch, run_fresh, run_in_mode, begin, is_shadow,
  propose, refuse_irreversible,
}
use skifer.Capabilities.Governed.Trace.{calls_for, Quiet, Quiet-lift}
use skifer.Capabilities.Governed.Trace.Quiet.{quiet, Quiet-resolve_prior}
use skifer.Capabilities.Governed.Begun.{Begun, Rise, Rise-bind, begin-Rise}

-- What the guards behind the resolution of the mode let through.
record Entered {h : Host} (w : World h) (r : Request) (d : String) (copied : Value)
    (mode : AutonomyMode) (e : String) : Type 0 where
  same : d ≡ e
  not_shadow : mode ≢ shadow_mode
  reversible : (is_guarded mode && is_irreversible r.definition.reversibility) ≡ false
  begun : Begun w r d copied mode

-- The guards that this request passed, in a world with these rows.
pub record Cleared {h : Host} (w : World h) (r : Request) (d : String) : Type 0 where
  pub same_request : identity h r none ≡ ok d
  pub unknown : History.latest_state h.lib h.lower d w.rows ≡ ok none
  pub copied : Value
  pub is_copy : copy_json_safe r.arguments ≡ ok copied
  pub authorized : authorize h.python h.scopes r.definition copied ≡ ok tt
  pub mode : AutonomyMode
  pub resolved : resolve_autonomy_mode r.definition (some r.mode) ≡ ok mode
  pub not_shadow : mode ≢ shadow_mode
  pub reversible : (is_guarded mode && is_irreversible r.definition.reversibility) ≡ false
  pub begun : Begun w r d copied mode

module _ {h : Host} (r : Request) (d : String) (copied : Value) (mode : AutonomyMode) where
  propose-Rise :
      (w : World h) (e : String) (Q : Type 0) (l : Option CredentialLease)
      → Rise {h = h} w e Q (propose r l w)
  unfolding Rise propose lift raise
  propose-Rise w e Q none q = absurd (omega (arith, q))
  propose-Rise w e Q (some l) q = absurd (omega (arith, q))

  run_in_mode-Rise :
      (w : World h) (e : String)
      → Rise w e (Entered w r d copied mode e) (run_in_mode r d copied mode w)
  unfolding run_in_mode Rise refuse_irreversible lift
  run_in_mode-Rise w e = go (is_shadow mode) refl
    where
      go :
          (b : Bool)
          → is_shadow mode ≡ b
          → Rise w e (Entered w r d copied mode e) (
              (if b
                  then propose r r.lease
                  else (refuse_irreversible r mode >>= λ _. begin r d copied mode))
                w)
      go true p = propose-Rise w e (Entered w r d copied mode e) r.lease
      go false p =
          Rise-bind w e (Entered w r d copied mode e) _ _ w (omega arith) (Quiet-lift _)
            λ _ le allowed q.
              let x = begin-Rise r d copied mode w _ e le q in
              record {
                same = x.0;
                not_shadow = λ s. ground (arith, s, p);
                reversible = ground (arith, allowed);
                begun = x.1;
              }

module _ {h : Host} (r : Request) (d : String) (w : World h) where
  -- A check at the start, which leaves the world as it is.
  Rise-check :
      {A : Type 0} (e : String) (Q : Type 0) (c : Result A) (f : A → M h CapabilityResult)
      → ((a : A) → c ≡ ok a → Rise w e Q (f a w))
      → Rise w e Q ((lift c >>= f) w)
  unfolding Rise
  Rise-check e Q c f k = lift_lem (Rise w e Q) c f w (λ _ _ x. absurd (omega (arith, x))) k

  run_fresh-Rise :
      (copied : Value) (e : String)
      → identity h r none ≡ ok d
      → copy_json_safe r.arguments ≡ ok copied
      → History.latest_state h.lib h.lower d w.rows ≡ ok none
      → Rise w e (Cleared w r e) (run_fresh r d copied w)
  unfolding run_fresh Rise
  run_fresh-Rise copied e i c l = Rise-check e Q _ _ λ _ authorized.
      Rise-check e Q _ _ λ mode resolved q.
        let x = run_in_mode-Rise r d copied mode w e q in
        subst (λ y. Cleared w r y) x.same
          (record {
            same_request = i;
            unknown = l;
            copied = copied;
            is_copy = c;
            authorized = authorized;
            mode = mode;
            resolved = resolved;
            not_shadow = x.not_shadow;
            reversible = x.reversible;
            begun = x.begun;
          })
    where
      Q : Type 0
      Q = Cleared w r e

  dispatch-Rise :
      (copied : Value) (e : String)
      → identity h r none ≡ ok d
      → copy_json_safe r.arguments ≡ ok copied
      → (prior : Option CapabilityStateEvent)
      → History.latest_state h.lib h.lower d w.rows ≡ ok prior
      → Rise w e (Cleared w r e) (dispatch r d copied prior w)
  unfolding dispatch Rise
  dispatch-Rise copied e i c none l = run_fresh-Rise copied e i c l
  dispatch-Rise copied e i c (some prior) l = λ q. absurd (omega (arith, q, (silent.at w).calls e))
    where
      silent : Quiet {h = h} (dispatch r d copied (some prior))
      silent = search (quiet, Quiet-resolve_prior)

-- An execution that calls an executor for `e` has passed every guard: `e` is the hash of its own
-- request, of which the journal held no event; its arguments were copied, its definition is
-- authorised for them; its effective mode is not SHADOW, nor GUARDED for an irreversible
-- capability; the report that `_prepare_report` returned in this world is an ALLOW of this capability
-- and version, and for a capability with preconditions has one outcome for each of them, in order,
-- each ALLOW; in SUPERVISED mode there was an approval that binds this request and that report at the
-- time that the clock showed behind it; and the executor is registered.
pub execute-Cleared :
    (h : Host) (r : Request) (w : World h) (e : String)
    → calls_for e w.calls < calls_for e (execute r w).1.calls
    → Cleared w r e
unfolding execute execute_as Rise read_latest
execute-Cleared h r w e = Rise-check r e w e Q _ _ λ _ _. Rise-check r e w e Q _ _ λ _ _.
    Rise-check r e w e Q _ _ λ d i. Rise-check r e w e Q _ _ λ copied c.
      bind_lem (Rise w e Q) (read_latest d) (dispatch r d copied) w
        (λ _ _ x. absurd (omega (arith, x))) (λ prior l. dispatch-Rise r d w copied e i c prior l)
  where
    Q : Type 0
    Q = Cleared w r e
