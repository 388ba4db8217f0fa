-- ===== src/Capabilities/Governed/Effects.antt =====
-- Actions on the world that may raise. What was written before a raise stays written.
use skifer.Prelude.{ℕ, ◌+◌, String, Option, List, ◌∷◌}
use skifer.Outcome.{Error, governed_execution_error, interrupted, Result, ok, err, require}
use skifer.Time.{DateTime, is_utc}
use skifer.Json.{Value}
use skifer.Capabilities.Model.{CapabilityDefinition}
use skifer.Capabilities.Autonomy.{ExecutionState}
use skifer.Capabilities.History
use skifer.Capabilities.History.{CapabilityStateEvent, make_event}
use skifer.Capabilities.History.Detail.{copy_bounded_detail}
use skifer.Capabilities.Governed.{Host, World}

abbrev pub M : Host → Type 0 → Type 0
M h A = World h → Result A × World h

module _ {h : Host} where
  abbrev pub continue : {A B : Type 0} → Result A → (A → M h B) → M h B
  continue (ok a) f w = f a w
  continue (err e) f w = (err e, w)

  infixl 5 ◌>>=◌ ◌>>◌
  unfoldable pub ◌>>=◌ : {A B : Type 0} → M h A → (A → M h B) → M h B
  ◌>>=◌ m f w = let (r, w') = m w in continue r f w'

  abbrev pub ◌>>◌ : {A B : Type 0} → M h A → M h B → M h B
  m >> n = m >>= λ _. n

  unfoldable pub pure : {A : Type 0} → A → M h A
  pure a w = (ok a, w)

  unfoldable pub lift : {A : Type 0} → Result A → M h A
  lift r w = (r, w)

  unfoldable pub raise : {A : Type 0} → Error → M h A
  raise e w = (err e, w)

  -- `except Exception`: an interrupt passes, with the state as it is.
  abbrev pub recover : {A : Type 0} → Result A → (Error → M h A) → M h A
  recover (ok a) f w = (ok a, w)
  recover (err interrupted) f w = (err interrupted, w)
  recover (err e) f w = f e w

  unfoldable pub catch : {A : Type 0} → M h A → (Error → M h A) → M h A
  catch m f w = let (r, w') = m w in recover r f w'

  -- The outside world answers at this moment, and time goes on.
  unfoldable pub ask : {A : Type 0} → (ℕ → A) → M h A
  ask answer w = (ok (answer w.tick), record w { tick = w.tick + 1 })

  -- A registered executor is called for this request.
  unfoldable pub call_out : {A : Type 0} → String → String → (ℕ → A) → M h A
  call_out digest executor answer w = (
    ok (answer w.tick),
    record w {
      tick = w.tick + 1;
      calls = record { request_hash = digest; executor = executor; moment = w.tick } ∷ w.calls;
    },
  )

  -- A registered lookup is called for this request.
  unfoldable pub look_up : {A : Type 0} → String → String → (ℕ → A) → M h A
  look_up digest executor answer w = (
    ok (answer w.tick),
    record w {
      tick = w.tick + 1;
      lookups = record { request_hash = digest; executor = executor; moment = w.tick } ∷ w.lookups;
    },
  )

  -- The journal's queries.
  unfoldable pub read_latest : String → M h (Option CapabilityStateEvent)
  read_latest digest w = (History.latest_state h.lib h.lower digest w.rows, w)

  unfoldable pub read_events : String → ℕ → M h (List CapabilityStateEvent)
  read_events digest limit w = (History.events_for h.lib h.lower digest limit w.rows, w)

  abbrev pub write_rows : Result (List (History.Row h.lib)) → M h (Unit {0})
  write_rows (ok rows) w = (ok tt, record w { rows = rows })
  write_rows (err e) w = (err e, w)

  -- `self._history.append`
  unfoldable pub append : CapabilityStateEvent → M h (Unit {0})
  append e w = write_rows (History.append h.lib h.lower e w.rows) w

  -- `_now`
  unfoldable pub read_now : M h DateTime
  read_now = do now ← ask h.clock; lift (require (is_utc now) governed_execution_error); pure now

  -- The construction of the event, from its bounded detail.
  unfoldable pub stamp :
      String → CapabilityDefinition → String → ExecutionState → Value → M h CapabilityStateEvent
  stamp digest definition subject state bounded = do
    event_id ← ask h.uuid
    now ← read_now
    lift (
        make_event h.lib h.lower (record {
          event_id = event_id;
          request_hash = digest;
          capability_id = definition.id;
          capability_version = definition.version;
          subject = subject;
          state = state;
          occurred_at = now;
          detail = bounded;
        }))

  -- `_event`
  unfoldable pub event :
      String → CapabilityDefinition → String → ExecutionState → Value → M h CapabilityStateEvent
  event digest definition subject state detail = do
    bounded ← lift (copy_bounded_detail h.lib h.lower h.max_detail_bytes detail)
    stamp digest definition subject state bounded

  -- `self._history.append(self._event(...))`
  unfoldable pub attest :
      String → CapabilityDefinition → String → ExecutionState → Value → M h (Unit {0})
  attest digest definition subject state detail = do
    e ← event digest definition subject state detail
    append e
