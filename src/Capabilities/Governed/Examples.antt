-- ===== src/Capabilities/Governed/Examples.antt =====
-- The theorems about governed execution at a concrete host, and tests of the model.
use package.text.Mathlib.TextLemmas.{head-eq_of_cons-eq, tail-eq_of_cons-eq}
use Prim.Native.Char.{code}
use skifer.Prelude.{ℕ, zero, suc, ◌≤◌, ◌<◌, String, ◌≡◌, refl, sym, ap, true, List, [], ◌∷◌, arith}
use skifer.Capabilities.History.Rows.{has_request}
use skifer.Capabilities.Governed.Trace.{calls_for}
use skifer.Capabilities.Governed.Session.{Operation, run, restart, start, session, at_most_once}
use skifer.Capabilities.Governed.Samples.{tally, sample_host, sample_hash, refund_request}

head_ne : {s t : String} → String.◌∷◌ "e" s ≡ String.◌∷◌ "1" t → ⊥
head_ne p = let c : code "e" ≡ code "1" = ap code (head-eq_of_cons-eq p) in absurd (omega arith)

tally-injective : (s t : ℕ) → tally s ≡ tally t → s ≡ t
unfolding tally
tally-injective zero zero p = refl
tally-injective zero (suc t) p = absurd (head_ne p)
tally-injective (suc s) zero p = absurd (head_ne (sym p))
tally-injective (suc s) (suc t) p = ap suc (tally-injective s t (tail-eq_of_cons-eq p))

abbrev twice_over : List Operation
twice_over = run refund_request ∷ restart ∷ run refund_request ∷ []

at_most_once_example :
    (calls_for sample_hash (session twice_over (start sample_host)).calls ≤ 1)
    × (0 < calls_for sample_hash (session twice_over (start sample_host)).calls
        → has_request sample_hash (session twice_over (start sample_host)).rows ≡ true)
at_most_once_example = at_most_once sample_host tally-injective twice_over sample_hash
