-- ===== src/Risk/Rounds.antt =====
-- The loop over wrappers of analyzeSegment without fuel, and its end.
use ssh_gate_oss.Base.{
  ℕ, zero, suc, ◌≤◌, ◌≡◌, Bool, ◌||◌, [], ◌∷◌, none, some, inl, inr, arith, length, Option-cases,
}
use ssh_gate_oss.Text.{Text, base}
use ssh_gate_oss.Risk.Level.{Risk, medium, Analysis, raise, unreadable}
use ssh_gate_oss.Risk.Words.{Words}
use ssh_gate_oss.Risk.Wrappers.{WrapperSpec, find_wrapper, peel_wrapper_options}
use ssh_gate_oss.Risk.Segment.{elevates, judge, run_wrappers}
use ssh_gate_oss.Risk.Wrapping.{peel-length}

-- The loop over wrappers without fuel, as analyzeSegment goes through it: `Loop r s ws a` is a loop
-- that ends with `a`.
pub data Loop : Risk → Bool → Words → Analysis → Type 0 where
  no_command : {r : Risk} {s : Bool} → Loop r s [] (record { risk = r; uses_sudo = s })
  command :
      {r : Risk} {s : Bool} {w : Text} {ws : Words}
      → find_wrapper (base w) ≡ none
      → Loop r s (w ∷ ws) (judge r s w ws)
  bad_options :
      {r : Risk} {s : Bool} {w : Text} {ws : Words} {spec : WrapperSpec}
      → find_wrapper (base w) ≡ some spec
      → peel_wrapper_options (base w) spec ws ≡ none
      → Loop r s (w ∷ ws) unreadable
  next_round :
      {r : Risk} {s : Bool} {w : Text} {ws rest : Words} {spec : WrapperSpec} {a : Analysis}
      → find_wrapper (base w) ≡ some spec
      → peel_wrapper_options (base w) spec ws ≡ some rest
      → Loop (raise medium r) (s || elevates (base w)) rest a
      → Loop r s (w ∷ ws) a

-- From every state the loop over wrappers ends, and the function with as much fuel as there are words
-- gives the analysis that it ends with.
pub run_wrappers-Loop :
    (f : ℕ) (r : Risk) (s : Bool) (ws : Words) → length ws ≤ f → Loop r s ws (run_wrappers f r s ws)
unfolding run_wrappers
run_wrappers-Loop f r s [] h = no_command
run_wrappers-Loop zero r s (w ∷ ws) h = absurd (omega arith)
run_wrappers-Loop (suc f) r s (w ∷ ws) h = elim (Option-cases (find_wrapper (base w))) [
  | inl e ↦ rw (e, run_wrappers) (command e)
  | inr (spec, e) ↦ elim (Option-cases (peel_wrapper_options (base w) spec ws)) [
    | inl p ↦ rw (e, run_wrappers, p) (bad_options e p)
    | inr (rest, p) ↦
        rw (e, run_wrappers, p)
          (next_round e p (
            run_wrappers-Loop f (raise medium r) (s || elevates (base w)) rest
              (omega (arith, peel-length (base w) spec ws rest p))))
  ]
]
