-- ===== src/Risk/Segment.antt =====
-- analyzeSegment of risk.go: leading assignments, wrappers, and the command itself.
use ssh_gate_oss.Base.{ℕ, zero, suc, Bool, false, ◌||◌, [], ◌∷◌, none, some, if◌then◌else◌, length}
use ssh_gate_oss.Text.{Text, codes, text_eq, contains, contains_any, base}
use ssh_gate_oss.Risk.Level.{Risk, low, medium, high, Analysis, raise, unreadable}
use ssh_gate_oss.Risk.Words.{Words, is_assignment}
use ssh_gate_oss.Risk.Wrappers.{find_wrapper, peel_wrapper_options}
use ssh_gate_oss.Risk.Commands.{interpreters, destructive_command, read_only_command}

-- name == "sudo" || name == "doas".
unfoldable pub elevates : Text → Bool
unfolding text_eq
elevates name = text_eq name (codes "sudo") || text_eq name (codes "doas")

-- A name with a glob character.
unfoldable pub has_glob : Text → Bool
unfolding contains_any
has_glob name = contains_any name (codes "*?[]")

-- The end of analyzeSegment: the command word, once the wrappers are peeled.
unfoldable pub judge : Risk → Bool → Text → Words → Analysis
judge risk sudo name args =
    if has_glob name
    then unreadable
    else if contains interpreters (base name)
    then record { risk = raise high risk; uses_sudo = sudo }
    else if destructive_command (base name) args
    then record { risk = raise high risk; uses_sudo = sudo }
    else if read_only_command (base name) args
    then record { risk = risk; uses_sudo = sudo }
    else record { risk = raise medium risk; uses_sudo = sudo }

-- The wrapper loop of analyzeSegment and what follows it. Each round takes at least one word, so
-- the number of words is enough fuel.
unfoldable pub run_wrappers : ℕ → Risk → Bool → Words → Analysis
run_wrappers fuel risk sudo [] = record { risk = risk; uses_sudo = sudo }
run_wrappers zero risk sudo (w ∷ ws) = unreadable
run_wrappers (suc fuel) risk sudo (w ∷ ws) = elim (find_wrapper (base w)) [
  | none ↦ judge risk sudo w ws
  | some spec ↦ elim (peel_wrapper_options (base w) spec ws) [
    | none ↦ unreadable
    | some rest ↦ run_wrappers fuel (raise medium risk) (sudo || elevates (base w)) rest
  ]
]

unfoldable pub drop_assignments : Risk → Words → Risk × Words
drop_assignments risk [] = (risk, [])
drop_assignments risk (w ∷ ws) =
    let rest = drop_assignments (raise medium risk) ws in
    if is_assignment w then rest else (risk, w ∷ ws)

-- analyzeSegment.
unfoldable pub analyze_segment : Words → Analysis
analyze_segment words =
    let (risk, rest) = drop_assignments low words in run_wrappers (length rest) risk false rest
