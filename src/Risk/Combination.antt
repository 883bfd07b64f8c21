-- ===== src/Risk/Combination.antt =====
-- What analyzeCommand makes of its segments, and when a command is Low.
use ssh_gate_oss.Base.{
  ◌≤◌, ◌≡◌, refl, ◌↔◌, true, false, ◌||◌, List, [], ◌∷◌, none, some, inl, inr, arith, length,
  is_empty, All, Bool-cases, Option-cases,
}
use ssh_gate_oss.Text.{Text, base, contains, trim_space}
use ssh_gate_oss.Risk.Level.{
  Risk, low, medium, risk_rank, Analysis, raise, raise-le_left, raise-le_right, unreadable,
}
use ssh_gate_oss.Risk.Words.{Words, is_assignment}
use ssh_gate_oss.Risk.Wrappers.{WrapperSpec, find_wrapper, peel_wrapper_options}
use ssh_gate_oss.Risk.Commands.{interpreters, destructive_command, read_only_command}
use ssh_gate_oss.Risk.Segment.{
  elevates, has_glob, judge, run_wrappers, drop_assignments, analyze_segment,
}
use ssh_gate_oss.Risk.Command.{
  Unicode, opaque_command, split_segments, combine, analyze_segments, analyze_command,
  classify_risk,
}
use ssh_gate_oss.Risk.Wrapping.{Covers, Covers-trans, run_wrappers-le, analyze_program}

-- A segment that the classifier may let pass as Low: nothing, or an allow-listed command called
-- plainly, behind no assignment and no wrapper.
pub data IsPlain : Words → Type 0 where
  nothing : IsPlain []
  reader :
      {name : Text} {args : Words}
      → is_assignment name ≡ false
      → find_wrapper (base name) ≡ none
      → has_glob name ≡ false
      → contains interpreters (base name) ≡ false
      → destructive_command (base name) args ≡ false
      → read_only_command (base name) args ≡ true
      → IsPlain (name ∷ args)

drop_assignments-le : (r : Risk) (ws : Words) → risk_rank r ≤ risk_rank (drop_assignments r ws).0
unfolding drop_assignments
drop_assignments-le r [] = omega arith
drop_assignments-le r (w ∷ ws) =
    ground (arith, raise-le_right medium r, drop_assignments-le (raise medium r) ws)

judge_low :
    (name : Text) (args : Words)
    → is_assignment name ≡ false
    → find_wrapper (base name) ≡ none
    → (judge low false name args).risk ≡ low
    → IsPlain (name ∷ args)
unfolding judge raise
judge_low name args a f h = reader a f (ground arith) (ground arith) (ground arith) (ground arith)

assigned_not_low :
    (w : Text) (ws : Words) → is_assignment w ≡ true → 1 ≤ risk_rank (analyze_segment (w ∷ ws)).risk
unfolding analyze_segment drop_assignments
assigned_not_low w ws a =
    let (r, rest) = drop_assignments (raise medium low) ws in
    rw (a, drop_assignments)
      (omega (
        arith,
        raise-le_left medium low,
        drop_assignments-le (raise medium low) ws,
        run_wrappers-le (length rest) r false rest,
      ))

wrapped_not_low :
    (w : Text) (ws : Words) {spec : WrapperSpec}
    → find_wrapper (base w) ≡ some spec
    → 1 ≤ risk_rank (analyze_program (w ∷ ws)).risk
unfolding run_wrappers
wrapped_not_low w ws {spec} e = elim (Option-cases (peel_wrapper_options (base w) spec ws)) [
  | inl p ↦ rw (e, run_wrappers, p) (omega arith)
  | inr (rest, p) ↦
      rw (e, run_wrappers, p)
        (omega (
          arith,
          raise-le_left medium low,
          run_wrappers-le (length ws) (raise medium low) (false || elevates (base w)) rest,
        ))
]

analyze_segment_unassigned :
    (w : Text) (ws : Words)
    → is_assignment w ≡ false
    → analyze_segment (w ∷ ws) ≡ analyze_program (w ∷ ws)
unfolding analyze_segment drop_assignments
analyze_segment_unassigned w ws a = rw (a, drop_assignments) refl

analyze_program_command :
    (w : Text) (ws : Words)
    → find_wrapper (base w) ≡ none
    → analyze_program (w ∷ ws) ≡ judge low false w ws
unfolding run_wrappers
analyze_program_command w ws e = rw (e, run_wrappers) refl

not_low : (r : Risk) → 1 ≤ risk_rank r → r ≡ low → ⊥
not_low r h e = ground arith

analyze_segment_low : (ws : Words) → (analyze_segment ws).risk ≡ low → IsPlain ws
analyze_segment_low [] h = nothing
analyze_segment_low (w ∷ ws) h = elim (Bool-cases (is_assignment w)) [
  | inl a ↦ absurd (not_low _ (assigned_not_low w ws a) h)
  | inr a ↦
      let h' = rw (analyze_segment_unassigned w ws a) at h in
      elim (Option-cases (find_wrapper (base w))) [
        | inl e ↦ judge_low w ws a e (rw (analyze_program_command w ws e) at h')
        | inr (spec, e) ↦ absurd (not_low _ (wrapped_not_low w ws e) h')
      ]
]

analyze_segment_plain :
    {ws : Words} → IsPlain ws → analyze_segment ws ≡ record { risk = low; uses_sudo = false }
unfolding judge
analyze_segment_plain nothing = unfold analyze_segment drop_assignments run_wrappers in refl
analyze_segment_plain (reader {name} {args} a f g i d r) =
    rw (analyze_segment_unassigned name args a, analyze_program_command name args f, g, i, d, r)
      refl

-- What the loop of analyzeCommand keeps: it covers the start and each segment.
analyze_segments-Covers :
    (acc : Analysis) (ss : List Words)
    → Covers acc (analyze_segments acc ss)
      × All (λ s. Covers (analyze_segment s) (analyze_segments acc ss)) ss
unfolding analyze_segments combine
analyze_segments-Covers acc [] = (record { risk_le = omega arith; sudo_kept = λ e. e }, tt)
analyze_segments-Covers acc (s ∷ ss) =
    let (kept, all) = analyze_segments-Covers (combine (analyze_segment s) acc) ss in
    (
      Covers-trans (record { risk_le = raise-le_right _ acc.risk; sudo_kept = λ e. rw e refl })
          kept,
      (
        Covers-trans (record { risk_le = raise-le_left _ acc.risk; sudo_kept = λ e. ground arith })
            kept,
        all,
      ),
    )

Covers-unreadable : (a : Analysis) → Covers a unreadable
Covers-unreadable a = record { risk_le = ground arith; sudo_kept = λ e. refl }

All-unreadable : (ss : List Words) → All (λ s. Covers (analyze_segment s) unreadable) ss
All-unreadable [] = tt
All-unreadable (s ∷ ss) = (Covers-unreadable (analyze_segment s), All-unreadable ss)

-- Every segment of a command counts: the command is answered at least as severely as each.
pub segments_covered :
    (u : Unicode) (command : Text)
    → All
        (λ s. Covers (analyze_segment s) (analyze_command u command))
        (split_segments (trim_space command))
unfolding analyze_command
segments_covered u command =
    elim (Bool-cases (is_empty (trim_space command) || opaque_command u (trim_space command))) [
      | inl e ↦ rw (e, analyze_command) (All-unreadable (split_segments (trim_space command)))
      | inr e ↦
          rw (e, analyze_command)
            (analyze_segments-Covers _ (split_segments (trim_space command))).1
    ]

covered_low : (a b : Analysis) → Covers a b → b.risk ≡ low → a.risk ≡ low
covered_low a b c h = ground (arith, c.risk_le)

All-IsPlain :
    (b : Analysis) (ss : List Words)
    → b.risk ≡ low
    → All (λ s. Covers (analyze_segment s) b) ss
    → All IsPlain ss
All-IsPlain b [] h a = tt
All-IsPlain b (s ∷ ss) h (c, a) =
    (analyze_segment_low s (covered_low (analyze_segment s) b c h), All-IsPlain b ss h a)

analyze_segments_plain :
    (ss : List Words)
    → All IsPlain ss
    → (analyze_segments (record { risk = low; uses_sudo = false }) ss).risk ≡ low
unfolding analyze_segments combine raise
analyze_segments_plain [] a = refl
analyze_segments_plain (s ∷ ss) (p, a) =
    rw (analyze_segment_plain p, analyze_segments) (analyze_segments_plain ss a)

low_tests :
    (u : Unicode) (command : Text)
    → classify_risk u command ≡ low
    → (is_empty (trim_space command) || opaque_command u (trim_space command)) ≡ false
unfolding analyze_command classify_risk
low_tests u command h = ground arith

-- A command is Low exactly if it is neither blank nor opaque and each of its segments is plain:
-- the classifier fails closed.
pub classify_risk_low_iff :
    (u : Unicode) (command : Text)
    → (classify_risk u command ≡ low) ↔ (
        (is_empty (trim_space command) ≡ false)
        × (opaque_command u (trim_space command) ≡ false)
        × All IsPlain (split_segments (trim_space command)))
unfolding classify_risk analyze_command
classify_risk_low_iff u command = (
  λ h.
      let t = low_tests u command h in
      (
        ground arith,
        ground arith,
        All-IsPlain (analyze_command u command) (split_segments (trim_space command)) h
            (segments_covered u command),
      ),
  λ p. rw (p.0, p.1, classify_risk, analyze_command) (analyze_segments_plain _ p.2),
)
