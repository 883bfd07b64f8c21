-- ===== src/Risk/Wrapping.antt =====
-- The loop over wrappers (sudo, env, xargs, ...) of analyzeSegment: its fuel, and what comes before it.
use ssh_gate_oss.Base.{
  ℕ, zero, suc, ◌≤◌, ◌≡◌, refl, Bool, true, false, ◌||◌, [], ◌∷◌, some, inl, inr, arith, length,
  Bool-cases, Option-cases, subst, sym,
}
use ssh_gate_oss.Text.{Text, base, codes, text_eq}
use ssh_gate_oss.Text.Laws.{text_eq_sound}
use ssh_gate_oss.Risk.Level.{
  Risk, low, medium, high, risk_rank, Analysis, raise, raise-le_right, raise_mono,
}
use ssh_gate_oss.Risk.Words.{Words}
use ssh_gate_oss.Risk.Wrappers.{WrapperSpec, find_wrapper, finish_wrapper, peel_wrapper_options}
use ssh_gate_oss.Risk.Segment.{elevates, judge, run_wrappers, drop_assignments, analyze_segment}

finish_wrapper-length :
    (name : Text) (ws rest : Words) → finish_wrapper name ws ≡ some rest → length rest ≤ length ws
unfolding finish_wrapper
finish_wrapper-length name [] rest h = ground arith
finish_wrapper-length name (w ∷ ws) rest h = ground arith

-- Peeling a wrapper's options makes no word up.
pub peel-length :
    (name : Text) (spec : WrapperSpec) (ws rest : Words)
    → peel_wrapper_options name spec ws ≡ some rest
    → length rest ≤ length ws
unfolding peel_wrapper_options
peel-length name spec [] rest h = finish_wrapper-length name [] rest h
peel-length name spec (w ∷ []) rest h =
    ground (arith, finish_wrapper-length name [] rest, finish_wrapper-length name (w ∷ []) rest)
peel-length name spec (w ∷ v ∷ ws) rest h = ground (
  arith,
  finish_wrapper-length name (v ∷ ws) rest,
  finish_wrapper-length name (w ∷ v ∷ ws) rest,
  peel-length name spec (v ∷ ws) rest,
  peel-length name spec ws rest,
)

-- Two amounts of fuel that cover the words give the same analysis.
pub run_wrappers_fuel :
    (f g : ℕ) (r : Risk) (s : Bool) (ws : Words)
    → length ws ≤ f
    → length ws ≤ g
    → run_wrappers f r s ws ≡ run_wrappers g r s ws
unfolding run_wrappers
run_wrappers_fuel f g r s [] h k = refl
run_wrappers_fuel zero g r s (w ∷ ws) h k = absurd (omega arith)
run_wrappers_fuel (suc f) zero r s (w ∷ ws) h k = absurd (omega arith)
run_wrappers_fuel (suc f) (suc g) r s (w ∷ ws) h k = elim (Option-cases (find_wrapper (base w))) [
  | inl e ↦ rw (e, run_wrappers) refl
  | inr (spec, e) ↦ elim (Option-cases (peel_wrapper_options (base w) spec ws)) [
    | inl p ↦ rw (e, run_wrappers, p) refl
    | inr (rest, p) ↦
        rw (e, run_wrappers, p)
          (run_wrappers_fuel f g _ _ rest (omega (arith, peel-length (base w) spec ws rest p))
            (omega (arith, peel-length (base w) spec ws rest p)))
  ]
]

-- `b` is at least as severe as `a`: its risk is no lower, and it elevates if `a` does.
pub record Covers (a b : Analysis) : Type 0 where
  pub risk_le : risk_rank a.risk ≤ risk_rank b.risk
  pub sudo_kept : a.uses_sudo ≡ true → b.uses_sudo ≡ true

judge_mono :
    (r r' : Risk) (s s' : Bool) (name : Text) (args : Words)
    → risk_rank r ≤ risk_rank r'
    → (s ≡ true → s' ≡ true)
    → Covers (judge r s name args) (judge r' s' name args)
unfolding judge
judge_mono r r' s s' name args h k = ground (arith, raise_mono high r r', raise_mono medium r r')

or_mono : (a b c : Bool) → (a ≡ true → b ≡ true) → (a || c) ≡ true → (b || c) ≡ true
or_mono a b c h k = ground arith

-- What comes before the wrappers can only make the answer more severe.
pub run_wrappers_mono :
    (f : ℕ) (r r' : Risk) (s s' : Bool) (ws : Words)
    → risk_rank r ≤ risk_rank r'
    → (s ≡ true → s' ≡ true)
    → Covers (run_wrappers f r s ws) (run_wrappers f r' s' ws)
unfolding run_wrappers
run_wrappers_mono f r r' s s' [] h k = record { risk_le = h; sudo_kept = k }
run_wrappers_mono zero r r' s s' (w ∷ ws) h k = record { risk_le = omega arith; sudo_kept = λ e. e }
run_wrappers_mono (suc f) r r' s s' (w ∷ ws) h k = elim (Option-cases (find_wrapper (base w))) [
  | inl e ↦ rw (e, run_wrappers) (judge_mono r r' s s' w ws h k)
  | inr (spec, e) ↦ elim (Option-cases (peel_wrapper_options (base w) spec ws)) [
    | inl p ↦ rw (e, run_wrappers, p) (record { risk_le = omega arith; sudo_kept = λ q. q })
    | inr (rest, p) ↦
        rw (e, run_wrappers, p)
          (run_wrappers_mono f _ _ _ _ rest (raise_mono medium r r' h)
            (or_mono s s' (elevates (base w)) k))
  ]
]

-- `Peels ws final`: the code's peeling of wrappers off `ws` leads to `final`.
pub data Peels : Words → Words → Type 0 where
  here : {ws : Words} → Peels ws ws
  peeled :
      {w : Text} {ws rest final : Words} {spec : WrapperSpec}
      → find_wrapper (base w) ≡ some spec
      → peel_wrapper_options (base w) spec ws ≡ some rest
      → Peels rest final
      → Peels (w ∷ ws) final

pub Covers-trans : {a b c : Analysis} → Covers a b → Covers b c → Covers a c
Covers-trans p q = record { risk_le = omega arith; sudo_kept = λ e. q.sudo_kept (p.sudo_kept e) }

run_wrappers-Peels :
    {ws final : Words} (f g : ℕ) (r : Risk) (s : Bool)
    → Peels ws final
    → length ws ≤ f
    → length final ≤ g
    → Covers (run_wrappers g r s final) (run_wrappers f r s ws)
unfolding run_wrappers
run_wrappers-Peels {ws} f g r s here h k =
    rw (run_wrappers_fuel g f r s ws k h) (record { risk_le = omega arith; sudo_kept = λ e. e })
run_wrappers-Peels zero g r s (peeled e p runs) h k = absurd (omega arith)
run_wrappers-Peels {final = final} (suc f) g r s (peeled {w} {ws} {rest} {spec = spec} e p runs) h
      k =
    rw (e, run_wrappers, p)
      (Covers-trans
        (run_wrappers_mono g r (raise medium r) s (s || elevates (base w)) final
          (raise-le_right medium r) (λ q. ground arith))
        (run_wrappers-Peels f g (raise medium r) (s || elevates (base w)) runs
          (omega (arith, peel-length (base w) spec ws rest p)) k))

-- The analysis of a command behind no assignment.
abbrev pub analyze_program : Words → Analysis
analyze_program ws = run_wrappers (length ws) low false ws

-- What the peeling leaves is answered no more severely than the segment.
pub peeled_command_covered :
    (words final : Words)
    → Peels (drop_assignments low words).1 final
    → Covers (analyze_program final) (analyze_segment words)
unfolding analyze_segment
peeled_command_covered words final runs =
    let (r, rest) = drop_assignments low words in
    Covers-trans (run_wrappers_mono (length final) low r false false final (omega arith) (λ e. e))
      (run_wrappers-Peels (length rest) (length final) r false runs (omega arith) (omega arith))

elevates-find_wrapper :
    (name : Text) → elevates name ≡ true → (spec : WrapperSpec) × (find_wrapper name ≡ some spec)
unfolding elevates find_wrapper
elevates-find_wrapper name h = elim (Bool-cases (text_eq name (codes "sudo"))) [
  | inl e ↦ rw (text_eq_sound name (codes "sudo") e) (_, refl)
  | inr n ↦ rw (text_eq_sound name (codes "doas") (ground arith)) (_, refl)
]

run_wrappers_elevated :
    (f : ℕ) (r : Risk) (ws : Words) → (run_wrappers f r true ws).uses_sudo ≡ true
unfolding run_wrappers judge
run_wrappers_elevated f r [] = refl
run_wrappers_elevated zero r (w ∷ ws) = refl
run_wrappers_elevated (suc f) r (w ∷ ws) = elim (Option-cases (find_wrapper (base w))) [
  | inl e ↦ rw (e, run_wrappers) (ground arith)
  | inr (spec, e) ↦ elim (Option-cases (peel_wrapper_options (base w) spec ws)) [
    | inl p ↦ rw (e, run_wrappers, p) refl
    | inr (rest, p) ↦ rw (e, run_wrappers, p) (run_wrappers_elevated f (raise medium r) rest)
  ]
]

pub analyze_program_elevated :
    (w : Text) (args : Words)
    → elevates (base w) ≡ true
    → (analyze_program (w ∷ args)).uses_sudo ≡ true
unfolding run_wrappers
analyze_program_elevated w args h =
    let (spec, e) = elevates-find_wrapper (base w) h in
    elim (Option-cases (peel_wrapper_options (base w) spec args)) [
      | inl p ↦ rw (e, run_wrappers, p) refl
      | inr (rest, p) ↦
          rw (e, run_wrappers, p)
            (subst (λ b. (run_wrappers (length args) (raise medium low) b rest).uses_sudo ≡ true)
              (sym h) (run_wrappers_elevated (length args) (raise medium low) rest))
    ]

-- The wrapper loop never lowers the risk that it starts with.
pub run_wrappers-le :
    (f : ℕ) (r : Risk) (s : Bool) (ws : Words)
    → risk_rank r ≤ risk_rank (run_wrappers f r s ws).risk
unfolding run_wrappers judge
run_wrappers-le f r s [] = omega arith
run_wrappers-le zero r s (w ∷ ws) = ground arith
run_wrappers-le (suc f) r s (w ∷ ws) = elim (Option-cases (find_wrapper (base w))) [
  | inl e ↦ rw (e, run_wrappers) (ground (arith, raise-le_right high r, raise-le_right medium r))
  | inr (spec, e) ↦ elim (Option-cases (peel_wrapper_options (base w) spec ws)) [
    | inl p ↦ rw (e, run_wrappers, p) (ground arith)
    | inr (rest, p) ↦
        rw (e, run_wrappers, p)
          (omega (
            arith,
            raise-le_right medium r,
            run_wrappers-le f (raise medium r) (s || elevates (base w)) rest,
          ))
  ]
]
