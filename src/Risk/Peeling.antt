-- ===== src/Risk/Peeling.antt =====
-- peelWrapperOptions on wrappers that are called as their manuals say.
use ssh_gate_oss.Base.{◌≡◌, refl, ◌∙◌, true, false, [], ◌∷◌, some, arith}
use ssh_gate_oss.Text.{Text, codes, text_eq}
use ssh_gate_oss.Risk.Words.{Words, is_duration}
use ssh_gate_oss.Risk.Wrappers.{
  WrapperSpec, finish_wrapper, operand, alone, peel_word, peel_wrapper_options,
}
use ssh_gate_oss.Risk.Clusters.{clustered_alone, clustered_value}
use ssh_gate_oss.Risk.Taken.{
  alone_taken, valued_taken, plain_operand, attached_alone, assigned_alone, adjusted_alone,
  joined_alone, takes,
}
use ssh_gate_oss.Risk.Usage.{
  cluster, cluster_value, Manual, Options, no_option, end_mark, stands_alone, next_value,
  joined_value, attached_value, assignment, adjustment,
}

-- One round of the loop over options.
peel-alone :
    (name : Text) (spec : WrapperSpec) (w : Text) (ws rest : Words)
    → peel_word name spec w ≡ alone
    → peel_wrapper_options name spec ws ≡ some rest
    → peel_wrapper_options name spec (w ∷ ws) ≡ some rest
unfolding peel_wrapper_options
peel-alone name spec w [] rest e h = rw (peel_wrapper_options, e) h
peel-alone name spec w (v ∷ ws) rest e h = rw (peel_wrapper_options, e) h

peel-operand :
    (name : Text) (spec : WrapperSpec) (w : Text) (ws : Words)
    → peel_word name spec w ≡ operand
    → peel_wrapper_options name spec (w ∷ ws) ≡ finish_wrapper name (w ∷ ws)
unfolding peel_wrapper_options
peel-operand name spec w [] e = rw (peel_wrapper_options, e) refl
peel-operand name spec w (v ∷ ws) e = rw (peel_wrapper_options, e) refl

peel-dashes :
    (name : Text) (spec : WrapperSpec) (ws : Words)
    → peel_wrapper_options name spec (codes "--" ∷ ws) ≡ finish_wrapper name ws
unfolding peel_wrapper_options peel_word text_eq
peel-dashes name spec [] = refl
peel-dashes name spec (v ∷ ws) = refl

-- Where the manual's options end, the code's peeling ends.
pub peel-Options :
    (name : Text) (m : Manual) (spec : WrapperSpec) (ws rest final : Words)
    → takes name m (some spec) ≡ true
    → Options name m ws rest
    → finish_wrapper name rest ≡ some final
    → peel_wrapper_options name spec ws ≡ some final
unfolding peel_wrapper_options
peel-Options name m spec ws rest final t (no_option {w} {ws = tail} h k) f =
    peel-operand name spec w tail (plain_operand name spec w h k) ∙ f
peel-Options name m spec ws rest final t (end_mark) f = peel-dashes name spec rest ∙ f
peel-Options name m spec ws rest final t (stands_alone {w} {ws = tail} h o) f =
    peel-alone name spec w tail final (alone_taken name m spec w t h)
      (peel-Options name m spec tail rest final t o f)
peel-Options name m spec ws rest final t (next_value {w} {v} {ws = tail} h o) f =
    rw (peel_wrapper_options, valued_taken name m spec w t h)
      (peel-Options name m spec tail rest final t o f)
peel-Options name m spec ws rest final t (joined_value w v {ws = tail} h o) f =
    peel-alone name spec _ tail final (joined_alone name spec w v (valued_taken name m spec _ t h))
      (peel-Options name m spec tail rest final t o f)
peel-Options name m spec ws rest final t (attached_value {c} {d} {v} {ws = tail} h o) f =
    peel-alone name spec _ tail final
      (attached_alone name spec c d v (valued_taken name m spec _ t h))
      (peel-Options name m spec tail rest final t o f)
peel-Options name m spec ws rest final t (cluster {c} {d} {cs} {ws = tail} h o) f =
    peel-alone name spec _ tail final (clustered_alone name m spec c d cs t h)
      (peel-Options name m spec tail rest final t o f)
peel-Options name m spec ws rest final t (cluster_value c cs q {ws = tail} n h k o) f =
    rw (peel_wrapper_options, clustered_value name m spec c cs q t n h k)
      (peel-Options name m spec tail rest final t o f)
peel-Options name m spec ws rest final t (assignment {w} {ws = tail} h k o) f =
    peel-alone name spec w tail final (assigned_alone name spec w h k)
      (peel-Options name m spec tail rest final t o f)
peel-Options name m spec ws rest final t (adjustment {w} {ws = tail} h k o) f =
    peel-alone name spec _ tail final (adjusted_alone name spec w h k)
      (peel-Options name m spec tail rest final t o f)

pub finish_wrapper-plain :
    (name : Text) (ws : Words)
    → text_eq name (codes "timeout") ≡ false
    → finish_wrapper name ws ≡ some ws
unfolding finish_wrapper
finish_wrapper-plain name [] h = ground arith
finish_wrapper-plain name (w ∷ ws) h = ground arith

pub finish_wrapper-timed :
    (name d : Text) (ws : Words)
    → text_eq name (codes "timeout") ≡ true
    → is_duration d ≡ true
    → finish_wrapper name (d ∷ ws) ≡ some ws
unfolding finish_wrapper
finish_wrapper-timed name d ws h k = ground arith
