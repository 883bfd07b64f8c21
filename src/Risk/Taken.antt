-- ===== src/Risk/Taken.antt =====
-- Each option of the manuals against the table `wrappers` and one round of peelWrapperOptions.
use ssh_gate_oss.Base.{
  ℕ, ◌≡◌, refl, Bool, true, false, ◌&&◌, List, [], ◌∷◌, ◌++◌, Option, none, some, inl, inr, arith,
  Bool-cases, Option-cases, not, subst,
}
use ssh_gate_oss.Text.{Text, codes, text_eq, contains, lookup, has_prefix, base, cut}
use ssh_gate_oss.Text.Laws.{text_eq_sound}
use ssh_gate_oss.Risk.Words.{Words, is_assignment, is_number}
use ssh_gate_oss.Risk.Wrappers.{
  WrapperSpec, find_wrapper, Peel, ends_options, looks_up, operand, refused, alone, with_value,
  peel_cluster, peel_long, peel_word,
}
use ssh_gate_oss.Risk.Usage.{Manual, manuals}

-- How the loop over options takes a word, alone or with the next one.
abbrev pub is_alone : Peel → Bool
is_alone alone = true
is_alone ends_options = false
is_alone looks_up = false
is_alone operand = false
is_alone refused = false
is_alone with_value = false

abbrev pub is_with_value : Peel → Bool
is_with_value with_value = true
is_with_value ends_options = false
is_with_value looks_up = false
is_with_value operand = false
is_with_value refused = false
is_with_value alone = false

alone-Peel : (p : Peel) → is_alone p ≡ true → p ≡ alone
alone-Peel p h = ground arith

with_value-Peel : (p : Peel) → is_with_value p ≡ true → p ≡ with_value
with_value-Peel p h = ground arith

abbrev pub each : (Text → Bool) → Words → Bool
each p [] = true
each p (w ∷ ws) = p w && each p ws

pub each-contains :
    (p : Text → Bool) (ws : Words) (w : Text) → each p ws ≡ true → contains ws w ≡ true → p w ≡ true
unfolding contains
each-contains p [] w h k = absurd (ground arith)
each-contains p (v ∷ ws) w h k = elim (Bool-cases (text_eq v w)) [
  | inl e ↦ subst (λ u. p u ≡ true) (text_eq_sound v w e) (ground arith)
  | inr n ↦ each-contains p ws w (ground arith) (ground arith)
]

abbrev pub is_flag : WrapperSpec → Text → Bool
is_flag spec o = not (contains spec.shell o) && not (contains spec.args o) && contains spec.flags o

-- The code's table takes every option of the manual the way the manual says.
unfoldable pub takes : Text → Manual → Option WrapperSpec → Bool
takes name m none = false
takes name m (some spec) =
    each (λ o. is_alone (peel_word name spec o)) m.alone
    && each (is_flag spec) m.alone
    && each (λ o. is_with_value (peel_word name spec o)) m.valued

all_taken : List (Text × Manual) → Bool
unfolding takes
all_taken [] = true
all_taken ((name, m) ∷ ms) = takes name m (find_wrapper name) && all_taken ms

manuals_taken : all_taken manuals ≡ true
unfolding all_taken text_eq contains base is_assignment is_number find_wrapper peel_long
    peel_cluster peel_word has_prefix cut
manuals_taken = refl

lookup_taken :
    (ms : List (Text × Manual)) (name : Text) (m : Manual)
    → all_taken ms ≡ true
    → lookup name ms ≡ some m
    → takes name m (find_wrapper name) ≡ true
unfolding all_taken lookup
lookup_taken [] name m h e = absurd (ground arith)
lookup_taken ((k, n) ∷ ms) name m h e = elim (Bool-cases (text_eq k name)) [
  | inl t ↦
      subst (λ u. takes u m (find_wrapper u) ≡ true) (text_eq_sound k name t)
        (subst (λ u. takes k u (find_wrapper k) ≡ true) {x = n} (ground arith) (ground arith))
  | inr t ↦ lookup_taken ms name m (ground arith) (ground arith)
]

pub found-taken :
    (name : Text) (m : Manual)
    → lookup name manuals ≡ some m
    → (spec : WrapperSpec) × (find_wrapper name ≡ some spec) × (takes name m (some spec) ≡ true)
unfolding takes
found-taken name m e =
    let t = lookup_taken manuals name m manuals_taken e in
    elim (Option-cases (find_wrapper name)) [
      | inl n ↦ absurd (ground arith)
      | inr (spec, f) ↦ (spec, f, subst (λ o. takes name m o ≡ true) f t)
    ]

-- The manual's options, one by one.
pub alone_taken :
    (name : Text) (m : Manual) (spec : WrapperSpec) (w : Text)
    → takes name m (some spec) ≡ true
    → contains m.alone w ≡ true
    → peel_word name spec w ≡ alone
unfolding takes
alone_taken name m spec w t h =
    alone-Peel _ (each-contains (λ o. is_alone (peel_word name spec o)) m.alone w (ground arith) h)

pub valued_taken :
    (name : Text) (m : Manual) (spec : WrapperSpec) (w : Text)
    → takes name m (some spec) ≡ true
    → contains m.valued w ≡ true
    → peel_word name spec w ≡ with_value
unfolding takes
valued_taken name m spec w t h =
    with_value-Peel _
      (each-contains (λ o. is_with_value (peel_word name spec o)) m.valued w (ground arith) h)

pub plain_operand :
    (name : Text) (spec : WrapperSpec) (w : Text)
    → has_prefix w (codes "-") ≡ false
    → (text_eq name (codes "env") && is_assignment w) ≡ false
    → peel_word name spec w ≡ operand
unfolding peel_word has_prefix text_eq
plain_operand name spec [] h k = ground arith
plain_operand name spec (c ∷ w) h k = ground arith

-- An option with the value attached is taken alone, if the bare option takes the next word.
pub attached_alone :
    (name : Text) (spec : WrapperSpec) (c d : ℕ) (v : Text)
    → peel_word name spec (b'-' ∷ c ∷ []) ≡ with_value
    → peel_word name spec (b'-' ∷ c ∷ d ∷ v) ≡ alone
unfolding peel_word peel_cluster has_prefix text_eq
attached_alone name spec c d v h = ground arith

cut-append :
    (o v : Text)
    → (cut o b'=').1 ≡ false
    → ((cut o b'=').0 ≡ o) × (cut (o ++ b'=' ∷ v) b'=' ≡ (o, true))
unfolding cut
cut-append [] v h = (refl, refl)
cut-append (c ∷ o) v h = ground (arith, cut-append o v)

dashes-is_assignment : is_assignment (codes "--") ≡ false
unfolding is_assignment
dashes-is_assignment = refl

dash-is_number : is_number (codes "-") ≡ false
unfolding is_number
dash-is_number = refl

dashes-is_number : is_number (codes "--") ≡ false
unfolding is_number
dashes-is_number = refl

pub assigned_alone :
    (name : Text) (spec : WrapperSpec) (w : Text)
    → text_eq name (codes "env") ≡ true
    → is_assignment w ≡ true
    → peel_word name spec w ≡ alone
unfolding peel_word
assigned_alone name spec w h k = elim (Bool-cases (text_eq w (codes "--"))) [
  | inl e ↦
      let q : is_assignment (codes "--") ≡ true =
        subst (λ u. is_assignment u ≡ true) (text_eq_sound w (codes "--") e) k in
      absurd (ground (arith, dashes-is_assignment))
  | inr n ↦ ground arith
]

pub adjusted_alone :
    (name : Text) (spec : WrapperSpec) (w : Text)
    → text_eq name (codes "nice") ≡ true
    → is_number (b'-' ∷ w) ≡ true
    → peel_word name spec (b'-' ∷ w) ≡ alone
unfolding peel_word has_prefix
adjusted_alone name spec [] h k = absurd (ground (arith, dash-is_number))
adjusted_alone name spec (c ∷ w) h k = elim (Bool-cases (text_eq (b'-' ∷ c ∷ w) (codes "--"))) [
  | inl e ↦
      let q : is_number (codes "--") ≡ true =
        subst (λ u. is_number u ≡ true) (text_eq_sound (b'-' ∷ c ∷ w) (codes "--") e) k in
      absurd (ground (arith, dashes-is_number))
  | inr n ↦ ground arith
]

pub joined_alone :
    (name : Text) (spec : WrapperSpec) (o v : Text)
    → peel_word name spec (b'-' ∷ b'-' ∷ o) ≡ with_value
    → peel_word name spec (b'-' ∷ b'-' ∷ o ++ b'=' ∷ v) ≡ alone
unfolding peel_word peel_long has_prefix text_eq cut
joined_alone name spec [] v h = absurd (ground arith)
joined_alone name spec (c ∷ o) v h = ground (arith, cut-append (c ∷ o) v)
