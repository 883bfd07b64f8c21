-- ===== src/Risk/Separators.antt =====
-- splitSegments across a semicolon: the two sides are split as if each stood alone.
use ssh_gate_oss.Base.{
  ℕ, zero, suc, ◌≤◌, ◌-◌, ◌≡◌, refl, ◌≢◌, sym, ◌∙◌, ap, Bool, false, ◌&&◌, [], ◌∷◌, ◌++◌, Option,
  none, some, inl, inr, arith, length, ◌==◌, if◌then◌else◌, Bool-cases, append_assoc,
}
use ssh_gate_oss.Text.{
  Text, codes, text_eq, contains, is_space, flush, fields_from, fields, first_match, replace_from,
  replace,
}
use ssh_gate_oss.Text.Laws.{text_eq_refl}
use ssh_gate_oss.Risk.Words.{Words}
use ssh_gate_oss.Risk.Command.{separators, harmless_redirects, segments_from, split_segments}

flush-append : (w : Text) (ws vs : Words) → flush (w, ws ++ vs) ≡ flush (w, ws) ++ vs
flush-append [] ws vs = refl
flush-append (c ∷ w) ws vs = refl

fields_from-append :
    (x r : Text)
    → fields_from (x ++ b' ' ∷ r) ≡ ((fields_from x).0, (fields_from x).1 ++ flush (fields_from r))
unfolding fields_from
fields_from-append [] r = refl
fields_from-append (c ∷ x) r = elim (Bool-cases (is_space c)) [
  | inl e ↦
      rw
        (
          e,
          fields_from-append x r,
          flush-append (fields_from x).0 (fields_from x).1 (flush (fields_from r)),
        )
        refl
  | inr e ↦ rw (e, fields_from-append x r) refl
]

-- A blank separates the words on its two sides.
fields-append : (x r : Text) → fields (x ++ b' ' ∷ r) ≡ fields x ++ fields r
unfolding fields
fields-append x r =
    ap flush (fields_from-append x r) ∙ flush-append (fields_from x).0 (fields_from x).1 _

abbrev starts : Text → ℕ → Bool
starts [] d = false
starts (c ∷ s) d = c == d

-- What the replacer sees at a position.
abbrev here_at : ℕ → Text → Option (Text × Text)
here_at c s =
    if c == b'&' && starts s b'&'
    then some (codes "&&", codes " ; ")
    else if c == b'|' && starts s b'|'
    then some (codes "||", codes " ; ")
    else if c == b'|'
    then some (codes "|", codes " ; ")
    else if c == b';'
    then some (codes ";", codes " ; ")
    else none

first_match-separators : (c : ℕ) (s : Text) → first_match separators (c ∷ s) ≡ here_at c s
unfolding first_match
first_match-separators c [] = ground arith
first_match-separators c (d ∷ s) = ground arith

-- What the replacer does with it.
abbrev replace_at : Option (Text × Text) → ℕ → Text → Text
replace_at none c s = c ∷ replace_from separators 0 s
replace_at (some (old, new)) c s = new ++ replace_from separators (length old - 1) s

abbrev skip_of : Option (Text × Text) → ℕ
skip_of none = 0
skip_of (some (old, new)) = length old - 1

replace_at_lem :
    (o : Option (Text × Text)) (c : ℕ) (s : Text)
    → (elim o as (λ x. Text) [
      | none ↦ c ∷ replace_from separators 0 s
      | some (old, new) ↦ new ++ replace_from separators (length old - 1) s
    ])
      ≡ replace_at o c s
replace_at_lem none c s = refl
replace_at_lem (some (old, new)) c s = refl

replace_from-skip :
    (k c : ℕ) (s : Text) → replace_from separators (suc k) (c ∷ s) ≡ replace_from separators k s
unfolding replace_from
replace_from-skip k c s = refl

replace_from-nil : (k : ℕ) → replace_from separators k [] ≡ []
unfolding replace_from
replace_from-nil k = refl

replace_from-step :
    (c : ℕ) (s : Text) → replace_from separators 0 (c ∷ s) ≡ replace_at (here_at c s) c s
unfolding replace_from
replace_from-step c s =
    rw (first_match-separators c s, replace_from) (replace_at_lem (here_at c s) c s)

skip_fits : (c : ℕ) (s : Text) → skip_of (here_at c s) ≤ length s
skip_fits c [] = ground arith
skip_fits c (d ∷ s) = ground arith

starts-append : (x r : Text) (d : ℕ) → d ≢ b';' → starts (x ++ b';' ∷ r) d ≡ starts x d
starts-append [] r d h = ground arith
starts-append (c ∷ x) r d h = refl

here_at-append : (c : ℕ) (x r : Text) → here_at c (x ++ b';' ∷ r) ≡ here_at c x
here_at-append c x r =
    rw (starts-append x r b'&' (omega arith), starts-append x r b'|' (omega arith)) refl

-- The semicolon that follows a text is replaced by itself between blanks.
abbrev Separated : Text → Text → ℕ → Type 0
Separated x r k =
    replace_from separators k (x ++ b';' ∷ r)
    ≡ replace_from separators k x ++ (codes " ; " ++ replace_from separators 0 r)

replace_at-append :
    (o : Option (Text × Text)) (c : ℕ) (x r : Text)
    → Separated x r (skip_of o)
    → replace_at o c (x ++ b';' ∷ r)
      ≡ replace_at o c x ++ (codes " ; " ++ replace_from separators 0 r)
replace_at-append none c x r h = ap (λ t. c ∷ t) h
replace_at-append (some (old, new)) c x r h = rw h (sym (append_assoc new _ _))

replace-separator : (k : ℕ) (x r : Text) → k ≤ length x → Separated x r k
replace-separator zero [] r h = rw replace_from-nil (replace_from-step b';' r)
replace-separator (suc k) [] r h = absurd (omega arith)
replace-separator (suc k) (c ∷ x) r h =
    rw (replace_from-skip k c (x ++ b';' ∷ r), replace_from-skip k c x)
      (replace-separator k x r (omega arith))
replace-separator zero (c ∷ x) r h =
    rw (replace_from-step c (x ++ b';' ∷ r), replace_from-step c x, here_at-append c x r)
      (replace_at-append (here_at c x) c x r
        (replace-separator (skip_of (here_at c x)) x r (skip_fits c x)))

segments_from-append :
    (fs gs : Words)
    → segments_from (fs ++ codes ";" ∷ gs)
      ≡ ((segments_from fs).0, (segments_from fs).1 ++ (segments_from gs).0 ∷ (segments_from gs).1)
unfolding segments_from
segments_from-append [] gs = rw (text_eq_refl (codes ";")) refl
segments_from-append (f ∷ fs) gs = elim (Bool-cases (text_eq f (codes ";"))) [
  | inl e ↦ rw (e, segments_from-append fs gs) refl
  | inr e ↦ elim (Bool-cases (contains harmless_redirects f)) [
    | inl h ↦ rw (e, h, segments_from-append fs gs) refl
    | inr h ↦ rw (e, h, segments_from-append fs gs) refl
  ]
]

semicolon_field : fields (codes ";") ≡ codes ";" ∷ []
unfolding fields
semicolon_field = refl

fields-semicolon : (r : Text) → fields (b';' ∷ b' ' ∷ r) ≡ codes ";" ∷ fields r
fields-semicolon r = fields-append (codes ";") r ∙ ap (λ ws. ws ++ fields r) semicolon_field

words-append :
    (x y : Text)
    → fields (replace separators (x ++ b';' ∷ y))
      ≡ fields (replace separators x) ++ codes ";" ∷ fields (replace separators y)
unfolding replace
words-append x y =
    ap fields (replace-separator 0 x y (omega arith))
    ∙ fields-append (replace separators x) (b';' ∷ b' ' ∷ replace separators y)
    ∙ ap (◌++◌ (fields (replace separators x))) (fields-semicolon (replace separators y))

-- A semicolon splits a command: its segments are those of the two sides, each on its own.
pub split_segments-append :
    (x y : Text) → split_segments (x ++ b';' ∷ y) ≡ split_segments x ++ split_segments y
unfolding split_segments
split_segments-append x y =
    ap (λ ws. (segments_from ws).0 ∷ (segments_from ws).1) (words-append x y)
    ∙ ap (λ r. r.0 ∷ r.1) (segments_from-append _ _)
