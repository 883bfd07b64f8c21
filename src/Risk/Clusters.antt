-- ===== src/Risk/Clusters.antt =====
-- Short options of the manuals in one word, against the loop over a cluster in peelWrapperOptions.
use ssh_gate_oss.Base.{ℕ, ◌≡◌, refl, true, false, ◌||◌, [], ◌∷◌, ◌++◌, some, arith, All}
use ssh_gate_oss.Text.{Text, codes, text_eq, contains, has_prefix}
use ssh_gate_oss.Risk.Wrappers.{WrapperSpec, alone, with_value, peel_cluster, peel_word}
use ssh_gate_oss.Risk.Usage.{Manual}
use ssh_gate_oss.Risk.Taken.{each-contains, is_flag, takes, alone_taken, valued_taken}

-- Short options in one word.
peel_cluster-flags :
    (name : Text) (m : Manual) (spec : WrapperSpec) (cs : Text)
    → takes name m (some spec) ≡ true
    → All (λ o. contains m.alone (b'-' ∷ o ∷ []) ≡ true) cs
    → peel_cluster spec cs ≡ alone
unfolding peel_cluster takes
peel_cluster-flags name m spec [] t h = refl
peel_cluster-flags name m spec (c ∷ cs) t h =
    let flag = each-contains (is_flag spec) m.alone (b'-' ∷ c ∷ []) (ground arith) h.0 in
    let rest = peel_cluster-flags name m spec cs t h.1 in ground arith

peel_cluster-value :
    (name : Text) (m : Manual) (spec : WrapperSpec) (cs : Text) (o : ℕ)
    → takes name m (some spec) ≡ true
    → All (λ k. contains m.alone (b'-' ∷ k ∷ []) ≡ true) cs
    → peel_cluster spec (o ∷ []) ≡ with_value
    → peel_cluster spec (cs ++ o ∷ []) ≡ with_value
unfolding peel_cluster takes
peel_cluster-value name m spec [] o t h v = v
peel_cluster-value name m spec (c ∷ cs) o t h v =
    let flag = each-contains (is_flag spec) m.alone (b'-' ∷ c ∷ []) (ground arith) h.0 in
    let rest = peel_cluster-value name m spec cs o t h.1 v in ground arith

pub clustered_alone :
    (name : Text) (m : Manual) (spec : WrapperSpec) (c d : ℕ) (cs : Text)
    → takes name m (some spec) ≡ true
    → All (λ o. contains m.alone (b'-' ∷ o ∷ []) ≡ true) (c ∷ d ∷ cs)
    → peel_word name spec (b'-' ∷ c ∷ d ∷ cs) ≡ alone
unfolding peel_word has_prefix text_eq
clustered_alone name m spec c d cs t h =
    let first = alone_taken name m spec (b'-' ∷ c ∷ []) t h.0 in
    let all = peel_cluster-flags name m spec (c ∷ d ∷ cs) t h in ground arith

short_value :
    (name : Text) (spec : WrapperSpec) (o : ℕ)
    → peel_word name spec (b'-' ∷ o ∷ []) ≡ with_value
    → peel_cluster spec (o ∷ []) ≡ with_value
unfolding peel_word has_prefix text_eq
short_value name spec o h = ground arith

pub clustered_value :
    (name : Text) (m : Manual) (spec : WrapperSpec) (c : ℕ) (cs : Text) (o : ℕ)
    → takes name m (some spec) ≡ true
    → (text_eq name (codes "env") || text_eq name (codes "nice")) ≡ false
    → All (λ k. contains m.alone (b'-' ∷ k ∷ []) ≡ true) (c ∷ cs)
    → contains m.valued (b'-' ∷ o ∷ []) ≡ true
    → peel_word name spec (b'-' ∷ c ∷ cs ++ o ∷ []) ≡ with_value
unfolding peel_word has_prefix text_eq
clustered_value name m spec c cs o t n h k =
    let first = alone_taken name m spec (b'-' ∷ c ∷ []) t h.0 in
    let last = short_value name spec o (valued_taken name m spec (b'-' ∷ o ∷ []) t k) in
    let all = peel_cluster-value name m spec (c ∷ cs) o t h last in longer cs first all
  where
    longer :
        (cs : Text)
        → peel_word name spec (b'-' ∷ c ∷ []) ≡ alone
        → peel_cluster spec (c ∷ cs ++ o ∷ []) ≡ with_value
        → peel_word name spec (b'-' ∷ c ∷ cs ++ o ∷ []) ≡ with_value
    longer [] first all = ground arith
    longer (d ∷ cs) first all = ground arith
