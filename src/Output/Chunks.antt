-- ===== src/Output/Chunks.antt =====
-- The default filter does not see where the chunks of the output end.
use mathlib.Core.List.{append-nil}
use ssh_gate_oss.Base.{
  ℕ, zero, suc, ◌≤◌, ◌≡◌, ◌⊎◌, refl, sym, ap, ◌∙◌, Bool, true, false, ◌&&◌, List, [], ◌∷◌, ◌++◌,
  arith, leb, length, append_assoc, Bool-cases, inl, inr,
}
use ssh_gate_oss.Output.Bytes.{Bytes}
use ssh_gate_oss.Output.Plain.{
  Mode, rune, Machine, Act, hold, emit, is_normal, settle, act_byte, Utf8, act, plain, feed_plain,
}

-- What the package utf8 promises: bytes that begin with a full rune still do, with the same rune, where
-- more bytes follow, and the size of a rune is within them.
pub record IsUtf8 (u : Utf8) : Type 0 where
  pub full_append : (p q : Bytes) → u.full_rune p ≡ true → u.full_rune (p ++ q) ≡ true
  pub decode_append : (p q : Bytes) → u.full_rune p ≡ true → u.decode (p ++ q) ≡ u.decode p
  pub size_le : (p : Bytes) → u.full_rune p ≡ true → (u.decode p).1 ≤ length p

-- A machine on which a byte has settled.
abbrev Settled : Machine → Type 0
Settled m = (is_normal m.state && m.pend_cr) ≡ false

settle-Settled : (m : Machine) (b : ℕ) → Settled (settle m b).1
unfolding settle
settle-Settled m b = ground arith

settle_again : (m : Machine) (b : ℕ) → Settled m → settle m b ≡ ([], m)
unfolding settle
settle_again m b h = rw h refl

-- The act takes the byte, and at most `n` more.
abbrev Takes : ℕ → Act → Type 0
Takes n a = (m : Machine) × (text : Bytes) × (skip : ℕ) × (a ≡ emit m text skip) × (skip ≤ n)

abbrev holds : Act → Bool
holds hold = true
holds (emit m text skip) = false

abbrev skip_of : Act → ℕ
skip_of hold = 0
skip_of (emit m text skip) = skip

Takes-intro : (n : ℕ) (a : Act) → (holds a ≡ false) × (skip_of a ≤ n) → Takes n a
Takes-intro n hold (h, l) = absurd (ground arith)
Takes-intro n (emit m text skip) (h, l) = (m, text, skip, refl, l)

act_byte-Takes : (s : Mode) (m : Machine) (b n : ℕ) → Takes n (act_byte s m b)
act_byte-Takes s m b n = Takes-intro n (act_byte s m b) (taken s m b n)
  where
    taken :
        (s : Mode) (m : Machine) (b n : ℕ)
        → (holds (act_byte s m b) ≡ false) × (skip_of (act_byte s m b) ≤ n)
    taken s m b n = unfold act_byte in ground arith

rune-Takes : (u : Utf8) (m : Machine) (r size n : ℕ) → size ≤ suc n → Takes n (rune u m r size)
rune-Takes u m r size n h = Takes-intro n (rune u m r size) (taken u m r size n h)
  where
    taken :
        (u : Utf8) (m : Machine) (r size n : ℕ)
        → size ≤ suc n
        → (holds (rune u m r size) ≡ false) × (skip_of (rune u m r size) ≤ n)
    taken u m r size n h = ground arith

Act-cases :
    (a : Act) → (a ≡ hold) ⊎ ((m : Machine) × (text : Bytes) × (skip : ℕ) × (a ≡ emit m text skip))
Act-cases hold = inl refl
Act-cases (emit m text skip) = inr (m, text, skip, refl)

module _ (u : Utf8) (v : IsUtf8 u) where
  -- A byte holds the rest back or does the same with and without more bytes behind.
  act-cases :
      (m : Machine) (b : ℕ) (p : Bytes)
      → (act u m b p ≡ hold)
        ⊎ (Takes (length p) (act u m b p) × ((q : Bytes) → act u m b (p ++ q) ≡ act u m b p))
  unfolding act
  act-cases m b p = elim (Bool-cases (is_normal m.state && leb 0x80 b)) [
    | inr e ↦ inr (rw e (act_byte-Takes m.state m b (length p)), λ q. rw e refl)
    | inl e ↦ elim (Bool-cases (u.full_rune (b ∷ p))) [
      | inr f ↦ inl (rw (e, f) refl)
      | inl f ↦ inr (
        rw (e, f)
            (rune-Takes u m (u.decode (b ∷ p)).0 (u.decode (b ∷ p)).1 (length p)
              (v.size_le (b ∷ p) f)),
        λ q. rw (e, f, v.full_append (b ∷ p) q f, v.decode_append (b ∷ p) q f) refl,
      )
    ]
  ]

  -- The two results of a byte.
  after : Bytes → Machine → ℕ → Bytes → Act → Bytes × Machine × Bytes
  after out m b p hold = (out, m, b ∷ p)
  after out m b p (emit n text skip) =
      let (o, m3, t) = plain u skip n p in (out ++ (text ++ o), m3, t)

  plain-after :
      (m : Machine) (b : ℕ) (p : Bytes) (a : Act)
      → act u (settle m b).1 b p ≡ a
      → plain u 0 m (b ∷ p) ≡ after (settle m b).0 (settle m b).1 b p a
  unfolding plain after
  plain-after m b p a e =
      ap
        (λ (x : Act). elim x as (λ y. Bytes × Machine × Bytes) [
          | hold ↦ ((settle m b).0, (settle m b).1, b ∷ p)
          | emit n text skip ↦
              let (o, m3, t) = plain u skip n p in ((settle m b).0 ++ (text ++ o), m3, t)
        ])
        e
      ∙ same a
    where
      same :
          (a : Act)
          → (elim a as (λ y. Bytes × Machine × Bytes) [
            | hold ↦ ((settle m b).0, (settle m b).1, b ∷ p)
            | emit n text skip ↦
                let (o, m3, t) = plain u skip n p in ((settle m b).0 ++ (text ++ o), m3, t)
          ])
            ≡ after (settle m b).0 (settle m b).1 b p a
      same hold = refl
      same (emit n text skip) = refl

  after-out :
      (out : Bytes) (m : Machine) (b : ℕ) (p : Bytes) (a : Act)
      → after out m b p a
        ≡ (out ++ (after [] m b p a).0, (after [] m b p a).1, (after [] m b p a).2)
  unfolding after
  after-out out m b p hold = rw append-nil refl
  after-out out m b p (emit n text skip) = refl

  -- A byte settles first, whatever follows.
  plain-settle :
      (m : Machine) (b : ℕ) (p : Bytes)
      → let (out, m') = settle m b in
        let (o, m2, t) = plain u 0 m' (b ∷ p) in plain u 0 m (b ∷ p) ≡ (out ++ o, m2, t)
  plain-settle m b p =
      let (out, m') = settle m b in
      let same = settle_again m' b (settle-Settled m b) in
      let a = act u m' b p in
      let e = ap (λ (x : Bytes × Machine). act u x.1 b p) same in
      let again : plain u 0 m' (b ∷ p) ≡ after [] m' b p a =
        plain-after m' b p a e ∙ ap (λ (x : Bytes × Machine). after x.0 x.1 b p a) same in
      plain-after m b p a refl
      ∙ after-out out m' b p a
      ∙ ap (λ (x : Bytes × Machine × Bytes). (out ++ x.0, x.1, x.2)) (sym again)

  -- The results on the first bytes, and on more.
  abbrev goes_on : Bytes × Machine × Bytes → Bytes → Bytes × Machine × Bytes
  goes_on (o1, m1, t1) q = let (o2, m2, t2) = plain u 0 m1 (t1 ++ q) in (o1 ++ o2, m2, t2)

  goes_on-skip :
      (n : ℕ) (m : Machine) (b : ℕ) (p : Bytes) → plain u (suc n) m (b ∷ p) ≡ plain u n m p
  unfolding plain
  goes_on-skip n m b p = refl

  append_assoc4 : (a b c d : Bytes) → a ++ (b ++ (c ++ d)) ≡ (a ++ (b ++ c)) ++ d
  append_assoc4 a b c d = rw (append_assoc, append_assoc) refl

  after-goes_on :
      (out text : Bytes) (n : Machine) (skip : ℕ) (m : Machine) (b : ℕ) (p q : Bytes)
      → plain u skip n (p ++ q) ≡ goes_on (plain u skip n p) q
      → after out m b (p ++ q) (emit n text skip) ≡ goes_on (after out m b p (emit n text skip)) q
  unfolding after
  after-goes_on out text n skip m b p q h =
      let (o1, m1, t1) = plain u skip n p in
      let (o2, m2, t2) = plain u 0 m1 (t1 ++ q) in
      ap (λ (x : Bytes × Machine × Bytes). (out ++ (text ++ x.0), x.1, x.2)) h
      ∙ ap (λ (y : Bytes). (y, m2, t2)) (append_assoc4 out text o1 o2)

  plain-nil : (m : Machine) (q : Bytes) → plain u 0 m q ≡ goes_on (plain u 0 m []) q
  unfolding plain
  plain-nil m q = refl

  held-goes_on :
      (out : Bytes) (m : Machine) (b : ℕ) (p q : Bytes)
      → (let (o, m2, t) = plain u 0 m (b ∷ (p ++ q)) in (out ++ o, m2, t))
        ≡ goes_on (after out m b p hold) q
  unfolding after
  held-goes_on out m b p q = refl

  -- The loop on bytes and more bytes, from the loop on the first ones.
  plain-append :
      (n : ℕ) (m : Machine) (p q : Bytes)
      → n ≤ length p
      → plain u n m (p ++ q) ≡ goes_on (plain u n m p) q
  plain-append zero m [] q h = plain-nil m q
  plain-append (suc n) m [] q h = absurd (omega arith)
  plain-append (suc n) m (b ∷ p) q h =
      goes_on-skip n m b (p ++ q)
      ∙ plain-append n m p q (omega arith)
      ∙ sym (ap (λ x. goes_on x q) (goes_on-skip n m b p))
  plain-append zero m (b ∷ p) q h =
      let (out, m') = settle m b in
      elim (act-cases m' b p) [
        | inl e ↦
            plain-settle m b (p ++ q)
            ∙ held-goes_on out m' b p q
            ∙ sym (ap (λ x. goes_on x q) (plain-after m b p hold e))
        | inr ((n, text, skip, e, l), stable) ↦
            plain-after m b (p ++ q) (emit n text skip) (stable q ∙ e)
            ∙ after-goes_on out text n skip m' b p q (plain-append skip n p q l)
            ∙ sym (ap (λ x. goes_on x q) (plain-after m b p (emit n text skip) e))
      ]

  -- One chunk is as good as two.
  feed_plain-append :
      (s : Machine × Bytes) (p q : Bytes)
      → feed_plain u s (p ++ q)
        ≡ (let (s1, o1) = feed_plain u s p in let (s2, o2) = feed_plain u s1 q in (s2, o1 ++ o2))
  unfolding feed_plain
  feed_plain-append (m, tail) p q =
      ap (λ (x : Bytes × Machine × Bytes). ((x.1, x.2), x.0))
        (ap (plain u 0 m) (sym (append_assoc tail p q))
          ∙ plain-append 0 m (tail ++ p) q (omega arith))

-- What the chunks become, one after the other.
abbrev pub feed_all : Utf8 → Machine × Bytes → Bytes → List Bytes → (Machine × Bytes) × Bytes
feed_all u s p [] = feed_plain u s p
feed_all u s p (q ∷ qs) =
    let (s1, o1) = feed_plain u s p in let (s2, o2) = feed_all u s1 q qs in (s2, o1 ++ o2)

abbrev pub join : List Bytes → Bytes
join [] = []
join (p ∷ ps) = p ++ join ps

-- However the output of a session is cut into chunks, the default filter makes the same text of them
-- and ends in the same state as on the whole output at once, if what begins with a full rune keeps it
-- when more bytes follow.
pub feed_all-join :
    (u : Utf8) (s : Machine × Bytes) (p : Bytes) (ps : List Bytes)
    → IsUtf8 u
    → feed_all u s p ps ≡ feed_plain u s (p ++ join ps)
feed_all-join u s p [] v = ap (feed_plain u s) (sym (append-nil p))
feed_all-join u s p (q ∷ qs) v =
    let (s1, o1) = feed_plain u s p in
    ap (λ (x : (Machine × Bytes) × Bytes). (x.0, o1 ++ x.1)) (feed_all-join u s1 q qs v)
    ∙ sym (feed_plain-append u v s p (q ++ join qs))
