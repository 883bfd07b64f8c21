-- ===== src/Login/Slots.antt =====
-- The slots of running login attempts: what each method does to the state of every remote.
use ssh_gate_oss.Base.{
  ℕ, ◌+◌, ◌≤◌, ◌≡◌, refl, sym, subst, inl, inr, Bool, false, not, ◌&&◌, List, [], ◌∷◌, Option, none,
  some, arith, ltb, leb, if◌then◌else◌, length, Bool-cases,
}
use ssh_gate_oss.Text.{Text, lookup, text_eq}
use ssh_gate_oss.Text.Laws.{text_eq_iff}
use ssh_gate_oss.Table.{put, Distinct}
use ssh_gate_oss.Login.Limiter.{
  RemoteState, Limiter, Answer, admitted, refused, prune_times, make_room, admit, check_counts,
  check, until_of, login_is_loopback,
}
use ssh_gate_oss.Login.States.{state_in, state_in-put, Forgets, keeps, forgets, make_room-Forgets}

-- At most nine failures are kept, and with the running attempts they are at most ten.
pub record Bounded (st : RemoteState) : Type 0 where
  pub few_fails : length st.fails ≤ 9
  pub few_slots : length st.fails + st.inflight ≤ 10

-- The slots that an answer takes.
abbrev pub took : Answer → ℕ
took (admitted d) = 1
took (refused s t) = 0

pub length-prune_times : (ts : List ℕ) (now : ℕ) → length (prune_times ts now) ≤ length ts
unfolding prune_times
length-prune_times [] now = omega arith
length-prune_times (t ∷ ts) now = ground (arith, length-prune_times ts now)

pub Forgets-Bounded :
    {now : ℕ} {st st' : RemoteState} → Forgets now st st' → Bounded st → Bounded st'
Forgets-Bounded keeps b = b
Forgets-Bounded (forgets i) b = omega arith

pub Forgets-inflight :
    {now : ℕ} {st st' : RemoteState} → Forgets now st st' → st'.inflight ≡ st.inflight
Forgets-inflight keeps = refl
Forgets-inflight (forgets i) = sym i.1

-- The effect on one remote of a step that takes `plus` slots and gives `minus` back.
pub record Effect (plus minus : ℕ) (st st' : RemoteState) : Type 0 where
  pub bounded : Bounded st → Bounded st'
  pub inflight : st'.inflight + minus ≡ st.inflight + plus

pub unchanged : (st : RemoteState) → Effect 0 0 st st
unchanged st = record { bounded = λ b. b; inflight = refl }

pub Forgets-Effect : {now : ℕ} {st st' : RemoteState} → Forgets now st st' → Effect 0 0 st st'
Forgets-Effect f = record {
  bounded = Forgets-Bounded f;
  inflight = omega (arith, Forgets-inflight f);
}

abbrev pub hits : Text → Text → ℕ → ℕ
hits remote j n = if text_eq remote j then n else 0

-- A write at one remote, on a table that may have changed elsewhere.
pub put-Effect :
    (p q : ℕ) (remote j : Text) (st : RemoteState) (m m' : List (Text × RemoteState))
    → Effect p q (state_in m remote) st
    → (text_eq remote j ≡ false → Effect 0 0 (state_in m j) (state_in m' j))
    → Effect (hits remote j p) (hits remote j q) (state_in m j) (state_in (put remote st m') j)
put-Effect p q remote j st m m' here there =
    rw (state_in-put remote j st m') (elim (Bool-cases (text_eq remote j)) [
      | inl e ↦ rw e (subst (λ k. Effect p q (state_in m k) st) ((text_eq_iff remote j).0 e) here)
      | inr e ↦ rw e (there e)
    ])

admit-Effect :
    (l : Limiter) (remote j : Text) (now : ℕ) (st : Option RemoteState)
    → lookup remote l.remotes ≡ st
    → Distinct l.remotes
    → let r = admit l remote st now in
      Effect
        (hits remote j (took r.1))
        (hits remote j 0)
        (state_in l.remotes j)
        (state_in r.0.remotes j)
unfolding admit
admit-Effect l remote j now none e d =
    put-Effect 1 0 remote j _ l.remotes (make_room l now).remotes
      (rw e (record { bounded = λ b. omega arith; inflight = omega arith }))
      (λ n. Forgets-Effect (make_room-Forgets l now j d))
admit-Effect l remote j now (some st) e d =
    elim (Bool-cases (leb 10 (length (prune_times st.fails now) + st.inflight))) [
      | inl full ↦ rw full (
          put-Effect 0 0 remote j _ l.remotes l.remotes
            (rw e (record {
              bounded = λ b. omega (arith, length-prune_times st.fails now);
              inflight = omega arith;
            }))
            (λ n. unchanged (state_in l.remotes j)))
      | inr room ↦ rw room (
          put-Effect 1 0 remote j _ l.remotes l.remotes
            (rw e (record {
              bounded = λ b. ground (arith, length-prune_times st.fails now);
              inflight = omega arith;
            }))
            (λ n. unchanged (state_in l.remotes j)))
    ]

pub unchanged_hits :
    (remote j : Text) (st : RemoteState) → Effect (hits remote j 0) (hits remote j 0) st st
unchanged_hits remote j st = elim (Bool-cases (text_eq remote j)) [
  | inl e ↦ rw e (unchanged st)
  | inr e ↦ rw e (unchanged st)
]

check_counts-Effect :
    (b : Bool) (l : Limiter) (remote j : Text) (now : ℕ)
    → Distinct l.remotes
    → let r = check_counts b l remote (lookup remote l.remotes) now in
      Effect
        (hits remote j (took r.1))
        (hits remote j 0)
        (state_in l.remotes j)
        (state_in r.0.remotes j)
unfolding check_counts
check_counts-Effect b l remote j now d =
    let l' = record l { global_fails = prune_times l.global_fails now } in
    let same = unchanged_hits remote j (state_in l.remotes j) in
    elim (Bool-cases (ltb now (until_of (lookup remote l.remotes)))) [
      | inl locked ↦ rw locked same
      | inr open' ↦
          elim (Bool-cases (not b && leb 100 (length l'.global_fails + l'.global_inflight))) [
            | inl full ↦ rw (open', full) same
            | inr room ↦
                rw (open', room) (admit-Effect l' remote j now (lookup remote l.remotes) refl d)
          ]
    ]

module _ (is_loopback_ip : Text → Bool) where
  -- `check` takes the slots that its answer says, at the remote that asks.
  pub check-Effect :
      (l : Limiter) (remote j : Text) (now : ℕ)
      → Distinct l.remotes
      → let r = check is_loopback_ip l remote now in
        Effect
          (hits remote j (took r.1))
          (hits remote j 0)
          (state_in l.remotes j)
          (state_in r.0.remotes j)
  unfolding check
  check-Effect l remote j now d =
      elim (Bool-cases (not (login_is_loopback is_loopback_ip remote) && ltb now l.global_until)) [
        | inl locked ↦ rw locked (unchanged_hits remote j (state_in l.remotes j))
        | inr open' ↦ rw open' (check_counts-Effect _ l remote j now d)
      ]
