-- ===== src/Login/Outcomes.antt =====
-- The end of a login attempt: fail, succeed and release give exactly one slot back.
use ssh_gate_oss.Base.{
  ℕ, ◌-◌, ◌≤◌, ◌≡◌, refl, ap, inl, inr, true, false, not, ◌&&◌, List, [], ◌∷◌, some, arith, ltb,
  ◌==◌, is_empty, Bool-cases, length-append,
}
use ssh_gate_oss.Text.{Text, lookup, text_eq}
use ssh_gate_oss.Text.Laws.{text_eq_iff}
use ssh_gate_oss.Table.{put, lookup-put_self, Distinct, put-Distinct, delete-Distinct}
use ssh_gate_oss.Login.Limiter.{
  RemoteState, Limiter, Attempt, prune_times, give_back, release_slot, release_locked, drop_if_idle,
  add_failure, fail_remote, fail_global, fail, clear_fails, succeed, release,
}
use ssh_gate_oss.Login.States.{state_in, state_in-put, state_in-delete, Forgets, keeps, forgets}
use ssh_gate_oss.Login.Slots.{
  Effect, hits, put-Effect, unchanged, Forgets-Bounded, Forgets-inflight, length-prune_times,
}

-- An attempt that check has admitted and that has no result yet.
abbrev pub running_attempt : Text → Attempt
running_attempt remote = record { remote = remote; reserved = true; done = false }

pub held :
    (m : List (Text × RemoteState)) (remote : Text)
    → 1 ≤ (state_in m remote).inflight
    → (st : RemoteState) × (lookup remote m ≡ some st)
held m remote h = ground arith

pub fail_global-remotes : (l : Limiter) (now : ℕ) → (fail_global l now).remotes ≡ l.remotes
unfolding fail_global
fail_global-remotes l now = ground arith

fail_global-inflight :
    (l : Limiter) (now : ℕ) → (fail_global l now).global_inflight ≡ l.global_inflight
unfolding fail_global
fail_global-inflight l now = ground arith

module _ (l : Limiter) (remote : Text) (now : ℕ) (st : RemoteState)
    (e : lookup remote l.remotes ≡ some st) where
  pub released : release_locked l (running_attempt remote) ≡ release_slot l remote (some st)
  unfolding release_locked
  released = ap (release_slot l remote) e

  pub fail-eq :
      (fail l (running_attempt remote) now).0
      ≡ fail_global
          (fail_remote (release_slot l remote (some st)) remote (some (give_back st)) now)
          now
  unfolding fail release_slot
  fail-eq = rw (released, lookup-put_self remote (give_back st) l.remotes) refl

  pub succeed-eq :
      (succeed l (running_attempt remote) now).0
      ≡ clear_fails (release_slot l remote (some st)) remote (some (give_back st)) now
  unfolding succeed release_slot
  succeed-eq = rw (released, lookup-put_self remote (give_back st) l.remotes) refl

  pub release-eq :
      (release l (running_attempt remote) now).0
      ≡ drop_if_idle (release_slot l remote (some st)) remote (some (give_back st)) now
  unfolding release release_slot
  release-eq = rw (released, lookup-put_self remote (give_back st) l.remotes) refl

  -- The state of every remote once the slot is given back.
  given_back :
      (st' : RemoteState)
      → Effect 0 1 st st'
      → (j : Text)
      → Effect
          (hits remote j 0)
          (hits remote j 1)
          (state_in l.remotes j)
          (state_in (put remote st' (put remote (give_back st) l.remotes)) j)
  given_back st' ef j =
      put-Effect 0 1 remote j st' l.remotes (put remote (give_back st) l.remotes) (rw e ef) (λ n.
        rw (state_in-put remote j (give_back st) l.remotes, n) (unchanged (state_in l.remotes j)))

  add_failure-Effect : 1 ≤ st.inflight → Effect 0 1 st (add_failure (give_back st) now)
  unfolding add_failure
  add_failure-Effect h = record {
    bounded = λ b. ground (
      arith,
      length-append (prune_times st.fails now) (now ∷ []),
      length-prune_times st.fails now,
    );
    inflight = ground arith;
  }

  pub fail-remotes :
      (fail l (running_attempt remote) now).0.remotes
      ≡ put remote (add_failure (give_back st) now) (put remote (give_back st) l.remotes)
  unfolding release_slot fail_remote
  fail-remotes = rw fail-eq (fail_global-remotes _ now)

  fail-Effect_held :
      1 ≤ st.inflight
      → (j : Text)
      → Effect
          (hits remote j 0)
          (hits remote j 1)
          (state_in l.remotes j)
          (state_in (fail l (running_attempt remote) now).0.remotes j)
  fail-Effect_held h j =
      rw fail-remotes (given_back (add_failure (give_back st) now) (add_failure-Effect h) j)

pub drop-Forgets :
    (l : Limiter) (remote j : Text) (st : RemoteState) (now : ℕ)
    → lookup remote l.remotes ≡ some st
    → Forgets now (state_in l.remotes j) (state_in (drop_if_idle l remote (some st) now).remotes j)
unfolding drop_if_idle
drop-Forgets l remote j st now e =
    elim (Bool-cases (st.inflight == 0 && is_empty st.fails && not (ltb now st.locked_until))) [
      | inl idle ↦
          rw (idle, state_in-delete remote j l.remotes)
            (elim (Bool-cases (text_eq remote j)) [
              | inl same ↦
                  rw (same, ← (text_eq_iff remote j).0 same, e)
                    (forgets (ground arith, ground arith))
              | inr other ↦ rw other keeps
            ])
      | inr busy ↦ rw busy keeps
    ]

pub Effect-Forgets :
    {p q now : ℕ} {a b c : RemoteState} → Effect p q a b → Forgets now b c → Effect p q a c
Effect-Forgets ef f = record {
  bounded = λ h. Forgets-Bounded f (ef.bounded h);
  inflight = omega (arith, ef.inflight, Forgets-inflight f);
}

module _ (l : Limiter) (remote : Text) (now : ℕ) (st : RemoteState)
    (e : lookup remote l.remotes ≡ some st) where
  release-Effect_held :
      1 ≤ st.inflight
      → (j : Text)
      → Effect
          (hits remote j 0)
          (hits remote j 1)
          (state_in l.remotes j)
          (state_in (release l (running_attempt remote) now).0.remotes j)
  unfolding release_slot
  release-Effect_held h j = rw (release-eq l remote now st e) (
      Effect-Forgets
        (put-Effect 0 1 remote j (give_back st) l.remotes l.remotes
          (rw e (record { bounded = λ b. omega arith; inflight = omega arith }))
          (λ n. unchanged (state_in l.remotes j)))
        (drop-Forgets (release_slot l remote (some st)) remote j (give_back st) now
          (lookup-put_self remote (give_back st) l.remotes)))

  succeed-Effect_held :
      1 ≤ st.inflight
      → (j : Text)
      → Effect
          (hits remote j 0)
          (hits remote j 1)
          (state_in l.remotes j)
          (state_in (succeed l (running_attempt remote) now).0.remotes j)
  unfolding release_slot clear_fails
  succeed-Effect_held h j = rw (succeed-eq l remote now st e) (
      Effect-Forgets
        (given_back l remote now st e (record (give_back st) { fails = [] })
          (record { bounded = λ b. omega arith; inflight = omega arith }) j)
        (drop-Forgets _ remote j (record (give_back st) { fails = [] }) now
          (lookup-put_self remote _ (put remote (give_back st) l.remotes))))

drop-Distinct :
    (l : Limiter) (remote : Text) (st : RemoteState) (now : ℕ)
    → Distinct l.remotes
    → Distinct (drop_if_idle l remote (some st) now).remotes
unfolding drop_if_idle
drop-Distinct l remote st now d = ground (arith, delete-Distinct remote l.remotes d)

drop-inflight :
    (l : Limiter) (remote : Text) (st : RemoteState) (now : ℕ)
    → (drop_if_idle l remote (some st) now).global_inflight ≡ l.global_inflight
unfolding drop_if_idle
drop-inflight l remote st now = ground arith

-- What a result does to the limiter: one slot is given back, at the remote that held it.
pub record GivesBack (l : Limiter) (remote : Text) (l' : Limiter) : Type 0 where
  pub distinct : Distinct l.remotes → Distinct l'.remotes
  pub total : l'.global_inflight ≡ l.global_inflight - 1
  pub effect :
      (j : Text)
      → Effect (hits remote j 0) (hits remote j 1) (state_in l.remotes j) (state_in l'.remotes j)

module _ (l : Limiter) (remote : Text) (now : ℕ)
    (h : 1 ≤ (state_in l.remotes remote).inflight) where
  pub fail-GivesBack : GivesBack l remote (fail l (running_attempt remote) now).0
  unfolding fail_remote release_slot
  fail-GivesBack =
      let (st, e) = held l.remotes remote h in
      record {
        distinct = λ d.
            rw (fail-remotes l remote now st e)
              (put-Distinct remote _ _ (put-Distinct remote _ l.remotes d));
        total = rw (fail-eq l remote now st e) (fail_global-inflight _ now);
        effect = fail-Effect_held l remote now st e (rw e at h);
      }

  pub succeed-GivesBack : GivesBack l remote (succeed l (running_attempt remote) now).0
  unfolding clear_fails release_slot
  succeed-GivesBack =
      let (st, e) = held l.remotes remote h in
      record {
        distinct = λ d. rw (succeed-eq l remote now st e) (
            drop-Distinct _ remote _ now
              (put-Distinct remote _ _ (put-Distinct remote _ l.remotes d)));
        total = rw (succeed-eq l remote now st e) (drop-inflight _ remote _ now);
        effect = succeed-Effect_held l remote now st e (rw e at h);
      }

  pub release-GivesBack : GivesBack l remote (release l (running_attempt remote) now).0
  unfolding release_slot
  release-GivesBack =
      let (st, e) = held l.remotes remote h in
      record {
        distinct = λ d.
            rw (release-eq l remote now st e)
              (drop-Distinct _ remote _ now (put-Distinct remote _ l.remotes d));
        total = rw (release-eq l remote now st e) (drop-inflight _ remote _ now);
        effect = release-Effect_held l remote now st e (rw e at h);
      }
