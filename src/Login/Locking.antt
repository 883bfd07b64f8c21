-- ===== src/Login/Locking.antt =====
-- The lock of a remote: nothing lifts it before its time, and check refuses until then.
use ssh_gate_oss.Base.{
  ℕ, ◌+◌, ◌-◌, ◌≤◌, ◌<◌, ◌≡◌, refl, ap, ◌∙◌, inl, inr, Bool, true, false, not, ◌&&◌, List, [], ◌∷◌,
  Option, none, some, arith, ltb, leb, lt→ltb, length, Bool-cases, subst, length-append,
}
use ssh_gate_oss.Text.{Text, lookup, text_eq}
use ssh_gate_oss.Text.Laws.{text_eq_iff}
use ssh_gate_oss.Table.{put, lookup-put_self, Distinct}
use ssh_gate_oss.Login.Limiter.{
  RemoteState, Limiter, Answer, refused, of_remote, of_all, Scope, login_lock_duration, prune_times,
  make_room, admit, check_counts, check, give_back, release_slot, add_failure, fail, clear_fails,
  succeed, release, until_of, login_is_loopback,
}
use ssh_gate_oss.Login.States.{
  or_fresh, until_of-or_fresh, state_in, state_in-put, Forgets, keeps, forgets, make_room-Forgets,
}
use ssh_gate_oss.Login.Outcomes.{
  running_attempt, held, fail-remotes, succeed-eq, release-eq, drop-Forgets,
}
use ssh_gate_oss.Login.Histories.{
  World, Event, tries, fails, succeeds, releases, step, run, is_running, running-count, ended, Inv,
  step-Inv,
}

abbrev pub until_in : Limiter → Text → ℕ
until_in l remote = (state_in l.remotes remote).locked_until

-- A lock up to `deadline`, seen at a time before it and at most one lock's length away.
module _ (deadline now : ℕ) (early : now < deadline)
    (near : deadline ≤ now + login_lock_duration) where
  abbrev Kept : RemoteState → RemoteState → Type 0
  Kept st st' = deadline ≤ st.locked_until → deadline ≤ st'.locked_until

  Forgets-Kept : {st st' : RemoteState} → Forgets now st st' → Kept st st'
  Forgets-Kept keeps h = h
  Forgets-Kept (forgets i) h = absurd (omega arith)

  put-Kept :
      (remote j : Text) (st : RemoteState) (m m' : List (Text × RemoteState))
      → Kept (state_in m remote) st
      → (text_eq remote j ≡ false → Kept (state_in m j) (state_in m' j))
      → Kept (state_in m j) (state_in (put remote st m') j)
  put-Kept remote j st m m' here there =
      rw (state_in-put remote j st m') (elim (Bool-cases (text_eq remote j)) [
        | inl e ↦ rw e (subst (λ k. Kept (state_in m k) st) ((text_eq_iff remote j).0 e) here)
        | inr e ↦ rw e (there e)
      ])

  admit-Kept :
      (l : Limiter) (remote j : Text) (st : Option RemoteState)
      → lookup remote l.remotes ≡ st
      → Distinct l.remotes
      → Kept (state_in l.remotes j) (state_in (admit l remote st now).0.remotes j)
  unfolding admit
  admit-Kept l remote j none e d =
      put-Kept remote j _ l.remotes (make_room l now).remotes (rw e (λ h. absurd (omega arith)))
        (λ n. Forgets-Kept (make_room-Forgets l now j d))
  admit-Kept l remote j (some st) e d =
      elim (Bool-cases (leb 10 (length (prune_times st.fails now) + st.inflight))) [
        | inl full ↦ rw full (put-Kept remote j _ l.remotes l.remotes (rw e (λ h. h)) (λ n h. h))
        | inr room ↦ rw room (put-Kept remote j _ l.remotes l.remotes (rw e (λ h. h)) (λ n h. h))
      ]

  add_failure-until : (st : RemoteState) → Kept st (add_failure (give_back st) now)
  unfolding add_failure
  add_failure-until st h = ground arith

  give_back-Kept :
      (m : List (Text × RemoteState)) (remote j : Text) (st st' : RemoteState)
      → lookup remote m ≡ some st
      → Kept st st'
      → Kept (state_in m j) (state_in (put remote st' (put remote (give_back st) m)) j)
  give_back-Kept m remote j st st' e k =
      put-Kept remote j st' m (put remote (give_back st) m) (rw e k)
        (λ n. rw (state_in-put remote j (give_back st) m, n) (λ h. h))

  module _ (l : Limiter) (remote : Text) (st : RemoteState) (e : lookup remote l.remotes ≡ some st)
      (j : Text) where
    fail-Kept :
        Kept (state_in l.remotes j) (state_in (fail l (running_attempt remote) now).0.remotes j)
    fail-Kept =
        rw (fail-remotes l remote now st e)
          (give_back-Kept l.remotes remote j st _ e (add_failure-until st))

    succeed-Kept :
        Kept (state_in l.remotes j) (state_in (succeed l (running_attempt remote) now).0.remotes j)
    unfolding clear_fails release_slot
    succeed-Kept h = rw (succeed-eq l remote now st e) (
        Forgets-Kept
          (drop-Forgets _ remote j (record (give_back st) { fails = [] }) now
            (lookup-put_self remote _ (put remote (give_back st) l.remotes)))
          (give_back-Kept l.remotes remote j st (record (give_back st) { fails = [] }) e (λ k. k)
            h))

    release-Kept :
        Kept (state_in l.remotes j) (state_in (release l (running_attempt remote) now).0.remotes j)
    unfolding release_slot
    release-Kept h = rw (release-eq l remote now st e) (
        Forgets-Kept
          (drop-Forgets (release_slot l remote (some st)) remote j (give_back st) now
            (lookup-put_self remote (give_back st) l.remotes))
          (put-Kept remote j (give_back st) l.remotes l.remotes (rw e (λ k. k)) (λ n k. k) h))

  module _ (is_loopback_ip : Text → Bool) where
    check-Kept :
        (l : Limiter) (remote j : Text)
        → Distinct l.remotes
        → Kept (state_in l.remotes j) (state_in (check is_loopback_ip l remote now).0.remotes j)
    unfolding check check_counts
    check-Kept l remote j d =
        let l' = record l { global_fails = prune_times l.global_fails now } in
        ground (arith, admit-Kept l' remote j (lookup remote l.remotes))

    ended-Kept :
        (w : World) (r j : Text) (l : Limiter)
        → Inv w
        → ((st : RemoteState)
            → lookup r w.limiter.remotes ≡ some st
            → Kept (state_in w.limiter.remotes j) (state_in l.remotes j))
        → Kept (state_in w.limiter.remotes j) (state_in (ended w r l).limiter.remotes j)
    ended-Kept w r j l v k = elim (Bool-cases (is_running r w.running)) [
      | inr e ↦ rw e (λ h. h)
      | inl e ↦
          let (st, at) =
            held w.limiter.remotes r (omega (arith, v.counted r, running-count r w.running e)) in
          rw e (k st at)
    ]

    step-Kept :
        (w : World) (ev : Event) (j : Text)
        → Inv w
        → Kept
            (state_in w.limiter.remotes j)
            (state_in (step is_loopback_ip w now ev).limiter.remotes j)
    unfolding step
    step-Kept w (tries r) j v = check-Kept w.limiter r j v.distinct
    step-Kept w (fails r) j v = ended-Kept w r j _ v (λ st e. fail-Kept w.limiter r st e j)
    step-Kept w (succeeds r) j v = ended-Kept w r j _ v (λ st e. succeed-Kept w.limiter r st e j)
    step-Kept w (releases r) j v = ended-Kept w r j _ v (λ st e. release-Kept w.limiter r st e j)

-- The events of a history happen in a period.
abbrev pub Within : ℕ → ℕ → List (ℕ × Event) → Type 0
Within start end [] = Unit
Within start end ((t, ev) ∷ evs) = (start ≤ t) × (t < end) × Within start end evs

tenth_failure :
    (l : Limiter) (r : Text) (now : ℕ) (st : RemoteState)
    → lookup r l.remotes ≡ some st
    → length (prune_times st.fails now) ≡ 9
    → until_in (fail l (running_attempt r) now).0 r ≡ now + login_lock_duration
unfolding add_failure
tenth_failure l r now st at nine =
    ap (λ m. (state_in m r).locked_until) (fail-remotes l r now st at)
    ∙ ap (λ o. (or_fresh o).locked_until)
        (lookup-put_self r (add_failure (give_back st) now) (put r (give_back st) l.remotes))
    ∙ ground (arith, length-append (prune_times st.fails now) (now ∷ []))

-- The check is refused, with a time to wait.
abbrev pub IsRefused : Answer → Type 0
IsRefused a = (scope : Scope) × (retry : ℕ) × (a ≡ refused scope retry)

module _ (is_loopback_ip : Text → Bool) where
  pub locked-IsRefused :
      (l : Limiter) (r : Text) (now : ℕ)
      → now < until_in l r
      → IsRefused (check is_loopback_ip l r now).1
  unfolding check check_counts
  locked-IsRefused l r now h =
      let locked : ltb now (until_of (lookup r l.remotes)) ≡ true =
        rw (until_of-or_fresh (lookup r l.remotes)) (lt→ltb now (until_in l r) h) in
      elim (Bool-cases (not (login_is_loopback is_loopback_ip r) && ltb now l.global_until)) [
        | inl e ↦ rw e (of_all, l.global_until - now, refl)
        | inr e ↦ rw (e, locked) (of_remote, until_of (lookup r l.remotes) - now, refl)
      ]

  run-until :
      (start : ℕ) (w : World) (evs : List (ℕ × Event)) (j : Text)
      → Inv w
      → Within start (start + login_lock_duration) evs
      → start + login_lock_duration ≤ until_in w.limiter j
      → start + login_lock_duration ≤ until_in (run is_loopback_ip w evs).limiter j
  unfolding run
  run-until start w [] j v p h = h
  run-until start w ((t, ev) ∷ evs) j v (after, before, p) h =
      run-until start (step is_loopback_ip w t ev) evs j (step-Inv is_loopback_ip w t ev v) p
        (step-Kept (start + login_lock_duration) t before (omega arith) is_loopback_ip w ev j v h)

  fails-until :
      (w : World) (r : Text) (now : ℕ)
      → Inv w
      → is_running r w.running ≡ true
      → length (prune_times (state_in w.limiter.remotes r).fails now) ≡ 9
      → until_in (step is_loopback_ip w now (fails r)).limiter r ≡ now + login_lock_duration
  unfolding step
  fails-until w r now v e nine =
      let (st, at) =
        held w.limiter.remotes r (omega (arith, v.counted r, running-count r w.running e)) in
      rw e (tenth_failure w.limiter r now st at (rw at at nine))

  -- Where the slots are accounted for, an attempt of a remote runs and nine of its failures lie in
  -- the window, the failure of that attempt locks the remote: whatever attempts are checked,
  -- succeed, fail or are released in the next 15 minutes, at this remote or another, a check of it
  -- in that time is refused.
  pub tenth_failure_locks :
      (w : World) (r : Text) (now : ℕ) (evs : List (ℕ × Event)) (t : ℕ)
      → Inv w
      → is_running r w.running ≡ true
      → length (prune_times (state_in w.limiter.remotes r).fails now) ≡ 9
      → Within now (now + login_lock_duration) evs
      → now ≤ t
      → t < now + login_lock_duration
      → IsRefused
          (check is_loopback_ip
            (run is_loopback_ip (step is_loopback_ip w now (fails r)) evs).limiter
            r
            t).1
  tenth_failure_locks w r now evs t v e nine p after before = locked-IsRefused _ r t (
      omega (
        arith,
        run-until now (step is_loopback_ip w now (fails r)) evs r
            (step-Inv is_loopback_ip w now (fails r) v) p
            (omega (arith, fails-until w r now v e nine)),
      ))
