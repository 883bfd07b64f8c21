-- ===== src/Login/Histories.antt =====
-- Histories of login attempts: the handlers of webauth.go take a slot by check and give it back by
-- fail, succeed or release, in any order between the remotes.
use ssh_gate_oss.Base.{
  ℕ, ◌+◌, ◌≤◌, ◌≡◌, refl, inl, inr, Bool, true, false, ◌||◌, List, [], ◌∷◌, Option, none, some,
  arith, leb, length, Bool-cases, if◌then◌else◌,
}
use ssh_gate_oss.Text.{Text, lookup, text_eq}
use ssh_gate_oss.Text.Laws.{text_eq_sound}
use ssh_gate_oss.Table.{Distinct, put-Distinct}
use ssh_gate_oss.Login.Limiter.{
  RemoteState, Limiter, new_limiter, Answer, admitted, refused, prune_times, make_room, admit,
  check_counts, check, fail, succeed, release, evict_locked,
}
use ssh_gate_oss.Login.States.{state_in, make_room-Distinct}
use ssh_gate_oss.Login.Slots.{Bounded, took, hits, check-Effect}
use ssh_gate_oss.Login.Outcomes.{
  running_attempt, GivesBack, fail-GivesBack, succeed-GivesBack, release-GivesBack,
}

make_room-inflight : (l : Limiter) (now : ℕ) → (make_room l now).global_inflight ≡ l.global_inflight
unfolding make_room evict_locked
make_room-inflight l now = ground arith

-- The limiter and the remotes of the attempts that wait for their result.
pub record World : Type 0 where
  pub limiter : Limiter
  pub running : List Text

pub data Event : Type 0 where
  tries fails succeeds releases : Text → Event

abbrev pub count_of : Text → List Text → ℕ
count_of j [] = 0
count_of j (r ∷ rs) = hits r j 1 + count_of j rs

abbrev pub is_running : Text → List Text → Bool
is_running r [] = false
is_running r (s ∷ rs) = text_eq s r || is_running r rs

abbrev pub leave : Text → List Text → List Text
leave r [] = []
leave r (s ∷ rs) = let rest = leave r rs in if text_eq s r then rs else s ∷ rest

abbrev pub enter : Answer → Text → List Text → List Text
enter (admitted d) r rs = r ∷ rs
enter (refused s t) r rs = rs

abbrev pub ended : World → Text → Limiter → World
ended w r l =
    if is_running r w.running then record { limiter = l; running = leave r w.running } else w

module _ (is_loopback_ip : Text → Bool) where
  -- A result of an attempt that is not running is no event of the program.
  unfoldable pub step : World → ℕ → Event → World
  step w now (tries r) =
      let (l, a) = check is_loopback_ip w.limiter r now in
      record { limiter = l; running = enter a r w.running }
  step w now (fails r) = ended w r (fail w.limiter (running_attempt r) now).0
  step w now (succeeds r) = ended w r (succeed w.limiter (running_attempt r) now).0
  step w now (releases r) = ended w r (release w.limiter (running_attempt r) now).0

  unfoldable pub run : World → List (ℕ × Event) → World
  run w [] = w
  run w ((now, ev) ∷ evs) = run (step w now ev) evs

abbrev pub new_world : World
new_world = record { limiter = new_limiter; running = [] }

-- The slots that are counted are those of the attempts that run.
pub record Inv (w : World) : Type 0 where
  pub distinct : Distinct w.limiter.remotes
  pub total : w.limiter.global_inflight ≡ length w.running
  pub counted : (j : Text) → (state_in w.limiter.remotes j).inflight ≡ count_of j w.running
  pub bounded : (j : Text) → Bounded (state_in w.limiter.remotes j)

count_of-leave :
    (r j : Text) (rs : List Text)
    → is_running r rs ≡ true
    → count_of j (leave r rs) + hits r j 1 ≡ count_of j rs
count_of-leave r j [] h = cc
count_of-leave r j (s ∷ rs) h = elim (Bool-cases (text_eq s r)) [
  | inl e ↦ rw (e, text_eq_sound s r e) (omega arith)
  | inr e ↦ rw e (omega (arith, count_of-leave r j rs (rw e at h)))
]

length-leave :
    (r : Text) (rs : List Text) → is_running r rs ≡ true → length (leave r rs) + 1 ≡ length rs
length-leave r [] h = cc
length-leave r (s ∷ rs) h = elim (Bool-cases (text_eq s r)) [
  | inl e ↦ rw e (omega arith)
  | inr e ↦ rw e (omega (arith, length-leave r rs (rw e at h)))
]

pub running-count : (r : Text) (rs : List Text) → is_running r rs ≡ true → 1 ≤ count_of r rs
running-count r [] h = cc
running-count r (s ∷ rs) h = ground (arith, running-count r rs)

count_of-enter :
    (a : Answer) (r j : Text) (rs : List Text)
    → count_of j (enter a r rs) ≡ count_of j rs + hits r j (took a)
count_of-enter (admitted d) r j rs = omega arith
count_of-enter (refused s t) r j rs = ground arith

length-enter : (a : Answer) (r : Text) (rs : List Text) → length (enter a r rs) ≡ length rs + took a
length-enter (admitted d) r rs = omega arith
length-enter (refused s t) r rs = omega arith

hits-zero : (r j : Text) → hits r j 0 ≡ 0
hits-zero r j = ground arith

admit-total :
    (l : Limiter) (r : Text) (st : Option RemoteState) (now : ℕ)
    → (admit l r st now).0.global_inflight ≡ l.global_inflight + took (admit l r st now).1
unfolding admit
admit-total l r none now = omega (arith, make_room-inflight l now)
admit-total l r (some st) now = ground arith

admit-Distinct :
    (l : Limiter) (r : Text) (st : Option RemoteState) (now : ℕ)
    → Distinct l.remotes
    → Distinct (admit l r st now).0.remotes
unfolding admit
admit-Distinct l r none now d = put-Distinct r _ _ (make_room-Distinct l now d)
admit-Distinct l r (some st) now d =
    elim (Bool-cases (leb 10 (length (prune_times st.fails now) + st.inflight))) [
      | inl e ↦ rw e (put-Distinct r _ l.remotes d)
      | inr e ↦ rw e (put-Distinct r _ l.remotes d)
    ]

module _ (is_loopback_ip : Text → Bool) where
  check-total :
      (l : Limiter) (r : Text) (now : ℕ)
      → (check is_loopback_ip l r now).0.global_inflight
        ≡ l.global_inflight + took (check is_loopback_ip l r now).1
  unfolding check check_counts
  check-total l r now = ground (
    arith,
    admit-total (record l { global_fails = prune_times l.global_fails now }) r (lookup r l.remotes)
        now,
  )

  check-Distinct :
      (l : Limiter) (r : Text) (now : ℕ)
      → Distinct l.remotes
      → Distinct (check is_loopback_ip l r now).0.remotes
  unfolding check check_counts
  check-Distinct l r now d = ground (
    arith,
    admit-Distinct (record l { global_fails = prune_times l.global_fails now }) r
        (lookup r l.remotes) now d,
  )

  tries-Inv : (w : World) (r : Text) (now : ℕ) → Inv w → Inv (step is_loopback_ip w now (tries r))
  unfolding step
  tries-Inv w r now v =
      let (l, a) = check is_loopback_ip w.limiter r now in
      let ef = λ (j : Text). check-Effect is_loopback_ip w.limiter r j now v.distinct in
      record {
        distinct = check-Distinct w.limiter r now v.distinct;
        total = omega (arith, v.total, check-total w.limiter r now, length-enter a r w.running);
        counted = λ j.
            omega
              (arith, (ef j).inflight, v.counted j, count_of-enter a r j w.running, hits-zero r j);
        bounded = λ j. (ef j).bounded (v.bounded j);
      }

ended-Inv :
    (w : World) (r : Text) (l : Limiter)
    → Inv w
    → (1 ≤ (state_in w.limiter.remotes r).inflight → GivesBack w.limiter r l)
    → Inv (ended w r l)
ended-Inv w r l v back = elim (Bool-cases (is_running r w.running)) [
  | inr e ↦ rw e v
  | inl e ↦
      let g = back (omega (arith, v.counted r, running-count r w.running e)) in
      rw e (record {
        distinct = g.distinct v.distinct;
        total = omega (arith, g.total, v.total, length-leave r w.running e);
        counted = λ j. omega (
          arith,
          (g.effect j).inflight,
          v.counted j,
          count_of-leave r j w.running e,
          hits-zero r j,
        );
        bounded = λ j. (g.effect j).bounded (v.bounded j);
      })
]

module _ (is_loopback_ip : Text → Bool) where
  pub step-Inv : (w : World) (now : ℕ) (ev : Event) → Inv w → Inv (step is_loopback_ip w now ev)
  unfolding step
  step-Inv w now (tries r) v = unfold step in tries-Inv is_loopback_ip w r now v
  step-Inv w now (fails r) v = ended-Inv w r _ v (fail-GivesBack w.limiter r now)
  step-Inv w now (succeeds r) v = ended-Inv w r _ v (succeed-GivesBack w.limiter r now)
  step-Inv w now (releases r) v = ended-Inv w r _ v (release-GivesBack w.limiter r now)

  run-Inv : (w : World) (evs : List (ℕ × Event)) → Inv w → Inv (run is_loopback_ip w evs)
  unfolding run
  run-Inv w [] v = v
  run-Inv w ((now, ev) ∷ evs) v = run-Inv (step is_loopback_ip w now ev) evs (step-Inv w now ev v)

  -- After any history the slots that are counted are exactly those of the attempts that run, in
  -- all and for each remote, and no remote has more than ten kept failures and running attempts.
  pub slots_accounted : (evs : List (ℕ × Event)) → Inv (run is_loopback_ip new_world evs)
  slots_accounted evs = run-Inv new_world evs (record {
    distinct = tt;
    total = refl;
    counted = λ j. unfold lookup in refl;
    bounded = λ j. unfold lookup in omega arith;
  })
