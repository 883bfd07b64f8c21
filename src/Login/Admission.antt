-- ===== src/Login/Admission.antt =====
-- When check admits an attempt, and with what delay.
use ssh_gate_oss.Base.{ℕ, ◌+◌, ◌≤◌, ◌<◌, ◌≡◌, ◌↔◌, Bool, false, Option, none, some, arith, length}
use ssh_gate_oss.Text.{Text, lookup}
use ssh_gate_oss.Login.Limiter.{
  RemoteState, Limiter, admitted, prune_times, admit, check_counts, check, login_is_loopback,
  login_delay,
}
use ssh_gate_oss.Login.States.{or_fresh, until_of-or_fresh, state_in}

-- The failures in the window and the running attempts of a remote.
abbrev pub slots_at : RemoteState → ℕ → ℕ
slots_at st now = length (prune_times st.fails now) + st.inflight

-- The remote is not locked and below its limit, and so is the whole, unless the remote is local.
pub record MayTry (loopback : Bool) (l : Limiter) (st : RemoteState) (now : ℕ) : Type 0 where
  pub unlocked : st.locked_until ≤ now
  pub below_limit : slots_at st now < 10
  pub all_unlocked : loopback ≡ false → l.global_until ≤ now
  pub all_below_limit :
      loopback ≡ false → length (prune_times l.global_fails now) + l.global_inflight < 100

admit_iff :
    (l : Limiter) (r : Text) (st : Option RemoteState) (now d : ℕ)
    → ((admit l r st now).1 ≡ admitted d)
      ↔ ((slots_at (or_fresh st) now < 10) × (d ≡ login_delay (slots_at (or_fresh st) now)))
unfolding admit
admit_iff l r none now d =
    unfold prune_times in (λ h. (omega arith, ground arith), λ h. ground arith)
admit_iff l r (some st) now d = (λ h. (ground arith, ground arith), λ h. ground arith)

module _ (is_loopback_ip : Text → Bool) where
  -- An attempt is admitted exactly if neither lock is on and both counts are below their limits;
  -- the delay is that of the remote's count.
  pub admitted_iff :
      (l : Limiter) (r : Text) (now d : ℕ)
      → let st = state_in l.remotes r in
        ((check is_loopback_ip l r now).1 ≡ admitted d) ↔ (
          MayTry (login_is_loopback is_loopback_ip r) l st now
          × (d ≡ login_delay (slots_at st now)))
  unfolding check check_counts
  admitted_iff l r now d =
      let l' = record l { global_fails = prune_times l.global_fails now } in
      let st = lookup r l.remotes in
      (
        λ h. ground (arith, (admit_iff l' r st now d).0, until_of-or_fresh st),
        λ h. ground (
          arith,
          (admit_iff l' r st now d).1,
          until_of-or_fresh st,
          h.0.all_unlocked,
          h.0.all_below_limit,
        ),
      )
