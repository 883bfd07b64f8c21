-- ===== src/Login/Tests.antt =====
-- The limiter on concrete attempts.
use ssh_gate_oss.Base.{ℕ, ◌*◌, ◌^◌, ◌≡◌, refl, Bool, List, [], ◌∷◌, ◌++◌, arith, min}
use ssh_gate_oss.Text.{Text, codes, text_eq, lookup}
use ssh_gate_oss.Table.{put, delete}
use ssh_gate_oss.Login.Limiter.{
  admitted, prune_times, login_delay, make_room, admit, check_counts, login_is_loopback, check,
  release_slot, release_locked, drop_if_idle, add_failure, fail_remote, fail_global, fail,
  clear_fails, succeed, release, new_limiter, millisecond, login_base_delay, login_max_delay,
}
use ssh_gate_oss.Login.States.{state_in}
use ssh_gate_oss.Login.Histories.{
  World, Event, tries, fails, succeeds, step, run, new_world, Inv, slots_accounted,
}
use ssh_gate_oss.Login.Locking.{IsRefused, tenth_failure_locks}
use ssh_gate_oss.Login.Admission.{MayTry, slots_at, admitted_iff}
use ssh_gate_oss.Login.Delay.{login_delay-closed}

-- Unfolding this name lets the limiter run.
abbrev runs : Unit {0}
unfolding text_eq lookup put delete prune_times login_delay make_room admit check_counts
    login_is_loopback check release_slot release_locked drop_if_idle add_failure fail_remote
    fail_global fail clear_fails succeed release step run
runs = tt

abbrev local_only : Text → Bool
local_only ip = text_eq ip (codes "127.0.0.1")

abbrev attacker : Text
attacker = codes "203.0.113.9"

-- One attempt at a time, each of which fails.
abbrev attack : List (ℕ × Event)
attack = (1, tries attacker) ∷ (2, fails attacker) ∷ (3, tries attacker) ∷ (4, fails attacker) ∷ []

abbrev nine_fails : List (ℕ × Event)
nine_fails =
    (attack ++ (attack ++ (attack ++ attack)))
    ++ ((5, tries attacker) ∷ (6, fails attacker) ∷ (7, tries attacker) ∷ [])

abbrev attacked : World
attacked = run local_only new_world nine_fails

ninth_delay :
    (check local_only (run local_only new_world attack).limiter attacker 5).1
    ≡ admitted (500 * millisecond)
unfolding runs
ninth_delay = refl

login_delay-closed_example : login_delay 4 ≡ min (login_base_delay * 2 ^ 3) login_max_delay
login_delay-closed_example = login_delay-closed 3

slots_accounted_example : Inv attacked
slots_accounted_example = slots_accounted local_only nine_fails

tenth_failure_locks_example :
    IsRefused
      (check local_only
        (run local_only
          (step local_only attacked 8 (fails attacker))
          ((9, tries (codes "::1")) ∷ (10, succeeds attacker) ∷ [])).limiter
        attacker
        11).1
unfolding runs
tenth_failure_locks_example =
    tenth_failure_locks local_only attacked attacker 8
      ((9, tries (codes "::1")) ∷ (10, succeeds attacker) ∷ []) 11
      (slots_accounted local_only nine_fails) refl refl (omega arith) (omega arith) (omega arith)

admitted_iff_example :
    MayTry
      (login_is_loopback local_only attacker)
      new_limiter
      (state_in new_limiter.remotes attacker)
      5
    × ◌≡◌ {A = ℕ} 0 (login_delay (slots_at (state_in new_limiter.remotes attacker) 5))
unfolding runs
admitted_iff_example = (admitted_iff local_only new_limiter attacker 5 0).0 refl
