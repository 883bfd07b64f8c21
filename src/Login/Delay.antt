-- ===== src/Login/Delay.antt =====
-- loginDelay against its closed form.
use ssh_gate_oss.Base.{
  ℕ, zero, suc, ◌*◌, ◌^◌, ◌≤◌, ◌<◌, ◌≡◌, min, arith, Bool-cases, inl, inr, leb, leb→le, sym,
}
use native.Mathlib.Nat.{pow-suc, mul_comm, mul_assoc}
use ssh_gate_oss.Login.Limiter.{delay_rounds, login_delay, login_base_delay, login_max_delay}

pow-pos : (k : ℕ) → 1 ≤ 2 ^ k
pow-pos zero = omega arith
pow-pos (suc k) = omega (arith, pow-suc 2 k, pow-pos k)

scaled : (d k : ℕ) → d * 2 ^ suc k ≡ d * 2 * 2 ^ k
scaled d k = rw (pow-suc 2 k, mul_comm (2 ^ k) 2) (sym (mul_assoc d 2 (2 ^ k)))

grown : (d p : ℕ) → 1 ≤ p → d ≤ d * p
grown d p h = grind arith

delay_rounds-closed :
    (k d : ℕ) → d < login_max_delay → delay_rounds k d ≡ min (d * 2 ^ k) login_max_delay
unfolding delay_rounds
delay_rounds-closed zero d h = omega arith
delay_rounds-closed (suc k) d h = elim (Bool-cases (leb login_max_delay (d * 2))) [
  | inl e ↦ rw (e, scaled d k) (omega (arith, leb→le _ _ e, grown (d * 2) (2 ^ k) (pow-pos k)))
  | inr e ↦ rw (e, scaled d k) (delay_rounds-closed k (d * 2) (ground arith))
]

-- After k + 1 recorded or running attempts the wait is the lesser of 250 ms * 2^k and 8 s.
pub login_delay-closed :
    (k : ℕ) → login_delay (suc k) ≡ min (login_base_delay * 2 ^ k) login_max_delay
unfolding login_delay
login_delay-closed k = delay_rounds-closed k login_base_delay (omega arith)
