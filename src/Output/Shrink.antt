-- ===== src/Output/Shrink.antt =====
-- What shrink keeps: the end of the stream.
use native.Mathlib.Decide.{dec_lt}
use ssh_gate_oss.Base.{
  ℕ, ◌-◌, ◌≤◌, ◌<◌, ◌≡◌, refl, sym, ap, ◌∙◌, subst, min, max, [], arith, length, drop, take,
}
use ssh_gate_oss.Output.Bytes.{
  Bytes, word, sub_word, sub_word_of_le, make, length-make, length-drop, length-take,
  take-append-drop, take_all,
}
use ssh_gate_oss.Output.Ring.{Ring, new_ring, write, read, shrink}
use ssh_gate_oss.Output.Refine.{Holds, write-Holds}
use ssh_gate_oss.Output.Reads.{read-Holds}

pub new_ring-Holds : (size : ℕ) → Holds [] (new_ring size)
unfolding new_ring
new_ring-Holds size = record {
  room = omega (arith, length-make (max size 1));
  stop_at = refl;
  few = omega arith;
  fits = omega arith;
  bytes_at = λ c l h. absurd (omega arith);
}

-- The ring that shrink writes the tail to.
empty_at-Holds :
    (s : Bytes) (k : ℕ) → 0 < k → Holds s (record { cells = make k; held = 0; stop = length s })
empty_at-Holds s k h = record {
  room = omega (arith, length-make k);
  stop_at = refl;
  few = omega arith;
  fits = omega arith;
  bytes_at = λ c l h. absurd (omega arith);
}

pub shrink_of_le : (r : Ring) (keep : ℕ) → length r.cells ≤ max keep 1 → shrink r keep ≡ r
unfolding shrink
shrink_of_le r keep h = ground arith

abbrev pub blank : ℕ → ℕ → Ring
blank keep stop = record { cells = make (max keep 1); held = 0; stop = stop }

-- What shrink writes into the smaller ring.
abbrev pub shrunk : Ring → ℕ → ℕ → Ring
shrunk r keep n = let from = sub_word r.stop n in write (blank keep from) (read r from n)

pub shrink_of_lt :
    (r : Ring) (keep : ℕ)
    → max keep 1 < length r.cells
    → shrink r keep ≡ shrunk r keep (min r.held (max keep 1))
unfolding shrink
shrink_of_lt r keep h = ground arith

pub length-tail :
    (s : Bytes) (r : Ring) (n : ℕ)
    → Holds s r
    → length s < word
    → n ≤ r.held
    → length (read r (sub_word r.stop n) n) ≡ n
length-tail s r n v bound few =
    let from = length s - n in
    let at : sub_word r.stop n ≡ from =
      sub_word_of_le r.stop n (omega (arith, v.stop_at, v.few)) (omega (arith, v.stop_at))
      ∙ omega (arith, v.stop_at) in
    ap (λ x. length (read r x n)) at
    ∙ ap length (read-Holds s r from n v bound (omega (arith, v.few)) (omega (arith, v.few)))
    ∙ omega (arith, length-take n (drop from s), length-drop from s, v.few)

shrunk-Holds :
    (s : Bytes) (r : Ring) (keep n : ℕ)
    → Holds s r
    → length s < word
    → n ≤ r.held
    → Holds s (shrunk r keep n)
shrunk-Holds s r keep n v bound few =
    let from = length s - n in
    let at : sub_word r.stop n ≡ from =
      sub_word_of_le r.stop n (omega (arith, v.stop_at, v.few)) (omega (arith, v.stop_at))
      ∙ omega (arith, v.stop_at) in
    let whole = length-take from s in
    let rest = length-drop from s in
    let tail : read r from n ≡ drop from s =
      read-Holds s r from n v bound (omega (arith, v.few)) (omega (arith, v.few))
      ∙ take_all n (drop from s) (omega (arith, v.few)) in
    let e : length (take from s) ≡ from = omega arith in
    let w =
      write-Holds (take from s) (drop from s) (blank keep (length (take from s)))
        (empty_at-Holds (take from s) (max keep 1) (omega arith)) (omega arith) in
    let same : write (blank keep (length (take from s))) (drop from s) ≡ shrunk r keep n =
      ap (λ x. write (blank keep x) (drop from s)) e
      ∙ ap (write (blank keep from)) (sym tail)
      ∙ ap (λ x. write (blank keep x) (read r x n)) (sym at) in
    subst (Holds s) same (
      subst (λ q. Holds q (write (blank keep (length (take from s))) (drop from s)))
        (take-append-drop from s) w)

pub shrink-Holds :
    (s : Bytes) (r : Ring) (keep : ℕ) → Holds s r → length s < word → Holds s (shrink r keep)
shrink-Holds s r keep v bound = elim (dec_lt (max keep 1) (length r.cells)) [
  | no small ↦ subst (Holds s) (sym (shrink_of_le r keep (omega arith))) v
  | yes large ↦
      subst (Holds s) (sym (shrink_of_lt r keep large))
        (shrunk-Holds s r keep (min r.held (max keep 1)) v bound (omega arith))
]
