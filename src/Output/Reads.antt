-- ===== src/Output/Reads.antt =====
-- What a read answers: the stream from the cursor on.
use native.Mathlib.Nat.{mod-lt}
use ssh_gate_oss.Base.{
  ℕ, zero, suc, ◌+◌, ◌-◌, ◌%◌, ◌≤◌, ◌<◌, ◌≡◌, refl, sym, ap, ◌∙◌, ◌⊎◌, inl, inr, min, [],
  if◌then◌else◌, arith, leb, length, drop, take,
}
use ssh_gate_oss.Output.Bytes.{
  Bytes, word, sub_word, sub_word_of_le, byte_at, make, copy_at, length-make, length-copy_at,
  copy_at-in, copy_at-before, byte_at-drop, byte_at-take, length-drop, length-take, bytes_ext,
}
use ssh_gate_oss.Output.Ring.{Ring, read}
use ssh_gate_oss.Output.Refine.{Holds, mod_ahead}

-- The bytes that read copies.
copied :
    (d : Bytes) (m pos k i : ℕ)
    → pos < length d
    → m ≤ length d
    → k < m
    → ((i ≡ pos + k) × (pos + k < length d)) ⊎ ((i ≡ pos + k - length d) × (length d ≤ pos + k))
    → byte_at (copy_at (copy_at (make m) 0 (drop pos d)) (min m (length d - pos)) d) k ≡ byte_at d i
copied d m pos k i h l q (inl (e, f)) =
    copy_at-before (copy_at (make m) 0 (drop pos d)) (min m (length d - pos)) d k (omega arith)
    ∙ copy_at-in (make m) 0 (drop pos d) k k (omega arith) (omega (arith, length-drop pos d))
        (omega (arith, length-make m))
    ∙ byte_at-drop pos d k i e
copied d m pos k i h l q (inr (e, f)) =
    copy_at-in (copy_at (make m) 0 (drop pos d)) (min m (length d - pos)) d k i (omega arith)
      (omega arith) (omega (arith, length-copy_at (make m) 0 (drop pos d), length-make m))

-- What read copies.
abbrev copy_of : Ring → ℕ → ℕ → Bytes
copy_of r from m =
    let pos = from % length r.cells in
    copy_at (copy_at (make m) 0 (drop pos r.cells)) (min m (length r.cells - pos)) r.cells

copy_of-zero :
    (r : Ring) (from m : ℕ) → (if leb m 0 then [] else copy_of r from m) ≡ copy_of r from m
unfolding copy_at make
copy_of-zero r from zero = refl
copy_of-zero r from (suc m) = ground arith

read-copy_of :
    (r : Ring) (from n m : ℕ) → min n (sub_word r.stop from) ≡ m → read r from n ≡ copy_of r from m
unfolding read
read-copy_of r from n m e =
    copy_of-zero r from (min n (sub_word r.stop from)) ∙ ap (copy_of r from) e

-- What read answers from a cursor whose byte the ring has: the stream from there on.
pub read-Holds :
    (s : Bytes) (r : Ring) (from n : ℕ)
    → Holds s r
    → length s < word
    → length s ≤ from + r.held
    → from ≤ length s
    → read r from n ≡ take n (drop from s)
read-Holds s r from n v bound low high =
    let d = r.cells in
    let left : sub_word r.stop from ≡ length s - from =
      sub_word_of_le r.stop from (omega (arith, v.stop_at)) (omega (arith, v.stop_at))
      ∙ omega (arith, v.stop_at) in
    let m = min n (length s - from) in
    let small : m ≤ length d = omega (arith, v.fits) in
    let len =
      length-copy_at (copy_at (make m) 0 (drop (from % length d) d))
        (min m (length d - from % length d)) d
      ∙ length-copy_at (make m) 0 (drop (from % length d) d)
      ∙ length-make m in
    read-copy_of r from n m (ap (min n) left)
    ∙ bytes_ext (copy_of r from m) (take n (drop from s))
        (omega (arith, length-take n (drop from s), length-drop from s))
        (λ i h.
          copied d m (from % length d) i ((from + i) % length d) (mod-lt from v.room) small
            (omega arith) (mod_ahead (length d) from i (omega arith) v.room)
          ∙ v.bytes_at (from + i) (omega arith) (omega arith)
          ∙ sym (byte_at-drop from s i (from + i) refl)
          ∙ sym (byte_at-take n (drop from s) i (omega arith)))
