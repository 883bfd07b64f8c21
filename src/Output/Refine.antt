-- ===== src/Output/Refine.antt =====
-- What a write makes of the end of the stream that the ring holds.
use native.Mathlib.Decide.{dec_lt}
use native.Mathlib.Nat.{mod-eq_of_lt, mod-eq-sub-mod, mod-add-mod, mod-lt}
use ssh_gate_oss.Base.{
  ℕ, ◌+◌, ◌-◌, ◌%◌, ◌≤◌, ◌<◌, ◌≡◌, refl, sym, ap, ◌∙◌, subst, ◌⊎◌, inl, inr, min, ◌++◌, arith,
  length, drop, take, length-append, append_assoc,
}
use ssh_gate_oss.Output.Bytes.{
  Bytes, word, add_word, add_word_of_lt, byte_at, copy_at, length-copy_at, copy_at-in,
  copy_at-before, copy_at-behind, byte_at-drop, append-before, append-behind, length-drop,
  length-take, take-append-drop,
}
use ssh_gate_oss.Output.Ring.{Ring, write_short, write}

-- The ring holds the last `held` bytes of the stream, each at its cursor modulo the size.
pub record Holds (s : Bytes) (r : Ring) : Type 0 where
  pub room : 0 < length r.cells
  pub stop_at : r.stop ≡ length s
  pub few : r.held ≤ length s
  pub fits : r.held ≤ length r.cells
  pub bytes_at :
      (c : ℕ)
      → c < length s
      → length s ≤ c + r.held
      → byte_at r.cells (c % length r.cells) ≡ byte_at s c

-- The index of a cursor, from that of another less than a round before it.
pub mod_ahead :
    (n c k : ℕ)
    → k ≤ n
    → 0 < n
    → (((c + k) % n ≡ c % n + k) × (c % n + k < n))
      ⊎ (((c + k) % n ≡ c % n + k - n) × (n ≤ c % n + k))
mod_ahead n c k h p = elim (dec_lt (c % n + k) n) [
  | yes l ↦ inl (sym (mod-add-mod c n k) ∙ mod-eq_of_lt l, l)
  | no l ↦
      let ge : n ≤ c % n + k = omega arith in
      inr (
        sym (mod-add-mod c n k)
            ∙ mod-eq-sub-mod {n = c % n + k} {m = n} ge
            ∙ mod-eq_of_lt (omega arith),
        ge,
      )
]

-- The cells after a write, where the stream goes on.
write_short-new :
    (d p : Bytes) (pos k i : ℕ)
    → length p ≤ length d
    → pos < length d
    → k < length p
    → ((i ≡ pos + k) × (pos + k < length d)) ⊎ ((i ≡ pos + k - length d) × (length d ≤ pos + k))
    → byte_at (copy_at (copy_at d pos p) 0 (drop (min (length d - pos) (length p)) p)) i
      ≡ byte_at p k
write_short-new d p pos k i h q m (inl (e, l)) =
    copy_at-behind (copy_at d pos p) 0 (drop (min (length d - pos) (length p)) p) i
      (omega (arith, length-drop (min (length d - pos) (length p)) p))
    ∙ copy_at-in d pos p i k e m (omega arith)
write_short-new d p pos k i h q m (inr (e, l)) =
    copy_at-in (copy_at d pos p) 0 (drop (min (length d - pos) (length p)) p) i
      (k - (length d - pos)) (omega arith)
      (omega (arith, length-drop (min (length d - pos) (length p)) p))
      (omega (arith, length-copy_at d pos p))
    ∙ byte_at-drop (min (length d - pos) (length p)) p (k - (length d - pos)) k (omega arith)

write_short-old :
    (d p : Bytes) (pos j i : ℕ)
    → pos < length d
    → j + length p ≤ length d
    → 0 < j
    → ((i ≡ pos - j) × (j ≤ pos)) ⊎ ((i ≡ pos + length d - j) × (pos < j))
    → byte_at (copy_at (copy_at d pos p) 0 (drop (min (length d - pos) (length p)) p)) i
      ≡ byte_at d i
write_short-old d p pos j i q h m (inl (e, l)) =
    copy_at-behind (copy_at d pos p) 0 (drop (min (length d - pos) (length p)) p) i
      (omega (arith, length-drop (min (length d - pos) (length p)) p))
    ∙ copy_at-before d pos p i (omega arith)
write_short-old d p pos j i q h m (inr (e, l)) =
    copy_at-behind (copy_at d pos p) 0 (drop (min (length d - pos) (length p)) p) i
      (omega (arith, length-drop (min (length d - pos) (length p)) p))
    ∙ copy_at-behind d pos p i (omega arith)

write_short-bytes :
    (s p : Bytes) (r : Ring) (c : ℕ)
    → Holds s r
    → length p ≤ length r.cells
    → c < length s + length p
    → length s + length p ≤ c + min (r.held + length p) (length r.cells)
    → byte_at (write_short r p).cells (c % length r.cells) ≡ byte_at (s ++ p) c
unfolding write_short
write_short-bytes s p r c v short m h =
    let n = length r.cells in
    elim (dec_lt c (length s)) [
      | yes before ↦
          let j = length s - c in
          write_short-old r.cells p (r.stop % n) j (c % n) (mod-lt r.stop v.room) (omega arith)
            (omega arith) (behind j (omega arith) (mod_ahead n c j (omega arith) v.room))
          ∙ v.bytes_at c before (omega arith)
          ∙ sym (append-before s p c before)
      | no after ↦
          let k = c - length s in
          write_short-new r.cells p (r.stop % n) k (c % n) short (mod-lt r.stop v.room)
            (omega arith) (ahead k (omega arith) (mod_ahead n r.stop k (omega arith) v.room))
          ∙ sym (append-behind s p c k (omega arith))
    ]
  where
    ahead :
        (k : ℕ)
        → c ≡ length s + k
        → (((r.stop + k) % length r.cells ≡ r.stop % length r.cells + k)
            × (r.stop % length r.cells + k < length r.cells))
          ⊎ (((r.stop + k) % length r.cells ≡ r.stop % length r.cells + k - length r.cells)
              × (length r.cells ≤ r.stop % length r.cells + k))
        → ((c % length r.cells ≡ r.stop % length r.cells + k)
            × (r.stop % length r.cells + k < length r.cells))
          ⊎ ((c % length r.cells ≡ r.stop % length r.cells + k - length r.cells)
              × (length r.cells ≤ r.stop % length r.cells + k))
    ahead k e q =
        subst
          (λ x.
            (((x % length r.cells) ≡ r.stop % length r.cells + k)
              × (r.stop % length r.cells + k < length r.cells))
            ⊎ (((x % length r.cells) ≡ r.stop % length r.cells + k - length r.cells)
                × (length r.cells ≤ r.stop % length r.cells + k)))
          (ap (λ y. y + k) v.stop_at ∙ sym e) q

    behind :
        (j : ℕ)
        → c + j ≡ length s
        → (((c + j) % length r.cells ≡ c % length r.cells + j)
            × (c % length r.cells + j < length r.cells))
          ⊎ (((c + j) % length r.cells ≡ c % length r.cells + j - length r.cells)
              × (length r.cells ≤ c % length r.cells + j))
        → ((c % length r.cells ≡ r.stop % length r.cells - j) × (j ≤ r.stop % length r.cells))
          ⊎ ((c % length r.cells ≡ r.stop % length r.cells + length r.cells - j)
              × (r.stop % length r.cells < j))
    behind j e q =
        let f : (c + j) % length r.cells ≡ r.stop % length r.cells =
          ap (λ x. x % length r.cells) (e ∙ sym v.stop_at) in
        let g = mod-lt c v.room in
        elim q [
          | inl (a, b) ↦ inl (omega arith, omega arith)
          | inr (a, b) ↦ inr (omega arith, omega arith)
        ]

pub length-write_short : (r : Ring) (p : Bytes) → length (write_short r p).cells ≡ length r.cells
unfolding write_short
length-write_short r p =
    length-copy_at (copy_at r.cells (r.stop % length r.cells) p) 0
      (drop (min (length r.cells - r.stop % length r.cells) (length p)) p)
    ∙ length-copy_at r.cells (r.stop % length r.cells) p

pub write_short-numbers :
    (r : Ring) (p : Bytes)
    → ((write_short r p).held ≡ min (r.held + length p) (length r.cells))
      × ((write_short r p).stop ≡ add_word r.stop (length p))
unfolding write_short
write_short-numbers r p = (refl, refl)

write_short-Holds :
    (s p : Bytes) (r : Ring)
    → Holds s r
    → length p ≤ length r.cells
    → length s + length p < word
    → Holds (s ++ p) (write_short r p)
write_short-Holds s p r v short bound =
    let same = length-write_short r p in
    let (held, stop) = write_short-numbers r p in
    let whole = length-append s p in
    record {
      room = omega (arith, v.room);
      stop_at =
          stop
          ∙ add_word_of_lt r.stop (length p) (omega (arith, v.stop_at))
          ∙ omega (arith, v.stop_at);
      few = omega (arith, v.few);
      fits = omega (arith, v.fits);
      bytes_at = λ c l h.
          ap (λ n. byte_at (write_short r p).cells (c % n)) same
          ∙ write_short-bytes s p r c v short (omega arith) (omega arith);
    }

-- The bytes that a long write skips.
skip-Holds :
    (s p : Bytes) (k : ℕ) (r : Ring)
    → Holds s r
    → length p ≡ k
    → length s + k < word
    → Holds (s ++ p) (record r { held = 0; stop = add_word r.stop k })
skip-Holds s p k r v e bound =
    let whole = length-append s p in
    record {
      room = v.room;
      stop_at = add_word_of_lt r.stop k (omega (arith, v.stop_at)) ∙ omega (arith, v.stop_at);
      few = omega arith;
      fits = omega arith;
      bytes_at = λ c l h. absurd (omega arith);
    }

-- A write that fills the ring does not depend on what it held.
write_short-full :
    (r : Ring) (p : Bytes)
    → length p ≡ length r.cells
    → write_short (record r { held = 0 }) p ≡ write_short r p
unfolding write_short
write_short-full r p e =
    let f : min (0 + length p) (length r.cells) ≡ min (r.held + length p) (length r.cells) =
      omega arith in
    ap (λ (h : ℕ). record (write_short r p) { held = h }) f

pub write_of_le : (r : Ring) (p : Bytes) → length p ≤ length r.cells → write r p ≡ write_short r p
unfolding write
write_of_le r p h = ground arith

pub write_of_lt :
    (r : Ring) (p : Bytes)
    → length r.cells < length p
    → let over = length p - length r.cells in
      write r p ≡ write_short (record r { stop = add_word r.stop over }) (drop over p)
unfolding write
write_of_lt r p h = ground arith

pub write-Holds :
    (s p : Bytes) (r : Ring) → Holds s r → length s + length p < word → Holds (s ++ p) (write r p)
write-Holds s p r v bound = elim (dec_lt (length r.cells) (length p)) [
  | no short ↦
      subst (Holds (s ++ p)) (sym (write_of_le r p (omega arith)))
        (write_short-Holds s p r v (omega arith) bound)
  | yes long ↦
      let over = length p - length r.cells in
      let head = take over p in
      let tail = drop over p in
      let n : length head ≡ over = length-take over p ∙ omega arith in
      let m : length tail ≡ length r.cells = length-drop over p ∙ omega arith in
      let all : (s ++ head) ++ tail ≡ s ++ p =
        append_assoc s head tail ∙ ap (λ q. s ++ q) (take-append-drop over p) in
      let base = skip-Holds s head over r v n (omega arith) in
      let w =
        write_short-Holds (s ++ head) tail (record r { held = 0; stop = add_word r.stop over }) base
          (omega arith) (omega (arith, length-append s head)) in
      subst (λ q. Holds q (write r p)) all
        (subst (Holds ((s ++ head) ++ tail))
          (write_short-full (record r { stop = add_word r.stop over }) tail m
            ∙ sym (write_of_lt r p long))
          w)
]
