-- ===== src/Output/Accounts.antt =====
-- What a reader gets: every byte of the stream or its count, in order, and never the same twice.
use native.Mathlib.Decide.{dec_lt}
use ssh_gate_oss.Base.{
  ℕ, zero, suc, ◌+◌, ◌-◌, ◌≤◌, ◌<◌, ◌≡◌, refl, sym, ap, ◌∙◌, min, max, Bool, true, false, ◌&&◌, [],
  ◌∷◌, arith, ltb, ◌==◌, length, drop, take, Bool-cases, ltb→lt, inl, inr,
}
use ssh_gate_oss.Output.Bytes.{
  Bytes, word, byte_at, add_word, sub_word, add_word_of_lt, sub_word_of_le, length-drop,
  length-take, take_all,
}
use ssh_gate_oss.Output.Ring.{Ring, start, read}
use ssh_gate_oss.Output.Reads.{read-Holds}
use ssh_gate_oss.Output.Runs.{IsWindow, start-IsWindow}
use ssh_gate_oss.Output.Reader.{
  Slice, slice, text_limit, slice_of, trim_rune, trim_incomplete_rune, starts, skip_tail, begin_at,
  text_of, read_text,
}

take-take : (k n : ℕ) (p : Bytes) → k ≤ n → take k (take n p) ≡ take k p
take-take zero n p h = refl
take-take (suc k) zero p h = absurd (omega arith)
take-take (suc k) (suc n) [] h = refl
take-take (suc k) (suc n) (x ∷ p) h = ap (λ q. x ∷ q) (take-take k n p (omega arith))

-- The slice is the part of the stream that it says.
pub record IsExact (s : Bytes) (since max : ℕ) (r : Slice) : Type 0 where
  pub missed_at : since + r.missed_bytes ≡ r.start_cursor
  pub cursor_at : r.start_cursor + length r.text ≡ r.cursor
  pub text_at : r.text ≡ take (length r.text) (drop r.start_cursor s)
  pub short : length r.text ≤ max
  pub inside : r.cursor ≤ length s
  pub end_at : r.end_cursor ≡ length s
  pub more_at : r.more ≡ ltb r.cursor (length s)

-- A prefix of what the ring answers from a cursor that it has.
pub slice_of-IsExact :
    (s : Bytes) (room : ℕ) (r : Ring) (since at missed max k : ℕ) (text : Bytes)
    → IsWindow s room r
    → length s < word
    → since + missed ≡ at
    → at ≤ length s
    → length s ≤ at + r.held
    → k ≤ max
    → k ≤ length s - at
    → text ≡ take k (drop at s)
    → IsExact s since max (slice_of r at missed text)
slice_of-IsExact s room r since at missed max k text v bound m low high short fits e =
    let len : length text ≡ k =
      ap length e ∙ omega (arith, length-take k (drop at s), length-drop at s) in
    let next : add_word at (length text) ≡ at + length text =
      add_word_of_lt at (length text) (omega arith) in
    record {
      missed_at = m;
      cursor_at = sym next;
      text_at = e ∙ ap (λ n. take n (drop at s)) (sym len);
      short = omega arith;
      inside = omega arith;
      end_at = v.holds.stop_at;
      more_at = ap (ltb (add_word at (length text))) v.holds.stop_at;
    }

module _ (rune_start : ℕ → Bool) (full_rune : Bytes → Bool) where
  -- Four bytes begin with a full rune.
  abbrev pub FourAreFull : Type 0
  FourAreFull = (p : Bytes) → 4 ≤ length p → full_rune p ≡ true

  -- The result is a prefix, and not the empty one if four bytes are a full rune.
  abbrev Trims : ℕ → ℕ → Bytes → Bytes → Type 0
  Trims t i p q =
      (k : ℕ) × (k ≤ length p)
      × (q ≡ take k p)
      × (FourAreFull → 4 ≤ length p → length p + t ≡ i + 4 → 0 < k)

  whole : (t i : ℕ) (p : Bytes) → Trims t i p p
  whole t i p =
      (length p, omega arith, sym (take_all (length p) p (omega arith)), λ f l e. omega arith)

  trim_rune-Trims :
      (t i : ℕ) (p : Bytes) → i ≤ length p → Trims t i p (trim_rune rune_start full_rune t i p)
  unfolding trim_rune
  trim_rune-Trims zero i p h = whole zero i p
  trim_rune-Trims (suc t) zero p h = whole (suc t) zero p
  trim_rune-Trims (suc t) (suc i) p h = elim (Bool-cases (rune_start (byte_at p i))) [
    | inr e ↦
        let (k, l, q, pos) = trim_rune-Trims t i p (omega arith) in
        (k, l, rw e q, λ f m n. pos f m (omega arith))
    | inl e ↦ elim (Bool-cases (full_rune (drop i p))) [
      | inl f ↦ rw (e, f) (whole (suc t) (suc i) p)
      | inr f ↦ (
        i,
        omega arith,
        rw (e, f) refl,
        λ four m n. elim (dec_lt (length p) (i + 4)) [
          | yes l ↦ omega arith
          | no l ↦
              absurd (true-ne-false (sym (four (drop i p) (omega (arith, length-drop i p))) ∙ f))
        ],
      )
    ]
  ]
    where
      true-ne-false : true ≡ false → ⊥
      true-ne-false e = ground arith

  skip_tail-at :
      (r : Ring) (n since missed : ℕ)
      → since + n < word
      → missed + n < word
      → (k : ℕ) × (k ≤ n)
        × ((skip_tail rune_start full_rune r n since missed).0 ≡ since + k)
        × ((skip_tail rune_start full_rune r n since missed).1 ≡ missed + k)
  unfolding skip_tail
  skip_tail-at r zero since missed h m = (0, omega arith, omega arith, omega arith)
  skip_tail-at r (suc n) since missed h m =
      elim (Bool-cases (starts rune_start full_rune (read r since 1))) [
        | inl e ↦ (0, omega arith, rw e (omega arith), rw e (omega arith))
        | inr e ↦
            let a = add_word_of_lt since 1 (omega arith) in
            let b = add_word_of_lt missed 1 (omega arith) in
            let (k, l, x, y) =
              skip_tail-at r n (add_word since 1) (add_word missed 1) (omega arith) (omega arith) in
            (suc k, omega arith, rw e (omega arith), rw e (omega arith))
      ]

  -- ReadText begins at the cursor, or behind it in the ring.
  begin_at-at :
      (s : Bytes) (room : ℕ) (r : Ring) (since : ℕ)
      → IsWindow s room r
      → length s < word
      → since ≤ length s
      → let at = begin_at rune_start full_rune r since in
        (since + at.1 ≡ at.0) × (at.0 ≤ length s) × (length s ≤ at.0 + r.held)
  unfolding begin_at
  begin_at-at s room r since v bound h =
      let first = start-IsWindow s room r v bound in
      let stop = v.holds.stop_at in
      let held = v.held_at in
      elim (Bool-cases (ltb since (start r))) [
        | inl e ↦
            let lt : since < start r = ltb→lt since (start r) e in
            let gap : sub_word (start r) since ≡ start r - since =
              sub_word_of_le (start r) since (omega arith) (omega arith) in
            let (k, l, x, y) =
              skip_tail-at r (r.stop - start r) (start r) (sub_word (start r) since) (omega arith)
                (omega arith) in
            rw e (omega arith, omega arith, omega arith)
        | inr e ↦
            let ge : start r ≤ since = ground arith in rw e (omega arith, omega arith, omega arith)
      ]

  text_of-Prefix :
      (r : Ring) (at max : ℕ)
      → let p = read r at max in
        (k : ℕ) × (k ≤ length p)
        × (text_of rune_start full_rune r at max ≡ take k p)
        × (FourAreFull → 4 ≤ max → 0 < length p → 0 < k)
  unfolding text_of trim_incomplete_rune
  text_of-Prefix r at max =
      let p = read r at max in
      let (k, l, q, pos) = trim_rune-Trims 4 (length p) p (omega arith) in
      elim (Bool-cases ((length p == max) && ltb (add_word at (length p)) r.stop)) [
        | inl e ↦ (k, l, rw e q, λ f m n. pos f (ground arith) (omega arith))
        | inr e ↦
            (length p, omega arith, rw e (sym (take_all (length p) p (omega arith))), λ f m n. n)
      ]

  read_text-inv :
      (s : Bytes) (room : ℕ) (r : Ring) (since max : ℕ)
      → IsWindow s room r
      → length s < word
      → since ≤ length s
      → (t : Slice) × (read_text rune_start full_rune r since max ≡ slice t)
        × IsExact s since (text_limit max) t
        × (FourAreFull → 4 ≤ text_limit max → since < length s → since < t.cursor)
  unfolding read_text
  read_text-inv s room r since max v bound h =
      let at = begin_at rune_start full_rune r since in
      let (m, high, low) = begin_at-at s room r since v bound h in
      let p = read r at.0 (text_limit max) in
      let got = read-Holds s r at.0 (text_limit max) v.holds bound low high in
      let size = length-drop at.0 s in
      let len : length p ≡ min (text_limit max) (length s - at.0) =
        ap length got ∙ length-take (text_limit max) (drop at.0 s) ∙ omega arith in
      let (k, l, q, pos) = text_of-Prefix r at.0 (text_limit max) in
      let text = text_of rune_start full_rune r at.0 (text_limit max) in
      let same : text ≡ take k (drop at.0 s) =
        q ∙ ap (take k) got ∙ take-take k (text_limit max) (drop at.0 s) (omega arith) in
      let exact =
        slice_of-IsExact s room r since at.0 at.1 (text_limit max) k text v bound m high low
          (omega arith) (omega arith) same in
      let long : length text ≡ k = ap length same ∙ omega (arith, length-take k (drop at.0 s)) in
      let stop = v.holds.stop_at in
      let before : ltb r.stop since ≡ false = ground arith in
      (
        slice_of r at.0 at.1 text,
        rw before refl,
        exact,
        λ four large left. elim (dec_lt at.0 (length s)) [
          | yes l ↦ omega (arith, pos four large (omega arith), exact.cursor_at)
          | no l ↦ omega (arith, exact.cursor_at)
        ],
      )

  -- A read of the text from a cursor that is not past the end answers the stream from where it says,
  -- at most as much as was asked: the bytes between the cursor and there are the missed ones, and the
  -- next cursor is behind the last byte answered.
  pub read_text-IsExact :
      (s : Bytes) (room : ℕ) (r : Ring) (since max : ℕ)
      → IsWindow s room r
      → length s < word
      → since ≤ length s
      → (t : Slice) × (read_text rune_start full_rune r since max ≡ slice t)
        × IsExact s since (text_limit max) t
  read_text-IsExact s room r since max v bound h =
      let (t, e, exact, more) = read_text-inv s room r since max v bound h in (t, e, exact)

  -- A limit of four bytes or more, or none, gets the reader on wherever bytes are left, if four bytes
  -- always begin with a full rune: the next cursor is past the one that was asked for.
  pub read_text_advances :
      (s : Bytes) (room : ℕ) (r : Ring) (since max : ℕ)
      → FourAreFull
      → IsWindow s room r
      → length s < word
      → 4 ≤ text_limit max
      → since < length s
      → (t : Slice) × (read_text rune_start full_rune r since max ≡ slice t) × (since < t.cursor)
  read_text_advances s room r since max four v bound large left =
      let (t, e, exact, more) = read_text-inv s room r since max v bound (omega arith) in
      (t, e, more four large left)
