-- ===== src/Output/Stuck.antt =====
-- The raw reader, and the limit that is too small for a character.
use native.Mathlib.Decide.{dec_lt}
use ssh_gate_oss.Base.{
  ℕ, zero, suc, ◌+◌, ◌-◌, ◌≤◌, ◌<◌, ◌≡◌, refl, sym, ◌∙◌, min, Bool, true, false, [], ◌∷◌, arith,
  ltb, length, drop, take, Bool-cases, ltb→lt, inl, inr, ◌↔◌, ◌≢◌,
}
use ssh_gate_oss.Output.Bytes.{
  Bytes, word, byte_at, add_word, sub_word, add_word_of_lt, sub_word_of_le, length-drop,
  length-take, bytes_ext, byte_at-take,
}
use ssh_gate_oss.Output.Ring.{Ring, start, read}
use ssh_gate_oss.Output.Reads.{read-Holds}
use ssh_gate_oss.Output.Runs.{IsWindow, start-IsWindow}
use ssh_gate_oss.Output.Reader.{
  Slice, slice, invalid_cursor, raw_limit, slice_of, trim_rune, trim_incomplete_rune, begin_at,
  text_of, read_text, read_raw,
}
use ssh_gate_oss.Output.Accounts.{IsExact, slice_of-IsExact, read_text-IsExact}

slice_from :
    (s : Bytes) (room : ℕ) (r : Ring) (since at missed max : ℕ)
    → IsWindow s room r
    → length s < word
    → since + missed ≡ at
    → at ≤ length s
    → length s ≤ at + r.held
    → IsExact s since max (slice_of r at missed (read r at max))
slice_from s room r since at missed max v bound m high low =
    let got = read-Holds s r at max v.holds bound low high in
    slice_of-IsExact s room r since at missed max (min max (length s - at)) (read r at max) v bound
      m high low (omega arith) (omega arith)
      (got ∙ cut max (drop at s) (min max (length s - at)) (omega (arith, length-drop at s)))
  where
    cut : (n : ℕ) (p : Bytes) (k : ℕ) → k ≡ min n (length p) → take n p ≡ take k p
    cut n p k e =
        bytes_ext (take n p) (take k p) (omega (arith, length-take n p, length-take k p)) (λ i h.
          byte_at-take n p i (omega (arith, length-take n p))
          ∙ sym (byte_at-take k p i (omega (arith, length-take n p))))

-- A read of the raw bytes, for the human's page, from a cursor that is not past the end answers the
-- stream from where it says, at most as much as was asked: the bytes between the cursor and there are
-- the missed ones.
pub read_raw-IsExact :
    (s : Bytes) (room : ℕ) (r : Ring) (since max : ℕ)
    → IsWindow s room r
    → length s < word
    → since ≤ length s
    → (t : Slice) × (read_raw r since max ≡ slice t) × IsExact s since (raw_limit max) t
unfolding read_raw
read_raw-IsExact s room r since max v bound h =
    let first = start-IsWindow s room r v bound in
    let stop = v.holds.stop_at in
    let held = v.held_at in
    let before : ltb r.stop since ≡ false = ground arith in
    elim (Bool-cases (ltb since (start r))) [
      | inl e ↦
          let lt : since < start r = ltb→lt since (start r) e in
          let gap = sub_word_of_le (start r) since (omega arith) (omega arith) in
          (
            slice_of r (start r) (sub_word (start r) since) (read r (start r) (raw_limit max)),
            rw (before, e) refl,
            slice_from s room r since (start r) (sub_word (start r) since) (raw_limit max) v bound
                (omega arith) (omega arith) (omega arith),
          )
      | inr e ↦
          let ge : start r ≤ since = ground arith in
          (
            slice_of r since 0 (read r since (raw_limit max)),
            rw (before, e) refl,
            slice_from s room r since since 0 (raw_limit max) v bound (omega arith) h (omega arith),
          )
    ]

slice-invalid_cursor : (t : Slice) {k : ℕ} → slice t ≢ invalid_cursor k
slice-invalid_cursor t h = ground arith

past_end-invalid_cursor :
    (rune_start : ℕ → Bool) (full_rune : Bytes → Bool) (s : Bytes) (room : ℕ) (r : Ring)
    (since max : ℕ)
    → IsWindow s room r
    → length s < since
    → (read_text rune_start full_rune r since max ≡ invalid_cursor (length s))
      × (read_raw r since max ≡ invalid_cursor (length s))
unfolding read_text read_raw
past_end-invalid_cursor rune_start full_rune s room r since max v h =
    let stop = v.holds.stop_at in (ground arith, ground arith)

-- Both reads refuse a cursor exactly if it is past the end of the stream, and answer that end: a cursor
-- at the end or before it is served.
pub past_end_refused :
    (rune_start : ℕ → Bool) (full_rune : Bytes → Bool) (s : Bytes) (room : ℕ) (r : Ring)
    (since max : ℕ)
    → IsWindow s room r
    → length s < word
    → ((read_text rune_start full_rune r since max ≡ invalid_cursor (length s))
        ↔ (length s < since))
      × ((read_raw r since max ≡ invalid_cursor (length s)) ↔ (length s < since))
past_end_refused rune_start full_rune s room r since max v bound = elim (dec_lt (length s) since) [
  | yes l ↦
      let (text, raw) = past_end-invalid_cursor rune_start full_rune s room r since max v l in
      ((λ e. l, λ k. text), (λ e. l, λ k. raw))
  | no n ↦
      let (t, e, exact) =
        read_text-IsExact rune_start full_rune s room r since max v bound (omega arith) in
      let (u, d, exact') = read_raw-IsExact s room r since max v bound (omega arith) in
      (
        (λ h. absurd (slice-invalid_cursor t (sym e ∙ h)), λ k. absurd (omega arith)),
        (λ h. absurd (slice-invalid_cursor u (sym d ∙ h)), λ k. absurd (omega arith)),
      )
]

-- A read of the text with a limit of one byte, at a character of more bytes that the ring still has,
-- answers nothing, the same cursor and that there is more: a reader that follows the cursors with this
-- limit stays there.
pub limit_of_one_sticks :
    (rune_start : ℕ → Bool) (full_rune : Bytes → Bool) (s : Bytes) (room : ℕ) (r : Ring) (since : ℕ)
    → IsWindow s room r
    → length s < word
    → start r ≤ since
    → since + 1 < length s
    → rune_start (byte_at s since) ≡ true
    → full_rune (byte_at s since ∷ []) ≡ false
    → (t : Slice) × (read_text rune_start full_rune r since 1 ≡ slice t)
      × (t.text ≡ [])
      × (t.cursor ≡ since)
      × (t.more ≡ true)
unfolding read_text text_of begin_at trim_incomplete_rune trim_rune byte_at
limit_of_one_sticks rune_start full_rune s room r since v bound low more b f =
    let first = start-IsWindow s room r v bound in
    let stop = v.holds.stop_at in
    let held = v.held_at in
    let got : read r since 1 ≡ byte_at s since ∷ [] =
      read-Holds s r since 1 v.holds bound (omega arith) (omega arith)
      ∙ one s since (omega arith) in
    let next = add_word_of_lt since 1 (omega arith) in
    let same = add_word_of_lt since 0 (omega arith) in
    let before : ltb r.stop since ≡ false = ground arith in
    let inside : ltb since (start r) ≡ false = ground arith in
    let left : ltb (add_word since 1) r.stop ≡ true = ground arith in
    (
      slice_of r since 0 [],
      rw (before, inside, got, left, b, f) refl,
      refl,
      omega arith,
      ground arith,
    )
  where
    one : (s : Bytes) (i : ℕ) → i < length s → take 1 (drop i s) ≡ byte_at s i ∷ []
    one [] i h = absurd (omega arith)
    one (x ∷ s) zero h = refl
    one (x ∷ s) (suc i) h = one s i (omega arith)
