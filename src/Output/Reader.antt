-- ===== src/Output/Reader.antt =====
-- The readers of aiOutput in ai_session.go: ReadText, ReadRaw and trimIncompleteRune. Whether a byte
-- starts a rune and whether bytes begin with a full one are arguments, as Go's utf8 answers it. A
-- limit is not negative.
use ssh_gate_oss.Base.{
  ℕ, zero, suc, ◌-◌, Bool, true, ◌&&◌, [], ◌∷◌, ltb, leb, ◌==◌, if◌then◌else◌, length, drop, take,
}
use ssh_gate_oss.Output.Bytes.{Bytes, byte_at, add_word, sub_word}
use ssh_gate_oss.Output.Ring.{Ring, start, read}

-- aiTextRead, and aiRawRead with the bytes as the text.
pub record Slice : Type 0 where
  pub text : Bytes
  pub start_cursor : ℕ
  pub cursor : ℕ
  pub end_cursor : ℕ
  pub missed_bytes : ℕ
  pub more : Bool

pub data Answer : Type 0 where
  slice : Slice → Answer
  invalid_cursor : ℕ → Answer

-- The limit of a read, where none is given.
abbrev pub limit_or : ℕ → ℕ → ℕ
limit_or default max = if leb max 0 then default else max

abbrev pub text_limit : ℕ → ℕ
text_limit = limit_or 16384

abbrev pub raw_limit : ℕ → ℕ
raw_limit = limit_or 262144

-- What a read from `since` answers, with the bytes read.
abbrev pub slice_of : Ring → ℕ → ℕ → Bytes → Slice
slice_of r since missed text =
    let next = add_word since (length text) in
    record {
      text = text;
      start_cursor = since;
      cursor = next;
      end_cursor = r.stop;
      missed_bytes = missed;
      more = ltb next r.stop;
    }

module _ (rune_start : ℕ → Bool) (full_rune : Bytes → Bool) where
  -- The loop of trimIncompleteRune over the last bytes, four at most.
  unfoldable pub trim_rune : ℕ → ℕ → Bytes → Bytes
  trim_rune zero k p = p
  trim_rune (suc t) zero p = p
  trim_rune (suc t) (suc i) p =
      let rest = trim_rune t i p in
      if rune_start (byte_at p i) then (if full_rune (drop i p) then p else take i p) else rest

  -- trimIncompleteRune.
  unfoldable pub trim_incomplete_rune : Bytes → Bytes
  trim_incomplete_rune p = trim_rune 4 (length p) p

  abbrev pub starts : Bytes → Bool
  starts [] = true
  starts (b ∷ p) = rune_start b

  -- The loop over the tail of a character whose head the ring has dropped, from `since` to the end.
  unfoldable pub skip_tail : Ring → ℕ → ℕ → ℕ → ℕ × ℕ
  skip_tail r zero since missed = (since, missed)
  skip_tail r (suc n) since missed =
      let rest = skip_tail r n (add_word since 1) (add_word missed 1) in
      if starts (read r since 1) then (since, missed) else rest

  -- Where ReadText begins, and how many bytes it misses.
  unfoldable pub begin_at : Ring → ℕ → ℕ × ℕ
  begin_at r since =
      let first = start r in
      if ltb since first
      then skip_tail r (r.stop - first) first (sub_word first since)
      else (since, 0)

  -- The bytes of ReadText.
  unfoldable pub text_of : Ring → ℕ → ℕ → Bytes
  text_of r since max =
      let p = read r since max in
      if (length p == max) && ltb (add_word since (length p)) r.stop
      then trim_incomplete_rune p
      else p

  -- ReadText.
  unfoldable pub read_text : Ring → ℕ → ℕ → Answer
  read_text r since max =
      if ltb r.stop since
      then invalid_cursor r.stop
      else let at = begin_at r since in
        slice (slice_of r at.0 at.1 (text_of r at.0 (text_limit max)))

-- ReadRaw.
unfoldable pub read_raw : Ring → ℕ → ℕ → Answer
read_raw r since max =
    let first = start r in
    if ltb r.stop since
    then invalid_cursor r.stop
    else if ltb since first
    then slice (slice_of r first (sub_word first since) (read r first (raw_limit max)))
    else slice (slice_of r since 0 (read r since (raw_limit max)))
