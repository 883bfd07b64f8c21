-- ===== src/Output/Stream.antt =====
-- aiOutput of ai_session.go: the two rings, the filter between them and the audit of the text. The
-- filter is an argument: its state, what it makes of the next bytes, and what it still holds. The hook
-- onText is the list of what it was given. The emitter of events and the waking of waiters are left
-- out. Both mutexes make each operation one step.
use ssh_gate_oss.Base.{ℕ, Bool, true, false, List, [], ◌∷◌, ◌++◌, if◌then◌else◌, is_empty, leb}
use ssh_gate_oss.Output.Bytes.{Bytes, add_word}
use ssh_gate_oss.Output.Ring.{Ring, new_ring, write, shrink}

-- aiOutput.
pub record Output (F : Type 0) : Type 0 where
  pub filter : F
  pub audited : List (ℕ × Bytes)
  pub raw : Ring
  pub text : Ring
  pub gen : ℕ
  pub closed : Bool

-- RingKB of the default settings, in bytes.
abbrev pub default_ring_bytes : ℕ
default_ring_bytes = 1048576

abbrev pub ring_bytes_or : ℕ → ℕ
ring_bytes_or n = if leb n 0 then default_ring_bytes else n

-- newAIOutput.
unfoldable pub new_output : {F : Type 0} → ℕ → F → Output F
new_output n f = record {
  filter = f;
  audited = [];
  raw = new_ring (ring_bytes_or n);
  text = new_ring (ring_bytes_or n);
  gen = 0;
  closed = false;
}

-- appendTextLocked.
unfoldable pub append_text : {F : Type 0} → Output F → Bytes → Output F
append_text o p =
    if is_empty p
    then o
    else record o { text = write o.text p; audited = o.audited ++ (o.text.stop, p) ∷ [] }

module _ {F : Type 0} (feed : F → Bytes → F × Bytes) (flush : F → F × Bytes) where
  -- Write.
  unfoldable pub write_output : Output F → Bytes → Output F
  write_output o p =
      if is_empty p
      then o
      else if o.closed
      then o
      else let (f, text) = feed o.filter p in
        append_text (record o { raw = write o.raw p; filter = f }) text

  abbrev release_held : Output F → Output F
  release_held o = let (f, text) = flush o.filter in append_text (record o { filter = f }) text

  -- Flush.
  unfoldable pub flush_output : Output F → Output F
  flush_output o = if o.closed then o else release_held o

  -- Close.
  unfoldable pub close_output : Output F → Output F
  close_output o =
      let o' = if o.closed then o else release_held o in
      record o' { closed = true; gen = add_word o'.gen 1 }

-- Notify.
unfoldable pub notify : {F : Type 0} → Output F → Output F
notify o = record o { gen = add_word o.gen 1 }

-- Retire.
unfoldable pub retire : {F : Type 0} → Output F → ℕ → Output F
retire o keep = record o { raw = shrink o.raw keep; text = shrink o.text keep }

-- TextEnd.
abbrev pub text_end : {F : Type 0} → Output F → ℕ
text_end o = o.text.stop
