-- ===== src/Output/Audit.antt =====
-- The audit of a session's text against the ring that its readers read.
use mathlib.Core.List.{append-nil}
use ssh_gate_oss.Base.{
  ℕ, ◌+◌, ◌≤◌, ◌<◌, ◌≡◌, ◌⊎◌, refl, sym, ap, ◌∙◌, subst, min, max, Bool, true, false, List, [], ◌∷◌,
  ◌++◌, arith, length, is_empty, length-append, append_assoc, Bool-cases, inl, inr, if◌then◌else◌,
}
use ssh_gate_oss.Output.Bytes.{Bytes, word}
use ssh_gate_oss.Output.Ring.{write}
use ssh_gate_oss.Output.Runs.{IsWindow, new_ring-IsWindow, write-IsWindow, shrink-IsWindow}
use ssh_gate_oss.Output.Stream.{
  Output, new_output, ring_bytes_or, append_text, write_output, flush_output, close_output, notify,
  retire,
}

-- All that the audit was given.
abbrev pub all_text : List (ℕ × Bytes) → Bytes
all_text [] = []
all_text ((start, p) ∷ log) = p ++ all_text log

-- Each piece is at the cursor where the pieces before it end.
abbrev pub InOrder : ℕ → List (ℕ × Bytes) → Type 0
InOrder at [] = Unit
InOrder at ((start, p) ∷ log) = (start ≡ at) × InOrder (at + length p) log

all_text-append :
    (log : List (ℕ × Bytes)) (start : ℕ) (p : Bytes)
    → all_text (log ++ (start, p) ∷ []) ≡ all_text log ++ p
all_text-append [] start p = append-nil p
all_text-append ((i, q) ∷ log) start p =
    ap (λ x. q ++ x) (all_text-append log start p) ∙ sym (append_assoc q (all_text log) p)

append-InOrder :
    (log : List (ℕ × Bytes)) (at start : ℕ) (p : Bytes)
    → InOrder at log
    → start ≡ at + length (all_text log)
    → InOrder at (log ++ (start, p) ∷ [])
append-InOrder [] at start p o e = (omega arith, tt)
append-InOrder ((i, q) ∷ log) at start p (f, o) e = (
  f,
  append-InOrder log (at + length q) start p o (omega (arith, length-append q (all_text log))),
)

if_cases :
    {A : Type 0} (b : Bool) (x y : A) → ((if b then x else y) ≡ x) ⊎ ((if b then x else y) ≡ y)
if_cases true x y = inl refl
if_cases false x y = inr refl

-- What happens to the output of a session.
pub data Step : Type 0 where
  writes : Bytes → Step
  flushes closes notifies : Step
  retires : ℕ → Step

module _ {F : Type 0} where
  -- The ring is a window on the audited text.
  pub record IsAudited (o : Output F) : Type 0 where
    pub window : (room : ℕ) × IsWindow (all_text o.audited) room o.text
    pub in_order : InOrder 0 o.audited

  append_text-grows :
      (o : Output F) (p : Bytes)
      → length (all_text o.audited) ≤ length (all_text (append_text o p).audited)
  unfolding append_text
  append_text-grows o p = elim (Bool-cases (is_empty p)) [
    | inl e ↦ rw e (omega arith)
    | inr e ↦
        rw (e, all_text-append o.audited o.text.stop p)
          (omega (arith, length-append (all_text o.audited) p))
  ]

  append_text-IsAudited :
      (o : Output F) (p : Bytes)
      → IsAudited o
      → length (all_text (append_text o p).audited) < word
      → IsAudited (append_text o p)
  unfolding append_text
  append_text-IsAudited o p v = elim (Bool-cases (is_empty p)) [
    | inl e ↦ rw e (λ bound. v)
    | inr e ↦ rw e (λ bound.
        let (room, w) = v.window in
        let whole = all_text-append o.audited o.text.stop p in
        let size = ap length whole ∙ length-append (all_text o.audited) p in
        record {
          window = (
            room,
            subst (λ q. IsWindow q room (write o.text p)) (sym whole)
                (write-IsWindow (all_text o.audited) p room o.text w (omega arith)),
          );
          in_order =
              append-InOrder o.audited 0 o.text.stop p v.in_order (w.holds.stop_at ∙ omega arith);
        })
  ]

  module _ (feed : F → Bytes → F × Bytes) (flush : F → F × Bytes) where
    abbrev pub step : Step → Output F → Output F
    step (writes p) o = write_output feed flush o p
    step flushes o = flush_output feed flush o
    step closes o = close_output feed flush o
    step notifies o = notify o
    step (retires keep) o = retire o keep

    abbrev pub run : List Step → Output F → Output F
    run [] o = o
    run (t ∷ ts) o = run ts (step t o)

    written : Output F → Bytes → Output F
    written o p = record o { raw = write o.raw p; filter = (feed o.filter p).0 }

    flushed : Output F → Output F
    flushed o = record o { filter = (flush o.filter).0 }

    step-grows :
        (t : Step) (o : Output F)
        → length (all_text o.audited) ≤ length (all_text (step t o).audited)
    unfolding write_output flush_output close_output notify retire written flushed
    step-grows (writes p) o = ground (arith, append_text-grows (written o p) (feed o.filter p).1)
    step-grows flushes o = ground (arith, append_text-grows (flushed o) (flush o.filter).1)
    step-grows closes o = ground (arith, append_text-grows (flushed o) (flush o.filter).1)
    step-grows notifies o = omega arith
    step-grows (retires keep) o = omega arith

    run-grows :
        (ts : List Step) (o : Output F)
        → length (all_text o.audited) ≤ length (all_text (run ts o).audited)
    run-grows [] o = omega arith
    run-grows (t ∷ ts) o = omega (arith, step-grows t o, run-grows ts (step t o))

    same_text :
        (o o' : Output F) → o.audited ≡ o'.audited → o.text ≡ o'.text → IsAudited o → IsAudited o'
    same_text o o' a t v =
        let (room, w) = v.window in
        record {
          window = (
            room,
            subst (IsWindow (all_text o'.audited) room) t
                (subst (λ log. IsWindow (all_text log) room o.text) a w),
          );
          in_order = subst (InOrder 0) a v.in_order;
        }

    by_append :
        (o o' w : Output F) (p : Bytes)
        → o' ≡ append_text w p
        → o.audited ≡ w.audited
        → o.text ≡ w.text
        → IsAudited o
        → length (all_text o'.audited) < word
        → IsAudited o'
    by_append o o' w p e a t v bound = subst IsAudited (sym e) (
        append_text-IsAudited w p (same_text o w a t v)
          (subst (λ (q : Output F). length (all_text q.audited) < word) e bound))

    -- A flush and a write either do nothing or append a text.
    flush_output-cases :
        (o : Output F)
        → (flush_output feed flush o ≡ o)
          ⊎ (flush_output feed flush o ≡ append_text (flushed o) (flush o.filter).1)
    unfolding flush_output flushed
    flush_output-cases o = if_cases o.closed o (append_text (flushed o) (flush o.filter).1)

    write_output-cases :
        (o : Output F) (p : Bytes)
        → (write_output feed flush o p ≡ o)
          ⊎ (write_output feed flush o p ≡ append_text (written o p) (feed o.filter p).1)
    unfolding write_output written
    write_output-cases o p =
        let q = append_text (written o p) (feed o.filter p).1 in
        elim (if_cases (is_empty p) o (if o.closed then o else q)) [
          | inl e ↦ inl e
          | inr e ↦ elim (if_cases o.closed o q) [ inl f ↦ inl (e ∙ f) | inr f ↦ inr (e ∙ f) ]
        ]

    appends :
        (o o' w : Output F) (p : Bytes)
        → (o' ≡ o) ⊎ (o' ≡ append_text w p)
        → o.audited ≡ w.audited
        → o.text ≡ w.text
        → IsAudited o
        → length (all_text o'.audited) < word
        → IsAudited o'
    appends o o' w p (inl e) a t v bound = subst IsAudited (sym e) v
    appends o o' w p (inr e) a t v bound = by_append o o' w p e a t v bound

    flush_output-IsAudited :
        (o : Output F)
        → IsAudited o
        → length (all_text (flush_output feed flush o).audited) < word
        → IsAudited (flush_output feed flush o)
    unfolding flushed
    flush_output-IsAudited o v bound =
        appends o (flush_output feed flush o) (flushed o) (flush o.filter).1 (flush_output-cases o)
          refl refl v bound

    write_output-IsAudited :
        (o : Output F) (p : Bytes)
        → IsAudited o
        → length (all_text (write_output feed flush o p).audited) < word
        → IsAudited (write_output feed flush o p)
    unfolding written
    write_output-IsAudited o p v bound =
        appends o (write_output feed flush o p) (written o p) (feed o.filter p).1
          (write_output-cases o p) refl refl v bound

    close-flush :
        (o : Output F)
        → ((flush_output feed flush o).audited ≡ (close_output feed flush o).audited)
          × ((flush_output feed flush o).text ≡ (close_output feed flush o).text)
    unfolding flush_output close_output
    close-flush o = (refl, refl)

    step-IsAudited :
        (t : Step) (o : Output F)
        → IsAudited o
        → length (all_text (step t o).audited) < word
        → IsAudited (step t o)
    unfolding notify retire
    step-IsAudited (writes p) o v bound = write_output-IsAudited o p v bound
    step-IsAudited flushes o v bound = flush_output-IsAudited o v bound
    step-IsAudited closes o v bound =
        let (a, t) = close-flush o in
        same_text (flush_output feed flush o) (close_output feed flush o) a t
          (flush_output-IsAudited o v (subst (λ log. length (all_text log) < word) (sym a) bound))
    step-IsAudited notifies o v bound = same_text o (notify o) refl refl v
    step-IsAudited (retires keep) o v bound =
        let (room, w) = v.window in
        record {
          window = (
            min room (max keep 1),
            shrink-IsWindow (all_text o.audited) keep room o.text w bound,
          );
          in_order = v.in_order;
        }

    run-IsAudited :
        (ts : List Step) (o : Output F)
        → IsAudited o
        → length (all_text (run ts o).audited) < word
        → IsAudited (run ts o)
    run-IsAudited [] o v bound = v
    run-IsAudited (t ∷ ts) o v bound =
        let later = run-grows ts (step t o) in
        run-IsAudited ts (step t o) (step-IsAudited t o v (omega arith)) bound

    fresh-IsAudited : (n : ℕ) (f : F) → IsAudited (new_output n f)
    unfolding new_output
    fresh-IsAudited n f = record {
      window = (max (ring_bytes_or n) 1, new_ring-IsWindow (ring_bytes_or n));
      in_order = tt;
    }

    -- Whatever is written, flushed, closed or retired, and whatever the filter makes of it: the audit
    -- has each piece of text at the cursor where the pieces before it end, and the ring that is read is
    -- a window on exactly the audited text, while that is shorter than 2^64 bytes.
    pub new_output-IsAudited :
        (n : ℕ) (f : F) (ts : List Step)
        → length (all_text (run ts (new_output n f)).audited) < word
        → IsAudited (run ts (new_output n f))
    new_output-IsAudited n f ts bound =
        run-IsAudited ts (new_output n f) (fresh-IsAudited n f) bound
