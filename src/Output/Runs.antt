-- ===== src/Output/Runs.antt =====
-- A ring after any history of writes and shrinks is the end of what was written.
use mathlib.Core.List.{append-nil}
use native.Mathlib.Decide.{dec_lt}
use ssh_gate_oss.Base.{
  ℕ, ◌+◌, ◌-◌, ◌≤◌, ◌<◌, ◌≡◌, sym, ap, ◌∙◌, subst, min, max, List, [], ◌∷◌, ◌++◌, arith, length,
  drop, take, length-append, append_assoc,
}
use ssh_gate_oss.Output.Bytes.{
  Bytes, word, add_word, sub_word, sub_word_of_le, length-make, length-drop,
}
use ssh_gate_oss.Output.Ring.{Ring, new_ring, start, write, read, shrink}
use ssh_gate_oss.Output.Refine.{
  Holds, write-Holds, write_of_le, write_of_lt, length-write_short, write_short-numbers,
}
use ssh_gate_oss.Output.Reads.{read-Holds}
use ssh_gate_oss.Output.Shrink.{
  new_ring-Holds, shrink-Holds, shrink_of_le, shrink_of_lt, blank, length-tail,
}

-- The ring has `room` bytes, and holds the last bytes of the stream, as many as fit.
pub record IsWindow (s : Bytes) (room : ℕ) (r : Ring) : Type 0 where
  pub holds : Holds s r
  pub size_at : length r.cells ≡ room
  pub held_at : r.held ≡ min (length s) room

pub new_ring-IsWindow : (size : ℕ) → IsWindow [] (max size 1) (new_ring size)
new_ring-IsWindow size = record {
  holds = new_ring-Holds size;
  size_at = unfold new_ring in length-make (max size 1);
  held_at = unfold new_ring in omega arith;
}

pub write-IsWindow :
    (s p : Bytes) (room : ℕ) (r : Ring)
    → IsWindow s room r
    → length s + length p < word
    → IsWindow (s ++ p) room (write r p)
write-IsWindow s p room r v bound = elim (dec_lt (length r.cells) (length p)) [
  | no short ↦
      let e = write_of_le r p (omega arith) in
      let (held, stop) = write_short-numbers r p in
      record {
        holds = write-Holds s p r v.holds bound;
        size_at = ap (λ (q : Ring). length q.cells) e ∙ length-write_short r p ∙ v.size_at;
        held_at =
            ap (λ (q : Ring). q.held) e
            ∙ held
            ∙ omega (arith, v.held_at, v.size_at, length-append s p);
      }
  | yes long ↦
      let e = write_of_lt r p long in
      let over = length p - length r.cells in
      let q = record r { stop = add_word r.stop over } in
      let (held, stop) = write_short-numbers q (drop over p) in
      record {
        holds = write-Holds s p r v.holds bound;
        size_at =
            ap (λ (q : Ring). length q.cells) e ∙ length-write_short q (drop over p) ∙ v.size_at;
        held_at =
            ap (λ (q : Ring). q.held) e
            ∙ held
            ∙ omega (arith, v.held_at, v.size_at, length-append s p, length-drop over p);
      }
]

pub shrink-IsWindow :
    (s : Bytes) (keep room : ℕ) (r : Ring)
    → IsWindow s room r
    → length s < word
    → IsWindow s (min room (max keep 1)) (shrink r keep)
shrink-IsWindow s keep room r v bound = elim (dec_lt (max keep 1) (length r.cells)) [
  | no small ↦
      let e = shrink_of_le r keep (omega arith) in
      record {
        holds = shrink-Holds s r keep v.holds bound;
        size_at = ap (λ (q : Ring). length q.cells) e ∙ omega (arith, v.size_at);
        held_at = ap (λ (q : Ring). q.held) e ∙ omega (arith, v.held_at, v.size_at);
      }
  | yes large ↦
      let e = shrink_of_lt r keep large in
      let n = min r.held (max keep 1) in
      let b = blank keep (sub_word r.stop n) in
      let tail = read r (sub_word r.stop n) n in
      let few = length-tail s r n v.holds bound (omega arith) in
      let made = length-make (max keep 1) in
      let w = write_of_le b tail (omega arith) in
      let (held, stop) = write_short-numbers b tail in
      record {
        holds = shrink-Holds s r keep v.holds bound;
        size_at =
            ap (λ (q : Ring). length q.cells) (e ∙ w)
            ∙ length-write_short b tail
            ∙ omega (arith, v.size_at);
        held_at = ap (λ (q : Ring). q.held) (e ∙ w) ∙ held ∙ omega (arith, v.size_at, v.held_at);
      }
]

-- What changes a ring.
pub data Change : Type 0 where
  writes : Bytes → Change
  shrinks : ℕ → Change

abbrev pub change : Change → Ring → Ring
change (writes p) r = write r p
change (shrinks keep) r = shrink r keep

abbrev pub change_all : List Change → Ring → Ring
change_all [] r = r
change_all (c ∷ cs) r = change_all cs (change c r)

-- All that is written.
abbrev pub stream : List Change → Bytes
stream [] = []
stream (writes p ∷ cs) = p ++ stream cs
stream (shrinks keep ∷ cs) = stream cs

-- The size that the shrinks leave.
abbrev pub room_after : List Change → ℕ → ℕ
room_after [] room = room
room_after (writes p ∷ cs) room = room_after cs room
room_after (shrinks keep ∷ cs) room = room_after cs (min room (max keep 1))

change_all-IsWindow :
    (cs : List Change) (s : Bytes) (room : ℕ) (r : Ring)
    → IsWindow s room r
    → length s + length (stream cs) < word
    → IsWindow (s ++ stream cs) (room_after cs room) (change_all cs r)
change_all-IsWindow [] s room r v bound = subst (λ q. IsWindow q room r) (sym (append-nil s)) v
change_all-IsWindow (writes p ∷ cs) s room r v bound =
    let whole = length-append s p in
    let rest = length-append p (stream cs) in
    subst (λ q. IsWindow q (room_after cs room) (change_all cs (write r p)))
      (append_assoc s p (stream cs))
      (change_all-IsWindow cs (s ++ p) room (write r p) (write-IsWindow s p room r v (omega arith))
        (omega arith))
change_all-IsWindow (shrinks keep ∷ cs) s room r v bound =
    change_all-IsWindow cs s (min room (max keep 1)) (shrink r keep)
      (shrink-IsWindow s keep room r v (omega arith)) bound

pub start-IsWindow :
    (s : Bytes) (room : ℕ) (r : Ring)
    → IsWindow s room r
    → length s < word
    → start r ≡ length s - min (length s) room
unfolding start
start-IsWindow s room r v bound =
    let h = v.holds in
    sub_word_of_le r.stop r.held (omega (arith, h.stop_at, h.few)) (omega (arith, h.stop_at))
    ∙ omega (arith, h.stop_at, v.held_at)

-- After any writes and shrinks that write fewer than 2^64 bytes in all, the ring is the end of all
-- that was written, as far as its size allows: its end is the length of the stream, it starts at most
-- its size before, and a read from any cursor between answers exactly the bytes of the stream there.
pub ring_refines :
    (size : ℕ) (cs : List Change) (from n : ℕ)
    → length (stream cs) < word
    → start (change_all cs (new_ring size)) ≤ from
    → from ≤ length (stream cs)
    → let r = change_all cs (new_ring size) in
      let s = stream cs in
      (r.stop ≡ length s)
      × (start r ≡ length s - min (length s) (room_after cs (max size 1)))
      × (read r from n ≡ take n (drop from s))
ring_refines size cs from n bound low high =
    let v =
      change_all-IsWindow cs [] (max size 1) (new_ring size) (new_ring-IsWindow size)
        (omega arith) in
    let r = change_all cs (new_ring size) in
    let e = start-IsWindow (stream cs) (room_after cs (max size 1)) r v bound in
    let h = v.holds in
    (h.stop_at, e, read-Holds (stream cs) r from n h bound (omega (arith, v.held_at)) high)
