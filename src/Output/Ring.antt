-- ===== src/Output/Ring.antt =====
-- aiRing of ai_session.go: the last bytes of a stream, each at its cursor modulo the size.
use ssh_gate_oss.Base.{ℕ, ◌+◌, ◌-◌, ◌%◌, min, max, [], ltb, leb, if◌then◌else◌, length, drop}
use ssh_gate_oss.Output.Bytes.{Bytes, add_word, sub_word, make, copy_at}

-- aiRing; the fields are data, held and end.
pub record Ring : Type 0 where
  pub cells : Bytes
  pub held : ℕ
  pub stop : ℕ

-- newAIRing.
unfoldable pub new_ring : ℕ → Ring
new_ring size = record { cells = make (max size 1); held = 0; stop = 0 }

-- start.
unfoldable pub start : Ring → ℕ
start r = sub_word r.stop r.held

-- write, of no more bytes than there is room.
unfoldable pub write_short : Ring → Bytes → Ring
write_short r p =
    let size = length r.cells in
    let pos = r.stop % size in
    let n = min (size - pos) (length p) in
    record {
      cells = copy_at (copy_at r.cells pos p) 0 (drop n p);
      held = min (r.held + length p) size;
      stop = add_word r.stop (length p);
    }

-- write.
unfoldable pub write : Ring → Bytes → Ring
write r p =
    let size = length r.cells in
    let over = length p - size in
    if ltb size (length p)
    then write_short (record r { stop = add_word r.stop over }) (drop over p)
    else write_short r p

-- read, from a cursor that is not past the end.
unfoldable pub read : Ring → ℕ → ℕ → Bytes
read r from n =
    let m = min n (sub_word r.stop from) in
    let size = length r.cells in
    let pos = from % size in
    let c = min m (size - pos) in
    if leb m 0 then [] else copy_at (copy_at (make m) 0 (drop pos r.cells)) c r.cells

-- shrink.
unfoldable pub shrink : Ring → ℕ → Ring
shrink r keep =
    let k = max keep 1 in
    let n = min r.held k in
    let from = sub_word r.stop n in
    if leb (length r.cells) k
    then r
    else write (record { cells = make k; held = 0; stop = from }) (read r from n)
