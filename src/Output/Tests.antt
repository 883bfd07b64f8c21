-- ===== src/Output/Tests.antt =====
-- The rings, their readers and the default filter on concrete bytes.
use Prim.Native.Nat.{◌/◌, ◌+◌, ◌%◌, ◌*◌}
use ssh_gate_oss.Output.Plain.{Utf8, new_plain_text, plain, feed_plain, act, act_byte, settle}
use ssh_gate_oss.Output.Chunks.{IsUtf8, feed_all, feed_all-join}
use ssh_gate_oss.Base.{
  ℕ, ◌≡◌, ◌<◌, ◌-◌, refl, Bool, true, false, ◌||◌, List, [], ◌∷◌, arith, leb, ltb, length, min,
  if◌then◌else◌, ◌&&◌, ◌++◌, ◌≤◌, ◌↔◌,
}
use ssh_gate_oss.Output.Bytes.{Bytes, add_word, sub_word, byte_at, make, copy_at}
use ssh_gate_oss.Output.Ring.{Ring, new_ring, start, write_short, write, read, shrink}
use ssh_gate_oss.Output.Runs.{
  IsWindow, writes, shrinks, Change, change_all, room_after, ring_refines, new_ring-IsWindow,
  write-IsWindow,
}
use ssh_gate_oss.Output.Reader.{
  Slice, slice, invalid_cursor, trim_rune, trim_incomplete_rune, skip_tail, begin_at, text_of,
  read_text, read_raw,
}
use ssh_gate_oss.Output.Accounts.{IsExact, FourAreFull, read_text-IsExact, read_text_advances}
use ssh_gate_oss.Output.Stuck.{read_raw-IsExact, past_end_refused, limit_of_one_sticks}
use ssh_gate_oss.Output.Stream.{
  new_output, append_text, write_output, flush_output, close_output, retire, notify,
}
use ssh_gate_oss.Output.Audit as Audit
use ssh_gate_oss.Output.Audit.{IsAudited, flushes, closes, retires, run, new_output-IsAudited}

abbrev runs : Unit {0}
unfolding add_word sub_word byte_at make copy_at new_ring start write_short write read shrink
    trim_rune trim_incomplete_rune skip_tail begin_at text_of read_text read_raw new_output
    append_text write_output flush_output close_output retire notify
runs = tt

-- Two writes that wrap and a shrink between.
abbrev changes : List Change
changes = writes (1 ∷ 2 ∷ 3 ∷ []) ∷ shrinks 3 ∷ writes (4 ∷ 5 ∷ []) ∷ []

starts_at_two : start (change_all changes (new_ring 4)) ≡ 2
unfolding runs
starts_at_two = refl

ring_refines_example :
    ((change_all changes (new_ring 4)).stop ≡ 5)
    × (start (change_all changes (new_ring 4)) ≡ 5 - min 5 (room_after changes 4))
    × (read (change_all changes (new_ring 4)) 3 9 ≡ 4 ∷ 5 ∷ [])
ring_refines_example =
    ring_refines 4 changes 3 9 (omega arith) (omega (arith, starts_at_two)) (omega arith)

-- utf8.RuneStart, and utf8.FullRune by the first byte.
abbrev rune_start : ℕ → Bool
rune_start b = ltb b 128 || leb 192 b

abbrev full_rune : Bytes → Bool
full_rune [] = false
full_rune (b ∷ p) =
    let n = length (b ∷ p) in
    if ltb b 194
    then true
    else if ltb b 224
    then leb 2 n
    else if ltb b 240
    then leb 3 n
    else leb 4 n

full_rune-FourAreFull : FourAreFull rune_start full_rune
full_rune-FourAreFull [] h = absurd (omega arith)
full_rune-FourAreFull (b ∷ p) h = ground arith

-- "hé!" in a ring of four bytes that is filled to the brim.
abbrev text : Bytes
text = 104 ∷ 195 ∷ 169 ∷ 33 ∷ []

abbrev ring : Ring
ring = write (new_ring 4) text

ring-IsWindow : IsWindow text 4 ring
ring-IsWindow = write-IsWindow [] text 4 (new_ring 4) (new_ring-IsWindow 4) (omega arith)

read_text-IsExact_example :
    (t : Slice) × (read_text rune_start full_rune ring 0 2 ≡ slice t) × IsExact text 0 2 t
read_text-IsExact_example =
    read_text-IsExact rune_start full_rune text 4 ring 0 2 ring-IsWindow (omega arith) (omega arith)

read_text_advances_example :
    (t : Slice) × (read_text rune_start full_rune ring 1 4 ≡ slice t) × (1 < t.cursor)
read_text_advances_example =
    read_text_advances rune_start full_rune text 4 ring 1 4 full_rune-FourAreFull ring-IsWindow
      (omega arith) (omega arith) (omega arith)

read_raw-IsExact_example : (t : Slice) × (read_raw ring 0 2 ≡ slice t) × IsExact text 0 2 t
read_raw-IsExact_example =
    read_raw-IsExact text 4 ring 0 2 ring-IsWindow (omega arith) (omega arith)

past_end_refused_example :
    ((read_text rune_start full_rune ring 5 0 ≡ invalid_cursor 4) ↔ (4 < 5))
    × ((read_raw ring 5 0 ≡ invalid_cursor 4) ↔ (4 < 5))
past_end_refused_example =
    past_end_refused rune_start full_rune text 4 ring 5 0 ring-IsWindow (omega arith)

ring_starts_at_zero : start ring ≡ 0
unfolding runs
ring_starts_at_zero = refl

second_starts : rune_start (byte_at text 1) ≡ true
unfolding runs
second_starts = refl

second_is_partial : full_rune (byte_at text 1 ∷ []) ≡ false
unfolding runs
second_is_partial = refl

limit_of_one_sticks_example :
    (t : Slice) × (read_text rune_start full_rune ring 1 1 ≡ slice t)
    × (t.text ≡ [])
    × (t.cursor ≡ 1)
    × (t.more ≡ true)
limit_of_one_sticks_example =
    limit_of_one_sticks rune_start full_rune text 4 ring 1 ring-IsWindow (omega arith)
      (omega (arith, ring_starts_at_zero)) (omega arith) second_starts second_is_partial

-- A filter that holds each chunk back until the next.
abbrev feed : Bytes → Bytes → Bytes × Bytes
feed held p = (p, held)

abbrev flush : Bytes → Bytes × Bytes
flush held = ([], held)

abbrev steps : List Audit.Step
steps =
    Audit.writes (1 ∷ 2 ∷ [])
    ∷ Audit.writes (3 ∷ [])
    ∷ flushes
    ∷ closes
    ∷ Audit.writes (9 ∷ [])
    ∷ retires 2
    ∷ []

audit_size : length (Audit.all_text (run feed flush steps (new_output 8 [])).audited) ≡ 3
unfolding runs
audit_size = refl

new_output-IsAudited_example : IsAudited (run feed flush steps (new_output 8 []))
new_output-IsAudited_example =
    new_output-IsAudited feed flush 8 [] steps (omega (arith, audit_size))

-- A decoder of runes of one and two bytes.
abbrev full_two : Bytes → Bool
full_two [] = false
full_two (b ∷ []) = ltb b 192
full_two (b ∷ c ∷ p) = true

abbrev decode_two : Bytes → ℕ × ℕ
decode_two [] = (0xFFFD, 0)
decode_two (b ∷ []) = (0xFFFD, 1)
decode_two (b ∷ c ∷ p) =
    if leb 192 b && leb 128 c then ((b - 192) * 64 + (c - 128), 2) else (0xFFFD, 1)

abbrev two_bytes : Utf8
two_bytes = record {
  full_rune = full_two;
  decode = decode_two;
  encode = λ r. (192 + r / 64) ∷ (128 + r % 64) ∷ [];
}

two_bytes-IsUtf8 : IsUtf8 two_bytes
two_bytes-IsUtf8 = record { full_append = full; decode_append = same; size_le = size }
  where
    full : (p q : Bytes) → full_two p ≡ true → full_two (p ++ q) ≡ true
    full [] q h = absurd (ground arith)
    full (b ∷ []) [] h = h
    full (b ∷ []) (c ∷ q) h = refl
    full (b ∷ c ∷ p) q h = refl

    same : (p q : Bytes) → full_two p ≡ true → decode_two (p ++ q) ≡ decode_two p
    same [] q h = absurd (ground arith)
    same (b ∷ []) [] h = refl
    same (b ∷ []) (c ∷ q) h = ground arith
    same (b ∷ c ∷ p) q h = refl

    size : (p : Bytes) → full_two p ≡ true → (decode_two p).1 ≤ length p
    size [] h = omega arith
    size (b ∷ []) h = omega arith
    size (b ∷ c ∷ p) h = ground arith

-- "é", a carriage return, a colour and "!", cut inside the letter and the escape sequence.
feed_all-join_example :
    feed_all two_bytes new_plain_text
      (195 ∷ [])
      ((169 ∷ 13 ∷ 27 ∷ []) ∷ (91 ∷ 51 ∷ 109 ∷ 33 ∷ []) ∷ [])
    ≡ feed_plain two_bytes new_plain_text (195 ∷ 169 ∷ 13 ∷ 27 ∷ 91 ∷ 51 ∷ 109 ∷ 33 ∷ [])
feed_all-join_example =
    feed_all-join two_bytes new_plain_text (195 ∷ [])
      ((169 ∷ 13 ∷ 27 ∷ []) ∷ (91 ∷ 51 ∷ 109 ∷ 33 ∷ []) ∷ []) two_bytes-IsUtf8

colours_stripped :
    (feed_plain two_bytes new_plain_text (195 ∷ 169 ∷ 13 ∷ 27 ∷ 91 ∷ 51 ∷ 109 ∷ 33 ∷ [])).1
    ≡ 195 ∷ 169 ∷ 10 ∷ 33 ∷ []
unfolding feed_plain plain act act_byte settle
colours_stripped = refl
