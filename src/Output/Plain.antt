-- ===== src/Output/Plain.antt =====
-- aiPlainText of ai_session.go: the default filter from terminal bytes to text. Go's utf8 is an
-- argument: whether bytes begin with a full rune, the rune that they begin with and its size, and the
-- bytes of a rune. The loop takes a byte at a time; the rest of a rune is skipped.
use ssh_gate_oss.Base.{
  ℕ, zero, suc, ◌+◌, ◌-◌, Bool, true, false, not, ◌&&◌, ◌||◌, [], ◌∷◌, ◌++◌, ltb, leb, ◌==◌,
  if◌then◌else◌,
}
use ssh_gate_oss.Text.{codes}
use ssh_gate_oss.Output.Bytes.{Bytes}

-- The state values.
pub data Mode : Type 0 where
  normal esc csi in_string string_esc esc_inter : Mode

-- aiPlainText, but for its tail.
pub record Machine : Type 0 where
  pub state : Mode
  pub str_len : ℕ
  pub dropped : Bool
  pub pend_cr : Bool

-- What the loop does at a byte.
pub data Act : Type 0 where
  hold : Act
  emit : Machine → Bytes → ℕ → Act

-- aiEscapeStringMax.
abbrev pub ai_escape_string_max : ℕ
ai_escape_string_max = 4096

abbrev pub notice : Bytes
notice = codes "[ssh-gate: oversized escape dropped]"

abbrev pub enter : Mode → Machine → Machine
enter s m = record m { state = s }

abbrev pub enter_string : Machine → Machine
enter_string m = record m { state = in_string; str_len = 0; dropped = false }

-- A byte of the body of a string.
abbrev pub string_byte : Machine → Act
string_byte m =
    let m' = record m { state = in_string; str_len = m.str_len + 1 } in
    if ltb ai_escape_string_max m'.str_len && not m.dropped
    then emit (record m' { dropped = true }) notice 0
    else emit m' [] 0

-- A byte below 0x80 in the normal state.
abbrev pub normal_byte : Machine → ℕ → Act
normal_byte m b =
    if b == 0x1B
    then emit (enter esc m) [] 0
    else if b == 13
    then emit (record m { pend_cr = true }) [] 0
    else if b == 10 || b == 9
    then emit m (b ∷ []) 0
    else if ltb b 0x20 || b == 0x7F
    then emit m [] 0
    else emit m (b ∷ []) 0

abbrev pub esc_byte : Machine → ℕ → Machine
esc_byte m b =
    if b == b'['
    then enter csi m
    else if b == b']' || b == b'P' || b == b'X' || b == b'^' || b == b'_'
    then enter_string m
    else if leb 0x20 b && leb b 0x2F
    then enter esc_inter m
    else enter normal m

-- A byte below 0x80, or in an escape sequence.
unfoldable pub act_byte : Mode → Machine → ℕ → Act
act_byte normal m b = normal_byte m b
act_byte esc m b = emit (esc_byte m b) [] 0
act_byte esc_inter m b = emit (if ltb b 0x20 || ltb 0x2F b then enter normal m else m) [] 0
act_byte csi m b = emit (if leb 0x40 b && leb b 0x7E then enter normal m else m) [] 0
act_byte in_string m b =
    if b == 7
    then emit (enter normal m) [] 0
    else if b == 0x1B
    then emit (enter string_esc m) [] 0
    else string_byte m
act_byte string_esc m b =
    if b == 7 || b == b'\\'
    then emit (enter normal m) [] 0
    else if b == 0x1B
    then emit (enter string_esc m) [] 0
    else string_byte m

abbrev pub is_normal : Mode → Bool
is_normal normal = true
is_normal _ = false

-- The line end that a carriage return becomes where no line feed follows it.
unfoldable pub settle : Machine → ℕ → Bytes × Machine
settle m b =
    if is_normal m.state && m.pend_cr
    then ((if b == 10 then [] else 10 ∷ []), record m { pend_cr = false })
    else ([], m)

-- Go's utf8.
pub record Utf8 : Type 0 where
  pub full_rune : Bytes → Bool
  pub decode : Bytes → ℕ × ℕ
  pub encode : ℕ → Bytes

module _ (u : Utf8) where
  -- A rune of more than one byte, or an error.
  abbrev pub rune : Machine → ℕ → ℕ → Act
  rune m r size =
      let skip = size - 1 in
      if r == 0xFFFD && size == 1
      then emit m (0xEF ∷ 0xBF ∷ 0xBD ∷ []) skip
      else if r == 0x9B
      then emit (enter csi m) [] skip
      else if r == 0x9D || r == 0x90 || r == 0x98 || r == 0x9E || r == 0x9F
      then emit (enter_string m) [] skip
      else if leb 0x80 r && leb r 0x9F
      then emit m [] skip
      else emit m (u.encode r) skip

  unfoldable pub act : Machine → ℕ → Bytes → Act
  act m b p =
      if is_normal m.state && leb 0x80 b
      then if not (u.full_rune (b ∷ p))
        then hold
        else rune m (u.decode (b ∷ p)).0 (u.decode (b ∷ p)).1
      else act_byte m.state m b

  -- The loop of Feed: the text, the state and the bytes that are kept back.
  unfoldable pub plain : ℕ → Machine → Bytes → Bytes × Machine × Bytes
  plain skip m [] = ([], m, [])
  plain (suc n) m (b ∷ p) = plain n m p
  plain zero m (b ∷ p) =
      let (out, m') = settle m b in
      elim (act m' b p) [
        | hold ↦ (out, m', b ∷ p)
        | emit m'' text skip ↦
            let (o, m3, tail) = plain skip m'' p in (out ++ (text ++ o), m3, tail)
      ]

  -- Feed, on a state and its tail.
  unfoldable pub feed_plain : Machine × Bytes → Bytes → (Machine × Bytes) × Bytes
  feed_plain (m, tail) p = let (out, m', left) = plain 0 m (tail ++ p) in ((m', left), out)

-- newAIPlainText.
abbrev pub new_plain_text : Machine × Bytes
new_plain_text = (record { state = normal; str_len = 0; dropped = false; pend_cr = false }, [])
