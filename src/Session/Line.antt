-- ===== src/Session/Line.antt =====
-- What a line of an AI session must look like to be queued: validateSessionLine and its lexer
-- scanSessionLine of ai_session_approval.go. A Go string that is not UTF-8 has no code points: what
-- the package utf8 decodes is the argument, `none` where it decodes nothing.
use ssh_gate_oss.Base.{
  ℕ, zero, suc, ◌+◌, Bool, false, not, ◌&&◌, ◌||◌, [], ◌∷◌, Option, none, some, if◌then◌else◌,
  is_empty, length, ltb, leb, ◌==◌,
}
use ssh_gate_oss.Text.{Text, trim_space, trim_right, has_char}
use ssh_gate_oss.Risk.Command.{Unicode}

-- The reject_reason values.
pub data Reject : Type 0 where
  invalid_utf8 empty too_long multiline control_char heredoc line_continuation unbalanced_quote :
      Reject

-- len(line), in bytes.
unfoldable pub byte_length : Text → ℕ
byte_length [] = 0
byte_length (c ∷ s) =
    (if ltb c 0x80 then 1 else if ltb c 0x800 then 2 else if ltb c 0x10000 then 3 else 4)
    + byte_length s

-- strings.IndexByte.
unfoldable pub index_char : Text → ℕ → Option ℕ
index_char [] d = none
index_char (c ∷ s) d =
    if c == d then some 0 else (elim (index_char s d) [ none ↦ none | some j ↦ some (suc j) ])

-- Where the quote that ends $'...' stands; the flag says that a backslash stands before.
unfoldable pub ansi_end : Bool → Text → Option ℕ
ansi_end escaped [] = none
ansi_end escaped (c ∷ s) =
    let rest = ansi_end (not escaped && c == b'\\') s in
    if not escaped && c == b'\''
    then some 0
    else (elim rest [ none ↦ none | some j ↦ some (suc j) ])

-- What the lexer does at a byte: reject, or go on behind `skip` more bytes.
pub data Step : Type 0 where
  stop : Reject → Step
  go : ℕ → Text → Option ℕ → Step

abbrev pub top : Text → ℕ
top [] = 0
top (c ∷ stack) = c

abbrev pub pop : Text → Text
pop [] = []
pop (c ∷ stack) = stack

abbrev pub next_of : Text → ℕ
next_of [] = 0
next_of (c ∷ s) = c

-- The expansions that `$` opens; `$` stands for $( on the stack.
abbrev pub opens : ℕ → Option ℕ
opens next = if next == b'(' then some b'$' else if next == b'{' then some b'{' else none

-- The step inside double quotes.
unfoldable pub step_quoted : ℕ → Text → Text → Option ℕ → Step
step_quoted c s stack op_end =
    if c == b'\\'
    then (if is_empty s then stop line_continuation else go 1 stack op_end)
    else if c == b'"'
    then go 0 (pop stack) op_end
    else if c == b'`'
    then go 0 (b'`' ∷ stack) op_end
    else if c == b'$'
    then (elim (opens (next_of s)) [ none ↦ go 0 stack op_end | some o ↦ go 1 (o ∷ stack) op_end ])
    else go 0 stack op_end

-- The step at `$` outside double quotes.
unfoldable pub step_dollar : Text → Text → Option ℕ → Step
step_dollar s stack op_end = elim (opens (next_of s)) [
  | some o ↦ go 1 (o ∷ stack) op_end
  | none ↦
      if next_of s == b'\''
      then (elim (ansi_end false (pop s)) [
        | none ↦ stop unbalanced_quote
        | some j ↦ go (suc (suc j)) stack op_end
      ])
      else go 0 stack op_end
]

-- The step at | and &, which end a command at the top level.
unfoldable pub step_operator : ℕ → ℕ → Text → Text → Option ℕ → Step
step_operator c i s stack op_end =
    if not (is_empty stack)
    then go 0 stack op_end
    else if next_of s == c
    then go 1 stack (some (i + 2))
    else go 0 stack (if c == b'|' then some (i + 1) else op_end)

-- The step outside double quotes.
unfoldable pub step_code : ℕ → ℕ → Text → Text → Option ℕ → Step
unfolding step_dollar step_operator
step_code c i s stack op_end =
    if c == b'\\'
    then (if is_empty s then stop line_continuation else go 1 stack op_end)
    else if c == b'\''
    then (elim (index_char s b'\'') [
      | none ↦ stop unbalanced_quote
      | some j ↦ go (suc j) stack op_end
    ])
    else if c == b'"'
    then go 0 (b'"' ∷ stack) op_end
    else if c == b'`'
    then go 0 (if top stack == b'`' then pop stack else b'`' ∷ stack) op_end
    else if c == b'$'
    then step_dollar s stack op_end
    else if c == b'('
    then go 0 (b'(' ∷ stack) op_end
    else if c == b')'
    then (if top stack == b'$' || top stack == b'('
        then go 0 (pop stack) op_end
        else stop unbalanced_quote)
    else if c == b'{'
    then go 0 (b'{' ∷ stack) op_end
    else if c == b'}'
    then (if top stack == b'{' then go 0 (pop stack) op_end else stop unbalanced_quote)
    else if c == b'<'
    then (if next_of s == b'<' then stop heredoc else go 0 stack op_end)
    else if c == b'|' || c == b'&'
    then step_operator c i s stack op_end
    else go 0 stack op_end

unfoldable pub lex_step : ℕ → ℕ → Text → Text → Option ℕ → Step
lex_step c i s stack op_end =
    if top stack == b'"' then step_quoted c s stack op_end else step_code c i s stack op_end

-- The loop of scanSessionLine from the byte `i` on: a rejection, or the stack and the end of the
-- last operator.
pub data Lexed : Type 0 where
  rejected : Reject → Lexed
  lexed : Text → Option ℕ → Lexed

unfoldable pub lex : ℕ → Text → ℕ → Option ℕ → Text → Lexed
lex skip stack i op_end [] = lexed stack op_end
lex (suc k) stack i op_end (c ∷ s) = lex k stack (suc i) op_end s
lex zero stack i op_end (c ∷ s) = elim (lex_step c i s stack op_end) [
  | stop r ↦ rejected r
  | go k stack' op_end' ↦ lex k stack' (suc i) op_end' s
]

abbrev is_blank : ℕ → Bool
is_blank c = c == b' ' || c == 9

abbrev ends_at : Option ℕ → ℕ → Bool
ends_at none n = false
ends_at (some i) n = i == n

abbrev lex_result : Text → Lexed → Option Reject
lex_result line (rejected r) = some r
lex_result line (lexed stack op_end) =
    if not (is_empty stack)
    then some unbalanced_quote
    else if ends_at op_end (length (trim_right is_blank line))
    then some line_continuation
    else none

-- scanSessionLine.
unfoldable pub scan_session_line : Text → Option Reject
scan_session_line line = lex_result line (lex 0 [] 0 none line)

-- The characters that end a line.
unfoldable pub has_line_end : Text → Bool
unfolding has_char
has_line_end [] = false
has_line_end (r ∷ s) = has_char (10 ∷ 13 ∷ 0x2028 ∷ 0x2029 ∷ 0x85 ∷ []) r || has_line_end s

-- maxSessionLineBytes.
abbrev pub max_session_line_bytes : ℕ
max_session_line_bytes = 4096

module _ (u : Unicode) where
  abbrev pub is_control : ℕ → Bool
  is_control r =
      not (r == 9) && (ltb r 0x20 || r == 0x7f || (leb 0x80 r && leb r 0x9f) || u.is_format r)

  unfoldable pub has_control : Text → Bool
  has_control [] = false
  has_control (r ∷ s) = is_control r || has_control s

  -- validateSessionLine.
  unfoldable pub validate_session_line : Option Text → Option Reject
  validate_session_line none = some invalid_utf8
  validate_session_line (some line) =
      if is_empty (trim_space line)
      then some empty
      else if ltb max_session_line_bytes (byte_length line)
      then some too_long
      else if has_line_end line
      then some multiline
      else if has_control line
      then some control_char
      else scan_session_line line
