-- ===== src/Risk/Command.antt =====
-- opaqueCommand, splitSegments, analyzeCommand, classifyRisk and commandUsesSudo of risk.go.
use ssh_gate_oss.Base.{
  ℕ, Bool, true, false, not, ◌&&◌, ◌||◌, List, [], ◌∷◌, ltb, ◌==◌, leb, if◌then◌else◌, is_empty,
}
use ssh_gate_oss.Text.{
  Text, codes, texts, text_eq, contains, has_char, is_space, trim_space, fields, replace,
}
use ssh_gate_oss.Risk.Level.{Risk, low, high, Analysis, raise, unreadable}
use ssh_gate_oss.Risk.Words.{Words}
use ssh_gate_oss.Risk.Segment.{analyze_segment}

-- The tables of Go's package unicode that the classifier reads.
pub record Unicode : Type 0 where
  pub is_print : ℕ → Bool
  pub is_format : ℕ → Bool  -- the range Cf
  pub is_mark : ℕ → Bool  -- the ranges Mn and Me
  pub to_lower : ℕ → ℕ

-- harmlessRedirects.
abbrev pub harmless_redirects : Words
harmless_redirects = texts ("2>/dev/null" ∷ ">/dev/null" ∷ "1>/dev/null" ∷ "2>&1" ∷ [])

-- The ASCII characters whose meaning depends on shell parsing.
abbrev pub shell_chars : Text
shell_chars =
    b'\'' ∷ b'"' ∷ b'\\' ∷ b'$' ∷ b'`' ∷ b'(' ∷ b')' ∷ b'{' ∷ b'}' ∷ b'<' ∷ b'>' ∷ b'!' ∷ b'#' ∷ []

-- A space that is neither a blank nor a tab.
unfoldable pub odd_space : Text → Bool
unfolding is_space
odd_space [] = false
odd_space (r ∷ s) = (is_space r && not (r == b' ') && not (r == 9)) || odd_space s

-- An ampersand that belongs neither to `&&` nor to `2>&1`.
unfoldable pub lone_ampersand : Text → Bool
unfolding replace has_char
lone_ampersand command =
    has_char (replace ((codes "2>&1", []) ∷ []) (replace ((codes "&&", []) ∷ []) command)) b'&'

module _ (u : Unicode) where
  -- invisibleRune.
  unfoldable pub invisible_rune : ℕ → Bool
  unfolding has_char
  invisible_rune r =
      u.is_mark r
      || has_char (0x115F ∷ 0x1160 ∷ 0x3164 ∷ 0xFFA0 ∷ 0x2800 ∷ 0x034F ∷ 0x17B4 ∷ 0x17B5 ∷ []) r
      || (leb 0xFE00 r && leb r 0xFE0F)
      || (leb 0xE0100 r && leb r 0xE01EF)

  -- The body of opaqueCommand's loop over the characters of a word.
  unfoldable pub opaque_rune : ℕ → Bool
  unfolding invisible_rune has_char is_space
  opaque_rune r =
      if ltb 0x7F r
      then not (u.is_print r) || u.is_format r || is_space r || invisible_rune r
      else ltb r 0x20 || r == 0x7F || has_char shell_chars r

  any_opaque : Text → Bool
  unfolding opaque_rune
  any_opaque [] = false
  any_opaque (r ∷ s) = opaque_rune r || any_opaque s

  unfoldable pub opaque_fields : Words → Bool
  unfolding any_opaque contains
  opaque_fields [] = false
  opaque_fields (f ∷ fs) = (not (contains harmless_redirects f) && any_opaque f) || opaque_fields fs

  -- opaqueCommand.
  unfoldable pub opaque_command : Text → Bool
  opaque_command command =
      opaque_fields (fields command) || odd_space command || lone_ampersand command

-- The replacer of splitSegments.
abbrev pub separators : List (Text × Text)
separators =
    (codes "&&", codes " ; ")
    ∷ (codes "||", codes " ; ")
    ∷ (codes "|", codes " ; ")
    ∷ (codes ";", codes " ; ")
    ∷ []

-- The loop of splitSegments: the segment that is open, and the later ones.
unfoldable pub segments_from : Words → Words × List Words
segments_from [] = ([], [])
segments_from (f ∷ fs) =
    let (current, later) = segments_from fs in
    if text_eq f (codes ";")
    then ([], current ∷ later)
    else if contains harmless_redirects f
    then (current, later)
    else (f ∷ current, later)

-- splitSegments.
unfoldable pub split_segments : Text → List Words
split_segments command =
    let (current, later) = segments_from (fields (replace separators command)) in current ∷ later

-- The body of analyzeCommand's loop.
unfoldable pub combine : Analysis → Analysis → Analysis
unfolding raise
combine seg result = record {
  risk = raise seg.risk result.risk;
  uses_sudo = result.uses_sudo || seg.uses_sudo;
}

unfoldable pub analyze_segments : Analysis → List Words → Analysis
analyze_segments result [] = result
analyze_segments result (s ∷ ss) = analyze_segments (combine (analyze_segment s) result) ss

abbrev pub is_high : Risk → Bool
is_high high = true
is_high _ = false

module _ (u : Unicode) where
  -- analyzeCommand.
  unfoldable pub analyze_command : Text → Analysis
  analyze_command command =
      let c = trim_space command in
      if is_empty c || opaque_command u c
      then unreadable
      else analyze_segments (record { risk = low; uses_sudo = false }) (split_segments c)

  -- classifyRisk.
  unfoldable pub classify_risk : Text → Risk
  unfolding analyze_command
  classify_risk command = (analyze_command command).risk

  -- commandUsesSudo.
  unfoldable pub command_uses_sudo : Text → Bool
  command_uses_sudo command =
      (analyze_command command).uses_sudo || is_high (analyze_command command).risk
