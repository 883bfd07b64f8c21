-- ===== src/Risk/Words.antt =====
-- The tests on words of risk.go: assignments, numbers, durations, options and operands.
use ssh_gate_oss.Base.{
  ℕ, Bool, true, false, not, ◌&&◌, ◌||◌, List, [], ◌∷◌, leb, ltb, ◌==◌, if◌then◌else◌, length,
  is_empty,
}
use ssh_gate_oss.Text.{
  Text, codes, text_eq, trim, trim_right, trim_prefix_char, trim_suffix_char, has_prefix, has_char,
  cut,
}

abbrev pub Words : Type 0
Words = List Text

abbrev is_letter : ℕ → Bool
is_letter c = c == b'_' || (leb b'a' c && leb c b'z') || (leb b'A' c && leb c b'Z')

abbrev pub is_digit : ℕ → Bool
is_digit c = leb b'0' c && leb c b'9'

name_rest : Text → Bool
name_rest [] = true
name_rest (c ∷ s) = (is_letter c || is_digit c) && name_rest s

-- The loop of isAssignment over the bytes of a name that is not empty.
is_name : Text → Bool
unfolding name_rest
is_name [] = false
is_name (c ∷ s) = is_letter c && name_rest s

-- isAssignment.
unfoldable pub is_assignment : Text → Bool
unfolding cut is_name trim_suffix_char
is_assignment word =
    let (name, found) = cut word b'=' in found && is_name (trim_suffix_char b'+' name)

-- isNumber.
unfoldable pub is_number : Text → Bool
unfolding trim trim_prefix_char
is_number word =
    let digits = trim_prefix_char b'-' word in
    not (is_empty digits) && is_empty (trim is_digit digits)

-- isDuration.
unfoldable pub is_duration : Text → Bool
unfolding trim has_char
is_duration word =
    not (is_empty word)
    && is_empty (trim (has_char (codes "0123456789.")) (trim_right (has_char (codes "smhd")) word))

-- The test of hasArg for one argument against one value.
unfoldable pub arg_matches : Text → Text → Bool
unfolding text_eq has_prefix cut
arg_matches a v =
    text_eq a v
    || (has_prefix v (codes "--")
        && has_prefix a (codes "--")
        && ltb 2 (length (cut a b'=').0)
        && has_prefix v (cut a b'=').0)

any_value : Text → Words → Bool
unfolding arg_matches
any_value a [] = false
any_value a (v ∷ vs) = arg_matches a v || any_value a vs

-- hasArg.
unfoldable pub has_arg : Words → Words → Bool
unfolding any_value
has_arg [] values = false
has_arg (a ∷ args) values = any_value a values || has_arg args values

any_prefix : Text → Words → Bool
unfolding has_prefix
any_prefix a [] = false
any_prefix a (p ∷ ps) = has_prefix a p || any_prefix a ps

-- hasArgPrefix.
unfoldable pub has_arg_prefix : Words → Words → Bool
unfolding any_prefix
has_arg_prefix [] prefixes = false
has_arg_prefix (a ∷ args) prefixes = any_prefix a prefixes || has_arg_prefix args prefixes

-- A cluster of short options that holds the flag.
unfoldable pub cluster_has : Text → ℕ → Bool
unfolding has_char
cluster_has [] flag = false
cluster_has (c ∷ []) flag = false
cluster_has (c ∷ d ∷ s) flag = c == b'-' && not (d == b'-') && has_char (d ∷ s) flag

-- hasShortFlag.
unfoldable pub has_short_flag : Words → ℕ → Bool
unfolding cluster_has
has_short_flag [] flag = false
has_short_flag (a ∷ args) flag = cluster_has a flag || has_short_flag args flag

abbrev pub is_option : Text → Bool
is_option a = has_prefix a (codes "-")

-- firstOperand.
unfoldable pub first_operand : Words → Text
unfolding has_prefix
first_operand [] = []
first_operand (a ∷ args) = let rest = first_operand args in if is_option a then rest else a

-- nonOptions.
unfoldable pub non_options : Words → Words
unfolding has_prefix
non_options [] = []
non_options (a ∷ args) = let rest = non_options args in if is_option a then rest else a ∷ rest
