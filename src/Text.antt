-- ===== src/Text.antt =====
-- Go strings as lists of code points, and the functions of Go's standard packages strings, path
-- and unicode that the program calls. A string is taken to be valid UTF-8, where a test on an
-- ASCII byte and a test on a code point agree.
pub mod Laws
use Prim.Native.Char.{code}
use Prim.Native.String.{String}
use ssh_gate_oss.Base.{
  ℕ, zero, suc, ◌-◌, Bool, true, false, not, ◌&&◌, ◌||◌, List, [], ◌∷◌, ◌++◌, map, reverse, Option,
  none, some, leb, ltb, ◌==◌, if◌then◌else◌, length, is_empty, take,
}

abbrev pub Text : Type 0
Text = List ℕ

-- The code points of a literal.
abbrev pub codes : String → Text
codes String.[] = []
codes (String.◌∷◌ c s) = code c ∷ codes s

abbrev pub texts : List String → List Text
texts = map codes

-- s == t.
unfoldable pub text_eq : Text → Text → Bool
text_eq [] [] = true
text_eq [] (d ∷ t) = false
text_eq (c ∷ s) [] = false
text_eq (c ∷ s) (d ∷ t) = c == d && text_eq s t

-- slices.Contains on strings.
unfoldable pub contains : List Text → Text → Bool
unfolding text_eq
contains [] v = false
contains (x ∷ xs) v = text_eq x v || contains xs v

-- A Go map from strings, as an association list.
unfoldable pub lookup {ℓ} : {V : Type ℓ} → Text → List (Text × V) → Option V
unfolding text_eq
lookup k [] = none
lookup k ((j, v) ∷ m) = if text_eq j k then some v else lookup k m

-- unicode.IsSpace.
unfoldable pub is_space : ℕ → Bool
is_space c =
    (leb 9 c && leb c 13)
    || c == 0x20
    || c == 0x85
    || c == 0xA0
    || c == 0x1680
    || (leb 0x2000 c && leb c 0x200A)
    || c == 0x2028
    || c == 0x2029
    || c == 0x202F
    || c == 0x205F
    || c == 0x3000

unfoldable pub trim_left : (ℕ → Bool) → Text → Text
trim_left p [] = []
trim_left p (c ∷ s) = let rest = trim_left p s in if p c then rest else c ∷ s

unfoldable pub trim_right : (ℕ → Bool) → Text → Text
trim_right p [] = []
trim_right p (c ∷ s) = let rest = trim_right p s in if p c && is_empty rest then [] else c ∷ rest

-- strings.Trim, with the cutset as a test.
unfoldable pub trim : (ℕ → Bool) → Text → Text
unfolding trim_left trim_right
trim p s = trim_right p (trim_left p s)

-- strings.TrimSpace.
unfoldable pub trim_space : Text → Text
unfolding trim is_space
trim_space s = trim is_space s

-- The first word of a text whose spaces are not skipped, and the words behind it.
abbrev pub flush : Text × List Text → List Text
flush ([], ws) = ws
flush (c ∷ w, ws) = (c ∷ w) ∷ ws

unfoldable pub fields_from : Text → Text × List Text
unfolding is_space
fields_from [] = ([], [])
fields_from (c ∷ s) =
    let (w, ws) = fields_from s in if is_space c then ([], flush (w, ws)) else (c ∷ w, ws)

-- strings.Fields.
unfoldable pub fields : Text → List Text
unfolding fields_from
fields s = flush (fields_from s)

-- strings.HasPrefix.
unfoldable pub has_prefix : Text → Text → Bool
has_prefix s [] = true
has_prefix [] (d ∷ p) = false
has_prefix (c ∷ s) (d ∷ p) = c == d && has_prefix s p

-- strings.TrimPrefix for a prefix of one character.
unfoldable pub trim_prefix_char : ℕ → Text → Text
trim_prefix_char d [] = []
trim_prefix_char d (c ∷ s) = if c == d then s else c ∷ s

-- strings.TrimSuffix for a suffix of one character.
unfoldable pub trim_suffix_char : ℕ → Text → Text
trim_suffix_char d [] = []
trim_suffix_char d (c ∷ []) = if c == d then [] else c ∷ []
trim_suffix_char d (c ∷ e ∷ s) = c ∷ trim_suffix_char d (e ∷ s)

-- strings.IndexByte(s, c) >= 0.
unfoldable pub has_char : Text → ℕ → Bool
has_char [] d = false
has_char (c ∷ s) d = c == d || has_char s d

-- strings.ContainsAny.
unfoldable pub contains_any : Text → Text → Bool
unfolding has_char
contains_any [] cs = false
contains_any (c ∷ s) cs = has_char cs c || contains_any s cs

-- strings.Cut at a character: the part before it, and whether it occurs.
unfoldable pub cut : Text → ℕ → Text × Bool
cut [] d = ([], false)
cut (c ∷ s) d = let (key, found) = cut s d in if c == d then ([], true) else (c ∷ key, found)

-- The first pair whose old text begins here.
unfoldable pub first_match : List (Text × Text) → Text → Option (Text × Text)
unfolding has_prefix
first_match [] s = none
first_match ((old, new) ∷ pairs) s =
    if has_prefix s old then some (old, new) else first_match pairs s

-- strings.NewReplacer(...).Replace; `skip` characters belong to a text replaced already.
unfoldable pub replace_from : List (Text × Text) → ℕ → Text → Text
replace_from pairs skip [] = []
replace_from pairs (suc k) (c ∷ s) = replace_from pairs k s
replace_from pairs zero (c ∷ s) = elim (first_match pairs (c ∷ s)) [
  | none ↦ c ∷ replace_from pairs 0 s
  | some (old, new) ↦ new ++ replace_from pairs (length old - 1) s
]

unfoldable pub replace : List (Text × Text) → Text → Text
unfolding replace_from first_match
replace pairs s = replace_from pairs 0 s

-- The text behind the last slash.
unfoldable pub after_slash : Text → Text
unfolding has_char
after_slash [] = []
after_slash (c ∷ s) =
    let rest = after_slash s in if has_char s b'/' then rest else if c == b'/' then s else c ∷ s

-- path.Base.
unfoldable pub base : Text → Text
unfolding after_slash trim_right
base s =
    if is_empty s
    then codes "."
    else let e = after_slash (trim_right (λ c. c == b'/') s) in if is_empty e then codes "/" else e

-- strings.Contains.
unfoldable pub has_infix : Text → Text → Bool
unfolding has_prefix
has_infix [] t = has_prefix [] t
has_infix (c ∷ s) t = has_prefix (c ∷ s) t || has_infix s t

-- s < t on strings.
unfoldable pub text_lt : Text → Text → Bool
text_lt s [] = false
text_lt [] (d ∷ t) = true
text_lt (c ∷ s) (d ∷ t) = ltb c d || (c == d && text_lt s t)
