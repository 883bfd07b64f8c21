-- ===== src/Risk/Wrappers.antt =====
-- wrapperSpec, the table `wrappers`, peelWrapperOptions and finishWrapper of risk.go.
use ssh_gate_oss.Base.{
  not, ◌&&◌, ◌||◌, List, [], ◌∷◌, Option, none, some, ltb, if◌then◌else◌, length, is_empty,
}
use ssh_gate_oss.Text.{Text, codes, texts, text_eq, contains, lookup, has_prefix, cut}
use ssh_gate_oss.Risk.Words.{Words, is_assignment, is_number, is_duration}

pub record WrapperSpec : Type 0 where
  pub args : Words
  pub flags : Words
  pub shell : Words

abbrev pub wrappers : List (Text × WrapperSpec)
wrappers =
    (
      codes "sudo",
      record {
        args = texts (
            "-u" ∷ "--user" ∷ "-g" ∷ "--group" ∷ "-h" ∷ "--host" ∷ "-p" ∷ "--prompt" ∷ "-C"
            ∷ "--close-from" ∷ "-D" ∷ "--chdir" ∷ "-R" ∷ "--chroot" ∷ "-r" ∷ "--role" ∷ "-t"
            ∷ "--type" ∷ "-U" ∷ "--other-user" ∷ "-T" ∷ "--command-timeout" ∷ []);
        flags = texts (
            "-A" ∷ "--askpass" ∷ "-b" ∷ "--background" ∷ "-B" ∷ "--bell" ∷ "-E" ∷ "--preserve-env"
            ∷ "-H" ∷ "--set-home" ∷ "-k" ∷ "--reset-timestamp" ∷ "-K" ∷ "--remove-timestamp" ∷ "-l"
            ∷ "--list" ∷ "-n" ∷ "--non-interactive" ∷ "-N" ∷ "--no-update" ∷ "-P"
            ∷ "--preserve-groups" ∷ "-S" ∷ "--stdin" ∷ "-v" ∷ "--validate" ∷ "-V" ∷ "--version"
            ∷ []);
        shell = texts ("-s" ∷ "--shell" ∷ "-i" ∷ "--login" ∷ "-e" ∷ "--edit" ∷ []);
      },
    )
    ∷ (
      codes "doas",
      record {
        args = texts ("-u" ∷ "-C" ∷ []);
        flags = texts ("-n" ∷ "-L" ∷ []);
        shell = texts ("-s" ∷ []);
      },
    )
    ∷ (
      codes "env",
      record {
        args = texts ("-u" ∷ "--unset" ∷ "-C" ∷ "--chdir" ∷ []);
        flags = texts (
            "-" ∷ "-i" ∷ "--ignore-environment" ∷ "-0" ∷ "--null" ∷ "-v" ∷ "--debug"
            ∷ "--default-signal" ∷ "--ignore-signal" ∷ "--block-signal" ∷ "--list-signal-handling"
            ∷ []);
        shell = texts ("-S" ∷ "--split-string" ∷ []);
      },
    )
    ∷ (codes "nice", record { args = texts ("-n" ∷ "--adjustment" ∷ []); flags = []; shell = [] })
    ∷ (
      codes "ionice",
      record {
        args = texts (
            "-c" ∷ "--class" ∷ "-n" ∷ "--classdata" ∷ "-p" ∷ "--pid" ∷ "-P" ∷ "--pgid" ∷ "-u"
            ∷ "--uid" ∷ []);
        flags = texts ("-t" ∷ "--ignore" ∷ []);
        shell = [];
      },
    )
    ∷ (codes "nohup", record { args = []; flags = []; shell = [] })
    ∷ (
      codes "timeout",
      record {
        args = texts ("-s" ∷ "--signal" ∷ "-k" ∷ "--kill-after" ∷ []);
        flags = texts ("--preserve-status" ∷ "--foreground" ∷ "-v" ∷ "--verbose" ∷ []);
        shell = [];
      },
    )
    ∷ (codes "time", record { args = []; flags = texts ("-p" ∷ []); shell = [] })
    ∷ (codes "command", record { args = []; flags = texts ("-p" ∷ []); shell = [] })
    ∷ (
      codes "stdbuf",
      record {
        args = texts ("-i" ∷ "--input" ∷ "-o" ∷ "--output" ∷ "-e" ∷ "--error" ∷ []);
        flags = [];
        shell = [];
      },
    )
    ∷ (
      codes "xargs",
      record {
        args = texts (
            "-I" ∷ "--replace" ∷ "-n" ∷ "--max-args" ∷ "-P" ∷ "--max-procs" ∷ "-L" ∷ "--max-lines"
            ∷ "-d" ∷ "--delimiter" ∷ "-E" ∷ "-s" ∷ "--max-chars" ∷ "-a" ∷ "--arg-file"
            ∷ "--process-slot-var" ∷ []);
        flags = texts (
            "-0" ∷ "--null" ∷ "-r" ∷ "--no-run-if-empty" ∷ "-t" ∷ "--verbose" ∷ "-p"
            ∷ "--interactive" ∷ "-x" ∷ "--exit" ∷ "-o" ∷ "--open-tty" ∷ "--show-limits" ∷ []);
        shell = [];
      },
    )
    ∷ []

-- The read of the map `wrappers`.
unfoldable pub find_wrapper : Text → Option WrapperSpec
unfolding lookup
find_wrapper name = lookup name wrappers

-- finishWrapper: the operands that a wrapper reads before the command.
unfoldable pub finish_wrapper : Text → Words → Option Words
unfolding text_eq is_duration
finish_wrapper name [] = if text_eq name (codes "timeout") then none else some []
finish_wrapper name (w ∷ ws) =
    if text_eq name (codes "timeout")
    then (if is_duration w then some ws else none)
    else some (w ∷ ws)

-- What one round of the loop in peelWrapperOptions does with the word at hand.
pub data Peel : Type 0 where
  ends_options : Peel  -- `--`
  looks_up : Peel  -- command -v
  operand : Peel  -- the command begins here
  refused : Peel
  alone : Peel  -- the word is consumed
  with_value : Peel  -- the word and the next one are consumed

-- The loop over a cluster of short options, behind its dash.
unfoldable pub peel_cluster : WrapperSpec → Text → Peel
unfolding contains
peel_cluster spec [] = alone
peel_cluster spec (c ∷ cs) =
    let rest = peel_cluster spec cs in
    let o = b'-' ∷ c ∷ [] in
    if contains spec.shell o
    then refused
    else if contains spec.args o
    then (if is_empty cs then with_value else alone)
    else if not (contains spec.flags o)
    then refused
    else rest

-- A long option, or the lone dash of env.
unfoldable pub peel_long : WrapperSpec → Text → Peel
unfolding contains cut
peel_long spec w =
    let (key, has_value) = cut w b'=' in
    if contains spec.shell key
    then refused
    else if contains spec.args key
    then (if has_value then alone else with_value)
    else if contains spec.flags key
    then alone
    else refused

abbrev pub tail_text : Text → Text
tail_text [] = []
tail_text (c ∷ s) = s

-- The `switch` of peelWrapperOptions, and the option classes below it.
unfoldable pub peel_word : Text → WrapperSpec → Text → Peel
peel_word name spec w =
    if text_eq w (codes "--")
    then ends_options
    else if text_eq name (codes "env") && is_assignment w
    then alone
    else if text_eq name (codes "nice")
        && ltb 1 (length w)
        && has_prefix w (codes "-")
        && is_number w
    then alone
    else if text_eq name (codes "command") && (text_eq w (codes "-v") || text_eq w (codes "-V"))
    then looks_up
    else if not (has_prefix w (codes "-"))
        || (text_eq w (codes "-") && not (text_eq name (codes "env")))
    then operand
    else if has_prefix w (codes "--") || text_eq w (codes "-")
    then peel_long spec w
    else peel_cluster spec (tail_text w)

-- peelWrapperOptions: the words of the command that the wrapper runs, `none` if it is refused.
unfoldable pub peel_wrapper_options : Text → WrapperSpec → Words → Option Words
peel_wrapper_options name spec [] = finish_wrapper name []
peel_wrapper_options name spec (w ∷ []) = elim (peel_word name spec w) [
  | ends_options ↦ finish_wrapper name []
  | looks_up ↦ some []
  | operand ↦ finish_wrapper name (w ∷ [])
  | refused ↦ none
  | alone ↦ finish_wrapper name []
  | with_value ↦ none
]
peel_wrapper_options name spec (w ∷ v ∷ ws) = elim (peel_word name spec w) [
  | ends_options ↦ finish_wrapper name (v ∷ ws)
  | looks_up ↦ some []
  | operand ↦ finish_wrapper name (w ∷ v ∷ ws)
  | refused ↦ none
  | alone ↦ peel_wrapper_options name spec (v ∷ ws)
  | with_value ↦ peel_wrapper_options name spec ws
]
