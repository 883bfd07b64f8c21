-- ===== src/Risk/Usage.antt =====
-- How the wrappers of risk.go are called, as their manuals say it: the options behind which each of
-- them still runs a command, and the words in front of that command. This does not read the table
-- `wrappers` of the code.
use ssh_gate_oss.Base.{ℕ, ◌≡◌, true, false, ◌&&◌, ◌||◌, All, List, [], ◌∷◌, ◌++◌, some}
use ssh_gate_oss.Text.{Text, codes, texts, text_eq, contains, lookup, has_prefix, base}
use ssh_gate_oss.Risk.Words.{Words, is_assignment, is_number, is_duration}

-- The options that stand alone, and those with a value.
pub record Manual : Type 0 where
  pub alone : Words
  pub valued : Words

abbrev pub manuals : List (Text × Manual)
manuals =
    (
      codes "sudo",
      record {
        alone = texts (
            "-A" ∷ "--askpass" ∷ "-b" ∷ "--background" ∷ "-B" ∷ "--bell" ∷ "-E" ∷ "--preserve-env"
            ∷ "-H" ∷ "--set-home" ∷ "-k" ∷ "--reset-timestamp" ∷ "-n" ∷ "--non-interactive" ∷ "-N"
            ∷ "--no-update" ∷ "-P" ∷ "--preserve-groups" ∷ "-S" ∷ "--stdin" ∷ []);
        valued = texts (
            "-C" ∷ "--close-from" ∷ "-D" ∷ "--chdir" ∷ "-g" ∷ "--group" ∷ "-h" ∷ "--host" ∷ "-p"
            ∷ "--prompt" ∷ "-R" ∷ "--chroot" ∷ "-r" ∷ "--role" ∷ "-T" ∷ "--command-timeout" ∷ "-t"
            ∷ "--type" ∷ "-U" ∷ "--other-user" ∷ "-u" ∷ "--user" ∷ []);
      },
    )
    ∷ (codes "doas", record { alone = texts ("-n" ∷ []); valued = texts ("-C" ∷ "-u" ∷ []) })
    ∷ (
      codes "env",
      record {
        alone = texts (
            "-" ∷ "-0" ∷ "--block-signal" ∷ "--debug" ∷ "--default-signal" ∷ "-i"
            ∷ "--ignore-environment" ∷ "--ignore-signal" ∷ "--list-signal-handling" ∷ "--null"
            ∷ "-v" ∷ []);
        valued = texts ("-C" ∷ "--chdir" ∷ "-u" ∷ "--unset" ∷ []);
      },
    )
    ∷ (codes "nice", record { alone = []; valued = texts ("-n" ∷ "--adjustment" ∷ []) })
    ∷ (
      codes "ionice",
      record {
        alone = texts ("-t" ∷ "--ignore" ∷ []);
        valued = texts ("-c" ∷ "--class" ∷ "-n" ∷ "--classdata" ∷ []);
      },
    )
    ∷ (codes "nohup", record { alone = []; valued = [] })
    ∷ (
      codes "timeout",
      record {
        alone = texts ("--foreground" ∷ "--preserve-status" ∷ "-v" ∷ "--verbose" ∷ []);
        valued = texts ("-k" ∷ "--kill-after" ∷ "-s" ∷ "--signal" ∷ []);
      },
    )
    ∷ (codes "time", record { alone = texts ("-p" ∷ []); valued = [] })
    ∷ (codes "command", record { alone = texts ("-p" ∷ []); valued = [] })
    ∷ (
      codes "stdbuf",
      record {
        alone = [];
        valued = texts ("-e" ∷ "--error" ∷ "-i" ∷ "--input" ∷ "-o" ∷ "--output" ∷ []);
      },
    )
    ∷ (
      codes "xargs",
      record {
        alone = texts (
            "-0" ∷ "--exit" ∷ "--interactive" ∷ "--no-run-if-empty" ∷ "--null" ∷ "-o" ∷ "--open-tty"
            ∷ "-p" ∷ "-r" ∷ "--show-limits" ∷ "-t" ∷ "--verbose" ∷ "-x" ∷ []);
        valued = texts (
            "-a" ∷ "--arg-file" ∷ "-d" ∷ "--delimiter" ∷ "-E" ∷ "-I" ∷ "-L" ∷ "--max-args"
            ∷ "--max-chars" ∷ "--max-procs" ∷ "-n" ∷ "-P" ∷ "--process-slot-var" ∷ "-s" ∷ []);
      },
    )
    ∷ []

-- `Options name m ws rest`: of the words `ws` behind the wrapper, `rest` are those behind its options.
pub data Options (name : Text) (m : Manual) : Words → Words → Type 0 where
  no_option :
      {w : Text} {ws : Words}
      → has_prefix w (codes "-") ≡ false
      → (text_eq name (codes "env") && is_assignment w) ≡ false
      → Options name m (w ∷ ws) (w ∷ ws)
  end_mark : {ws : Words} → Options name m (codes "--" ∷ ws) ws
  stands_alone :
      {w : Text} {ws rest : Words}
      → contains m.alone w ≡ true
      → Options name m ws rest
      → Options name m (w ∷ ws) rest
  -- -u root, --user root
  next_value :
      {w v : Text} {ws rest : Words}
      → contains m.valued w ≡ true
      → Options name m ws rest
      → Options name m (w ∷ v ∷ ws) rest
  -- --user=root
  joined_value :
      (w v : Text) {ws rest : Words}
      → contains m.valued (b'-' ∷ b'-' ∷ w) ≡ true
      → Options name m ws rest
      → Options name m ((b'-' ∷ b'-' ∷ w ++ b'=' ∷ v) ∷ ws) rest
  -- -uroot
  attached_value :
      {c d : ℕ} {v : Text} {ws rest : Words}
      → contains m.valued (b'-' ∷ c ∷ []) ≡ true
      → Options name m ws rest
      → Options name m ((b'-' ∷ c ∷ d ∷ v) ∷ ws) rest
  -- -nE
  cluster :
      {c d : ℕ} {cs : Text} {ws rest : Words}
      → All (λ o. contains m.alone (b'-' ∷ o ∷ []) ≡ true) (c ∷ d ∷ cs)
      → Options name m ws rest
      → Options name m ((b'-' ∷ c ∷ d ∷ cs) ∷ ws) rest
  -- -nu root, but not of env or nice
  cluster_value :
      (c : ℕ) (cs : Text) (o : ℕ) {v : Text} {ws rest : Words}
      → (text_eq name (codes "env") || text_eq name (codes "nice")) ≡ false
      → All (λ k. contains m.alone (b'-' ∷ k ∷ []) ≡ true) (c ∷ cs)
      → contains m.valued (b'-' ∷ o ∷ []) ≡ true
      → Options name m ws rest
      → Options name m ((b'-' ∷ c ∷ cs ++ o ∷ []) ∷ v ∷ ws) rest
  -- env NAME=value
  assignment :
      {w : Text} {ws rest : Words}
      → text_eq name (codes "env") ≡ true
      → is_assignment w ≡ true
      → Options name m ws rest
      → Options name m (w ∷ ws) rest
  -- nice -5
  adjustment :
      {w : Text} {ws rest : Words}
      → text_eq name (codes "nice") ≡ true
      → is_number (b'-' ∷ w) ≡ true
      → Options name m ws rest
      → Options name m ((b'-' ∷ w) ∷ ws) rest

-- `RunsAs ws final`: the words `ws` run the command `final` behind a chain of wrappers. No wrapper and
-- no command is written like an assignment; timeout has a duration in front of its command.
pub data RunsAs : Words → Words → Type 0 where
  bare : {w : Text} {ws : Words} → is_assignment w ≡ false → RunsAs (w ∷ ws) (w ∷ ws)
  wrapped :
      {w : Text} {m : Manual} {ws rest final : Words}
      → is_assignment w ≡ false
      → lookup (base w) manuals ≡ some m
      → text_eq (base w) (codes "timeout") ≡ false
      → Options (base w) m ws rest
      → RunsAs rest final
      → RunsAs (w ∷ ws) final
  timed :
      {w d : Text} {m : Manual} {ws rest final : Words}
      → is_assignment w ≡ false
      → lookup (base w) manuals ≡ some m
      → text_eq (base w) (codes "timeout") ≡ true
      → is_duration d ≡ true
      → Options (base w) m ws (d ∷ rest)
      → RunsAs rest final
      → RunsAs (w ∷ ws) final
