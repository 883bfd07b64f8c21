-- ===== src/Risk/Commands.antt =====
-- The lists of commands in risk.go: interpreters, destructiveCommand, readOnlyCommand,
-- readOnlyIP and dateSetsClock.
use ssh_gate_oss.Base.{
  Bool, true, false, not, ◌&&◌, ◌||◌, [], ◌∷◌, Option, none, some, ltb, ◌==◌, if◌then◌else◌, length,
  is_empty,
}
use ssh_gate_oss.Text.{Text, codes, texts, text_eq, contains, has_prefix, has_char, cut}
use ssh_gate_oss.Risk.Words.{
  Words, has_arg, has_arg_prefix, has_short_flag, first_operand, non_options, is_option,
}

-- The map `interpreters`.
abbrev pub interpreters : Words
interpreters = texts (
    "sh" ∷ "bash" ∷ "zsh" ∷ "dash" ∷ "ksh" ∷ "csh" ∷ "tcsh" ∷ "fish" ∷ "python" ∷ "python2"
    ∷ "python3" ∷ "perl" ∷ "ruby" ∷ "node" ∷ "php" ∷ "lua" ∷ "awk" ∷ "gawk" ∷ "mawk" ∷ "nawk"
    ∷ "tclsh" ∷ "expect" ∷ "eval" ∷ "exec" ∷ "source" ∷ "." ∷ "busybox" ∷ "su" ∷ "script" ∷ [])

-- What one round of dateSetsClock does with an argument.
pub data DateStep : Type 0 where
  ends_options sets alone with_value : DateStep

-- The loop over a cluster of short options, behind its dash.
date_cluster : Text → DateStep
unfolding has_char
date_cluster [] = alone
date_cluster (c ∷ cs) =
    let rest = date_cluster cs in
    if c == b's'
    then sets
    else if c == b'I'
    then alone
    else if has_char (codes "dfr") c
    then (if is_empty cs then with_value else alone)
    else rest

any_extends : Words → Text → Bool
unfolding has_prefix
any_extends [] key = false
any_extends (v ∷ vs) key = has_prefix v key || any_extends vs key

abbrev behind_dash : Text → Text
behind_dash [] = []
behind_dash (c ∷ s) = s

unfoldable pub date_step : Text → DateStep
unfolding text_eq has_prefix cut any_extends date_cluster
date_step a =
    if text_eq a (codes "--")
    then ends_options
    else if has_prefix a (codes "--")
    then (let (key, has_value) = cut a b'=' in
        if not has_value
          && ltb 2 (length key)
          && any_extends (texts ("--date" ∷ "--file" ∷ "--reference" ∷ [])) key
        then with_value
        else alone)
    else if ltb (length a) 2 || not (has_prefix a (codes "-"))
    then (if has_prefix a (codes "+") then alone else sets)
    else date_cluster (behind_dash a)

any_operand_sets : Words → Bool
unfolding has_prefix
any_operand_sets [] = false
any_operand_sets (op ∷ ops) = not (has_prefix op (codes "+")) || any_operand_sets ops

-- dateSetsClock.
unfoldable pub date_sets_clock : Words → Bool
unfolding date_step any_operand_sets
date_sets_clock [] = false
date_sets_clock (a ∷ []) = elim (date_step a) [
  | ends_options ↦ false
  | sets ↦ true
  | alone ↦ false
  | with_value ↦ false
]
date_sets_clock (a ∷ b ∷ args) = elim (date_step a) [
  | ends_options ↦ any_operand_sets (b ∷ args)
  | sets ↦ true
  | alone ↦ date_sets_clock (b ∷ args)
  | with_value ↦ date_sets_clock args
]

-- The map `ipObjects`.
abbrev pub ip_objects : Words
ip_objects = texts (
    "a" ∷ "addr" ∷ "address" ∷ "l" ∷ "link" ∷ "r" ∷ "ro" ∷ "route" ∷ "n" ∷ "neigh" ∷ "neighbor"
    ∷ "neighbour" ∷ "ru" ∷ "rule" ∷ "maddr" ∷ "maddress" ∷ "mr" ∷ "mroute" ∷ "tunnel" ∷ "ntable"
    ∷ "netconf" ∷ [])

-- The map `ipOptions`.
abbrev pub ip_options : Words
ip_options = texts (
    "-4" ∷ "-6" ∷ "-0" ∷ "-s" ∷ "-stats" ∷ "-statistics" ∷ "-d" ∷ "-details" ∷ "-br" ∷ "-brief"
    ∷ "-c" ∷ "-color" ∷ "-j" ∷ "-json" ∷ "-p" ∷ "-pretty" ∷ "-o" ∷ "-oneline" ∷ "-h" ∷ "-human"
    ∷ "-human-readable" ∷ "-r" ∷ "-resolve" ∷ [])

-- The option loop of readOnlyIP: the words from the first operand on, `none` at an option that is
-- not listed. `-f` and `-family` take the next word.
unfoldable pub ip_operands : Words → Option Words
unfolding text_eq contains has_prefix
ip_operands [] = some []
ip_operands (a ∷ []) =
    if not (is_option a)
    then some (a ∷ [])
    else if text_eq a (codes "-f") || text_eq a (codes "-family") || contains ip_options a
    then some []
    else none
ip_operands (a ∷ b ∷ args) =
    let skip = ip_operands args in
    let next = ip_operands (b ∷ args) in
    if not (is_option a)
    then some (a ∷ b ∷ args)
    else if text_eq a (codes "-f") || text_eq a (codes "-family")
    then skip
    else if contains ip_options a
    then next
    else none

ip_verb : Words → Bool
unfolding contains
ip_verb [] = true
ip_verb (verb ∷ args) = contains (texts ("show" ∷ "list" ∷ "lst" ∷ "get" ∷ [])) verb

ip_object : Words → Bool
unfolding contains ip_verb
ip_object [] = false
ip_object (object ∷ args) = contains ip_objects object && ip_verb args

-- readOnlyIP.
unfoldable pub read_only_ip : Words → Bool
unfolding ip_operands ip_object
read_only_ip args = elim (ip_operands args) [ none ↦ false | some rest ↦ ip_object rest ]

-- The case of readOnlyCommand whose commands are read-only with any arguments but uniq's second.
abbrev pub plain_readers : Words
plain_readers = texts (
    "ls" ∷ "cat" ∷ "head" ∷ "tail" ∷ "wc" ∷ "df" ∷ "du" ∷ "free" ∷ "uptime" ∷ "uname" ∷ "whoami"
    ∷ "id" ∷ "pwd" ∷ "stat" ∷ "which" ∷ "grep" ∷ "egrep" ∷ "fgrep" ∷ "uniq" ∷ "cut" ∷ "nl" ∷ "echo"
    ∷ "printf" ∷ "true" ∷ "false" ∷ "nproc" ∷ "arch" ∷ "lsblk" ∷ "lscpu" ∷ "lsof" ∷ "netstat"
    ∷ "printenv" ∷ "basename" ∷ "dirname" ∷ "realpath" ∷ "readlink" ∷ "md5sum" ∷ "sha1sum"
    ∷ "sha256sum" ∷ "sha512sum" ∷ "cksum" ∷ "tac" ∷ "rev" ∷ "column" ∷ "groups" ∷ "users" ∷ "who"
    ∷ "w" ∷ "last" ∷ "vmstat" ∷ "iostat" ∷ "mpstat" ∷ "sleep" ∷ "test" ∷ "tr" ∷ "diff" ∷ "cmp"
    ∷ "comm" ∷ "getent" ∷ "dig" ∷ "host" ∷ "nslookup" ∷ "ping" ∷ "tty" ∷ "locale" ∷ "sha256" ∷ "md5"
    ∷ "exit" ∷ "yes" ∷ "seq" ∷ [])

service_status : Words → Bool
unfolding text_eq
service_status (a ∷ b ∷ []) = text_eq b (codes "status")
service_status _ = false

all_listing : Words → Bool
unfolding contains
all_listing [] = true
all_listing (a ∷ args) =
    contains (texts ("-v" ∷ "-vv" ∷ "-a" ∷ "-r" ∷ "-l" ∷ "--list" ∷ [])) a && all_listing args

-- The case `git` of readOnlyCommand.
read_only_git : Words → Bool
unfolding contains has_arg_prefix all_listing
read_only_git [] = false
read_only_git (sub ∷ args) =
    if has_arg_prefix (sub ∷ args)
      (texts ("--output" ∷ "--ext-diff" ∷ "--upload-pack" ∷ "--exec" ∷ []))
    then false
    else if contains
        (texts (
          "status" ∷ "log" ∷ "diff" ∷ "show" ∷ "rev-parse" ∷ "describe" ∷ "shortlog" ∷ "blame"
          ∷ "ls-files" ∷ []))
        sub
    then true
    else contains (texts ("branch" ∷ "tag" ∷ "remote" ∷ [])) sub && all_listing args

-- readOnlyCommand.
unfoldable pub read_only_command : Text → Words → Bool
unfolding text_eq contains has_arg has_arg_prefix has_short_flag first_operand non_options
    date_sets_clock service_status read_only_git read_only_ip
read_only_command name args =
    if contains plain_readers name
    then not (text_eq name (codes "uniq") && ltb 1 (length (non_options args)))
    else if text_eq name (codes "ss")
    then not (has_short_flag args b'K')
      && not (has_short_flag args b'D')
      && not (has_arg args (texts ("--kill" ∷ "--diag" ∷ [])))
    else if text_eq name (codes "hostname")
    then is_empty (non_options args)
      && not (has_short_flag args b'F')
      && not (has_short_flag args b'b')
      && not (has_arg args (texts ("--file" ∷ "--boot" ∷ [])))
    else if text_eq name (codes "file")
    then not (has_short_flag args b'C') && not (has_arg args (texts ("--compile" ∷ [])))
    else if text_eq name (codes "date")
    then not (has_arg args (texts ("--set" ∷ []))) && not (date_sets_clock args)
    else if text_eq name (codes "sort")
    then not (has_short_flag args b'o')
      && not (has_arg args (texts ("--output" ∷ "--compress-program" ∷ [])))
    else if contains (texts ("ps" ∷ "pgrep" ∷ "pidof" ∷ [])) name
    then true
    else if text_eq name (codes "top")
    then has_short_flag args b'b'
    else if text_eq name (codes "find")
    then not (
        has_arg args (
          texts (
            "-delete" ∷ "-exec" ∷ "-execdir" ∷ "-ok" ∷ "-okdir" ∷ "-fprint" ∷ "-fprint0"
            ∷ "-fprintf" ∷ "-fls" ∷ [])))
    else if text_eq name (codes "journalctl")
    then not (has_arg_prefix args (texts ("--vacuum" ∷ [])))
      && not (
          has_arg args (
            texts (
              "--vacuum-size" ∷ "--vacuum-time" ∷ "--vacuum-files" ∷ "--rotate" ∷ "--flush"
              ∷ "--sync" ∷ "--relinquish-var" ∷ "--smart-relinquish-var" ∷ "--setup-keys"
              ∷ "--update-catalog" ∷ "--cursor-file" ∷ [])))
    else if text_eq name (codes "systemctl")
    then contains
        (texts (
          "status" ∷ "is-active" ∷ "is-enabled" ∷ "is-failed" ∷ "list-units" ∷ "list-unit-files"
          ∷ "list-timers" ∷ "list-sockets" ∷ "show" ∷ "cat" ∷ []))
        (first_operand args)
    else if text_eq name (codes "service")
    then service_status (non_options args)
    else if text_eq name (codes "docker") || text_eq name (codes "podman")
    then (if contains
          (texts ("ps" ∷ "images" ∷ "logs" ∷ "inspect" ∷ "version" ∷ "info" ∷ "top" ∷ []))
          (first_operand args)
        then true
        else text_eq (first_operand args) (codes "stats")
          && has_arg args (texts ("--no-stream" ∷ [])))
    else if text_eq name (codes "git")
    then read_only_git args
    else text_eq name (codes "ip") && read_only_ip args

-- The first case of destructiveCommand.
abbrev pub plain_destroyers : Words
plain_destroyers = texts (
    "rm" ∷ "rmdir" ∷ "shred" ∷ "unlink" ∷ "shutdown" ∷ "reboot" ∷ "halt" ∷ "poweroff" ∷ "init"
    ∷ "telinit" ∷ "iptables" ∷ "ip6tables" ∷ "nft" ∷ "ufw" ∷ "firewall-cmd" ∷ "userdel" ∷ "usermod"
    ∷ "groupdel" ∷ "passwd" ∷ "chpasswd" ∷ "dd" ∷ "fdisk" ∷ "sfdisk" ∷ "parted" ∷ "wipefs"
    ∷ "mkswap" ∷ "swapoff" ∷ "kill" ∷ "killall" ∷ "pkill" ∷ "zfs" ∷ "zpool" ∷ "lvremove"
    ∷ "vgremove" ∷ "pvremove" ∷ "umount" ∷ [])

-- destructiveCommand.
unfoldable pub destructive_command : Text → Words → Bool
unfolding text_eq contains has_prefix has_arg has_short_flag read_only_command
destructive_command name args =
    if contains plain_destroyers name
    then true
    else if contains (texts ("chmod" ∷ "chown" ∷ "chgrp" ∷ "setfacl" ∷ [])) name
    then has_short_flag args b'R' || has_arg args (texts ("--recursive" ∷ []))
    else if text_eq name (codes "crontab")
    then has_short_flag args b'r'
    else if text_eq name (codes "find")
    then has_arg args (texts ("-delete" ∷ "-exec" ∷ "-execdir" ∷ "-ok" ∷ "-okdir" ∷ []))
    else if contains (texts ("systemctl" ∷ "service" ∷ [])) name
    then not (read_only_command name args)
      && has_arg args (
          texts (
            "stop" ∷ "restart" ∷ "disable" ∷ "mask" ∷ "kill" ∷ "isolate" ∷ "poweroff" ∷ "reboot"
            ∷ "halt" ∷ "suspend" ∷ "hibernate" ∷ "rescue" ∷ "emergency" ∷ "daemon-reexec" ∷ []))
    else has_prefix name (codes "mkfs")
