-- ===== src/Login/Limiter.antt =====
-- loginLimiter, loginRemoteState and loginAttempt of webauth.go. A time is a number of nanoseconds
-- since Go's zero time, which is 0. Every method runs under the mutex, so it is one step here.
-- The test hook delayFor is left out.
use ssh_gate_oss.Base.{
  ℕ, zero, suc, ◌+◌, ◌-◌, ◌*◌, Bool, true, false, not, ◌&&◌, ◌||◌, List, [], ◌∷◌, ◌++◌, Option,
  none, some, ltb, leb, ◌==◌, if◌then◌else◌, length, is_empty, take,
}
use ssh_gate_oss.Text.{Text, lookup, trim, has_char, codes}
use ssh_gate_oss.Table.{put, delete}

abbrev pub millisecond : ℕ
millisecond = 1_000_000

-- loginWindow, and the other constants.
abbrev pub login_window : ℕ
login_window = 900_000 * millisecond

abbrev pub login_remote_max_fails : ℕ
login_remote_max_fails = 10

abbrev pub login_global_max_fails : ℕ
login_global_max_fails = 100

abbrev pub login_lock_duration : ℕ
login_lock_duration = 900_000 * millisecond

abbrev pub login_base_delay : ℕ
login_base_delay = 250 * millisecond

abbrev pub login_max_delay : ℕ
login_max_delay = 8_000 * millisecond

abbrev pub login_max_delayed_total : ℕ
login_max_delayed_total = 16

abbrev pub login_max_remotes : ℕ
login_max_remotes = 4096

-- loginBusyRetry.
abbrev pub login_busy_retry : ℕ
login_busy_retry = 1_000 * millisecond

pub record RemoteState : Type 0 where
  pub fails : List ℕ
  pub locked_until : ℕ
  pub inflight : ℕ

abbrev pub fresh : RemoteState
fresh = record { fails = []; locked_until = 0; inflight = 0 }

pub record Limiter : Type 0 where
  pub remotes : List (Text × RemoteState)
  pub global_fails : List ℕ
  pub global_until : ℕ
  pub global_inflight : ℕ
  pub delayed : ℕ

-- newLoginLimiter.
abbrev pub new_limiter : Limiter
new_limiter = record {
  remotes = [];
  global_fails = [];
  global_until = 0;
  global_inflight = 0;
  delayed = 0;
}

pub record Attempt : Type 0 where
  pub remote : Text
  pub reserved : Bool
  pub done : Bool

pub data Scope : Type 0 where
  of_remote of_all : Scope

-- What check answers: the delay before the attempt, or the loginLockedError.
pub data Answer : Type 0 where
  admitted : ℕ → Answer
  refused : Scope → ℕ → Answer

-- loginPruneTimes(ts, now - loginWindow).
unfoldable pub prune_times : List ℕ → ℕ → List ℕ
prune_times [] now = []
prune_times (t ∷ ts) now =
    let rest = prune_times ts now in if leb (t + login_window) now then rest else t ∷ ts

-- The rounds of the loop in loginDelay.
unfoldable pub delay_rounds : ℕ → ℕ → ℕ
delay_rounds zero d = d
delay_rounds (suc k) d =
    let rest = delay_rounds k (d * 2) in
    if leb login_max_delay (d * 2) then login_max_delay else rest

-- loginDelay.
unfoldable pub login_delay : ℕ → ℕ
unfolding delay_rounds
login_delay zero = 0
login_delay (suc k) = delay_rounds k login_base_delay

last_or_zero : List ℕ → ℕ
last_or_zero [] = 0
last_or_zero (t ∷ []) = t
last_or_zero (t ∷ u ∷ ts) = last_or_zero (u ∷ ts)

-- An entry that evictLocked may drop.
unfoldable pub evictable : ℕ → RemoteState → Bool
evictable now st = not (ltb now st.locked_until || ltb 0 st.inflight)

-- The entries that evictLocked may drop, with the time of their last failure.
unfoldable pub candidates : ℕ → List (Text × RemoteState) → List (Text × ℕ)
unfolding last_or_zero
candidates now [] = []
candidates now ((k, st) ∷ m) =
    let rest = candidates now m in
    if evictable now st then (k, last_or_zero st.fails) ∷ rest else rest

unfoldable pub insert_by_time : Text × ℕ → List (Text × ℕ) → List (Text × ℕ)
insert_by_time x [] = x ∷ []
insert_by_time (k, t) ((j, u) ∷ l) =
    if leb t u then (k, t) ∷ (j, u) ∷ l else (j, u) ∷ insert_by_time (k, t) l

-- sort.Slice by time. Go leaves the order of equal times open; here it is that of the table.
unfoldable pub sort_by_time : List (Text × ℕ) → List (Text × ℕ)
unfolding insert_by_time
sort_by_time [] = []
sort_by_time (x ∷ l) = insert_by_time x (sort_by_time l)

unfoldable pub delete_all : List (Text × ℕ) → List (Text × RemoteState) → List (Text × RemoteState)
delete_all [] m = m
delete_all ((k, t) ∷ l) m = delete_all l (delete k m)

-- evictLocked: at most a quarter of loginMaxRemotes entries go.
unfoldable pub evict_locked : Limiter → ℕ → Limiter
evict_locked l now = record l {
  remotes = delete_all (take 1024 (sort_by_time (candidates now l.remotes))) l.remotes;
}

-- The insertion of a remote that the table does not hold.
unfoldable pub make_room : Limiter → ℕ → Limiter
make_room l now = if leb login_max_remotes (length l.remotes) then evict_locked l now else l

abbrev pub set_remote : Limiter → Text → RemoteState → Limiter
set_remote l remote st = record l { remotes = put remote st l.remotes }

-- The end of check: the slot is taken, or the remote has used up its failures.
unfoldable pub admit : Limiter → Text → Option RemoteState → ℕ → Limiter × Answer
unfolding login_delay
admit l remote none now =
    let l' = make_room l now in
    (
      record l' {
        remotes = put remote (record fresh { inflight = 1 }) l'.remotes;
        global_inflight = l'.global_inflight + 1;
      },
      admitted (login_delay 0),
    )
admit l remote (some st) now =
    let st' = record st { fails = prune_times st.fails now } in
    let n = length st'.fails + st'.inflight in
    if leb login_remote_max_fails n
    then (set_remote l remote st', refused of_remote login_busy_retry)
    else (
      record l {
        remotes = put remote (record st' { inflight = st'.inflight + 1 }) l.remotes;
        global_inflight = l.global_inflight + 1;
      },
      admitted (login_delay n),
    )

abbrev pub until_of : Option RemoteState → ℕ
until_of none = 0
until_of (some st) = st.locked_until

-- The middle of check: the lock of the remote, and the count over all remotes.
unfoldable pub check_counts : Bool → Limiter → Text → Option RemoteState → ℕ → Limiter × Answer
check_counts loopback l remote st now =
    if ltb now (until_of st)
    then (l, refused of_remote (until_of st - now))
    else let l' = record l { global_fails = prune_times l.global_fails now } in
      if not loopback && leb login_global_max_fails (length l'.global_fails + l'.global_inflight)
      then (l', refused of_all login_busy_retry)
      else admit l' remote st now

-- The loopback test stands for net.ParseIP and IP.IsLoopback, which Go's package net implements.
module _ (is_loopback_ip : Text → Bool) where
  -- loginIsLoopback.
  unfoldable pub login_is_loopback : Text → Bool
  unfolding trim has_char
  login_is_loopback remote = is_loopback_ip (trim (has_char (codes "[]")) remote)

  -- (*loginLimiter).check.
  unfoldable pub check : Limiter → Text → ℕ → Limiter × Answer
  check l remote now =
      let loopback = login_is_loopback remote in
      if not loopback && ltb now l.global_until
      then (l, refused of_all (l.global_until - now))
      else check_counts loopback l remote (lookup remote l.remotes) now

abbrev pub give_back : RemoteState → RemoteState
give_back st = record st { inflight = st.inflight - 1 }

-- The table of releaseLocked, once the state of the remote is read.
unfoldable pub release_slot : Limiter → Text → Option RemoteState → Limiter
release_slot l remote none = record l { global_inflight = l.global_inflight - 1 }
release_slot l remote (some st) = record l {
  remotes = put remote (give_back st) l.remotes;
  global_inflight = l.global_inflight - 1;
}

-- releaseLocked; the state that it returns is the one that the table then holds.
unfoldable pub release_locked : Limiter → Attempt → Limiter
release_locked l at =
    if at.reserved then release_slot l at.remote (lookup at.remote l.remotes) else l

-- dropIfIdleLocked.
unfoldable pub drop_if_idle : Limiter → Text → Option RemoteState → ℕ → Limiter
drop_if_idle l remote none now = l
drop_if_idle l remote (some st) now =
    if st.inflight == 0 && is_empty st.fails && not (ltb now st.locked_until)
    then record l { remotes = delete remote l.remotes }
    else l

-- The new state of a remote after a failure.
unfoldable pub add_failure : RemoteState → ℕ → RemoteState
add_failure st now =
    let fails = prune_times st.fails now ++ now ∷ [] in
    if leb login_remote_max_fails (length fails)
    then record st { fails = []; locked_until = now + login_lock_duration }
    else record st { fails = fails }

unfoldable pub fail_remote : Limiter → Text → Option RemoteState → ℕ → Limiter
fail_remote l remote none now = set_remote (make_room l now) remote (add_failure fresh now)
fail_remote l remote (some st) now = set_remote l remote (add_failure st now)

unfoldable pub fail_global : Limiter → ℕ → Limiter
fail_global l now =
    let fails = prune_times l.global_fails now ++ now ∷ [] in
    if leb login_global_max_fails (length fails)
    then record l { global_fails = []; global_until = now + login_lock_duration }
    else record l { global_fails = fails }

abbrev pub finish : Attempt → Attempt
finish at = record at { done = true }

-- (*loginAttempt).fail.
unfoldable pub fail : Limiter → Attempt → ℕ → Limiter × Attempt
fail l at now =
    let l' = release_locked l at in
    if at.done
    then (l, at)
    else (fail_global (fail_remote l' at.remote (lookup at.remote l'.remotes) now) now, finish at)

-- What succeed does with the state of the remote.
unfoldable pub clear_fails : Limiter → Text → Option RemoteState → ℕ → Limiter
clear_fails l remote none now = l
clear_fails l remote (some st) now =
    let st' = record st { fails = [] } in
    drop_if_idle (set_remote l remote st') remote (some st') now

-- (*loginAttempt).succeed.
unfoldable pub succeed : Limiter → Attempt → ℕ → Limiter × Attempt
succeed l at now =
    let l' = release_locked l at in
    if at.done
    then (l, at)
    else (clear_fails l' at.remote (lookup at.remote l'.remotes) now, finish at)

-- (*loginAttempt).release.
unfoldable pub release : Limiter → Attempt → ℕ → Limiter × Attempt
release l at now =
    let l' = release_locked l at in
    if at.done
    then (l, at)
    else (drop_if_idle l' at.remote (lookup at.remote l'.remotes) now, finish at)

-- enterDelay.
unfoldable pub enter_delay : Limiter → Limiter × Bool
enter_delay l =
    if leb login_max_delayed_total l.delayed
    then (l, false)
    else (record l { delayed = l.delayed + 1 }, true)

-- leaveDelay.
unfoldable pub leave_delay : Limiter → Limiter
leave_delay l = if ltb 0 l.delayed then record l { delayed = l.delayed - 1 } else l
