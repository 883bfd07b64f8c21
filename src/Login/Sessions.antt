-- ===== src/Login/Sessions.antt =====
-- The sessions of the web admin: adminSessionPolicy and adminAuth of webauth.go with expiredLocked,
-- lookup, sweep and invalidateAllLocked, and what handleLogin, handleLogout and handleRotate do to
-- the table of sessions. The callbacks on ended sessions, the cookies and the audit are left out.
-- Times are nanoseconds. The hashes of a cookie and of a session key, SHA-256, are arguments.
use ssh_gate_oss.Base.{
  ℕ, zero, suc, ◌+◌, ◌*◌, Bool, true, false, not, ◌&&◌, ◌||◌, List, [], ◌∷◌, Option, none, some,
  if◌then◌else◌, is_empty, length, ltb, leb, ◌==◌,
}
use ssh_gate_oss.Text.{Text, text_eq, text_lt, lookup}
use ssh_gate_oss.Table.{put, delete}

pub record SessionPolicy : Type 0 where
  pub idle_minutes : ℕ
  pub max_hours : ℕ
  pub max_sessions : ℕ

-- adminSessionPolicy.normalized, on numbers that are not negative.
unfoldable pub normalized : SessionPolicy → SessionPolicy
normalized p = record {
  idle_minutes = if p.idle_minutes == 0 then 30 else p.idle_minutes;
  max_hours = if p.max_hours == 0 then 12 else p.max_hours;
  max_sessions = if p.max_sessions == 0 then 32 else p.max_sessions;
}

-- adminSessionPolicy.validate: whether the policy passes.
unfoldable pub validate : SessionPolicy → Bool
validate p =
    if not (p.idle_minutes == 0) && (ltb p.idle_minutes 5 || ltb 720 p.idle_minutes)
    then false
    else if not (p.max_hours == 0) && (ltb p.max_hours 1 || ltb 168 p.max_hours)
    then false
    else not (ltb 1024 p.max_sessions)

-- adminSessionState.
pub record Session : Type 0 where
  pub created : ℕ
  pub last_used : ℕ
  pub remote : Text
  pub generation : ℕ
  pub bind_hash : Text

-- adminAuth, as far as the sessions go.
pub record Auth : Type 0 where
  pub policy : SessionPolicy
  pub generation : ℕ
  pub sessions : List (Text × Session)

abbrev pub idle_time : Auth → ℕ
idle_time a = a.policy.idle_minutes * 60_000_000_000

abbrev pub life_time : Auth → ℕ
life_time a = a.policy.max_hours * 3_600_000_000_000

-- expiredLocked.
unfoldable pub is_expired : Auth → Session → ℕ → Bool
is_expired a s now =
    if not (s.generation == a.generation)
    then true
    else if leb (s.last_used + idle_time a) now
    then true
    else leb (s.created + life_time a) now

-- sweep.
unfoldable pub live_sessions : Auth → ℕ → List (Text × Session) → List (Text × Session)
live_sessions a now [] = []
live_sessions a now ((k, s) ∷ m) =
    let rest = live_sessions a now m in if is_expired a s now then rest else (k, s) ∷ rest

unfoldable pub sweep : Auth → ℕ → Auth
sweep a now = record a { sessions = live_sessions a now a.sessions }

-- invalidateAllLocked.
unfoldable pub invalidate_all : Auth → Auth
invalidate_all a = record a { generation = a.generation + 1; sessions = [] }

-- The oldest session of the table, the least key first among equals.
unfoldable pub oldest_of : Text × Session → List (Text × Session) → Text
oldest_of (k, s) [] = k
oldest_of (k, s) ((j, t) ∷ m) =
    oldest_of
      (if ltb t.created s.created || (t.created == s.created && text_lt j k)
        then (j, t)
        else (k, s))
      m

abbrev pub evict_oldest : List (Text × Session) → List (Text × Session)
evict_oldest [] = []
evict_oldest (p ∷ m) = delete (oldest_of p m) (p ∷ m)

-- The loop of handleLogin that makes room; every round takes out a session.
unfoldable pub make_session_room : ℕ → ℕ → List (Text × Session) → List (Text × Session)
make_session_room zero limit m = m
make_session_room (suc fuel) limit m =
    let rest = make_session_room fuel limit (evict_oldest m) in
    if leb limit (length m) then rest else m

-- The session of an old cookie goes.
abbrev pub drop_old : Option Text → List (Text × Session) → List (Text × Session)
drop_old none m = m
drop_old (some key) m = delete key m

-- handleLogin, once the credential is right; `old` is the hash of the cookie that
-- came along.
unfoldable pub open_session : Auth → ℕ → Option Text → Text → Text → Text → Auth
open_session a now old key remote bind_hash =
    let kept = drop_old old a.sessions in
    record a {
      sessions =
          put key
            (record {
              created = now;
              last_used = now;
              remote = remote;
              generation = a.generation;
              bind_hash = bind_hash;
            })
            (make_session_room (length kept) a.policy.max_sessions kept);
    }

-- What handleLogout does with the session of the cookie.
unfoldable pub close_session : Auth → Text → Auth
close_session a key = record a { sessions = delete key a.sessions }

-- lookup, on the session that is found.
unfoldable pub use_session :
    Auth → ℕ → Text → Text → Bool → Bool → Option Session → Auth × Option (Text × Session)
use_session a now key key_hash touch need_key none = (a, none)
use_session a now key key_hash touch need_key (some s) =
    if is_expired a s now
    then (close_session a key, none)
    else if need_key && not (text_eq key_hash s.bind_hash)
    then (a, none)
    else let s' = if touch then record s { last_used = now } else s in
      (record a { sessions = put key s' a.sessions }, some (key, s'))

module _ (admin_session_key hash : Text → Text) where
  -- lookup: the cookie is empty where there is none, the header where it is absent.
  unfoldable pub look_up : Auth → ℕ → Text → Text → Bool → Bool → Auth × Option (Text × Session)
  look_up a now cookie header touch need_key =
      let key = admin_session_key cookie in
      let found = use_session a now key (hash header) touch need_key (lookup key a.sessions) in
      if is_empty cookie then (a, none) else found
