-- ===== src/Requests/Request.antt =====
-- CommandRequest, Connection and the request states of app.go, and what approval.go reads off them.
-- A timestamp is `none` where its text does not parse.
use ssh_gate_oss.Base.{
  ℕ, ◌≡◌, arith, ◌+◌, ◌*◌, Bool, true, false, ◌||◌, List, [], ◌∷◌, ◌++◌, Option, none, some, min,
  ◌==◌, if◌then◌else◌, is_empty, map,
}
use ssh_gate_oss.Text.{Text, trim_space}
use ssh_gate_oss.Risk.Level.{Risk}
use ssh_gate_oss.Risk.Command.{Unicode}

pub data Status : Type 0 where
  pending running succeeded failed rejected expired withdrawn interrupted : Status
  auto_running auto_succeeded auto_failed : Status

pub Status-discrete : Discrete Status
Status-discrete = hlevel

-- s == t on request states.
abbrev code_of : Status → ℕ
code_of pending = 0
code_of running = 1
code_of succeeded = 2
code_of failed = 3
code_of rejected = 4
code_of expired = 5
code_of withdrawn = 6
code_of interrupted = 7
code_of auto_running = 8
code_of auto_succeeded = 9
code_of auto_failed = 10

abbrev pub status_eq : Status → Status → Bool
status_eq s t = code_of s == code_of t

-- requestIsFinal.
unfoldable pub request_is_final : Status → Bool
request_is_final pending = false
request_is_final running = false
request_is_final auto_running = false
request_is_final _ = true

pub record Request : Type 0 where
  pub id : Text
  pub connection_id : Text
  pub host : Text
  pub command : Text
  pub executed_command : Text
  pub requested_by : Text
  pub requested_at : Option ℕ
  pub id_time : Option ℕ  -- the time that the ID carries
  pub expires_at : Option ℕ
  pub risk : Risk
  pub approved_risk : Option Risk
  pub status : Status
  pub stdout : Text
  pub stderr : Text
  pub decided_by : Text
  pub decided_at : Option ℕ
  pub finished_at : Option ℕ
  pub exit_code : Option ℕ
  pub error_kind : Text
  pub target_fp : Text
  pub timeout_seconds : ℕ

pub record Connection : Type 0 where
  pub id : Text
  pub name : Text
  pub is_serial : Bool  -- connectionType() == "Serial"
  pub host : Text
  pub port : ℕ
  pub user : Text
  pub tags : List Text

-- pendingRequestTTL, 24 hours in nanoseconds.
abbrev pub pending_request_ttl : ℕ
pending_request_ttl = 86_400 * 1_000_000_000

-- requestExpiresAt; Go's zero time is 0.
unfoldable pub request_expires_at : Request → ℕ
request_expires_at req = elim req.expires_at [
  | some t ↦ t
  | none ↦ elim req.requested_at [
    | some t ↦ t + pending_request_ttl
    | none ↦ elim req.id_time [ some t ↦ t + pending_request_ttl | none ↦ 0 ]
  ]
]

-- setRequestTimeout; a negative number of seconds is 0 here.
unfoldable pub set_request_timeout : Request → ℕ → Request
set_request_timeout req seconds = record req { timeout_seconds = min seconds 3600 }

-- net.JoinHostPort with the port in decimal, which Go's packages net and strconv implement.
module _ (u : Unicode) (join_host_port : Text → ℕ → Text) where
  -- hostKeyAddress of hostkey.go.
  unfoldable pub host_key_address : Connection → Text
  host_key_address conn =
      join_host_port (map u.to_lower (trim_space conn.host))
        (if conn.port == 0 then 22 else conn.port)

  -- targetFingerprint.
  unfoldable pub target_fingerprint : Connection → Text
  unfolding host_key_address
  target_fingerprint conn =
      if conn.is_serial || is_empty (trim_space conn.host)
      then []
      else conn.user ++ (b'@' ∷ host_key_address conn)

pub status_eq_sound : (s t : Status) → status_eq s t ≡ true → s ≡ t
status_eq_sound s t h = ground arith

pub status_eq_refl : (s : Status) → status_eq s s ≡ true
status_eq_refl s = ground arith
