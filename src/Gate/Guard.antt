-- ===== src/Gate/Guard.antt =====
-- The guard before every route of the MCP listener, and the check of the listener's address:
-- guardHTTP, allowedHost, hostWithoutDefaultPort, originAllowed, checkBearer, isLoopbackListen and
-- validateListenSettings of httpguard.go. The response headers that allow an origin are left out.
use ssh_gate_oss.Base.{
  ℕ, Bool, true, false, not, ◌&&◌, ◌||◌, List, [], ◌∷◌, ◌++◌, Option, none, some, if◌then◌else◌,
  is_empty, ◌==◌,
}
use ssh_gate_oss.Text.{Text, codes, text_eq, has_char, trim, trim_right}

-- What Go's packages net, net/url, mime, strings and strconv answer. An address is `some b` where
-- net.ParseIP reads one, with b for IsLoopback.
pub record Net : Type 0 where
  pub parse_url : Text → Option (Text × Text)  -- the scheme and the host
  pub split_host_port : Text → Option (Text × Text)
  pub parse_ip : Text → Option Bool
  pub parse_media_type : Text → Option Text
  pub equal_fold : Text → Text → Bool
  pub itoa : ℕ → Text

-- The settings that the door reads, from MCPSettings.
pub record Settings : Type 0 where
  pub enabled : Bool
  pub listen_address : Text
  pub port : ℕ
  pub base_url : Text
  pub allowed_origins : List Text
  pub bearer_enabled : Bool

-- A header that is absent reads as the empty text.
pub record HttpRequest : Type 0 where
  pub method : Text
  pub host : Text
  pub origin : Text
  pub content_type : Text
  pub authorization : Text
  pub protocol_version : Text
  pub user_agent : Text
  pub remote : Text  -- the host of RemoteAddr, empty where it has none

-- The answers of the guard; `passes` is next.ServeHTTP.
pub data Guarded : Type 0 where
  forbidden_host forbidden_origin no_content unsupported_media passes : Guarded

-- checkBearer; the comparison in constant time is an equality.
unfoldable pub check_bearer : HttpRequest → Text → Bool
check_bearer r token =
    if is_empty token then false else text_eq r.authorization (codes "Bearer " ++ token)

abbrev is_bracket : ℕ → Bool
is_bracket c = c == b'[' || c == b']'

abbrev is_slash : ℕ → Bool
is_slash c = c == b'/'

-- The host and the port, and what stands for them where there is no port.
abbrev host_and_port : Text → Option (Text × Text) → Text × Text
host_and_port header none = (trim is_bracket header, codes "80")
host_and_port header (some p) = p

abbrev pub is_json : Option Text → Bool
is_json none = false
is_json (some t) = text_eq t (codes "application/json")

module _ (net : Net) where
  -- hostWithoutDefaultPort.
  unfoldable pub host_without_default_port : Text → Text → Text
  host_without_default_port scheme hostport = elim (net.split_host_port hostport) [
    | none ↦ hostport
    | some (host, port) ↦
        if (net.equal_fold scheme (codes "https") && text_eq port (codes "443"))
          || (net.equal_fold scheme (codes "http") && text_eq port (codes "80"))
        then (if has_char host b':' then b'[' ∷ host ++ (b']' ∷ []) else host)
        else hostport
  ]

  -- The test of allowedHost on BaseURL.
  unfoldable pub is_base_host : Settings → Text → Bool
  is_base_host settings header =
      if is_empty settings.base_url then false else elim (net.parse_url settings.base_url) [
        | none ↦ false
        | some (scheme, host) ↦
            not (is_empty host)
            && net.equal_fold (host_without_default_port scheme host)
                (host_without_default_port scheme header)
      ]

  abbrev pub is_ip : Text → Bool
  is_ip host = elim (net.parse_ip host) [ none ↦ false | some l ↦ true ]

  -- allowedHost.
  unfoldable pub allowed_host : Text → Settings → Bool
  allowed_host header settings =
      let (host, port) = host_and_port header (net.split_host_port header) in
      if is_base_host settings header
      then true
      else if not (text_eq port (net.itoa settings.port))
      then false
      else if net.equal_fold host (codes "localhost")
      then true
      else is_ip host

  unfoldable pub some_origin : Text → List Text → Bool
  some_origin origin [] = false
  some_origin origin (c ∷ cs) =
      net.equal_fold (trim_right is_slash c) (trim_right is_slash origin) || some_origin origin cs

  -- originAllowed.
  unfoldable pub origin_allowed : Text → List Text → Bool
  origin_allowed origin allowed =
      if text_eq origin (codes "null") then false else some_origin origin allowed

  -- guardHTTP.
  unfoldable pub guard_http : Settings → HttpRequest → Guarded
  guard_http settings r =
      if not (allowed_host r.host settings)
      then forbidden_host
      else if not (is_empty r.origin) && not (origin_allowed r.origin settings.allowed_origins)
      then forbidden_origin
      else if text_eq r.method (codes "OPTIONS")
      then no_content
      else if text_eq r.method (codes "POST") && not (is_json (net.parse_media_type r.content_type))
      then unsupported_media
      else passes

  -- isLoopbackListen.
  unfoldable pub is_loopback_listen : Text → Bool
  is_loopback_listen address =
      if net.equal_fold address (codes "localhost")
      then true
      else elim (net.parse_ip (trim is_bracket address)) [ none ↦ false | some l ↦ l ]

  -- validateListenSettings: whether the settings pass.
  unfoldable pub validate_listen_settings : Settings → Text → Bool
  validate_listen_settings settings token =
      if not settings.enabled || is_loopback_listen settings.listen_address
      then true
      else not (not settings.bearer_enabled || is_empty token)
