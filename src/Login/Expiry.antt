-- ===== src/Login/Expiry.antt =====
-- How long a session of the web admin lasts.
use ssh_gate_oss.Base.{
  ℕ, ◌+◌, ◌≤◌, ◌≡◌, ◌≢◌, refl, subst, inl, inr, Bool, true, false, not, ◌&&◌, List, [], ◌∷◌, Option,
  none, some, arith, Bool-cases, Option-cases, if◌then◌else◌, is_empty,
}
use ssh_gate_oss.Text.{Text, text_eq, lookup}
use ssh_gate_oss.Login.Sessions.{
  Session, SessionPolicy, Auth, life_time, is_expired, sweep, invalidate_all, drop_old,
  open_session, close_session, use_session, look_up,
}
use ssh_gate_oss.Login.Born.{
  Born, delete-Born, put-Born, live_sessions-Born, make_session_room-Born, Born-created, unborn,
}

module _ (admin_session_key hash : Text → Text) where
  -- What happens to the sessions.
  pub data Event : Type 0 where
    opens : Option Text → Text → Text → Text → Event
    looks : Text → Text → Bool → Bool → Event
    closes : Text → Event
    sweeps rotates : Event

  unfoldable pub after_event : Auth → ℕ → Event → Auth
  after_event a now (opens old key remote bind) = open_session a now old key remote bind
  after_event a now (looks cookie header touch need_key) =
      (look_up admin_session_key hash a now cookie header touch need_key).0
  after_event a now (closes key) = close_session a key
  after_event a now sweeps = sweep a now
  after_event a now rotates = invalidate_all a

  unfoldable pub after_events : Auth → List (ℕ × Event) → Auth
  after_events a [] = a
  after_events a ((now, e) ∷ es) = after_events (after_event a now e) es

  -- No login draws the key again.
  abbrev pub Fresh : Text → List (ℕ × Event) → Type 0
  Fresh key [] = Unit
  Fresh key ((now, opens old k remote bind) ∷ es) = (k ≢ key) × Fresh key es
  Fresh key ((now, e) ∷ es) = Fresh key es

  abbrev NotOpening : Text → Event → Type 0
  NotOpening key (opens old k remote bind) = k ≢ key
  NotOpening key e = Unit

  Fresh-cases :
      (key : Text) (now : ℕ) (e : Event) (es : List (ℕ × Event))
      → Fresh key ((now, e) ∷ es)
      → NotOpening key e × Fresh key es
  Fresh-cases key now (opens old k remote bind) es h = h
  Fresh-cases key now (looks cookie header touch need_key) es h = (tt, h)
  Fresh-cases key now (closes k) es h = (tt, h)
  Fresh-cases key now sweeps es h = (tt, h)
  Fresh-cases key now rotates es h = (tt, h)

  -- The key's session was created at `c`, under this policy.
  abbrev KeepsTo : SessionPolicy → Text → ℕ → Auth → Type 0
  KeepsTo p key c a = (a.policy ≡ p) × Born key c a.sessions

  use_session-KeepsTo :
      (p : SessionPolicy) (key : Text) (c : ℕ) (a : Auth) (now : ℕ) (k key_hash : Text)
      (touch need_key : Bool) (found : Option Session)
      → ((s : Session) → found ≡ some s → k ≡ key → s.created ≡ c)
      → KeepsTo p key c a
      → KeepsTo p key c (use_session a now k key_hash touch need_key found).0
  unfolding use_session close_session
  use_session-KeepsTo p key c a now k key_hash touch need_key none h b = b
  use_session-KeepsTo p key c a now k key_hash touch need_key (some s) h b =
      elim (Bool-cases (is_expired a s now)) [
        | inl e ↦ rw (e, use_session) (b.0, delete-Born key k c a.sessions b.1)
        | inr e ↦ elim (Bool-cases (need_key && not (text_eq key_hash s.bind_hash))) [
          | inl f ↦ rw (e, use_session, f) b
          | inr f ↦
              rw (e, use_session, f)
                (
                  b.0,
                  put-Born key k c (if touch then record s { last_used = now } else s) a.sessions
                      (λ q. touched touch (h s refl q)) b.1,
                )
        ]
      ]
    where
      touched :
          (t : Bool) → s.created ≡ c → (if t then record s { last_used = now } else s).created ≡ c
      touched true e = e
      touched false e = e

  drop_old-Born :
      (old : Option Text) (key : Text) (c : ℕ) (m : List (Text × Session))
      → Born key c m
      → Born key c (drop_old old m)
  drop_old-Born none key c m b = b
  drop_old-Born (some k) key c m b = delete-Born key k c m b

  look_up-KeepsTo :
      (p : SessionPolicy) (key : Text) (c : ℕ) (a : Auth) (now : ℕ) (cookie header : Text)
      (touch need_key : Bool)
      → KeepsTo p key c a
      → KeepsTo p key c (look_up admin_session_key hash a now cookie header touch need_key).0
  unfolding look_up
  look_up-KeepsTo p key c a now cookie header touch need_key b =
      elim (Bool-cases (is_empty cookie)) [
        | inl e ↦ rw (e, look_up) b
        | inr e ↦
            rw (e, look_up)
              (use_session-KeepsTo p key c a now (admin_session_key cookie) (hash header) touch
                need_key (lookup (admin_session_key cookie) a.sessions)
                (λ s h q.
                  Born-created key c a.sessions s b.1
                    (subst (λ k. lookup k a.sessions ≡ some s) q h))
                b)
      ]

  after_event-KeepsTo :
      (p : SessionPolicy) (key : Text) (c : ℕ) (a : Auth) (now : ℕ) (e : Event)
      → NotOpening key e
      → KeepsTo p key c a
      → KeepsTo p key c (after_event a now e)
  unfolding after_event open_session close_session sweep invalidate_all
  after_event-KeepsTo p key c a now (opens old k remote bind) n b = (
    b.0,
    put-Born key k c _ _ (λ q. absurd (n q))
        (make_session_room-Born _ _ key c _ (drop_old-Born old key c a.sessions b.1)),
  )
  after_event-KeepsTo p key c a now (looks cookie header touch need_key) n b =
      look_up-KeepsTo p key c a now cookie header touch need_key b
  after_event-KeepsTo p key c a now (closes k) n b = (b.0, delete-Born key k c a.sessions b.1)
  after_event-KeepsTo p key c a now sweeps n b =
      (b.0, live_sessions-Born a now key c a.sessions b.1)
  after_event-KeepsTo p key c a now rotates n b = (b.0, tt)

  after_events-KeepsTo :
      (p : SessionPolicy) (key : Text) (c : ℕ) (a : Auth) (es : List (ℕ × Event))
      → Fresh key es
      → KeepsTo p key c a
      → KeepsTo p key c (after_events a es)
  unfolding after_events
  after_events-KeepsTo p key c a [] n b = b
  after_events-KeepsTo p key c a ((now, e) ∷ es) n b =
      let (one, rest) = Fresh-cases key now e es n in
      after_events-KeepsTo p key c (after_event a now e) es rest
        (after_event-KeepsTo p key c a now e one b)

  opened-KeepsTo :
      (a : Auth) (c : ℕ) (old : Option Text) (key remote bind : Text)
      → lookup key a.sessions ≡ none
      → KeepsTo a.policy key c (open_session a c old key remote bind)
  unfolding open_session
  opened-KeepsTo a c old key remote bind h = (
    refl,
    put-Born key key c _ _ (λ q. refl)
        (make_session_room-Born _ _ key c _
          (drop_old-Born old key c a.sessions (unborn key c a.sessions h))),
  )

  look_up-old :
      (a : Auth) (key : Text) (c t : ℕ) (cookie header : Text) (touch need_key : Bool)
      → admin_session_key cookie ≡ key
      → Born key c a.sessions
      → c + life_time a ≤ t
      → (look_up admin_session_key hash a t cookie header touch need_key).1 ≡ none
  unfolding look_up use_session is_expired
  look_up-old a key c t cookie header touch need_key k b late =
      elim (Option-cases (lookup (admin_session_key cookie) a.sessions)) [
        | inl e ↦ ground arith
        | inr (s, e) ↦
            let born : s.created ≡ c =
              Born-created key c a.sessions s b (subst (λ k. lookup k a.sessions ≡ some s) k e) in
            ground arith
      ]

  -- A session ends: once MaxHours have passed since the login that drew its key, which no session had
  -- before and no later login draws again, its cookie is refused, however often it was used and
  -- whatever other logins, logouts, sweeps and rotations came between.
  pub session_ends :
      (a : Auth) (c : ℕ) (old : Option Text) (key remote bind : Text) (es : List (ℕ × Event))
      (t : ℕ) (cookie header : Text) (touch need_key : Bool)
      → lookup key a.sessions ≡ none
      → Fresh key es
      → admin_session_key cookie ≡ key
      → c + life_time a ≤ t
      → (look_up admin_session_key hash
          (after_events (open_session a c old key remote bind) es)
          t
          cookie
          header
          touch
          need_key).1
        ≡ none
  session_ends a c old key remote bind es t cookie header touch need_key unused fresh k late =
      let (same, born) =
        after_events-KeepsTo a.policy key c (open_session a c old key remote bind) es fresh
          (opened-KeepsTo a c old key remote bind unused) in
      look_up-old _ key c t cookie header touch need_key k born (rw same late)
