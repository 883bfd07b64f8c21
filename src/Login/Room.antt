-- ===== src/Login/Room.antt =====
-- The sessions of the web admin are at most as many as the policy allows.
use ssh_gate_oss.Base.{
  ℕ, zero, suc, ◌+◌, ◌≤◌, ◌<◌, ◌≡◌, ◌≢◌, refl, ◌⊎◌, inl, inr, ◌&&◌, ◌||◌, List, [], ◌∷◌, Option,
  none, arith, Bool-cases, length, ltb, ◌==◌,
}
use ssh_gate_oss.Text.{text_lt, Text, text_eq, lookup}
use ssh_gate_oss.Text.Laws.{text_eq_refl}
use ssh_gate_oss.Table.{put, delete}
use ssh_gate_oss.Login.Sessions.{
  Session, Auth, oldest_of, evict_oldest, make_session_room, drop_old, open_session,
}

delete-length : (k : Text) (m : List (Text × Session)) → length (delete k m) ≤ length m
unfolding delete
delete-length k [] = omega arith
delete-length k ((j, s) ∷ m) = ground (arith, delete-length k m)

delete-length_found :
    (k : Text) (m : List (Text × Session)) → lookup k m ≢ none → length (delete k m) < length m
unfolding delete lookup
delete-length_found k [] h = absurd (h refl)
delete-length_found k ((j, s) ∷ m) h = elim (Bool-cases (text_eq j k)) [
  | inl e ↦ rw (e, delete) (omega (arith, delete-length k m))
  | inr e ↦ rw (e, delete) (omega (arith, delete-length_found k m (rw (e, lookup) at h)))
]

put-length :
    (k : Text) (v : Session) (m : List (Text × Session)) → length (put k v m) ≤ length m + 1
unfolding put
put-length k v [] = omega arith
put-length k v ((j, s) ∷ m) = ground (arith, put-length k v m)

lookup_later :
    (k j : Text) (s : Session) (m : List (Text × Session))
    → lookup k m ≢ none
    → lookup k ((j, s) ∷ m) ≢ none
unfolding lookup
lookup_later k j s m h e = ground arith

lookup_first : (k : Text) (s : Session) (m : List (Text × Session)) → lookup k ((k, s) ∷ m) ≢ none
unfolding lookup
lookup_first k s m e = ground (arith, text_eq_refl k)

lookup_past :
    (x k j : Text) (s t : Session) (m : List (Text × Session))
    → lookup x ((k, s) ∷ m) ≢ none
    → lookup x ((k, s) ∷ (j, t) ∷ m) ≢ none
unfolding lookup
lookup_past x k j s t m h e = ground arith

oldest_of-cases :
    (k j : Text) (s t : Session) (m : List (Text × Session))
    → (oldest_of (k, s) ((j, t) ∷ m) ≡ oldest_of (j, t) m)
      ⊎ (oldest_of (k, s) ((j, t) ∷ m) ≡ oldest_of (k, s) m)
unfolding oldest_of
oldest_of-cases k j s t m =
    elim (Bool-cases (ltb t.created s.created || (t.created == s.created && text_lt j k))) [
      | inl e ↦ inl (rw e refl)
      | inr e ↦ inr (rw e refl)
    ]

-- The key that is evicted is one of the table's.
oldest_of-lookup :
    (k : Text) (s : Session) (m : List (Text × Session))
    → lookup (oldest_of (k, s) m) ((k, s) ∷ m) ≢ none
oldest_of-lookup k s [] = unfold oldest_of in lookup_first k s []
oldest_of-lookup k s ((j, t) ∷ m) = elim (oldest_of-cases k j s t m) [
  | inl e ↦ rw e (lookup_later (oldest_of (j, t) m) k s ((j, t) ∷ m) (oldest_of-lookup j t m))
  | inr e ↦ rw e (lookup_past (oldest_of (k, s) m) k j s t m (oldest_of-lookup k s m))
]

evict_oldest-length :
    (p : Text × Session) (m : List (Text × Session)) → length (evict_oldest (p ∷ m)) ≤ length m
evict_oldest-length (k, s) m =
    omega (arith, delete-length_found (oldest_of (k, s) m) ((k, s) ∷ m) (oldest_of-lookup k s m))

make_session_room-length :
    (fuel limit : ℕ) (m : List (Text × Session))
    → 0 < limit
    → length m ≤ fuel
    → length (make_session_room fuel limit m) < limit
unfolding make_session_room
make_session_room-length zero limit [] p h = omega arith
make_session_room-length zero limit (x ∷ m) p h = absurd (omega arith)
make_session_room-length (suc fuel) limit [] p h =
    ground (arith, make_session_room-length fuel limit [] p)
make_session_room-length (suc fuel) limit (x ∷ m) p h = ground (
  arith,
  evict_oldest-length x m,
  make_session_room-length fuel limit (evict_oldest (x ∷ m)) p
      (omega (arith, evict_oldest-length x m)),
)

-- After a login there are at most as many sessions as the policy allows, if that is at least one.
pub open_session-length :
    (a : Auth) (now : ℕ) (old : Option Text) (key remote bind : Text)
    → 0 < a.policy.max_sessions
    → length (open_session a now old key remote bind).sessions ≤ a.policy.max_sessions
unfolding open_session
open_session-length a now old key remote bind p =
    let kept = drop_old old a.sessions in
    omega (
      arith,
      put-length key _ (make_session_room (length kept) a.policy.max_sessions kept),
      make_session_room-length (length kept) a.policy.max_sessions kept p (omega arith),
    )
