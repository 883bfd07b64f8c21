-- ===== src/Login/SessionTests.antt =====
-- Tests of the sessions of the web admin: a login, and the use of its cookie.
use ssh_gate_oss.Base.{◌≡◌, ◌≤◌, refl, true, [], ◌∷◌, none, some, arith, length}
use ssh_gate_oss.Text.{Text, codes, text_eq, lookup}
use ssh_gate_oss.Table.{put, delete}
use ssh_gate_oss.Login.Sessions.{
  Auth, normalized, is_expired, make_session_room, open_session, close_session, use_session,
  look_up,
}
use ssh_gate_oss.Login.Expiry.{looks, sweeps, after_events, session_ends}
use ssh_gate_oss.Login.Room.{open_session-length}

abbrev empty_auth : Auth
unfolding normalized
empty_auth = record {
  policy = normalized (record { idle_minutes = 0; max_hours = 1; max_sessions = 1 });
  generation = 1;
  sessions = [];
}

abbrev plain_hash : Text → Text
plain_hash t = t

abbrev logged_in : Auth
logged_in = open_session empty_auth 5 none (codes "k1") (codes "10.0.0.9") (codes "b")

abbrev session_runs : Unit {0}
unfolding text_eq lookup put delete is_expired make_session_room open_session close_session
    use_session look_up
session_runs = tt

-- The cookie and the key of the session are accepted.
accepted :
    (look_up plain_hash plain_hash logged_in 6 (codes "k1") (codes "b") true true).1
    ≡ some (
      codes "k1",
      record {
        created = 5;
        last_used = 6;
        remote = codes "10.0.0.9";
        generation = 1;
        bind_hash = codes "b";
      },
    )
unfolding session_runs normalized
accepted = refl

session_ends_example :
    (look_up plain_hash plain_hash
      (after_events plain_hash plain_hash logged_in
        ((6, looks (codes "k1") (codes "b") true true) ∷ (7, sweeps) ∷ []))
      4_000_000_000_000
      (codes "k1")
      (codes "b")
      true
      true).1
    ≡ none
unfolding session_runs normalized
session_ends_example =
    session_ends plain_hash plain_hash empty_auth 5 none (codes "k1") (codes "10.0.0.9") (codes "b")
      ((6, looks (codes "k1") (codes "b") true true) ∷ (7, sweeps) ∷ []) 4_000_000_000_000
      (codes "k1") (codes "b") true true refl tt refl (omega arith)

open_session-length_example :
    length (open_session logged_in 9 none (codes "k2") (codes "10.0.0.8") (codes "c")).sessions ≤ 1
unfolding session_runs normalized
open_session-length_example =
    open_session-length logged_in 9 none (codes "k2") (codes "10.0.0.8") (codes "c") (omega arith)
