-- ===== src/Agent/Ending.antt =====
-- The two ends of a session in r-nat-c/app1: the service's, of user.cpp, and the relay's, of
-- tunnel.cpp and session_tunnel.cpp.
use r_nat.Common.{ℕ, ◌≡◌, ap, ◌∙◌, inl, inr, none, some, true, false, arith, nat_key, Bool-cases}
use r_nat.Agent.State.{
  App, User, user_key, close, session_conn, user_conn, clean_session, emit, send, set_session,
}
use r_nat.Protocol.{A2r, put_a2r}
use r_nat.Agent.Tunnel.{mark_tunnel_gone, on_relay_hangs_up, on_session_disconnect}
use r_nat.Agent.User.{on_user_disconnect, way_back}
use r_nat.Agent.Sessions.{
  session_of, user_of-clean_session, on_service_gone-session_of, on_relay_gone-session_of,
  on_relay_hangs_up_lem,
}

-- What the end of the service's connection makes of a state, before __CleanSession.
abbrev service_gone : (remote x port id : ℕ) → App → App
service_gone remote x port id s =
    emit (send (way_back remote x s) (put_a2r (A2r.disconnect port id)) none) (
      set_session x (record (s.session_at x) { user_disconnected = true })
        (emit (close (user_conn x)) s))

relay_there :
    (remote x : ℕ) (usr : User) (s : App)
    → (s.session_at x).tunnel_disconnected ≡ false
    → clean_session remote x usr s ≡ s
unfolding clean_session
relay_there remote x usr s e = ground (arith, e)

none_stays :
    (remote : ℕ) (usr : User) (s : App)
    → session_of s remote usr ≡ none
    → session_of (on_relay_hangs_up remote usr s) remote usr ≡ none
unfolding on_relay_hangs_up
none_stays remote usr s n = rw (n, on_relay_hangs_up) n

no_session :
    (remote x port id : ℕ) (s : App)
    → session_of s remote (port, id) ≡ none
    → session_of (on_user_disconnect remote x (port, id) s) remote (port, id) ≡ none
unfolding on_user_disconnect
no_session remote x port id s n =
    let kept : session_of (service_gone remote x port id s) remote (port, id) ≡ none = n in
    user_of-clean_session remote x (port, id) (port, id) (service_gone remote x port id s) remote
    ∙ ground (arith, kept)

module _ (remote x port id : ℕ) (s : App) (f : session_of s remote (port, id) ≡ some x) where
  service_first :
      session_of
        (on_relay_hangs_up remote (port, id) (on_user_disconnect remote x (port, id) s))
        remote
        (port, id)
      ≡ none
  unfolding on_user_disconnect
  service_first = elim (Bool-cases (s.session_at x).tunnel_disconnected) [
    | inl t ↦ none_stays remote (port, id) _ (on_service_gone-session_of remote x port id s t)
    | inr t ↦
        let m = service_gone remote x port id s in
        let same : on_user_disconnect remote x (port, id) s ≡ m =
          relay_there remote x (port, id) m (ground (arith, t)) in
        ap (λ v. session_of (on_relay_hangs_up remote (port, id) v) remote (port, id)) same
        ∙ (on_relay_gone-session_of remote x port id m f (ground arith)).0
  ]

  relay_first :
      session_of
        (on_user_disconnect remote x (port, id) (on_relay_hangs_up remote (port, id) s))
        remote
        (port, id)
      ≡ none
  relay_first = elim (Bool-cases (s.session_at x).user_disconnected) [
    | inl u ↦ no_session remote x port id _ (on_relay_gone-session_of remote x port id s f u).0
    | inr u ↦
        ap (λ v. session_of (on_user_disconnect remote x (port, id) v) remote (port, id))
          (on_relay_hangs_up_lem remote x (port, id) s f u)
        ∙ on_service_gone-session_of remote x port id (mark_tunnel_gone x s) (ground arith)
  ]

no_session_lost :
    (remote x : ℕ) (usr : User) (s : App)
    → session_of s remote usr ≡ none
    → session_of (on_session_disconnect remote x usr s) remote usr ≡ none
unfolding on_session_disconnect
no_session_lost remote x usr s n =
    let ses = record (s.session_at x) {
      tunnel_disconnected = true;
      tunnel_hard_disconnected = true;
    } in
    let m = set_session x ses (emit (close (session_conn x)) s) in
    let kept : session_of m remote usr ≡ none = n in
    user_of-clean_session remote x usr usr m remote ∙ ground (arith, kept)

service_then_lost :
    (remote x port id : ℕ) (s : App)
    → session_of s remote (port, id) ≡ some x
    → session_of
        (on_session_disconnect remote x (port, id) (on_user_disconnect remote x (port, id) s))
        remote
        (port, id)
      ≡ none
unfolding on_user_disconnect
service_then_lost remote x port id s f = elim (Bool-cases (s.session_at x).tunnel_disconnected) [
  | inl t ↦ no_session_lost remote x (port, id) _ (on_service_gone-session_of remote x port id s t)
  | inr t ↦
      let m = service_gone remote x port id s in
      let same : on_user_disconnect remote x (port, id) s ≡ m =
        relay_there remote x (port, id) m (ground (arith, t)) in
      ap (λ v. session_of (on_session_disconnect remote x (port, id) v) remote (port, id)) same
      ∙ (on_relay_gone-session_of remote x port id m f (ground arith)).1
]

-- Two ends, in either order, make an end of a session of the agent: whatever was known of either
-- before, once the connection to the service has ended and the relay has sent DISCONNECT, the remote
-- has no session for the user; and the same with the loss of the session's connection to the relay
-- after the end of the service's.
pub agent_ends-session_of :
    (remote x port id : ℕ) (s : App)
    → session_of s remote (port, id) ≡ some x
    → let usr : User = (port, id) in
      let t = on_user_disconnect remote x usr s in
      (session_of (on_relay_hangs_up remote usr t) remote usr ≡ none)
      × (session_of (on_user_disconnect remote x usr (on_relay_hangs_up remote usr s)) remote usr
          ≡ none)
      × (session_of (on_session_disconnect remote x usr t) remote usr ≡ none)
agent_ends-session_of remote x port id s f = (
  service_first remote x port id s f,
  relay_first remote x port id s f,
  service_then_lost remote x port id s f,
)
