-- ===== src/Relay/Ending.antt =====
-- The two ends of a session in r-nat-s/app1: the user's, of user.cpp, and the agent's DISCONNECT, of
-- tunnel.cpp.
use r_nat.Common.{
  ℕ, ◌≡◌, ap, ◌∙◌, inl, inr, none, some, false, arith, nat_key, lookup, Option-cases, Bool-cases,
}
use r_nat.Relay.State.{App, clean_session}
use r_nat.Relay.Tunnel.{mark_tunnel_gone, on_agent_hangs_up}
use r_nat.Relay.User.{mark_user_gone, on_user_disconnect}
use r_nat.Relay.Sessions.{
  session_of, session_of-clean_session, on_user_disconnect_lem, on_agent_hangs_up_lem,
  mark_user_gone-Marked, on_user_disconnect-session_of, on_agent_hangs_up-session_of,
}

-- A session with an end that is still there stays.
pub user_there :
    (service x : ℕ) (s : App)
    → (s.session_at x).user_disconnected ≡ false
    → clean_session service x s ≡ s
unfolding clean_session
user_there service x s e = ground (arith, e)

pub agent_there :
    (service x : ℕ) (s : App)
    → (s.session_at x).tunnel_disconnected ≡ false
    → clean_session service x s ≡ s
unfolding clean_session
agent_there service x s e = ground (arith, e)

none_stays :
    (port service seq : ℕ) (s : App)
    → session_of s service seq ≡ none
    → session_of (on_agent_hangs_up port seq s) service seq ≡ none
unfolding on_agent_hangs_up
none_stays port service seq s n = elim (Option-cases (lookup port s.services)) [
  | inl e ↦ rw (e, on_agent_hangs_up) n
  | inr (sv, e) ↦ elim (Option-cases (lookup seq (s.service_at sv).sessions)) [
    | inl f ↦ rw (e, f, on_agent_hangs_up) n
    | inr (x, f) ↦
        let kept : session_of (mark_tunnel_gone x s) service seq ≡ none = n in
        rw (e, f, on_agent_hangs_up)
          (session_of-clean_session sv x (mark_tunnel_gone x s) service seq ∙ ground (arith, kept))
  ]
]

no_user :
    (service seq : ℕ) (s : App)
    → session_of s service seq ≡ none
    → session_of (on_user_disconnect service seq s) service seq ≡ none
unfolding on_user_disconnect
no_user service seq s n = rw (n, on_user_disconnect) n

module _ (port service x seq : ℕ) (s : App) (e : lookup port s.services ≡ some service)
    (f : session_of s service seq ≡ some x) (q : (s.session_at x).seq ≡ seq) where
  user_first :
      session_of (on_agent_hangs_up port seq (on_user_disconnect service seq s)) service seq ≡ none
  user_first = elim (Bool-cases (s.session_at x).tunnel_disconnected) [
    | inl t ↦ none_stays port service seq _ (on_user_disconnect-session_of service x seq s f q t)
    | inr t ↦
        let m = mark_user_gone service seq x s in
        let marked = mark_user_gone-Marked service seq x s in
        let same : on_user_disconnect service seq s ≡ m =
          on_user_disconnect_lem service x seq s f ∙ agent_there service x m (marked.tunnel ∙ t) in
        ap (λ u. session_of (on_agent_hangs_up port seq u) service seq) same
        ∙ on_agent_hangs_up-session_of port service x seq m (ap (lookup port) marked.services ∙ e)
            (ap (λ g. lookup seq (g service).sessions) marked.service_at ∙ f) (marked.number ∙ q)
            marked.gone
  ]

  agent_first :
      session_of (on_user_disconnect service seq (on_agent_hangs_up port seq s)) service seq ≡ none
  agent_first = elim (Bool-cases (s.session_at x).user_disconnected) [
    | inl u ↦ no_user service seq _ (on_agent_hangs_up-session_of port service x seq s e f q u)
    | inr u ↦
        let m = mark_tunnel_gone x s in
        let same : on_agent_hangs_up port seq s ≡ m =
          on_agent_hangs_up_lem port service x seq s e f
          ∙ user_there service x m (ground (arith, u)) in
        ap (λ v. session_of (on_user_disconnect service seq v) service seq) same
        ∙ on_user_disconnect-session_of service x seq m f (ground (arith, q)) (ground arith)
  ]

-- Two ends, in either order, make an end of a session that carries its user's number: whatever was
-- known of either before, once the user's connection has ended and the agent has sent DISCONNECT, the
-- service has no session for the user.
pub relay_ends-session_of :
    (port service x seq : ℕ) (s : App)
    → lookup port s.services ≡ some service
    → session_of s service seq ≡ some x
    → (s.session_at x).seq ≡ seq
    → (session_of (on_agent_hangs_up port seq (on_user_disconnect service seq s)) service seq
        ≡ none)
      × (session_of (on_user_disconnect service seq (on_agent_hangs_up port seq s)) service seq
          ≡ none)
relay_ends-session_of port service x seq s e f q =
    (user_first port service x seq s e f q, agent_first port service x seq s e f q)
