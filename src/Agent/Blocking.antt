-- ===== src/Agent/Blocking.antt =====
-- Whether the agent has blocked receiving, as BlockRecv was called last, on one of a session's two
-- connections (tunnel.cpp and user.cpp of r-nat-c/app1).
use r_nat.Common.{ℕ, ◌≡◌, sym, ap, ◌∙◌, List, [], ◌∷◌, Bool, false, ◌==◌, if◌then◌else◌, arith}
use r_nat.Agent.State.{App, User, user_conn, session_conn, Effect, block_recv, clean_session}
use r_nat.Agent.Tunnel.{cork_tunnel, uncork_tunnel, on_tunnel_sent}
use r_nat.Agent.User.{cork_user, uncork_user, on_user_sent}

-- The last BlockRecv of the connection of a session to the relay.
unfoldable pub session_blocked : ℕ → List Effect → Bool
session_blocked session [] = false
session_blocked session (block_recv (session_conn k) b ∷ es) =
    let rest = session_blocked session es in if k == session then b else rest
session_blocked session (e ∷ es) = session_blocked session es

-- The last BlockRecv of the connection of a session to the service.
unfoldable pub user_blocked : ℕ → List Effect → Bool
user_blocked session [] = false
user_blocked session (block_recv (user_conn k) b ∷ es) =
    let rest = user_blocked session es in if k == session then b else rest
user_blocked session (e ∷ es) = user_blocked session es

clean_session-session_blocked :
    (x remote session : ℕ) (usr : User) (s : App)
    → session_blocked x (clean_session remote session usr s).effects ≡ session_blocked x s.effects
unfolding clean_session session_blocked
clean_session-session_blocked x remote session usr s = ground arith

clean_session-user_blocked :
    (x remote session : ℕ) (usr : User) (s : App)
    → user_blocked x (clean_session remote session usr s).effects ≡ user_blocked x s.effects
unfolding clean_session user_blocked
clean_session-user_blocked x remote session usr s = ground arith

clean_session-sessions :
    (remote session : ℕ) (usr : User) (s : App)
    → (clean_session remote session usr s).session_at ≡ s.session_at
unfolding clean_session
clean_session-sessions remote session usr s = ground arith

-- The flags tell what BlockRecv was called with last.
abbrev pub TunnelTold : ℕ → App → Type 0
TunnelTold session s = session_blocked session s.effects ≡ (s.session_at session).tunnel_corked

abbrev pub UserTold : ℕ → App → Type 0
UserTold session s = user_blocked session s.effects ≡ (s.session_at session).user_corked

pub cork_tunnel-TunnelTold :
    (limit session : ℕ) (s : App)
    → TunnelTold session s
    → TunnelTold session (cork_tunnel limit session s)
unfolding cork_tunnel session_blocked
cork_tunnel-TunnelTold limit session s h = ground arith

uncork_tunnel-TunnelTold :
    (limit session : ℕ) (s : App)
    → TunnelTold session s
    → TunnelTold session (uncork_tunnel limit session s)
unfolding uncork_tunnel session_blocked
uncork_tunnel-TunnelTold limit session s h = ground arith

pub on_tunnel_sent-TunnelTold :
    (remote session : ℕ) (usr : User) (s : App)
    → TunnelTold session s
    → TunnelTold session (on_tunnel_sent remote session usr s)
unfolding on_tunnel_sent
on_tunnel_sent-TunnelTold remote session usr s h =
    let u = uncork_tunnel s.queue_limit session s in
    clean_session-session_blocked session remote session usr u
    ∙ uncork_tunnel-TunnelTold s.queue_limit session s h
    ∙ sym (ap (λ f. (f session).tunnel_corked) (clean_session-sessions remote session usr u))

pub cork_user-UserTold :
    (limit session : ℕ) (s : App)
    → UserTold session s
    → UserTold session (cork_user limit session s)
unfolding cork_user user_blocked
cork_user-UserTold limit session s h = ground arith

uncork_user-UserTold :
    (limit session : ℕ) (s : App)
    → UserTold session s
    → UserTold session (uncork_user limit session s)
unfolding uncork_user user_blocked
uncork_user-UserTold limit session s h = ground arith

pub on_user_sent-UserTold :
    (remote session : ℕ) (usr : User) (s : App)
    → UserTold session s
    → UserTold session (on_user_sent remote session usr s)
unfolding on_user_sent
on_user_sent-UserTold remote session usr s h =
    let u = uncork_user s.queue_limit session s in
    clean_session-user_blocked session remote session usr u
    ∙ uncork_user-UserTold s.queue_limit session s h
    ∙ sym (ap (λ f. (f session).user_corked) (clean_session-sessions remote session usr u))
