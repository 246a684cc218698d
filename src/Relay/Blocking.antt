-- ===== src/Relay/Blocking.antt =====
-- Whether the relay has blocked receiving, as BlockRecv was called last, from an agent's connection
-- (tunnel.cpp of r-nat-s/app1) and from a user's (user.cpp).
use r_nat.Common.{
  ℕ, ◌≡◌, refl, ap, Option, none, some, List, [], ◌∷◌, Bool, false, ◌==◌, ◌&&◌, if◌then◌else◌,
  arith, nat_key,
}
use r_nat.Relay.State.{
  App, AgentInfo, Session, Effect, agent_block_recv, service_block_recv, clean_session, forget,
  forget_in_agent, service_close_user,
}
use r_nat.Relay.Tunnel.{cork_tunnel, uncork_tunnel}

-- The last BlockRecv of the agent's connection `seq`.
unfoldable pub agent_blocked : ℕ → List Effect → Bool
agent_blocked seq [] = false
agent_blocked seq (agent_block_recv k b ∷ es) =
    let rest = agent_blocked seq es in if k == seq then b else rest
agent_blocked seq (e ∷ es) = agent_blocked seq es

-- The last BlockRecv of the connection of the user `seq` of a service.
unfoldable pub user_blocked : ℕ → ℕ → List Effect → Bool
user_blocked service seq [] = false
user_blocked service seq (service_block_recv r k b ∷ es) =
    let rest = user_blocked service seq es in if r == service && k == seq then b else rest
user_blocked service seq (e ∷ es) = user_blocked service seq es

forget_in_agent-effects :
    (o : Option AgentInfo) (k n : ℕ) (s : App) → (forget_in_agent o k n s).effects ≡ s.effects
forget_in_agent-effects none k n s = refl
forget_in_agent-effects (some a) k n s = refl

forget-effects :
    (service : ℕ) (ses : Session) (s : App)
    → (forget service ses s).effects ≡ service_close_user service ses.seq ∷ s.effects
unfolding forget
forget-effects service ses s = forget_in_agent-effects _ ses.agent_id ses.seq _

forget-agent_blocked :
    (seq service : ℕ) (ses : Session) (s : App)
    → agent_blocked seq (forget service ses s).effects ≡ agent_blocked seq s.effects
unfolding agent_blocked
forget-agent_blocked seq service ses s =
    ap (λ es. agent_blocked seq es) (forget-effects service ses s)

forget-user_blocked :
    (r seq service : ℕ) (ses : Session) (s : App)
    → user_blocked r seq (forget service ses s).effects ≡ user_blocked r seq s.effects
unfolding user_blocked
forget-user_blocked r seq service ses s =
    ap (λ es. user_blocked r seq es) (forget-effects service ses s)

pub clean_session-agent_blocked :
    (seq service session : ℕ) (s : App)
    → agent_blocked seq (clean_session service session s).effects ≡ agent_blocked seq s.effects
unfolding clean_session
clean_session-agent_blocked seq service session s =
    ground (arith, forget-agent_blocked seq service (s.session_at session) s)

pub clean_session-user_blocked :
    (r seq service session : ℕ) (s : App)
    → user_blocked r seq (clean_session service session s).effects ≡ user_blocked r seq s.effects
unfolding clean_session
clean_session-user_blocked r seq service session s =
    ground (arith, forget-user_blocked r seq service (s.session_at session) s)

-- The flag tells what BlockRecv was called with last.
abbrev pub IsTold : ℕ → ℕ → App → Type 0
IsTold seq session s = agent_blocked seq s.effects ≡ (s.session_at session).tunnel_corked

pub cork_tunnel-IsTold :
    (limit seq session : ℕ) (s : App)
    → IsTold seq session s
    → IsTold seq session (cork_tunnel limit seq session s)
unfolding cork_tunnel agent_blocked
cork_tunnel-IsTold limit seq session s h = ground arith

pub uncork_tunnel-IsTold :
    (limit seq session : ℕ) (s : App)
    → IsTold seq session s
    → IsTold seq session (uncork_tunnel limit seq session s)
unfolding uncork_tunnel agent_blocked
uncork_tunnel-IsTold limit seq session s h = ground arith
