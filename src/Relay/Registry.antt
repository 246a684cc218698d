-- ===== src/Relay/Registry.antt =====
-- Which agents serve which ports: services_ and agents_ of r-nat-s/app1.
pub mod Handlers
pub mod Leave
pub mod Binding
pub mod Invariant
use r_nat.Common.{
  some, none, ℕ, ◌≤◌, ◌≡◌, refl, ◌∙◌, inl, inr, Option, none, some, Bool, true, false, ◌&&◌, arith,
  Map, nat_key, contains, lookup, erase, lookup-insert, Bool-cases, is_some,
}
use r_nat.Relay.State.{
  App, forget, forget_in_agent, service_close_user, AgentInfo, Session, ServiceInfo, Effect,
  clean_session, emit, set_session, set_agent, set_service,
}

-- The agent `a` is known and has the port `p` in its list.
unfoldable pub is_bound : App → ℕ → ℕ → Bool
is_bound s a p = elim (lookup a s.agents) [ none ↦ false | some agent ↦ contains p agent.ports ]

-- What an operation keeps that moves no agent between services.
pub record Keeps (s t : App) : Type 0 where
  pub services : t.services ≡ s.services
  pub next_ref : s.next_ref ≤ t.next_ref
  pub port : (r : ℕ) → (t.service_at r).port ≡ (s.service_at r).port
  pub agents : (r : ℕ) → (t.service_at r).agents ≡ (s.service_at r).agents
  pub bound : (a p : ℕ) → is_bound s a p ≡ true → is_bound t a p ≡ true
  pub known : (a : ℕ) → is_some (lookup a t.agents) ≡ is_some (lookup a s.agents)

pub Keeps-refl : (s : App) → Keeps s s
Keeps-refl s = record {
  services = refl;
  next_ref = omega arith;
  port = λ r. refl;
  agents = λ r. refl;
  bound = λ a p h. h;
  known = λ a. refl;
}

pub Keeps-trans : {s t u : App} → Keeps s t → Keeps t u → Keeps s u
Keeps-trans k l = record {
  services = l.services ∙ k.services;
  next_ref = omega arith;
  port = λ r. l.port r ∙ k.port r;
  agents = λ r. l.agents r ∙ k.agents r;
  bound = λ a p h. l.bound a p (k.bound a p h);
  known = λ a. l.known a ∙ k.known a;
}

pub set_session-Keeps : (r : ℕ) (ses : Session) (s : App) → Keeps s (set_session r ses s)
unfolding is_bound
set_session-Keeps r ses s = record {
  services = refl;
  next_ref = omega arith;
  port = λ r. refl;
  agents = λ r. refl;
  bound = λ a p h. h;
  known = λ a. refl;
}

pub emit-Keeps : (e : Effect) (s : App) → Keeps s (emit e s)
unfolding is_bound
emit-Keeps e s = record {
  services = refl;
  next_ref = omega arith;
  port = λ r. refl;
  agents = λ r. refl;
  bound = λ a p h. h;
  known = λ a. refl;
}

-- A change of a service that leaves its port and its agents alone.
pub set_service-Keeps :
    (r : ℕ) (svc : ServiceInfo) (s : App)
    → svc.port ≡ (s.service_at r).port
    → svc.agents ≡ (s.service_at r).agents
    → Keeps s (set_service r svc s)
unfolding is_bound
set_service-Keeps r svc s e f = record {
  services = refl;
  next_ref = omega arith;
  port = λ q. ground arith;
  agents = λ q. ground arith;
  bound = λ a p h. h;
  known = λ a. refl;
}

-- A change of a known agent that takes no port away.
pub set_agent-Keeps :
    (a : ℕ) (agent : AgentInfo) (s : App)
    → is_some (lookup a s.agents) ≡ true
    → ((p : ℕ) → is_bound s a p ≡ true → contains p agent.ports ≡ true)
    → Keeps s (set_agent a agent s)
unfolding is_bound
set_agent-Keeps a agent s old more = record {
  services = refl;
  next_ref = omega arith;
  port = λ q. refl;
  agents = λ q. refl;
  bound = λ b p h. ground (arith, lookup-insert a b agent s.agents, more p);
  known = λ b. ground (arith, lookup-insert a b agent s.agents);
}

-- A change of the sessions of a known agent.
pub set_sessions-Keeps :
    (a : ℕ) (agent : AgentInfo) (sessions : Map ℕ ℕ) (s : App)
    → lookup a s.agents ≡ some agent
    → Keeps s (set_agent a (record agent { sessions = sessions }) s)
set_sessions-Keeps a agent sessions s e =
    set_agent-Keeps a (record agent { sessions = sessions }) s (ground (arith, e))
      (λ p h. unfold is_bound in ground (arith, e))

forget_in_agent-Keeps :
    (o : Option AgentInfo) (k n : ℕ) (s : App)
    → lookup k s.agents ≡ o
    → Keeps s (forget_in_agent o k n s)
forget_in_agent-Keeps none k n s e = Keeps-refl s
forget_in_agent-Keeps (some a) k n s e = set_sessions-Keeps k a (erase n a.sessions) s e

forget-Keeps : (service : ℕ) (ses : Session) (s : App) → Keeps s (forget service ses s)
unfolding forget
forget-Keeps service ses s =
    let svc = s.service_at service in
    let s1 = set_service service (record svc { sessions = erase ses.seq svc.sessions }) s in
    let s2 = emit (service_close_user service ses.seq) s1 in
    Keeps-trans (Keeps-trans (set_service-Keeps service _ s refl refl) (emit-Keeps _ s1))
      (forget_in_agent-Keeps (lookup ses.agent_id s2.agents) ses.agent_id ses.seq s2 refl)

pub clean_session-Keeps :
    (service session : ℕ) (s : App) → Keeps s (clean_session service session s)
unfolding clean_session
clean_session-Keeps service session s =
    elim (Bool-cases
      ((s.session_at session).user_disconnected && (s.session_at session).tunnel_disconnected)) [
        | inl e ↦ rw (e, clean_session) (forget-Keeps service (s.session_at session) s)
        | inr e ↦ rw (e, clean_session) (Keeps-refl s)
      ]

pub bound_agent :
    (s : App) (a p : ℕ) (o : Option AgentInfo)
    → lookup a s.agents ≡ o
    → is_bound s a p ≡ true
    → (agent : AgentInfo) × (lookup a s.agents ≡ some agent) × (contains p agent.ports ≡ true)
unfolding is_bound
bound_agent s a p none e b = absurd (ground (arith, e))
bound_agent s a p (some agent) e b = (agent, e, ground (arith, e))
