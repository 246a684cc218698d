-- ===== src/Relay/Registry/Leave.antt =====
-- An agent leaves the services of its ports: UNBIND and __OnAgentDisconnect of r-nat-s/app1/tunnel.cpp.
use r_nat.Common.{
  ℕ, ◌<◌, ◌≡◌, refl, ap, ◌∙◌, inl, inr, Option, none, some, [], ◌∷◌, true, false, ◌&&◌, ◌||◌, ◌==◌,
  length, arith, Map, nat_key, KeySet, contains, lookup, erase, lookup-insert, lookup-erase,
  Option-cases,
}
use r_nat.Relay.State.{App, AgentInfo, set_agent}
use r_nat.Relay.Tunnel.{
  hang_up, leave_service, leave_port, leave_ports, on_agent_disconnect, unbind_service, on_unbind,
}
use r_nat.Relay.Registry.{Keeps, is_bound, emit-Keeps}
use r_nat.Relay.Registry.Handlers.{hang_up-Keeps}

-- The registry is consistent, but for the agent `seq` on the ports of `pending`, which it is leaving.
pub record IsLeaving (seq : ℕ) (pending : KeySet) (s : App) : Type 0 where
  pub served :
      (p r : ℕ) → lookup p s.services ≡ some r → (length (s.service_at r).agents == 0) ≡ false
  pub port : (p r : ℕ) → lookup p s.services ≡ some r → (s.service_at r).port ≡ p
  pub fresh : (p r : ℕ) → lookup p s.services ≡ some r → r < s.next_ref
  pub bound :
      (p r a : ℕ)
      → lookup p s.services ≡ some r
      → contains a (s.service_at r).agents ≡ true
      → (is_bound s a p || (a == seq && contains p pending)) ≡ true

pub Keeps-IsLeaving :
    {seq : ℕ} {pending : KeySet} {s t : App}
    → Keeps s t
    → IsLeaving seq pending s
    → IsLeaving seq pending t
Keeps-IsLeaving {seq} {pending} {s} {t} k h = record {
  served = λ p r e. ground (arith, k.services, k.agents r, h.served p r);
  port = λ p r e. ground (arith, k.services, k.port r, h.port p r);
  fresh = λ p r e. ground (arith, k.services, h.fresh p r);
  bound = λ p r a e c. ground (arith, k.services, k.agents r, k.bound a p, h.bound p r a);
}

leave_service-IsLeaving :
    (seq p r : ℕ) (pending : KeySet) (s : App)
    → lookup p s.services ≡ some r
    → IsLeaving seq ((p, tt) ∷ pending) s
    → IsLeaving seq pending (leave_service seq p r s)
unfolding leave_service is_bound lookup
leave_service-IsLeaving seq p r pending s e h = record {
  served =
      λ q w x. ground (arith, lookup-erase p q s.services, h.served q w, h.port q w, h.port p r);
  port = λ q w x. ground (arith, lookup-erase p q s.services, h.port q w);
  fresh = λ q w x. ground (arith, lookup-erase p q s.services, h.fresh q w);
  bound = λ q w a x c. ground (
    arith,
    lookup-erase p q s.services,
    lookup-erase seq a (s.service_at r).agents,
    h.bound q w a,
    h.port q w,
    h.port p r,
  );
}

-- A port without a service needs no leaving.
skip-IsLeaving :
    (seq p : ℕ) (pending : KeySet) (s : App)
    → lookup p s.services ≡ none
    → IsLeaving seq ((p, tt) ∷ pending) s
    → IsLeaving seq pending s
unfolding lookup
skip-IsLeaving seq p pending s e h = record {
  served = h.served;
  port = h.port;
  fresh = h.fresh;
  bound = λ q w a x c. ground (arith, h.bound q w a);
}

pub leave_port-IsLeaving :
    (o : Option ℕ) (seq p : ℕ) (pending : KeySet) (sessions : Map ℕ ℕ) (s : App)
    → lookup p s.services ≡ o
    → IsLeaving seq ((p, tt) ∷ pending) s
    → IsLeaving seq pending (leave_port o seq p sessions s)
leave_port-IsLeaving none seq p pending sessions s e h = skip-IsLeaving seq p pending s e h
leave_port-IsLeaving (some r) seq p pending sessions s e h =
    let k = hang_up-Keeps r sessions s in
    leave_service-IsLeaving seq p r pending (hang_up r sessions s) (ap (lookup p) k.services ∙ e)
      (Keeps-IsLeaving k h)

leave_ports-IsLeaving :
    (seq : ℕ) (ports : KeySet) (sessions : Map ℕ ℕ) (s : App)
    → IsLeaving seq ports s
    → IsLeaving seq [] (leave_ports seq ports sessions s)
unfolding leave_ports
leave_ports-IsLeaving seq [] sessions s h = h
leave_ports-IsLeaving seq ((p, u) ∷ ports) sessions s h =
    leave_ports-IsLeaving seq ports sessions _
      (leave_port-IsLeaving (lookup p s.services) seq p ports sessions s refl h)

-- Without the agent itself, its ports are what is pending.
pub removed-IsLeaving :
    (seq other : ℕ) (agent : AgentInfo) (s : App)
    → lookup seq s.agents ≡ some agent
    → IsLeaving other [] s
    → IsLeaving seq agent.ports (record s { agents = erase seq s.agents })
unfolding is_bound lookup
removed-IsLeaving seq other agent s e h = record {
  served = h.served;
  port = h.port;
  fresh = h.fresh;
  bound = λ p r a x c. ground (arith, e, lookup-erase seq a s.agents, h.bound p r a);
}

-- With nothing pending it does not matter who was leaving.
pub settled : {seq other : ℕ} {s : App} → IsLeaving seq [] s → IsLeaving other [] s
unfolding lookup
settled h = record {
  served = h.served;
  port = h.port;
  fresh = h.fresh;
  bound = λ p r a x c. ground (arith, h.bound p r a);
}

pub on_agent_disconnect-IsLeaving :
    (seq other : ℕ) (s : App)
    → IsLeaving other [] s
    → IsLeaving other [] (on_agent_disconnect seq s)
unfolding on_agent_disconnect
on_agent_disconnect-IsLeaving seq other s h = elim (Option-cases (lookup seq s.agents)) [
  | inl e ↦ rw (e, on_agent_disconnect) h
  | inr (agent, e) ↦
      rw (e, on_agent_disconnect)
        (settled (
          leave_ports-IsLeaving seq agent.ports agent.sessions _
            (removed-IsLeaving seq other agent s e h)))
]

unbind_service-IsLeaving :
    (o : Option ℕ) (seq p : ℕ) (s : App)
    → lookup p s.services ≡ o
    → IsLeaving seq ((p, tt) ∷ []) s
    → IsLeaving seq [] (unbind_service o seq p s)
unbind_service-IsLeaving none seq p s e h = skip-IsLeaving seq p [] s e h
unbind_service-IsLeaving (some r) seq p s e h = leave_service-IsLeaving seq p r [] s e h

-- Without the port in the agent's list, that port is what is pending.
pub unlisted-IsLeaving :
    (seq other p : ℕ) (agent : AgentInfo) (s : App)
    → lookup seq s.agents ≡ some agent
    → IsLeaving other [] s
    → IsLeaving seq ((p, tt) ∷ []) (set_agent seq (record agent { ports = erase p agent.ports }) s)
unfolding is_bound lookup
unlisted-IsLeaving seq other p agent s e h = record {
  served = h.served;
  port = h.port;
  fresh = h.fresh;
  bound = λ q r a x c. ground (
    arith,
    e,
    lookup-insert seq a (record agent { ports = erase p agent.ports }) s.agents,
    lookup-erase p q agent.ports,
    h.bound q r a,
  );
}

pub on_unbind-IsLeaving :
    (seq p other : ℕ) (s : App) → IsLeaving other [] s → IsLeaving other [] (on_unbind seq p s)
unfolding on_unbind
on_unbind-IsLeaving seq p other s h = elim (Option-cases (lookup seq s.agents)) [
  | inl e ↦ rw (e, on_unbind) h
  | inr (agent, e) ↦
      rw (e, on_unbind)
        (settled (
          Keeps-IsLeaving (emit-Keeps _ _) (
            unbind_service-IsLeaving (lookup p s.services) seq p _ refl
              (unlisted-IsLeaving seq other p agent s e h))))
]
