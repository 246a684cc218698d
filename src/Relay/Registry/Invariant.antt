-- ===== src/Relay/Registry/Invariant.antt =====
-- The consistency of services_ and agents_ of r-nat-s/app1.
use r_nat.Common.{
  ℕ, suc, ◌≡◌, inl, inr, Option, none, some, [], Bool, true, false, arith, nat_key, lookup,
  lookup-insert, Option-cases, Ensures, Ensures-some,
}
use r_nat.Protocol.{A2r, parse_a2r}
use r_nat.Relay.State.{
  App, AgentInfo, Sent, tunnel_sent, user_sent, service_start, emit, set_service,
}
use r_nat.Relay.Tunnel.{
  on_agent_connect, on_bind, bind_started, new_service, on_agent_recv, dispatch,
}
use r_nat.Relay.Step.{
  Event, agent_connects, agent_disconnects, agent_sends, user_connects, user_disconnects,
  user_sends, completes, on_sent, step,
}
use r_nat.Relay.Registry.{is_bound, emit-Keeps}
use r_nat.Relay.Registry.Handlers.{
  on_agent_data-Keeps, on_tunnel_sent-Keeps, on_agent_hangs_up-Keeps, on_session-Keeps,
  on_user_connect-Keeps, on_user_disconnect-Keeps, on_user_recv-Keeps, on_user_sent-Keeps,
}
use r_nat.Relay.Registry.Leave.{on_agent_disconnect-IsLeaving, on_unbind-IsLeaving}
pub use r_nat.Relay.Registry.Binding.{IsRegistered, leaving, Keeps-IsRegistered}
use r_nat.Relay.Registry.Binding.{stayed, join-IsRegistered, spare-IsRegistered, found-IsRegistered}

started-IsRegistered :
    (o : Option Bool) (seq p : ℕ) (agent : AgentInfo) (s : App)
    → lookup seq s.agents ≡ some agent
    → lookup p s.services ≡ none
    → IsRegistered s
    → Ensures IsRegistered (
        bind_started o seq agent p s.next_ref (
          emit
            (service_start s.next_ref p)
            (set_service s.next_ref (new_service p seq) (record s { next_ref = suc s.next_ref }))))
started-IsRegistered none seq p agent s e f h = tt
started-IsRegistered (some false) seq p agent s e f h =
    Keeps-IsRegistered (emit-Keeps _ _)
      (Keeps-IsRegistered (emit-Keeps _ _) (spare-IsRegistered (new_service p seq) s h))
started-IsRegistered (some true) seq p agent s e f h =
    let s1 = emit (service_start s.next_ref p) s in
    Keeps-IsRegistered (emit-Keeps _ _)
      (found-IsRegistered seq p agent s1 e f (Keeps-IsRegistered (emit-Keeps _ s) h))

on_bind-IsRegistered :
    (listens : ℕ → Option Bool) (seq p : ℕ) (s : App)
    → IsRegistered s
    → Ensures IsRegistered (on_bind listens seq p s)
unfolding on_bind
on_bind-IsRegistered listens seq p s h = elim (Option-cases (lookup seq s.agents)) [
  | inl e ↦ rw (e, on_bind) h
  | inr (agent, e) ↦ elim (Option-cases (lookup p s.services)) [
    | inl f ↦ rw (e, f, on_bind) (started-IsRegistered (listens p) seq p agent s e f h)
    | inr (r, f) ↦
        rw (e, f, on_bind)
          (Keeps-IsRegistered (emit-Keeps _ _) (join-IsRegistered seq p r agent s e f h))
  ]
]

dispatch-IsRegistered :
    (listens : ℕ → Option Bool) (seq : ℕ) (m : Option A2r) (s : App)
    → IsRegistered s
    → Ensures IsRegistered (dispatch listens seq m s)
dispatch-IsRegistered listens seq none s h = h
dispatch-IsRegistered listens seq (some (A2r.bind port)) s h =
    on_bind-IsRegistered listens seq port s h
dispatch-IsRegistered listens seq (some (A2r.unbind port)) s h =
    stayed (on_unbind-IsLeaving seq port 0 s (leaving h))
dispatch-IsRegistered listens seq (some (A2r.carry port id pkt)) s h =
    Keeps-IsRegistered (on_agent_data-Keeps seq port id pkt s) h
dispatch-IsRegistered listens seq (some (A2r.disconnect port id)) s h =
    Keeps-IsRegistered (on_agent_hangs_up-Keeps port id s) h
dispatch-IsRegistered listens seq (some (A2r.session port id)) s h =
    Keeps-IsRegistered (on_session-Keeps seq port id s) h

on_sent-IsRegistered : (sent : Sent) (s : App) → IsRegistered s → IsRegistered (on_sent sent s)
unfolding on_sent
on_sent-IsRegistered (tunnel_sent service session seq limit) s h =
    Keeps-IsRegistered (on_tunnel_sent-Keeps service session seq limit s) h
on_sent-IsRegistered (user_sent service session seq limit) s h =
    Keeps-IsRegistered (on_user_sent-Keeps service session seq limit s) h

on_agent_connect-IsRegistered :
    (seq : ℕ) (s : App)
    → lookup seq s.agents ≡ none
    → IsRegistered s
    → IsRegistered (on_agent_connect seq s)
unfolding on_agent_connect is_bound
on_agent_connect-IsRegistered seq s e h = record {
  served = h.served;
  port = h.port;
  fresh = h.fresh;
  bound = λ p r a x c. ground (
    arith,
    e,
    lookup-insert seq a (record { seq = seq; ports = []; sessions = [] }) s.agents,
    h.bound p r a,
  );
}

-- The network layer gives a new agent a number that no known agent has.
abbrev pub Admits : Event → App → Type 0
Admits (agent_connects seq) s = lookup seq s.agents ≡ none
Admits (agent_disconnects seq) s = Unit {0}
Admits (agent_sends seq buf) s = Unit {0}
Admits (user_connects service seq ip port) s = Unit {0}
Admits (user_disconnects service seq) s = Unit {0}
Admits (user_sends service seq buf) s = Unit {0}
Admits (completes sent) s = Unit {0}

-- Every event keeps the registry consistent, provided that a new agent's number is not in use.
pub step-IsRegistered :
    (listens : ℕ → Option Bool) (e : Event) (s : App)
    → Admits e s
    → IsRegistered s
    → Ensures IsRegistered (step listens e s)
unfolding step on_agent_recv
step-IsRegistered listens (agent_connects seq) s a h = on_agent_connect-IsRegistered seq s a h
step-IsRegistered listens (agent_disconnects seq) s a h =
    stayed (on_agent_disconnect-IsLeaving seq 0 s (leaving h))
step-IsRegistered listens (agent_sends seq buf) s a h =
    dispatch-IsRegistered listens seq (parse_a2r buf) s h
step-IsRegistered listens (user_connects service seq ip port) s a h =
    Keeps-IsRegistered (on_user_connect-Keeps service seq ip port s) h
step-IsRegistered listens (user_disconnects service seq) s a h =
    Keeps-IsRegistered (on_user_disconnect-Keeps service seq s) h
step-IsRegistered listens (user_sends service seq buf) s a h =
    Keeps-IsRegistered (on_user_recv-Keeps service seq buf s) h
step-IsRegistered listens (completes sent) s a h = on_sent-IsRegistered sent s h

-- A history of events, each admitted when it comes.
pub data Runs (listens : ℕ → Option Bool) (s : App) : App → Type 0 where
  here : Runs listens s s
  next :
      {t u : App}
      → Runs listens s t
      → (e : Event) → Admits e t
      → step listens e t ≡ some u
      → Runs listens s u

-- Every history of admitted events that starts in a consistent state ends in one.
pub Runs-IsRegistered :
    {listens : ℕ → Option Bool} {s t : App} → IsRegistered s → Runs listens s t → IsRegistered t
Runs-IsRegistered h here = h
Runs-IsRegistered {listens} h (next {t} r e a x) =
    Ensures-some IsRegistered (step listens e t) x
      (step-IsRegistered listens e t a (Runs-IsRegistered h r))

-- The state that the constructor leaves.
pub initial : (s : App) → s.services ≡ [] → IsRegistered s
unfolding lookup
initial s e = record {
  served = λ p r x. ground (arith, e);
  port = λ p r x. ground (arith, e);
  fresh = λ p r x. ground (arith, e);
  bound = λ p r a x c. ground (arith, e);
}
