-- ===== src/Relay/Isolation/Users.antt =====
-- The users of r-nat-s/app1 and their sessions.
use mathlib.Core.Option.{some_inj}
use r_nat.Common.{
  ℕ, ◌≡◌, refl, subst, inl, inr, Option, none, some, List, [], ◌∷◌, Bool, true, ◌==◌, suc, arith,
  nat_key, lookup, insert, Option-cases, Bool-cases, length, ◌>>=◌, Ensures, Ensures-some,
}
use r_nat.Protocol.{A2r, parse_a2r}
use r_nat.Relay.State.{App, AgentInfo, set_agent, set_service, set_session, new_session}
use r_nat.Relay.Tunnel.{
  on_agent_connect, on_agent_recv, dispatch, on_bind, on_session, declare_session, add_to_agent,
  drop_old,
}
use r_nat.Relay.User.{on_user_connect, assign, assign_to}
use r_nat.Relay.Step.{
  Event, agent_connects, agent_disconnects, agent_sends, user_connects, user_disconnects,
  user_sends, completes, step, run,
}
use r_nat.Relay.Isolation.Tables.{
  IsSeparate, Narrows, Narrows-refl, Narrows-trans, Narrows-IsSeparate, IsSame-Narrows,
}
use r_nat.Relay.Isolation.Handlers.{
  NarrowsTo, on_agent_disconnect-Narrows, on_bind-Narrows, on_unbind-Narrows, on_agent_data-Narrows,
  on_agent_hangs_up-Narrows, on_user_disconnect-Narrows, on_user_recv-Narrows, on_sent-Narrows,
}
use r_nat.Relay.Isolation.Gains.{Gains, Gains-IsSeparate, inserted}

assign-Gains :
    (service seq ip port a : ℕ) (agent : AgentInfo) (s : App)
    → Gains service seq s (assign service seq ip port a agent s)
unfolding assign
assign-Gains service seq ip port a agent s =
    inserted service seq s (assign service seq ip port a agent s) (λ r. ground arith) refl

assign_to-IsSeparate :
    (o : Option (ℕ × Unit {0})) (service seq ip port : ℕ) (s : App)
    → IsSeparate s
    → IsSeparate (assign_to o service seq ip port s)
assign_to-IsSeparate none service seq ip port s h = h
assign_to-IsSeparate (some (a, u)) service seq ip port s h =
    elim (Option-cases (lookup a s.agents)) [
      | inl e ↦ rw (e, assign_to) h
      | inr (agent, e) ↦
          rw (e, assign_to)
            (Gains-IsSeparate service seq (assign-Gains service seq ip port a agent s) h)
    ]

on_user_connect-IsSeparate :
    (service seq ip port : ℕ) (s : App)
    → IsSeparate s
    → IsSeparate (on_user_connect service seq ip port s)
unfolding on_user_connect
on_user_connect-IsSeparate service seq ip port s h =
    elim (Bool-cases (length (s.service_at service).agents == 0)) [
      | inl n ↦ rw (n, on_user_connect) (Narrows-IsSeparate (IsSame-Narrows (refl, λ r. refl)) h)
      | inr n ↦ rw (n, on_user_connect) (assign_to-IsSeparate _ service seq ip port s h)
    ]

-- The tables of the agents are others.
add_to_agent-Narrows : (seq id session : ℕ) (s : App) → Narrows s (add_to_agent seq id session s)
add_to_agent-Narrows seq id session s = elim (Option-cases (lookup seq s.agents)) [
  | inl e ↦ rw (e, add_to_agent) (Narrows-refl s)
  | inr (agent, e) ↦ rw (e, add_to_agent) (IsSame-Narrows (refl, λ r. refl))
]

drop_old-Narrows :
    (o : Option AgentInfo) (old_id id : ℕ) (s : App) → Narrows s (drop_old o old_id id s)
drop_old-Narrows none old_id id s = Narrows-refl s
drop_old-Narrows (some old) old_id id s = IsSame-Narrows (refl, λ r. refl)

declare_session-IsSeparate :
    (o : Option ℕ) (seq service id : ℕ) (s : App)
    → IsSeparate s
    → IsSeparate (declare_session o seq service id s)
declare_session-IsSeparate none seq service id s h =
    let svc = s.service_at service in
    let made =
      set_service service (record svc { sessions = insert id s.next_ref svc.sessions })
        (set_session s.next_ref (record new_session { agent_id = seq; using_session_conn = true })
          (record s { next_ref = suc s.next_ref })) in
    Narrows-IsSeparate (add_to_agent-Narrows seq id s.next_ref made)
      (Gains-IsSeparate service id (inserted service id s made (λ r. ground arith) refl) h)
declare_session-IsSeparate (some session) seq service id s h =
    let ses = s.session_at session in
    let dropped = drop_old (lookup ses.agent_id s.agents) ses.agent_id id s in
    let declared =
      set_session session (record ses { agent_id = seq; using_session_conn = true }) dropped in
    Narrows-IsSeparate
      (Narrows-trans (drop_old-Narrows (lookup ses.agent_id s.agents) ses.agent_id id s) (
        Narrows-trans (IsSame-Narrows (refl, λ r. refl))
          (add_to_agent-Narrows seq id session declared)))
      h

on_session-IsSeparate :
    (seq port id : ℕ) (s : App) → IsSeparate s → IsSeparate (on_session seq port id s)
unfolding on_session
on_session-IsSeparate seq port id s h = elim (Option-cases (lookup seq s.agents)) [
  | inl e ↦ rw (e, on_session) h
  | inr (agent, e) ↦
      let s1 = set_agent seq (record agent { ports = insert port tt agent.ports }) s in
      let i : IsSeparate s1 = Narrows-IsSeparate (IsSame-Narrows (refl, λ r. refl)) h in
      elim (Option-cases (lookup port s.services)) [
        | inl f ↦ rw (e, f, on_session) i
        | inr (service, f) ↦
            rw (e, f, on_session)
              (declare_session-IsSeparate (lookup seq (s.service_at service).sessions) seq service
                id s1 i)
      ]
]

ensured : (o : Option App) (s : App) → NarrowsTo s o → IsSeparate s → Ensures IsSeparate o
ensured none s n h = tt
ensured (some t) s n h = Narrows-IsSeparate n h

dispatch-IsSeparate :
    (listens : ℕ → Option Bool) (seq : ℕ) (o : Option A2r) (s : App)
    → IsSeparate s
    → Ensures IsSeparate (dispatch listens seq o s)
dispatch-IsSeparate listens seq none s h = h
dispatch-IsSeparate listens seq (some (A2r.bind port)) s h =
    ensured (on_bind listens seq port s) s (on_bind-Narrows listens seq port s) h
dispatch-IsSeparate listens seq (some (A2r.unbind port)) s h =
    Narrows-IsSeparate (on_unbind-Narrows seq port s) h
dispatch-IsSeparate listens seq (some (A2r.carry port id pkt)) s h =
    Narrows-IsSeparate (on_agent_data-Narrows seq port id pkt s) h
dispatch-IsSeparate listens seq (some (A2r.disconnect port id)) s h =
    Narrows-IsSeparate (on_agent_hangs_up-Narrows port id s) h
dispatch-IsSeparate listens seq (some (A2r.session port id)) s h =
    on_session-IsSeparate seq port id s h

step-IsSeparate :
    (listens : ℕ → Option Bool) (e : Event) (s : App)
    → IsSeparate s
    → Ensures IsSeparate (step listens e s)
unfolding step on_agent_connect on_agent_recv
step-IsSeparate listens (agent_connects seq) s h =
    Narrows-IsSeparate (IsSame-Narrows (refl, λ r. refl)) h
step-IsSeparate listens (agent_disconnects seq) s h =
    Narrows-IsSeparate (on_agent_disconnect-Narrows seq s) h
step-IsSeparate listens (agent_sends seq buf) s h =
    dispatch-IsSeparate listens seq (parse_a2r buf) s h
step-IsSeparate listens (user_connects service seq ip port) s h =
    on_user_connect-IsSeparate service seq ip port s h
step-IsSeparate listens (user_disconnects service seq) s h =
    Narrows-IsSeparate (on_user_disconnect-Narrows service seq s) h
step-IsSeparate listens (user_sends service seq buf) s h =
    Narrows-IsSeparate (on_user_recv-Narrows service seq buf s) h
step-IsSeparate listens (completes sent) s h = Narrows-IsSeparate (on_sent-Narrows sent s) h

empty-IsSeparate : (s : App) → ((r : ℕ) → (s.service_at r).sessions ≡ []) → IsSeparate s
unfolding lookup
empty-IsSeparate s h = record {
  fresh = λ r seq ref e. absurd (ground (arith, h r));
  distinct = λ r q seq id ref e f. absurd (ground (arith, h r));
}

kept-IsSeparate :
    (listens : ℕ → Option Bool) (es : List Event) (s t : App)
    → IsSeparate s
    → run listens es s ≡ some t
    → IsSeparate t
unfolding run
kept-IsSeparate listens [] s t h e = subst IsSeparate (some_inj.0 e) h
kept-IsSeparate listens (e ∷ es) s t h x = elim (Option-cases (step listens e s)) [
  | inl n ↦ absurd (ground (arith, n))
  | inr (u, n) ↦
      kept-IsSeparate listens es u t
        (Ensures-some IsSeparate (step listens e s) n (step-IsSeparate listens e s h))
        (rw (n, ◌>>=◌) at x)
]

-- Users of the relay never share a session: after every sequence of events that starts without
-- sessions and in which nothing throws, whatever the agents send, SESSION included, a session stands
-- in the services' tables of users (sessions_ of ServiceInfo) for one user of one service only; and
-- it is one that has been made, so that the next one is new. Of the tables of the agents nothing is
-- said.
pub run-separates :
    (listens : ℕ → Option Bool) (es : List Event) (s t : App)
    → ((r : ℕ) → (s.service_at r).sessions ≡ [])
    → run listens es s ≡ some t
    → IsSeparate t
run-separates listens es s t h e = kept-IsSeparate listens es s t (empty-IsSeparate s h) e
