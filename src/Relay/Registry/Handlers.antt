-- ===== src/Relay/Registry/Handlers.antt =====
-- The handlers of r-nat-s/app1 that move no agent between services.
use r_nat.Common.{
  ℕ, suc, ◌≡◌, refl, inl, inr, Option, none, some, [], ◌∷◌, Bool, true, false, ◌==◌, if◌then◌else◌,
  length, arith, Map, nat_key, lookup, insert, erase, lookup-insert, Option-cases, Bool-cases,
}
use r_nat.Protocol.{Bytes}
use r_nat.Relay.State.{
  App, AgentInfo, Session, Effect, emit, set_session, set_agent, agent_block_recv,
  service_block_recv,
}
use r_nat.Relay.Tunnel.{
  hang_up, cork_tunnel, on_agent_data, uncork_tunnel, on_tunnel_sent, on_agent_hangs_up, drop_old,
  add_to_agent, declare_session, on_session,
}
use r_nat.Relay.User.{
  assign, assign_to, on_user_connect, mark_user_gone, on_user_disconnect, on_user_recv, uncork_user,
  on_user_sent,
}
use r_nat.Relay.Registry.{
  Keeps, is_bound, Keeps-refl, Keeps-trans, set_session-Keeps, emit-Keeps, set_service-Keeps,
  set_agent-Keeps, set_sessions-Keeps, clean_session-Keeps,
}

-- Work on one session: change it, maybe call a network object, maybe clean it up.
touch-Keeps :
    (session : ℕ) (ses ses' : Session) (b : Bool) (e : Effect) (s : App)
    → Keeps s (if b then emit e (set_session session ses s) else set_session session ses' s)
touch-Keeps session ses ses' true e s =
    Keeps-trans (set_session-Keeps session ses s) (emit-Keeps e (set_session session ses s))
touch-Keeps session ses ses' false e s = set_session-Keeps session ses' s

alloc-Keeps : (s : App) → Keeps s (record s { next_ref = suc s.next_ref })
unfolding is_bound
alloc-Keeps s = record {
  services = refl;
  next_ref = omega arith;
  port = λ r. refl;
  agents = λ r. refl;
  bound = λ a p h. h;
  known = λ a. refl;
}

pub hang_up-Keeps :
    (service : ℕ) (sessions : Map ℕ ℕ) (s : App) → Keeps s (hang_up service sessions s)
unfolding hang_up
hang_up-Keeps service [] s = Keeps-refl s
hang_up-Keeps service ((user_seq, session) ∷ rest) s =
    Keeps-trans
      (Keeps-trans (set_session-Keeps session _ s) (clean_session-Keeps service session _))
      (hang_up-Keeps service rest _)

cork_tunnel-Keeps : (limit seq session : ℕ) (s : App) → Keeps s (cork_tunnel limit seq session s)
unfolding cork_tunnel
cork_tunnel-Keeps limit seq session s = touch-Keeps session _ _ _ (agent_block_recv seq true) s

pub on_agent_data-Keeps :
    (seq port id : ℕ) (pkt : Bytes) (s : App) → Keeps s (on_agent_data seq port id pkt s)
unfolding on_agent_data
on_agent_data-Keeps seq port id pkt s = elim (Option-cases (lookup seq s.agents)) [
  | inl e ↦ rw (e, on_agent_data) (Keeps-refl s)
  | inr (agent, e) ↦ elim (Option-cases (lookup port s.services)) [
    | inl f ↦ rw (e, f, on_agent_data) (Keeps-refl s)
    | inr (service, f) ↦ elim (Option-cases (lookup id (s.service_at service).sessions)) [
      | inl g ↦ rw (e, f, g, on_agent_data) (Keeps-refl s)
      | inr (session, g) ↦
          rw (e, f, g, on_agent_data)
            (Keeps-trans (cork_tunnel-Keeps s.queue_limit seq session s) (emit-Keeps _ _))
    ]
  ]
]

pub on_tunnel_sent-Keeps :
    (service session seq limit : ℕ) (s : App) → Keeps s (on_tunnel_sent service session seq limit s)
unfolding on_tunnel_sent uncork_tunnel
on_tunnel_sent-Keeps service session seq limit s =
    Keeps-trans (touch-Keeps session _ _ _ (agent_block_recv seq false) s)
      (clean_session-Keeps service session _)

pub on_agent_hangs_up-Keeps : (port id : ℕ) (s : App) → Keeps s (on_agent_hangs_up port id s)
unfolding on_agent_hangs_up
on_agent_hangs_up-Keeps port id s = elim (Option-cases (lookup port s.services)) [
  | inl f ↦ rw (f, on_agent_hangs_up) (Keeps-refl s)
  | inr (service, f) ↦ elim (Option-cases (lookup id (s.service_at service).sessions)) [
    | inl g ↦ rw (f, g, on_agent_hangs_up) (Keeps-refl s)
    | inr (session, g) ↦
        rw (f, g, on_agent_hangs_up)
          (Keeps-trans (set_session-Keeps session _ s) (clean_session-Keeps service session _))
  ]
]

drop_old-Keeps :
    (o : Option AgentInfo) (old id : ℕ) (s : App)
    → lookup old s.agents ≡ o
    → Keeps s (drop_old o old id s)
drop_old-Keeps none old id s e = Keeps-refl s
drop_old-Keeps (some a) old id s e = set_sessions-Keeps old a (erase id a.sessions) s e

add_to_agent-Keeps : (seq id session : ℕ) (s : App) → Keeps s (add_to_agent seq id session s)
add_to_agent-Keeps seq id session s = elim (Option-cases (lookup seq s.agents)) [
  | inl e ↦ rw (e, add_to_agent) (Keeps-refl s)
  | inr (a, e) ↦ rw (e, add_to_agent) (set_sessions-Keeps seq a (insert id session a.sessions) s e)
]

declare_session-Keeps :
    (o : Option ℕ) (seq service id : ℕ) (s : App) → Keeps s (declare_session o seq service id s)
declare_session-Keeps none seq service id s =
    Keeps-trans
      (Keeps-trans (alloc-Keeps s)
        (Keeps-trans (set_session-Keeps s.next_ref _ _) (set_service-Keeps service _ _ refl refl)))
      (add_to_agent-Keeps seq id s.next_ref _)
declare_session-Keeps (some session) seq service id s =
    let ses = s.session_at session in
    Keeps-trans
      (Keeps-trans (drop_old-Keeps (lookup ses.agent_id s.agents) ses.agent_id id s refl)
        (set_session-Keeps session _ _))
      (add_to_agent-Keeps seq id session _)

pub on_session-Keeps : (seq port id : ℕ) (s : App) → Keeps s (on_session seq port id s)
unfolding on_session
on_session-Keeps seq port id s = elim (Option-cases (lookup seq s.agents)) [
  | inl e ↦ rw (e, on_session) (Keeps-refl s)
  | inr (agent, e) ↦
      let s1 = set_agent seq (record agent { ports = insert port tt agent.ports }) s in
      let k : Keeps s s1 =
        set_agent-Keeps seq (record agent { ports = insert port tt agent.ports }) s
          (ground (arith, e))
          (λ p h. unfold is_bound in ground (arith, e, lookup-insert port p tt agent.ports)) in
      elim (Option-cases (lookup port s.services)) [
        | inl f ↦ rw (e, f, on_session) k
        | inr (service, f) ↦
            rw (e, f, on_session)
              (Keeps-trans k (
                declare_session-Keeps (lookup seq (s1.service_at service).sessions) seq service id
                  s1))
      ]
]

assign-Keeps :
    (service seq ip port agent_seq : ℕ) (agent : AgentInfo) (s : App)
    → lookup agent_seq s.agents ≡ some agent
    → Keeps s (assign service seq ip port agent_seq agent s)
unfolding assign
assign-Keeps service seq ip port agent_seq agent s e =
    Keeps-trans
      (Keeps-trans
        (Keeps-trans (alloc-Keeps s) (
          Keeps-trans (set_session-Keeps s.next_ref _ _) (set_service-Keeps service _ _ refl refl)))
        (set_sessions-Keeps agent_seq agent (insert seq s.next_ref agent.sessions) _ e))
      (emit-Keeps _ _)

assign_to-Keeps :
    (o : Option (ℕ × Unit {0})) (service seq ip port : ℕ) (s : App)
    → Keeps s (assign_to o service seq ip port s)
assign_to-Keeps none service seq ip port s = Keeps-refl s
assign_to-Keeps (some (a, u)) service seq ip port s = elim (Option-cases (lookup a s.agents)) [
  | inl e ↦ rw (e, assign_to) (Keeps-refl s)
  | inr (agent, e) ↦ rw (e, assign_to) (assign-Keeps service seq ip port a agent s e)
]

pub on_user_connect-Keeps :
    (service seq ip port : ℕ) (s : App) → Keeps s (on_user_connect service seq ip port s)
unfolding on_user_connect
on_user_connect-Keeps service seq ip port s =
    elim (Bool-cases (length (s.service_at service).agents == 0)) [
      | inl e ↦ rw (e, on_user_connect) (emit-Keeps _ s)
      | inr e ↦ rw (e, on_user_connect) (assign_to-Keeps _ service seq ip port s)
    ]

mark_user_gone-Keeps :
    (service seq session : ℕ) (s : App) → Keeps s (mark_user_gone service seq session s)
unfolding mark_user_gone
mark_user_gone-Keeps service seq session s =
    elim (Bool-cases (s.session_at session).tunnel_hard_disconnected) [
      | inl e ↦ rw (e, mark_user_gone) (set_session-Keeps session _ s)
      | inr e ↦
          rw (e, mark_user_gone) (Keeps-trans (set_session-Keeps session _ s) (emit-Keeps _ _))
    ]

pub on_user_disconnect-Keeps :
    (service seq : ℕ) (s : App) → Keeps s (on_user_disconnect service seq s)
unfolding on_user_disconnect
on_user_disconnect-Keeps service seq s =
    elim (Option-cases (lookup seq (s.service_at service).sessions)) [
      | inl e ↦ rw (e, on_user_disconnect) (Keeps-refl s)
      | inr (session, e) ↦
          rw (e, on_user_disconnect)
            (Keeps-trans (mark_user_gone-Keeps service seq session s)
              (clean_session-Keeps service session _))
    ]

pub on_user_recv-Keeps :
    (service seq : ℕ) (buf : Bytes) (s : App) → Keeps s (on_user_recv service seq buf s)
unfolding on_user_recv
on_user_recv-Keeps service seq buf s =
    elim (Option-cases (lookup seq (s.service_at service).sessions)) [
      | inl e ↦ rw (e, on_user_recv) (Keeps-refl s)
      | inr (session, e) ↦
          rw (e, on_user_recv)
            (Keeps-trans (touch-Keeps session _ _ _ (service_block_recv service seq true) s)
              (emit-Keeps _ _))
    ]

pub on_user_sent-Keeps :
    (service session seq limit : ℕ) (s : App) → Keeps s (on_user_sent service session seq limit s)
unfolding on_user_sent uncork_user
on_user_sent-Keeps service session seq limit s =
    Keeps-trans (touch-Keeps session _ _ _ (service_block_recv service seq false) s)
      (clean_session-Keeps service session _)
