-- ===== src/Relay/Isolation/Handlers.antt =====
-- The handlers of r-nat-s/app1 which make no session, and the tables.
use r_nat.Common.{
  ℕ, suc, refl, inl, inr, Option, none, some, Bool, true, false, arith, nat_key, lookup, erase,
  Option-cases,
}
use r_nat.Protocol.{Bytes}
use r_nat.Relay.State.{
  App, AgentInfo, Sent, tunnel_sent, user_sent, emit, set_service, service_start, set_agent,
}
use r_nat.Relay.Tunnel.{
  on_agent_disconnect, on_bind, bind_started, new_service, on_unbind, unbind_service, on_agent_data,
  uncork_tunnel, on_tunnel_sent, on_agent_hangs_up, mark_tunnel_gone,
}
use r_nat.Relay.User.{on_user_disconnect, mark_user_gone, on_user_recv, uncork_user, on_user_sent}
use r_nat.Relay.Step.{on_sent}
use r_nat.Relay.Isolation.Tables.{
  Narrows, Narrows-refl, Narrows-trans, IsSame-Narrows, cork_tunnel-IsSame, uncork_tunnel-IsSame,
  cork_user-IsSame, uncork_user-IsSame, mark_user_gone-IsSame, leave_service-IsSame,
  cleaned-Narrows, leave_ports-Narrows,
}

pub on_agent_disconnect-Narrows : (seq : ℕ) (s : App) → Narrows s (on_agent_disconnect seq s)
unfolding on_agent_disconnect
on_agent_disconnect-Narrows seq s = elim (Option-cases (lookup seq s.agents)) [
  | inl e ↦ rw (e, on_agent_disconnect) (Narrows-refl s)
  | inr (agent, e) ↦
      let gone = record s { agents = erase seq s.agents } in
      rw (e, on_agent_disconnect)
        (Narrows-trans (IsSame-Narrows (refl, λ r. refl))
          (leave_ports-Narrows seq agent.ports agent.sessions gone))
]

-- A state or none: what Start of a service's server may leave.
abbrev pub NarrowsTo : App → Option App → Type 0
NarrowsTo s none = Unit {0}
NarrowsTo s (some t) = Narrows s t

started-Narrows :
    (o : Option Bool) (seq port : ℕ) (agent : AgentInfo) (service : ℕ) (s : App)
    → NarrowsTo s (bind_started o seq agent port service s)
started-Narrows none seq port agent service s = tt
started-Narrows (some false) seq port agent service s = IsSame-Narrows (refl, λ r. refl)
started-Narrows (some true) seq port agent service s = IsSame-Narrows (refl, λ r. refl)

NarrowsTo-trans : {s t : App} → Narrows s t → (o : Option App) → NarrowsTo t o → NarrowsTo s o
NarrowsTo-trans n none k = tt
NarrowsTo-trans n (some w) k = Narrows-trans n k

-- A new service has no sessions.
founded-Narrows :
    (seq port : ℕ) (s : App)
    → let service = s.next_ref in
      Narrows s (
        emit
          (service_start service port)
          (set_service service (new_service port seq) (record s { next_ref = suc service })))
unfolding lookup
founded-Narrows seq port s = record { next_ref = omega arith; kept = λ r seq ref h. ground arith }

pub on_bind-Narrows :
    (listens : ℕ → Option Bool) (seq port : ℕ) (s : App) → NarrowsTo s (on_bind listens seq port s)
unfolding on_bind
on_bind-Narrows listens seq port s = elim (Option-cases (lookup seq s.agents)) [
  | inl e ↦ rw (e, on_bind) (Narrows-refl s)
  | inr (agent, e) ↦ elim (Option-cases (lookup port s.services)) [
    | inl f ↦
        let founded = emit (service_start s.next_ref port) (
          set_service s.next_ref (new_service port seq) (record s { next_ref = suc s.next_ref })) in
        rw (e, f, on_bind)
          (NarrowsTo-trans (founded-Narrows seq port s) _
            (started-Narrows (listens port) seq port agent s.next_ref founded))
    | inr (service, f) ↦ rw (e, f, on_bind) (IsSame-Narrows (refl, λ r. ground arith))
  ]
]

unbind-Narrows : (o : Option ℕ) (seq port : ℕ) (s : App) → Narrows s (unbind_service o seq port s)
unbind-Narrows none seq port s = Narrows-refl s
unbind-Narrows (some service) seq port s = IsSame-Narrows (leave_service-IsSame seq port service s)

pub on_unbind-Narrows : (seq port : ℕ) (s : App) → Narrows s (on_unbind seq port s)
unfolding on_unbind
on_unbind-Narrows seq port s = elim (Option-cases (lookup seq s.agents)) [
  | inl e ↦ rw (e, on_unbind) (Narrows-refl s)
  | inr (agent, e) ↦
      let s1 = set_agent seq (record agent { ports = erase port agent.ports }) s in
      rw (e, on_unbind)
        (Narrows-trans
          (Narrows-trans (IsSame-Narrows (refl, λ r. refl))
            (unbind-Narrows (lookup port s.services) seq port s1))
          (IsSame-Narrows (refl, λ r. refl)))
]

pub on_agent_data-Narrows :
    (seq port id : ℕ) (pkt : Bytes) (s : App) → Narrows s (on_agent_data seq port id pkt s)
unfolding on_agent_data
on_agent_data-Narrows seq port id pkt s = elim (Option-cases (lookup seq s.agents)) [
  | inl e ↦ rw (e, on_agent_data) (Narrows-refl s)
  | inr (agent, e) ↦ elim (Option-cases (lookup port s.services)) [
    | inl f ↦ rw (e, f, on_agent_data) (Narrows-refl s)
    | inr (service, f) ↦ elim (Option-cases (lookup id (s.service_at service).sessions)) [
      | inl g ↦ rw (e, f, g, on_agent_data) (Narrows-refl s)
      | inr (session, g) ↦
          rw (e, f, g, on_agent_data)
            (IsSame-Narrows (cork_tunnel-IsSame s.queue_limit seq session s))
    ]
  ]
]

pub on_agent_hangs_up-Narrows : (port id : ℕ) (s : App) → Narrows s (on_agent_hangs_up port id s)
unfolding on_agent_hangs_up
on_agent_hangs_up-Narrows port id s = elim (Option-cases (lookup port s.services)) [
  | inl f ↦ rw (f, on_agent_hangs_up) (Narrows-refl s)
  | inr (service, f) ↦ elim (Option-cases (lookup id (s.service_at service).sessions)) [
    | inl g ↦ rw (f, g, on_agent_hangs_up) (Narrows-refl s)
    | inr (session, g) ↦
        rw (f, g, on_agent_hangs_up)
          (cleaned-Narrows service session s (mark_tunnel_gone session s) (refl, λ r. refl))
  ]
]

pub on_user_disconnect-Narrows :
    (service seq : ℕ) (s : App) → Narrows s (on_user_disconnect service seq s)
unfolding on_user_disconnect
on_user_disconnect-Narrows service seq s =
    elim (Option-cases (lookup seq (s.service_at service).sessions)) [
      | inl g ↦ rw (g, on_user_disconnect) (Narrows-refl s)
      | inr (session, g) ↦
          rw (g, on_user_disconnect)
            (cleaned-Narrows service session s (mark_user_gone service seq session s)
              (mark_user_gone-IsSame service seq session s))
    ]

pub on_user_recv-Narrows :
    (service seq : ℕ) (buf : Bytes) (s : App) → Narrows s (on_user_recv service seq buf s)
unfolding on_user_recv
on_user_recv-Narrows service seq buf s =
    elim (Option-cases (lookup seq (s.service_at service).sessions)) [
      | inl g ↦ rw (g, on_user_recv) (Narrows-refl s)
      | inr (session, g) ↦
          rw (g, on_user_recv)
            (IsSame-Narrows (cork_user-IsSame s.queue_limit service seq session s))
    ]

pub on_sent-Narrows : (sent : Sent) (s : App) → Narrows s (on_sent sent s)
unfolding on_sent on_tunnel_sent on_user_sent
on_sent-Narrows (tunnel_sent service session seq limit) s =
    cleaned-Narrows service session s (uncork_tunnel limit seq session s)
      (uncork_tunnel-IsSame limit seq session s)
on_sent-Narrows (user_sent service session seq limit) s =
    cleaned-Narrows service session s (uncork_user limit service seq session s)
      (uncork_user-IsSame limit service seq session s)
