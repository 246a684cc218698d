-- ===== src/Relay/Directory/Leaving.antt =====
-- What UNBIND and __OnAgentDisconnect of r-nat-s/app1/tunnel.cpp do to the agents of each port.
use r_nat.Common.{
  ℕ, ◌≡◌, refl, sym, ap, ◌∙◌, inl, inr, Option, none, some, [], ◌∷◌, true, false, ◌==◌,
  if◌then◌else◌, length, arith, Map, nat_key, KeySet, contains, lookup, erase, lookup-insert,
  lookup-erase, Option-cases, Bool-cases, is_some,
}
use r_nat.Relay.State.{App, AgentInfo, set_agent}
use r_nat.Relay.Tunnel.{
  hang_up, leave_service, leave_port, leave_ports, on_agent_disconnect, unbind_service, on_unbind,
}
use r_nat.Relay.Registry.{Keeps, is_bound}
use r_nat.Relay.Registry.Handlers.{hang_up-Keeps}
use r_nat.Relay.Registry.Leave.{IsLeaving, leave_port-IsLeaving, removed-IsLeaving}
use r_nat.Relay.Registry.Invariant.{IsRegistered, leaving}
use r_nat.Relay.Directory.{providers_of}

pub erase-absent : (k : ℕ) (m : KeySet) → contains k m ≡ false → erase k m ≡ m
unfolding erase lookup
erase-absent k [] h = refl
erase-absent k ((j, u) ∷ m) h = ground (arith, erase-absent k m)

contains-erase : (k : ℕ) (m : KeySet) → contains k (erase k m) ≡ false
contains-erase k m = ground (arith, lookup-erase k k m)

erase_twice : (k : ℕ) (m : KeySet) → erase k (erase k m) ≡ erase k m
erase_twice k m = erase-absent k (erase k m) (contains-erase k m)

length-zero : (m : KeySet) → (length m == 0) ≡ true → m ≡ []
length-zero [] h = refl
length-zero (x ∷ m) h = absurd (ground arith)

pub providers_of-Keeps : {s t : App} (p : ℕ) → Keeps s t → providers_of t p ≡ providers_of s p
unfolding providers_of
providers_of-Keeps {s} {t} p k = elim (Option-cases (lookup p s.services)) [
  | inl e ↦ ground (arith, e, k.services)
  | inr (r, e) ↦ ground (arith, e, k.services, k.agents r)
]

-- One port changes, and the listed services have objects of their own.
leave_service-providers_of :
    (seq p r q : ℕ) (s : App)
    → lookup p s.services ≡ some r
    → ((p r : ℕ) → lookup p s.services ≡ some r → (s.service_at r).port ≡ p)
    → providers_of (leave_service seq p r s) q
      ≡ (if q == p then erase seq (providers_of s p) else providers_of s q)
unfolding leave_service providers_of
leave_service-providers_of seq p r q s e port = elim (Option-cases (lookup q s.services)) [
  | inl f ↦
      ground
        (arith, e, f, lookup-erase p q s.services, length-zero (erase seq (s.service_at r).agents))
  | inr (w, f) ↦ ground (
    arith,
    e,
    f,
    port p r e,
    port q w f,
    lookup-erase p q s.services,
    length-zero (erase seq (s.service_at r).agents),
  )
]

leave_service-agents : (seq p r : ℕ) (s : App) → (leave_service seq p r s).agents ≡ s.agents
unfolding leave_service
leave_service-agents seq p r s = ground arith

leave_port-providers_of :
    (o : Option ℕ) (seq p q : ℕ) (sessions : Map ℕ ℕ) (pending : KeySet) (s : App)
    → lookup p s.services ≡ o
    → IsLeaving seq pending s
    → providers_of (leave_port o seq p sessions s) q
      ≡ (if q == p then erase seq (providers_of s q) else providers_of s q)
leave_port-providers_of none seq p q sessions pending s e h =
    unfold providers_of erase in ground (arith, e)
leave_port-providers_of (some r) seq p q sessions pending s e h =
    let k = hang_up-Keeps r sessions s in
    let t = hang_up r sessions s in
    let f = ap (lookup p) k.services ∙ e in
    let inv : (p r : ℕ) → lookup p t.services ≡ some r → (t.service_at r).port ≡ p =
      λ p r x. k.port r ∙ h.port p r (ap (lookup p) (sym k.services) ∙ x) in
    ground (
      arith,
      leave_service-providers_of seq p r q t f inv,
      providers_of-Keeps q k,
      providers_of-Keeps p k,
    )

leave_port-connected :
    (o : Option ℕ) (seq p a : ℕ) (sessions : Map ℕ ℕ) (s : App)
    → is_some (lookup a (leave_port o seq p sessions s).agents) ≡ is_some (lookup a s.agents)
leave_port-connected none seq p a sessions s = refl
leave_port-connected (some r) seq p a sessions s =
    ap (λ m. is_some (lookup a m)) (leave_service-agents seq p r (hang_up r sessions s))
    ∙ (hang_up-Keeps r sessions s).known a

leave_ports-connected :
    (seq a : ℕ) (ports : KeySet) (sessions : Map ℕ ℕ) (s : App)
    → is_some (lookup a (leave_ports seq ports sessions s).agents) ≡ is_some (lookup a s.agents)
unfolding leave_ports
leave_ports-connected seq a [] sessions s = refl
leave_ports-connected seq a ((p, u) ∷ ports) sessions s =
    leave_ports-connected seq a ports sessions (leave_port (lookup p s.services) seq p sessions s)
    ∙ leave_port-connected (lookup p s.services) seq p a sessions s

leave_ports-providers_of :
    (seq q : ℕ) (ports : KeySet) (sessions : Map ℕ ℕ) (s : App)
    → IsLeaving seq ports s
    → providers_of (leave_ports seq ports sessions s) q
      ≡ (if contains q ports then erase seq (providers_of s q) else providers_of s q)
unfolding leave_ports lookup
leave_ports-providers_of seq q [] sessions s h = refl
leave_ports-providers_of seq q ((p, u) ∷ ports) sessions s h =
    let t = leave_port (lookup p s.services) seq p sessions s in
    let one =
      leave_port-providers_of (lookup p s.services) seq p q sessions ((p, u) ∷ ports) s refl h in
    let rest =
      leave_ports-providers_of seq q ports sessions t
        (leave_port-IsLeaving (lookup p s.services) seq p ports sessions s refl h) in
    ground (arith, one, rest, erase_twice seq (providers_of s q))

-- An agent is on the list of no port that it does not have itself.
unlisted-absent :
    (seq q : ℕ) (agent : AgentInfo) (s : App)
    → lookup seq s.agents ≡ some agent
    → IsRegistered s
    → contains q agent.ports ≡ false
    → contains seq (providers_of s q) ≡ false
unfolding providers_of
unlisted-absent seq q agent s e h c = elim (Option-cases (lookup q s.services)) [
  | inl f ↦ unfold lookup in ground (arith, f)
  | inr (r, f) ↦ elim (Bool-cases (contains seq (s.service_at r).agents)) [
    | inl x ↦ absurd (unfold is_bound in ground (arith, e, h.bound q r seq f x))
    | inr x ↦ ground (arith, f, x)
  ]
]

-- The loss of a known agent's connection takes it off every port.
pub on_agent_disconnect-providers_of :
    (seq q : ℕ) (agent : AgentInfo) (s : App)
    → lookup seq s.agents ≡ some agent
    → IsRegistered s
    → providers_of (on_agent_disconnect seq s) q ≡ erase seq (providers_of s q)
unfolding on_agent_disconnect
on_agent_disconnect-providers_of seq q agent s e h =
    let s1 = record s { agents = erase seq s.agents } in
    let step =
      leave_ports-providers_of seq q agent.ports agent.sessions s1
        (removed-IsLeaving seq 0 agent s e (leaving h)) in
    let same : providers_of s1 q ≡ providers_of s q = unfold providers_of in refl in
    elim (Bool-cases (contains q agent.ports)) [
      | inl c ↦ rw (e, on_agent_disconnect) (ground (arith, step, same, c))
      | inr c ↦
          rw (e, on_agent_disconnect)
            (ground (
              arith,
              step,
              same,
              c,
              erase-absent seq (providers_of s q) (unlisted-absent seq q agent s e h c),
            ))
    ]

pub on_agent_disconnect-connected :
    (seq a : ℕ) (agent : AgentInfo) (s : App)
    → lookup seq s.agents ≡ some agent
    → is_some (lookup a (on_agent_disconnect seq s).agents)
      ≡ (if seq == a then false else is_some (lookup a s.agents))
unfolding on_agent_disconnect
on_agent_disconnect-connected seq a agent s e =
    let s1 = record s { agents = erase seq s.agents } in
    rw (e, on_agent_disconnect)
      (ground (
        arith,
        leave_ports-connected seq a agent.ports agent.sessions s1,
        lookup-erase seq a s.agents,
      ))

-- Where an agent is on no list, its loss changes none.
pub stranger-absent :
    (seq q : ℕ) (s : App)
    → lookup seq s.agents ≡ none
    → IsRegistered s
    → contains seq (providers_of s q) ≡ false
unfolding providers_of
stranger-absent seq q s e h = elim (Option-cases (lookup q s.services)) [
  | inl f ↦ unfold lookup in ground (arith, f)
  | inr (r, f) ↦ elim (Bool-cases (contains seq (s.service_at r).agents)) [
    | inl x ↦ absurd (unfold is_bound in ground (arith, e, h.bound q r seq f x))
    | inr x ↦ ground (arith, f, x)
  ]
]

unbind_service-providers_of :
    (o : Option ℕ) (seq p q : ℕ) (s : App)
    → lookup p s.services ≡ o
    → ((p r : ℕ) → lookup p s.services ≡ some r → (s.service_at r).port ≡ p)
    → providers_of (unbind_service o seq p s) q
      ≡ (if q == p then erase seq (providers_of s q) else providers_of s q)
unbind_service-providers_of none seq p q s e port = unfold providers_of erase in ground (arith, e)
unbind_service-providers_of (some r) seq p q s e port =
    ground (arith, leave_service-providers_of seq p r q s e port)

unbind_service-agents :
    (o : Option ℕ) (seq p : ℕ) (s : App) → (unbind_service o seq p s).agents ≡ s.agents
unbind_service-agents none seq p s = refl
unbind_service-agents (some r) seq p s = leave_service-agents seq p r s

-- UNBIND takes a known agent off the one port, and disconnects nobody.
pub on_unbind-providers_of :
    (seq p q : ℕ) (agent : AgentInfo) (s : App)
    → lookup seq s.agents ≡ some agent
    → IsRegistered s
    → (providers_of (on_unbind seq p s) q
        ≡ (if q == p then erase seq (providers_of s q) else providers_of s q))
      × (is_some (lookup q (on_unbind seq p s).agents) ≡ is_some (lookup q s.agents))
unfolding on_unbind providers_of
on_unbind-providers_of seq p q agent s e h =
    let old = record agent { ports = erase p agent.ports } in
    let s1 = set_agent seq old s in
    let one = unbind_service-providers_of (lookup p s.services) seq p q s1 refl h.port in
    let two = unbind_service-agents (lookup p s.services) seq p s1 in
    rw (e, on_unbind)
      (ground (arith, one), ground (arith, two, e, lookup-insert seq q old s.agents))
