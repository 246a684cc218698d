-- ===== src/Relay/Directory/Changes.antt =====
-- The changes that the handlers of r-nat-s/app1 make to services_ and agents_, on a directory.
use r_nat.Common.{
  ℕ, suc, ◌≡◌, refl, sym, ap, ◌∙◌, inl, inr, none, some, [], arith, nat_key, lookup, insert, erase,
  lookup-insert, Option-cases,
}
use r_nat.Relay.State.{App, AgentInfo, set_agent, set_service}
use r_nat.Relay.Tunnel.{on_agent_connect, on_agent_disconnect, new_service, on_unbind}
use r_nat.Relay.Registry.{Keeps}
use r_nat.Relay.Registry.Invariant.{IsRegistered}
use r_nat.Relay.Directory.{Directory, Matches, providers_of, join, leave, add}
use r_nat.Relay.Directory.Leaving.{
  providers_of-Keeps, on_agent_disconnect-providers_of, on_agent_disconnect-connected,
  stranger-absent, erase-absent,
}

pub Keeps-Matches : {s t : App} {d : Directory} → Keeps s t → Matches s d → Matches t d
Keeps-Matches {s} {t} {d} k m = record {
  connected = λ a. k.known a ∙ m.connected a;
  providers = λ p. providers_of-Keeps p k ∙ m.providers p;
}

pub on_agent_connect-Matches :
    (seq : ℕ) (s : App) (d : Directory)
    → Matches s d
    → Matches (on_agent_connect seq s) (join seq d)
unfolding on_agent_connect providers_of
on_agent_connect-Matches seq s d m = record {
  connected = λ a. ground (
    arith,
    lookup-insert seq a (record { seq = seq; ports = []; sessions = [] }) s.agents,
    m.connected a,
  );
  providers = λ p. m.providers p;
}

stranger_leaves : (seq : ℕ) (s : App) → lookup seq s.agents ≡ none → on_agent_disconnect seq s ≡ s
unfolding on_agent_disconnect
stranger_leaves seq s e = rw (e, on_agent_disconnect) refl

pub stranger_unbinds : (seq p : ℕ) (s : App) → lookup seq s.agents ≡ none → on_unbind seq p s ≡ s
unfolding on_unbind
stranger_unbinds seq p s e = rw (e, on_unbind) refl

pub on_agent_disconnect-Matches :
    (seq : ℕ) (s : App) (d : Directory)
    → IsRegistered s
    → Matches s d
    → Matches (on_agent_disconnect seq s) (leave seq d)
on_agent_disconnect-Matches seq s d h m = elim (Option-cases (lookup seq s.agents)) [
  | inl e ↦
      let same = stranger_leaves seq s e in
      record {
        connected = λ a. ground (arith, same, m.connected a, e);
        providers = λ p.
            ap (λ t. providers_of t p) same
            ∙ sym (erase-absent seq (providers_of s p) (stranger-absent seq p s e h))
            ∙ ap (erase seq) (m.providers p);
      }
  | inr (agent, e) ↦ record {
    connected = λ a. ground (arith, on_agent_disconnect-connected seq a agent s e, m.connected a);
    providers =
        λ p. on_agent_disconnect-providers_of seq p agent s e h ∙ ap (erase seq) (m.providers p);
  }
]

-- The agent joins a listed service.
pub join-Matches :
    (seq p r : ℕ) (agent : AgentInfo) (s : App) (d : Directory)
    → lookup seq s.agents ≡ some agent
    → lookup p s.services ≡ some r
    → IsRegistered s
    → Matches s d
    → Matches
        (set_agent seq
          (record agent { ports = insert p tt agent.ports })
          (set_service r
            (record (s.service_at r) { agents = insert seq tt (s.service_at r).agents })
            s))
        (add seq p d)
join-Matches seq p r agent s d e f h m = record {
  connected = λ a. ground (
    arith,
    e,
    lookup-insert seq a (record agent { ports = insert p tt agent.ports }) s.agents,
    m.connected a,
  );
  providers = λ q. elim (Option-cases (lookup q s.services)) [
    | inl g ↦ unfold providers_of in ground (arith, f, g, m.providers q)
    | inr (w, g) ↦
        unfold providers_of in
        ground (arith, f, g, h.port p r f, h.port q w g, m.providers q, m.providers p)
  ];
}

-- The agent opens a port.
pub found-Matches :
    (seq p : ℕ) (agent : AgentInfo) (s : App) (d : Directory)
    → lookup seq s.agents ≡ some agent
    → lookup p s.services ≡ none
    → IsRegistered s
    → Matches s d
    → Matches
        (set_agent seq
          (record agent { ports = insert p tt agent.ports })
          (record (set_service s.next_ref (new_service p seq) s) {
            next_ref = suc s.next_ref;
            services = insert p s.next_ref s.services;
          }))
        (add seq p d)
found-Matches seq p agent s d e f h m = record {
  connected = λ a. ground (
    arith,
    e,
    lookup-insert seq a (record agent { ports = insert p tt agent.ports }) s.agents,
    m.connected a,
  );
  providers = λ q. elim (Option-cases (lookup q s.services)) [
    | inl g ↦
        unfold providers_of in
        ground (arith, f, g, lookup-insert p q s.next_ref s.services, m.providers q, m.providers p)
    | inr (w, g) ↦
        unfold providers_of in
        ground (
          arith,
          f,
          g,
          h.fresh q w g,
          lookup-insert p q s.next_ref s.services,
          m.providers q,
          m.providers p,
        )
  ];
}

-- A service that no port leads to.
pub spare-Matches :
    (seq p : ℕ) (s : App) (d : Directory)
    → IsRegistered s
    → Matches s d
    → Matches
        (set_service s.next_ref (new_service p seq) (record s { next_ref = suc s.next_ref }))
        d
spare-Matches seq p s d h m = record {
  connected = λ a. m.connected a;
  providers = λ q. elim (Option-cases (lookup q s.services)) [
    | inl g ↦ unfold providers_of in ground (arith, g, m.providers q)
    | inr (w, g) ↦ unfold providers_of in ground (arith, g, h.fresh q w g, m.providers q)
  ];
}
