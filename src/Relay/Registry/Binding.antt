-- ===== src/Relay/Registry/Binding.antt =====
-- The consistency of services_ and agents_ of r-nat-s/app1, and what BIND does to them.
use r_nat.Common.{
  ℕ, suc, ◌<◌, ◌≡◌, refl, none, some, [], ◌∷◌, true, false, ◌==◌, length, arith, nat_key, KeySet,
  contains, lookup, insert, lookup-insert,
}
use r_nat.Relay.State.{App, AgentInfo, ServiceInfo, set_agent, set_service}
use r_nat.Relay.Tunnel.{new_service}
use r_nat.Relay.Registry.{Keeps, is_bound}
use r_nat.Relay.Registry.Leave.{IsLeaving, Keeps-IsLeaving}

-- Every listed service has an agent, its own port and an allocated object, and each of its agents is
-- known and lists the port.
pub record IsRegistered (s : App) : Type 0 where
  pub served :
      (p r : ℕ) → lookup p s.services ≡ some r → (length (s.service_at r).agents == 0) ≡ false
  pub port : (p r : ℕ) → lookup p s.services ≡ some r → (s.service_at r).port ≡ p
  pub fresh : (p r : ℕ) → lookup p s.services ≡ some r → r < s.next_ref
  pub bound :
      (p r a : ℕ)
      → lookup p s.services ≡ some r
      → contains a (s.service_at r).agents ≡ true
      → is_bound s a p ≡ true

pub leaving : {s : App} → IsRegistered s → IsLeaving 0 [] s
leaving h = record {
  served = h.served;
  port = h.port;
  fresh = h.fresh;
  bound = λ p r a x c. ground (arith, h.bound p r a);
}

pub stayed : {s : App} → IsLeaving 0 [] s → IsRegistered s
unfolding lookup
stayed h = record {
  served = h.served;
  port = h.port;
  fresh = h.fresh;
  bound = λ p r a x c. ground (arith, h.bound p r a);
}

pub Keeps-IsRegistered : {s t : App} → Keeps s t → IsRegistered s → IsRegistered t
Keeps-IsRegistered k h = stayed (Keeps-IsLeaving k (leaving h))

length-insert : (k : ℕ) (m : KeySet) → (length (insert k tt m) == 0) ≡ false
unfolding insert
length-insert k [] = refl
length-insert k ((j, u) ∷ m) = ground arith

pub join-IsRegistered :
    (seq p r : ℕ) (agent : AgentInfo) (s : App)
    → lookup seq s.agents ≡ some agent
    → lookup p s.services ≡ some r
    → IsRegistered s
    → IsRegistered (
        set_agent seq
          (record agent { ports = insert p tt agent.ports })
          (set_service r
            (record (s.service_at r) { agents = insert seq tt (s.service_at r).agents })
            s))
unfolding is_bound
join-IsRegistered seq p r agent s e f h = record {
  served = λ q w x. ground (arith, h.served q w, length-insert seq (s.service_at r).agents);
  port = λ q w x. ground (arith, h.port q w);
  fresh = λ q w x. h.fresh q w x;
  bound = λ q w a x c. ground (
    arith,
    e,
    lookup-insert seq a (record agent { ports = insert p tt agent.ports }) s.agents,
    lookup-insert p q tt agent.ports,
    lookup-insert seq a tt (s.service_at r).agents,
    h.bound q w a,
    h.port q w,
    h.port p r,
  );
}

-- A service that no port leads to.
pub spare-IsRegistered :
    (svc : ServiceInfo) (s : App)
    → IsRegistered s
    → IsRegistered (set_service s.next_ref svc (record s { next_ref = suc s.next_ref }))
unfolding is_bound
spare-IsRegistered svc s h = record {
  served = λ q w x. ground (arith, h.served q w, h.fresh q w);
  port = λ q w x. ground (arith, h.port q w, h.fresh q w);
  fresh = λ q w x. ground (arith, h.fresh q w);
  bound = λ q w a x c. ground (arith, h.fresh q w, h.bound q w a);
}

pub found-IsRegistered :
    (seq p : ℕ) (agent : AgentInfo) (s : App)
    → lookup seq s.agents ≡ some agent
    → lookup p s.services ≡ none
    → IsRegistered s
    → IsRegistered (
        set_agent seq
          (record agent { ports = insert p tt agent.ports })
          (record (set_service s.next_ref (new_service p seq) s) {
            next_ref = suc s.next_ref;
            services = insert p s.next_ref s.services;
          }))
unfolding is_bound lookup insert
found-IsRegistered seq p agent s e f h = record {
  served =
      λ q w x. ground (arith, lookup-insert p q s.next_ref s.services, h.fresh q w, h.served q w);
  port = λ q w x. ground (arith, lookup-insert p q s.next_ref s.services, h.fresh q w, h.port q w);
  fresh = λ q w x. ground (arith, lookup-insert p q s.next_ref s.services, h.fresh q w);
  bound = λ q w a x c. ground (
    arith,
    lookup-insert p q s.next_ref s.services,
    h.fresh q w,
    e,
    lookup-insert seq a (record agent { ports = insert p tt agent.ports }) s.agents,
    lookup-insert p q tt agent.ports,
    h.bound q w a,
  );
}
