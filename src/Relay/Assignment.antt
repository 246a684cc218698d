-- ===== src/Relay/Assignment.antt =====
-- The choice of an agent for a user: __OnUserConnect of r-nat-s/app1/user.cpp.
use r_nat.Common.{
  ℕ, suc, ◌%◌, ◌≡◌, refl, sym, ap, ◌∙◌, subst, some, ◌∷◌, Bool, true, false, ◌==◌, length, insert,
  lookup-insert, get_elem?, get_elem?-lt, lookup-get_elem?, arith, nat_key, contains, lookup,
}
use r_nat.Balance.{fnv_hash_int}
use r_nat.Protocol.{R2a, put_r2a}
use r_nat.Relay.State.{App, AgentInfo, LoadPolicy, agent_send, new_session}
use r_nat.Relay.User.{cli_index, assign, assign_to, on_user_connect}
use r_nat.Relay.Registry.{bound_agent}
use r_nat.Relay.Registry.Invariant.{IsRegistered}

-- The user is handed to the agent: the one thing sent is CONNECT, to this agent, with the port, the
-- user's number and its address; and one new session, of this user and this agent, stands in the
-- tables of the service and of the agent.
pub record IsHanded (s t : App) (p r seq ip port agent_seq : ℕ) (agent : AgentInfo) : Type 0 where
  pub asked : t.effects ≡ agent_send agent_seq (put_r2a (R2a.connect p seq ip port)) ∷ s.effects
  pub in_service : (t.service_at r).sessions ≡ insert seq s.next_ref (s.service_at r).sessions
  pub in_agent :
      lookup agent_seq t.agents
      ≡ some (record agent { sessions = insert seq s.next_ref agent.sessions })
  pub session_is : t.session_at s.next_ref ≡ record new_session { seq = seq; agent_id = agent_seq }
  pub next : t.next_ref ≡ suc s.next_ref

assign-IsHanded :
    (r seq ip port a : ℕ) (agent : AgentInfo) (s : App)
    → IsHanded s (assign r seq ip port a agent s) (s.service_at r).port r seq ip port a agent
unfolding assign
assign-IsHanded r seq ip port a agent s = record {
  asked = refl;
  in_service = ground arith;
  in_agent = ground (
    arith,
    lookup-insert a a (record agent { sessions = insert seq s.next_ref agent.sessions }) s.agents,
  );
  session_is = ground arith;
  next = refl;
}

-- The number that a policy assigns by: the hash of the user's address, or the user's own number.
abbrev pub number_by : LoadPolicy → (hash seq : ℕ) → ℕ
number_by LoadPolicy.by_ip hash seq = hash
number_by LoadPolicy.by_seq hash seq = seq

-- The agent at the place in the service's set that the policy's number selects.
pub record IsAssigned (s t : App) (p r seq ip port : ℕ) : Type 0 where
  pub agent_seq : ℕ
  pub agent : AgentInfo
  pub chosen :
      get_elem? (s.service_at r).agents (
        number_by s.load_policy (fnv_hash_int s.char_is_signed ip) seq
        % length (s.service_at r).agents)
      ≡ some (agent_seq, tt)
  pub known : lookup agent_seq s.agents ≡ some agent
  pub bound : contains p agent.ports ≡ true
  pub handed : IsHanded s t p r seq ip port agent_seq agent
  pub result : t ≡ assign r seq ip port agent_seq agent s

pub on_user_connect_lem :
    (s : App) (r seq ip port a : ℕ) (agent : AgentInfo)
    → (length (s.service_at r).agents == 0) ≡ false
    → get_elem?
        (s.service_at r).agents
        (cli_index s.char_is_signed s.load_policy seq ip % length (s.service_at r).agents)
      ≡ some (a, tt)
    → lookup a s.agents ≡ some agent
    → on_user_connect r seq ip port s ≡ assign r seq ip port a agent s
unfolding on_user_connect
on_user_connect_lem s r seq ip port a agent n at known =
    rw (n, at, on_user_connect) (rw (known, assign_to) refl)

cli_index-number_by :
    (signed : Bool) (policy : LoadPolicy) (seq ip : ℕ)
    → cli_index signed policy seq ip ≡ number_by policy (fnv_hash_int signed ip) seq
unfolding cli_index
cli_index-number_by signed LoadPolicy.by_ip seq ip = refl
cli_index-number_by signed LoadPolicy.by_seq seq ip = refl

-- In a consistent registry the user of a listed port is handed to the agent at the place, among those
-- of the service, that the hash of the user's address selects, or its number, as the policy says; this
-- agent is known and serves the port, and it and no other is sent CONNECT, with the port, the user's
-- number and its address; and one new session, of this user and this agent, stands in the tables of
-- the service and of the agent.
pub on_user_connect-IsAssigned :
    (s : App) (p r seq ip port : ℕ)
    → IsRegistered s
    → lookup p s.services ≡ some r
    → IsAssigned s (on_user_connect r seq ip port s) p r seq ip port
on_user_connect-IsAssigned s p r seq ip port h e =
    let agents = (s.service_at r).agents in
    let some_agents : (length agents == 0) ≡ false = h.served p r e in
    let i = cli_index s.char_is_signed s.load_policy seq ip % length agents in
    let (x, at) = get_elem?-lt agents i (ground arith) in
    let known =
      bound_agent s x.0 p (lookup x.0 s.agents) refl
        (h.bound p r x.0 e (lookup-get_elem? agents i x.0 x.1 at)) in
    let on = on_user_connect_lem s r seq ip port x.0 known.0 some_agents at known.1 in
    let a = assign r seq ip port x.0 known.0 s in
    let q = h.port p r e in
    record {
      agent_seq = x.0;
      agent = known.0;
      chosen =
          ap (λ n. get_elem? agents (n % length agents))
            (sym (cli_index-number_by s.char_is_signed s.load_policy seq ip))
          ∙ at;
      handed =
          subst (λ t. IsHanded s t p r seq ip port x.0 known.0) (sym on)
            (subst (λ n. IsHanded s a n r seq ip port x.0 known.0) q
              (assign-IsHanded r seq ip port x.0 known.0 s));
      known = known.1;
      bound = known.2;
      result = on;
    }
