-- ===== src/Link/Announcing.antt =====
-- The announcement of the agent's services: __OnServerConnect of r-nat-c/app1/tunnel.cpp, and what
-- BIND makes of it in __OnAgentRecv of r-nat-s/app1/tunnel.cpp.
use r_nat.Common.{
  ℕ, ◌<◌, ◌^◌, ◌≡◌, refl, sym, ap, subst, ◌∙◌, Option, none, some, List, [], ◌∷◌, ◌++◌, Bool, true,
  ◌&&◌, ◌==◌, if◌then◌else◌, ◌>>=◌, map, arith, append-nil, append_assoc, nat_key, lookup,
  lookup-insert, is_some, Ensures-some,
}
use r_nat.Protocol.{Bytes, A2r, put_a2r}
use r_nat.Protocol.RoundTrip.{parse-put_a2r}
use r_nat.Relay.State.{App}
use r_nat.Relay.Step.{agent_sends, step, run}
use r_nat.Relay.Registry.Invariant.{IsRegistered, step-IsRegistered}
use r_nat.Relay.Directory.{Directory, Matches, Agrees, providers_of, add, offer, follow, advance}
use r_nat.Relay.Directory.Refinement.{step-Agrees}
use r_nat.Agent.State.{
  App as AgentApp, Effect, user_conn, session_conn, tunnel_conn, start, send, send_v, block_recv,
  close, post_reconnect, emit,
}
use r_nat.Agent.Tunnel.{announce, on_server_connect, tunnel_of}

-- What the agent gave a remote's client to send, oldest first.
unfoldable pub sent_on : (remote number : ℕ) → List Effect → List Bytes
sent_on r n [] = []
sent_on r n (send (tunnel_conn remote number) buf pfn ∷ es) =
    let rest = sent_on r n es in if remote == r && number == n then rest ++ buf ∷ [] else rest
sent_on r n (send (user_conn session) buf pfn ∷ es) = sent_on r n es
sent_on r n (send (session_conn session) buf pfn ∷ es) = sent_on r n es
sent_on r n (send_v client bufs pfn ∷ es) = sent_on r n es
sent_on r n (start client ep ∷ es) = sent_on r n es
sent_on r n (block_recv client b ∷ es) = sent_on r n es
sent_on r n (close client ∷ es) = sent_on r n es
sent_on r n (post_reconnect remote ∷ es) = sent_on r n es

abbrev binds : List ℕ → List Bytes
binds ports = map (λ port. put_a2r (A2r.bind port)) ports

sent_on-announce :
    (remote number : ℕ) (ports : List ℕ) (a : AgentApp)
    → (a.remote_at remote).tunnel ≡ number
    → sent_on remote number (announce remote ports a).effects
      ≡ sent_on remote number a.effects ++ binds ports
unfolding announce sent_on
sent_on-announce remote number [] a e = sym (append-nil _)
sent_on-announce remote number (port ∷ ports) a e =
    let b = emit (send (tunnel_of remote a) (put_a2r (A2r.bind port)) none) a in
    sent_on-announce remote number ports b e
    ∙ ap (λ bs. bs ++ binds ports) (ground (arith, e))
    ∙ append_assoc (sent_on remote number a.effects) (put_a2r (A2r.bind port) ∷ []) (binds ports)

-- Each port fits its type, and the relay can listen at it.
abbrev pub CanServe : (ℕ → Option Bool) → List ℕ → Type 0
CanServe listens [] = Unit {0}
CanServe listens (port ∷ ports) =
    (port < 2 ^ 16) × (listens port ≡ some true) × CanServe listens ports

-- The agent is among those that the relay finds for each port.
abbrev pub Serves : ℕ → List ℕ → (ℕ → ℕ → Bool) → Type 0
Serves seq [] serves = Unit {0}
Serves seq (port ∷ ports) serves = (serves seq port ≡ true) × Serves seq ports serves

abbrev pub serves_in : App → ℕ → ℕ → Bool
serves_in r seq port = is_some (lookup seq (providers_of r port))

abbrev pub IsWider : (ℕ → ℕ → Bool) → (ℕ → ℕ → Bool) → Type 0
IsWider f g = (a p : ℕ) → f a p ≡ true → g a p ≡ true

offer_lem :
    (listens : ℕ → Option Bool) (seq port : ℕ) (d : Directory)
    → d.connected seq ≡ true
    → listens port ≡ some true
    → offer listens seq port d ≡ some (add seq port d)
offer_lem listens seq port d c l = ground (arith, c, l)

Agrees-goes_on :
    (o : Option App) (d : Directory) → Agrees o (some d) → (s : App) × (o ≡ some s) × Matches s d
Agrees-goes_on none d g = absurd g
Agrees-goes_on (some s) d g = (s, refl, g)

-- One BIND: the relay goes on, and its directory has the agent at the port.
bind_lem :
    (listens : ℕ → Option Bool) (seq port : ℕ) (r : App) (d : Directory)
    → IsRegistered r
    → Matches r d
    → d.connected seq ≡ true
    → port < 2 ^ 16
    → listens port ≡ some true
    → (s : App) × (step listens (agent_sends seq (put_a2r (A2r.bind port))) r ≡ some s)
      × IsRegistered s
      × Matches s (add seq port d)
bind_lem listens seq port r d h m c b l =
    let e = agent_sends seq (put_a2r (A2r.bind port)) in
    let a : advance listens e d ≡ some (add seq port d) =
      ap (λ o. follow listens seq o d) (parse-put_a2r (A2r.bind port) b)
      ∙ offer_lem listens seq port d c l in
    let (s, x, n) =
      Agrees-goes_on (step listens e r) (add seq port d)
        (subst (λ o. Agrees (step listens e r) o) a (step-Agrees listens e r d h m)) in
    (s, x, Ensures-some IsRegistered (step listens e r) x (step-IsRegistered listens e r tt h), n)

abbrev serves_by : Directory → ℕ → ℕ → Bool
serves_by d a p = is_some (lookup a (d.providers p))

add-IsWider : (seq port : ℕ) (d : Directory) → IsWider (serves_by d) (serves_by (add seq port d))
add-IsWider seq port d a p h = ground (arith, h, lookup-insert seq a tt (d.providers port))

Serves-IsWider :
    (seq : ℕ) (ports : List ℕ) (f g : ℕ → ℕ → Bool)
    → IsWider f g
    → Serves seq ports f
    → Serves seq ports g
Serves-IsWider seq [] f g w s = tt
Serves-IsWider seq (port ∷ ports) f g w s = (w seq port s.0, Serves-IsWider seq ports f g w s.1)

-- What a relay has become after some BINDs of the agent `seq`.
record Bound (seq : ℕ) (ports : List ℕ) (d : Directory) (t : App) : Type 0 where
  after : Directory
  registered : IsRegistered t
  matches : Matches t after
  wider : IsWider (serves_by d) (serves_by after)
  serves : Serves seq ports (serves_by after)

binds_lem :
    (listens : ℕ → Option Bool) (seq : ℕ) (ports : List ℕ) (r : App) (d : Directory)
    → IsRegistered r
    → Matches r d
    → d.connected seq ≡ true
    → CanServe listens ports
    → (t : App) × (run listens (map (agent_sends seq) (binds ports)) r ≡ some t)
      × Bound seq ports d t
unfolding run
binds_lem listens seq [] r d h m c b =
    (r, refl, record { after = d; registered = h; matches = m; wider = λ a p x. x; serves = tt })
binds_lem listens seq (port ∷ ports) r d h m c b =
    let (s, x, i, n) = bind_lem listens seq port r d h m c b.0 b.1 in
    let (t, y, k) = binds_lem listens seq ports s (add seq port d) i n c b.2 in
    (
      t,
      ap (λ o. o >>= run listens (map (agent_sends seq) (binds ports))) x ∙ y,
      record {
        after = k.after;
        registered = k.registered;
        matches = k.matches;
        wider = λ a p z. k.wider a p (add-IsWider seq port d a p z);
        serves = (
          k.wider seq port (ground (arith, lookup-insert seq seq tt (d.providers port))),
          k.serves,
        );
      },
    )

serves_by-Matches :
    (r : App) (d : Directory) → Matches r d → (a p : ℕ) → serves_by d a p ≡ serves_in r a p
serves_by-Matches r d m a p = ap (λ k. is_some (lookup a k)) (sym (m.providers p))

-- The services of the agent come up at the relay: when a client of the agent that has sent nothing yet
-- is connected, what it is given to send makes a relay with consistent tables, which knows the agent
-- and can listen at the configured ports, find the agent for each of them; no BIND throws, no agent
-- is lost from a port, and the tables stay consistent.
pub on_server_connect-Serves :
    (listens : ℕ → Option Bool) (remote seq : ℕ) (a : AgentApp) (r : App)
    → IsRegistered r
    → is_some (lookup seq r.agents) ≡ true
    → CanServe listens a.service_ports
    → sent_on remote (a.remote_at remote).tunnel a.effects ≡ []
    → let bufs = sent_on remote (a.remote_at remote).tunnel (on_server_connect remote a).effects in
      (t : App) × (run listens (map (agent_sends seq) bufs) r ≡ some t)
      × Serves seq a.service_ports (serves_in t)
      × IsWider (serves_in r) (serves_in t)
      × IsRegistered t
unfolding on_server_connect
on_server_connect-Serves listens remote seq a r h k b f =
    let d : Directory = record {
      connected = λ i. is_some (lookup i r.agents);
      providers = λ p. providers_of r p;
    } in
    let m : Matches r d = record { connected = λ i. refl; providers = λ p. refl } in
    let (t, x, i) = binds_lem listens seq a.service_ports r d h m k b in
    let sent =
      sent_on-announce remote (a.remote_at remote).tunnel a.service_ports a refl
      ∙ ap (λ bs. bs ++ binds a.service_ports) f in
    let same = serves_by-Matches t i.after i.matches in
    (
      t,
      ap (λ bs. run listens (map (agent_sends seq) bs) r) sent ∙ x,
      Serves-IsWider seq a.service_ports (serves_by i.after) (serves_in t)
          (λ j p z. sym (same j p) ∙ z) i.serves,
      λ j p z. sym (same j p) ∙ i.wider j p z,
      i.registered,
    )
