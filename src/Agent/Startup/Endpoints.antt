-- ===== src/Agent/Startup/Endpoints.antt =====
-- The endpoints that Init of r-nat-c finds for its services, and CONNECT.
use mathlib.Core.Option.{some_inj}
use r_nat.Common.{
  ℕ, suc, ◌<◌, ◌≡◌, refl, sym, ap, subst, ◌∙◌, inl, inr, none, some, List, [], ◌∷◌, Bool, true,
  false, ◌==◌, length, arith, nat_key, Map, lookup, insert, lookup-insert, map, ◌%◌, ◌^◌,
  Option-cases, Bool-cases,
}
use mathlib.Core.List.{Memᴰ}
use r_nat.Protocol.{Bytes}
use r_nat.Endpoint.{Endpoint, endpoint_key}
use r_nat.Text.{trim}
use r_nat.Config.{Config, AddressInfo}
use r_nat.Agent.State.{App, user_key}
use r_nat.Agent.Tunnel.{on_connect}
use r_nat.Agent.Sessions.{IsOpened, session_of, on_connect-IsOpened}
use r_nat.Agent.Step.{Event, run}
use r_nat.Agent.Startup.Sets.{AllAre, get_elem?-Memᴰ, add_service-AllAre}
use r_nat.Agent.Startup.Services.{run-service_ep, start_up-service_ep}
use r_nat.Agent.Startup.{
  Agent, add_endpoint, endpoints_at, add_service, resolve_services, resolve_remotes, init, new_app,
  start_up,
}

-- No service without an endpoint.
abbrev pub AreServed : Map ℕ (List Endpoint) → Type 0
AreServed service_ep =
    (port : ℕ) (eps : List Endpoint) → lookup port service_ep ≡ some eps → 0 < length eps

length-map {ℓ κ} :
    {A : Type ℓ} {B : Type κ} (f : A → B) (xs : List A) → length (map f xs) ≡ length xs
length-map f [] = refl
length-map f (x ∷ xs) = ap suc (length-map f xs)

length-insert : (ep : Endpoint) (m : Map Endpoint (Unit {0})) → 0 < length (insert ep tt m)
unfolding insert
length-insert ep [] = omega arith
length-insert ep ((x, u) ∷ m) = ground arith

add_endpoint-length : (ep : Endpoint) (eps : List Endpoint) → 0 < length (add_endpoint ep eps)
add_endpoint-length ep eps =
    let m = insert ep tt (map (λ (e : Endpoint). (e, tt)) eps) in
    omega (
      arith,
      length-map (λ (x : Endpoint × Unit {0}). x.0) m,
      length-insert ep (map (λ (e : Endpoint). (e, tt)) eps),
    )

add_service-AreServed :
    (port : ℕ) (found : List Endpoint) (m : Map ℕ (List Endpoint))
    → AreServed m
    → AreServed (add_service port found m)
unfolding add_service
add_service-AreServed port [] m h = h
add_service-AreServed port (ep ∷ found) m h =
    let eps = add_endpoint ep (endpoints_at port m) in
    add_service-AreServed port found (insert port eps m) (λ p xs e. elim (Bool-cases (port == p)) [
      | inl q ↦
          ground
            (arith, lookup-insert port p eps m, add_endpoint-length ep (endpoints_at port m), q)
      | inr q ↦ h p xs (ground (arith, lookup-insert port p eps m, q))
    ])

module _ (resolve : Bytes → Bytes → List Endpoint) (atol : Bytes → ℕ) where
  -- The resolver found the endpoint for the address of one of these services, and the service is
  -- known by the port.
  pub record IsFound (locals : List AddressInfo) (port : ℕ) (ep : Endpoint) : Type 0 where
    pub service : AddressInfo
    pub address : Bytes
    pub listed : Memᴰ service locals
    pub trimmed : trim service.address ≡ some address
    pub known_by : atol service.service_port % 2 ^ 16 ≡ port
    pub resolved : Memᴰ ep (resolve address service.port)

  resolve_services-IsFound :
      (all locals : List AddressInfo) (m n : Map ℕ (List Endpoint))
      → ((a : AddressInfo) → Memᴰ a locals → Memᴰ a all)
      → AllAre (IsFound all) m
      → resolve_services resolve atol locals m ≡ some n
      → AllAre (IsFound all) n
  unfolding resolve_services
  resolve_services-IsFound all [] m n i h e = subst (AllAre (IsFound all)) (some_inj.0 e) h
  resolve_services-IsFound all (a ∷ others) m n i h e = elim (Option-cases (trim a.address)) [
    | inl x ↦ absurd (ground (arith, x))
    | inr (address, x) ↦
        let port = atol a.service_port % 2 ^ 16 in
        resolve_services-IsFound all others (add_service port (resolve address a.port) m) n
          (λ b k. i b (Memᴰ.tail k))
          (add_service-AllAre (IsFound all) port (resolve address a.port) m
            (λ ep k. record {
              service = a;
              address = address;
              listed = i a (Memᴰ.head refl);
              trimmed = x;
              known_by = refl;
              resolved = k;
            })
            h)
          (ground (arith, x))
  ]

  resolve_services-AreServed :
      (locals : List AddressInfo) (m n : Map ℕ (List Endpoint))
      → AreServed m
      → resolve_services resolve atol locals m ≡ some n
      → AreServed n
  unfolding resolve_services
  resolve_services-AreServed [] m n h e = subst AreServed (some_inj.0 e) h
  resolve_services-AreServed (a ∷ others) m n h e = elim (Option-cases (trim a.address)) [
    | inl x ↦ absurd (ground (arith, x))
    | inr (address, x) ↦
        let port = atol a.service_port % 2 ^ 16 in
        resolve_services-AreServed others (add_service port (resolve address a.port) m) n
          (add_service-AreServed port (resolve address a.port) m h) (ground (arith, x))
  ]

  pub init_lem :
      (signed : Bool) (c : Config) (a : Agent)
      → init resolve atol signed c ≡ some (a, true)
      → (m : Map ℕ (List Endpoint)) × (resolve_services resolve atol c.locals [] ≡ some m)
        × (a.app ≡ new_app resolve atol signed c m)
        × (resolve_remotes resolve c.remotes [] ≡ some a.remote_ep)
        × ((length a.remote_ep == 0) ≡ false)
  unfolding init
  init_lem signed c a e = elim (Option-cases (resolve_services resolve atol c.locals [])) [
    | inl x ↦ absurd (ground (arith, x))
    | inr (m, x) ↦ elim (Option-cases (resolve_remotes resolve c.remotes [])) [
      | inl y ↦ absurd (ground (arith, x, y))
      | inr (eps, y) ↦ (m, x, ground (arith, x, y), ground (arith, x, y), ground (arith, x, y))
    ]
  ]

  -- What Init finds is what CONNECT needs: in every state that an agent whose Init succeeded comes to
  -- after Start, by any events, a CONNECT for a user that the remote does not have then, of a port that
  -- Init gave an entry, opens one session at an endpoint of this entry; no entry is without an
  -- endpoint; and the resolver found this one for the trimmed address and the port of a service of
  -- the configuration whose service_port, as a 16-bit number, is the port of the CONNECT.
  pub init-on_connect :
      (signed : Bool) (c : Config) (a : Agent) (es : List Event) (remote port id usr_ip : ℕ)
      (eps : List Endpoint)
      → init resolve atol signed c ≡ some (a, true)
      → session_of (run es (start_up a).app) remote (port, id) ≡ none
      → lookup port a.app.service_ep ≡ some eps
      → let s = run es (start_up a).app in
        (0 < length eps)
        × (o : IsOpened s (on_connect remote port id usr_ip s) remote port id usr_ip eps) × IsFound
            c.locals port o.endpoint
  init-on_connect signed c a es remote port id usr_ip eps e new known =
      let (m, x, app, _, _) = init_lem signed c a e in
      let found : lookup port m ≡ some eps =
        ap (λ (t : App). lookup port t.service_ep) (sym app) ∙ known in
      let some_eps =
        resolve_services-AreServed c.locals [] m (λ p xs h. absurd (unfold lookup in cc)) x port eps
          found in
      let s = run es (start_up a).app in
      let same : s.service_ep ≡ a.app.service_ep =
        run-service_ep es (start_up a).app ∙ start_up-service_ep a in
      let o =
        on_connect-IsOpened remote port id usr_ip eps s new (ap (lookup port) same ∙ known)
          some_eps in
      (
        some_eps,
        o,
        resolve_services-IsFound c.locals c.locals [] m (λ b k. k)
            (λ p xs y h k. absurd (unfold lookup in cc)) x port eps o.endpoint found
            (get_elem?-Memᴰ eps _ o.endpoint o.chosen),
      )
