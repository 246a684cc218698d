-- ===== src/TcpServer/Listening.antt =====
-- Start of r-nat-s/network/tcpserver.cpp, and BIND of r-nat-s/app1/tunnel.cpp, where a port cannot
-- be listened at.
use r_nat.Common.{
  ℕ, ◌≡◌, refl, ◌∙◌, Option, none, some, Bool, true, false, List, [], ◌∷◌, ◌++◌, arith, ◌>>=◌,
  Option-cases, ◌⊎◌, ap, lookup, nat_key, inl, inr,
}
use r_nat.Endpoint.{Endpoint}
use r_nat.Relay.State.{App, AgentInfo}
use r_nat.Relay.Tunnel.{on_bind}
use r_nat.TcpServer.{
  TcpServer, ConnectionOps, start, start_accepting, start_next_connection, open_acceptors,
  init_listening, has_acceptor,
}

has_acceptor-append :
    (ports : List Endpoint) (ep : Endpoint) → has_acceptor (ports ++ ep ∷ []) ≡ true
has_acceptor-append [] ep = refl
has_acceptor-append (a ∷ ports) ep = refl

-- Once there is an acceptor, whoever returns has one.
open_acceptors-has :
    {C : Type 0} (listen : Endpoint → Bool) (eps : List Endpoint) (s t : TcpServer C)
    → has_acceptor s.acceptors ≡ true
    → open_acceptors listen eps s ≡ some t
    → has_acceptor t.acceptors ≡ true
unfolding open_acceptors
open_acceptors-has listen [] s t h e = ground arith
open_acceptors-has listen (ep ∷ eps) s t h e =
    open_acceptors-has listen eps (record s { acceptors = s.acceptors ++ ep ∷ [] }) t
      (has_acceptor-append s.acceptors ep) (ground arith)

open_acceptors-cons :
    {C : Type 0} (listen : Endpoint → Bool) (ep : Endpoint) (eps : List Endpoint)
    (s t : TcpServer C)
    → open_acceptors listen (ep ∷ eps) s ≡ some t
    → has_acceptor t.acceptors ≡ true
unfolding open_acceptors
open_acceptors-cons listen ep eps s t e =
    open_acceptors-has listen eps (record s { acceptors = s.acceptors ++ ep ∷ [] }) t
      (has_acceptor-append s.acceptors ep) (ground arith)

start_next_connection-inited :
    {C : Type 0} (ops : ConnectionOps C) (ep : Endpoint) (s t : TcpServer C)
    → start_next_connection ops ep s ≡ some t
    → t.inited ≡ s.inited
unfolding start_next_connection
start_next_connection-inited ops ep s t e = ground arith

start_accepting-inited :
    {C : Type 0} (ops : ConnectionOps C) (eps : List Endpoint) (s t : TcpServer C)
    → start_accepting ops eps s ≡ some t
    → t.inited ≡ s.inited
unfolding start_accepting
start_accepting-inited ops [] s t e = ground arith
start_accepting-inited ops (ep ∷ eps) s t e = elim (Option-cases (start_next_connection ops ep s)) [
  | inl x ↦ absurd (ground (arith, x))
  | inr (u, x) ↦
      start_accepting-inited ops eps u t (ground (arith, x))
      ∙ start_next_connection-inited ops ep s u x
]

start-true :
    {C : Type 0} (ops : ConnectionOps C) (listen : Endpoint → Bool) (ep : Endpoint)
    (eps : List Endpoint) (s t : TcpServer C) (b : Bool)
    → start ops listen (ep ∷ eps) s ≡ some (t, b)
    → b ≡ true
unfolding start
start-true ops listen ep eps s t b e = elim (Option-cases (open_acceptors listen (ep ∷ eps) s)) [
  | inl x ↦ absurd (ground (arith, x))
  | inr (s1, x) ↦
      let s2 = init_listening s1 in
      elim (Option-cases (start_accepting ops s2.acceptors s2)) [
        | inl y ↦ absurd (ground (arith, x, y))
        | inr (s3, y) ↦
            let i : s2.inited ≡ true =
              unfold init_listening in ground (arith, open_acceptors-cons listen ep eps s s1 x) in
            let j = start_accepting-inited ops s2.acceptors s2 s3 y in ground (arith, x, y, i, j)
      ]
]

-- With at least one endpoint, Start throws or gives true, and never false.
pub start-throws_or_true :
    {C : Type 0} (ops : ConnectionOps C) (listen : Endpoint → Bool) (ep : Endpoint)
    (eps : List Endpoint) (s : TcpServer C)
    → (start ops listen (ep ∷ eps) s ≡ none)
      ⊎ ((t : TcpServer C) × (start ops listen (ep ∷ eps) s ≡ some (t, true)))
start-throws_or_true ops listen ep eps s = elim (Option-cases (start ops listen (ep ∷ eps) s)) [
  | inl x ↦ inl x
  | inr ((t, b), x) ↦ inr (t, x ∙ ap (λ c. some (t, c)) (start-true ops listen ep eps s t b x))
]

start-fails :
    {C : Type 0} (ops : ConnectionOps C) (listen : Endpoint → Bool) (ep : Endpoint)
    (eps : List Endpoint) (s : TcpServer C)
    → listen ep ≡ false
    → start ops listen (ep ∷ eps) s ≡ none
unfolding start open_acceptors
start-fails ops listen ep eps s h = ground arith

-- address_v4::any() and a port.
abbrev pub any_address : ℕ → Endpoint
any_address port = record { address = 0; port = port }

-- What BIND gets from Start of a server of its own for the port.
abbrev pub listens_with :
    {C : Type 0} → ConnectionOps C → (Endpoint → Bool) → TcpServer C → ℕ → Option Bool
listens_with ops listen server port =
    start ops listen (any_address port ∷ []) server >>= λ r. some r.1

-- A BIND by a connected agent of a port that no service has and that cannot be listened at ends in an
-- exception, and not in the answer with an error code.
pub on_bind-throws :
    {C : Type 0} (ops : ConnectionOps C) (listen : Endpoint → Bool) (server : TcpServer C)
    (seq port : ℕ) (agent : AgentInfo) (s : App)
    → lookup seq s.agents ≡ some agent
    → lookup port s.services ≡ none
    → listen (any_address port) ≡ false
    → on_bind (listens_with ops listen server) seq port s ≡ none
unfolding on_bind
on_bind-throws ops listen server seq port agent s e f h =
    rw (e, f, on_bind, start-fails ops listen (any_address port) [] server h) refl
