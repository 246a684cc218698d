-- ===== src/Relay/Startup/Listening.antt =====
-- What r-nat-s listens at once it has started.
use r_nat.Common.{
  ◌+◌, ◌<◌, ◌^◌, ◌≡◌, refl, sym, ap, ◌∙◌, inl, inr, some, List, [], ◌∷◌, ◌++◌, Bool, true, false,
  ◌&&◌, ◌||◌, ◌==◌, not, length, length-append, arith, append-nil, append_assoc, nat_key, insert,
  length-insert_new, ◌>>=◌, Option-cases,
}
use r_nat.Protocol.{Bytes}
use r_nat.Endpoint.{Endpoint}
use r_nat.Config.{Config}
use r_nat.Connection.{Connection}
use r_nat.Relay.Registry.Invariant.{IsRegistered, initial}
use r_nat.TcpServer.{
  TcpServer, ConnectionOps, tcp_ops, start, start_accepting, start_next_connection, open_acceptors,
  init_listening, has_acceptor, Effect, async_accept, close_acceptor, close_conn, connected,
  disconnected, received, post_start, post_send, post_send_v, block_recv,
}
use r_nat.TcpServer.Numbers.{get_next_seq-IsFresh}
use r_nat.Relay.Startup.{Relay, init, start_up, new_server, resolve_locals, empty_app}

abbrev pub all_listen : (Endpoint → Bool) → List Endpoint → Bool
all_listen listen [] = true
all_listen listen (ep ∷ eps) = let rest = all_listen listen eps in listen ep && rest

module _ {C : Type 0} (ops : ConnectionOps C) where
  open_acceptors-all :
      (listen : Endpoint → Bool) (eps : List Endpoint) (s : TcpServer C)
      → all_listen listen eps ≡ true
      → open_acceptors listen eps s ≡ some (record s { acceptors = s.acceptors ++ eps })
  unfolding open_acceptors
  open_acceptors-all listen [] s h =
      ap (λ a. some (record s { acceptors = a })) (sym (append-nil s.acceptors))
  open_acceptors-all listen (ep ∷ eps) s h = ground (
    arith,
    open_acceptors-all listen eps (record s { acceptors = s.acceptors ++ ep ∷ [] }),
    append_assoc s.acceptors (ep ∷ []) eps,
  )

-- The acceptors on which a connection was asked for, in order.
pub accepting : List Effect → List Endpoint
accepting [] = []
accepting (async_accept acceptor seq ∷ es) = accepting es ++ acceptor ∷ []
accepting (close_acceptor ep ∷ es) = accepting es
accepting (close_conn seq ∷ es) = accepting es
accepting (connected seq ∷ es) = accepting es
accepting (disconnected seq e ∷ es) = accepting es
accepting (received seq buf ∷ es) = accepting es
accepting (post_start seq ∷ es) = accepting es
accepting (post_send seq pkt f ∷ es) = accepting es
accepting (post_send_v seq ds f ∷ es) = accepting es
accepting (block_recv seq b ∷ es) = accepting es

-- A server that has asked for one connection on each of `eps`.
pub record Awaits {C : Type 0} (eps : List Endpoint) (s t : TcpServer C) : Type 0 where
  pub conns : length t.conns ≡ length s.conns + length eps
  pub asked : accepting t.effects ≡ accepting s.effects ++ eps
  pub acceptors : t.acceptors ≡ s.acceptors
  pub inited : t.inited ≡ s.inited

Awaits-trans :
    {C : Type 0} {eps fs : List Endpoint} {s t u : TcpServer C}
    → Awaits eps s t
    → Awaits fs t u
    → Awaits (eps ++ fs) s u
Awaits-trans {C} {eps} {fs} {s} k l = record {
  conns = omega (arith, k.conns, l.conns, length-append eps fs);
  asked = l.asked ∙ ap (λ xs. xs ++ fs) k.asked ∙ append_assoc (accepting s.effects) eps fs;
  acceptors = l.acceptors ∙ k.acceptors;
  inited = l.inited ∙ k.inited;
}

module _ {C : Type 0} (ops : ConnectionOps C) where
  start_next_connection-Awaits :
      (ep : Endpoint) (s : TcpServer C)
      → length s.conns < 2 ^ 32
      → (t : TcpServer C) × (start_next_connection ops ep s ≡ some t) × Awaits (ep ∷ []) s t
  unfolding start_next_connection accepting
  start_next_connection-Awaits ep s h =
      let r = get_next_seq-IsFresh s h in
      (
        record s {
          next_seq = r.0;
          conns = insert r.0 (ops.configure s.settings) s.conns;
          effects = async_accept ep r.0 ∷ s.effects;
        },
        rw (r.1.0) refl,
        record {
          conns = omega (arith, length-insert_new r.0 (ops.configure s.settings) s.conns r.1.1);
          asked = refl;
          acceptors = refl;
          inited = refl;
        },
      )

  start_accepting-Awaits :
      (eps : List Endpoint) (s : TcpServer C)
      → length s.conns + length eps < 2 ^ 32
      → (t : TcpServer C) × (start_accepting ops eps s ≡ some t) × Awaits eps s t
  unfolding start_accepting
  start_accepting-Awaits [] s h = (
    s,
    refl,
    record { conns = omega arith; asked = sym (append-nil _); acceptors = refl; inited = refl },
  )
  start_accepting-Awaits (ep ∷ eps) s h =
      let (t, e, k) = start_next_connection-Awaits ep s (omega arith) in
      let (u, f, l) = start_accepting-Awaits eps t (omega (arith, k.conns)) in
      (u, ap (λ o. o >>= start_accepting ops eps) e ∙ f, Awaits-trans k l)

  -- Start of an idle server, where it can listen at every endpoint.
  pub start-Awaits :
      (listen : Endpoint → Bool) (eps : List Endpoint) (s : TcpServer C)
      → all_listen listen eps ≡ true
      → s.acceptors ≡ []
      → length s.conns + length eps < 2 ^ 32
      → (t : TcpServer C) × (start ops listen eps s ≡ some (t, has_acceptor eps || s.inited))
        × (length t.conns ≡ length s.conns + length eps)
        × (accepting t.effects ≡ accepting s.effects ++ eps)
        × (t.acceptors ≡ eps)
        × (t.inited ≡ (has_acceptor eps || s.inited))
  unfolding start init_listening
  start-Awaits listen eps s a idle h =
      let s1 = record s { acceptors = eps } in
      let opened : open_acceptors listen eps s ≡ some s1 =
        open_acceptors-all ops listen eps s a
        ∙ ap (λ xs. some (record s { acceptors = xs })) (ap (λ xs. xs ++ eps) idle) in
      let (t, e, k) = start_accepting-Awaits eps (init_listening s1) h in
      (
        t,
        rw (opened) (ap (λ o. o >>= λ s3. some (s3, s3.inited)) e ∙ ap (λ b. some (t, b)) k.inited),
        k.conns,
        k.asked,
        k.acceptors,
        k.inited,
      )

has_acceptor-listenep : (eps : List Endpoint) → (length eps == 0) ≡ false → has_acceptor eps ≡ true
has_acceptor-listenep [] h = absurd (ground arith)
has_acceptor-listenep (e ∷ eps) h = refl

-- A relay that has started.
pub record IsUp (r : Relay) : Type 0 where
  pub server : TcpServer Connection
  pub held : r.server ≡ some server
  pub inited : server.inited ≡ true
  pub acceptors : server.acceptors ≡ r.listenep
  pub asked : accepting server.effects ≡ r.listenep
  pub conns : length server.conns ≡ length r.listenep
  pub registered : IsRegistered r.app

pub init_lem :
    (resolve : Bytes → Bytes → List Endpoint) (signed : Bool) (c : Config) (r : Relay) (b : Bool)
    → init resolve signed c ≡ some (r, b)
    → (b ≡ not (length r.listenep == 0)) × (r.app ≡ empty_app signed c)
unfolding init
init_lem resolve signed c r b e = elim (Option-cases (resolve_locals resolve c.locals [])) [
  | inl f ↦ absurd (ground (arith, f))
  | inr (eps, f) ↦ ground (arith, f)
]

-- Init and Start: where Init succeeds, asio can listen at every address that it found, and there are
-- fewer than 2^32 of them, Start does not throw; then the relay listens at all of them, a connection
-- with a number of its own is asked for on each, and its tables are consistent.
pub start_up-IsUp :
    (resolve : Bytes → Bytes → List Endpoint) (signed : Bool) (listen : Endpoint → Bool)
    (c : Config) (r : Relay)
    → init resolve signed c ≡ some (r, true)
    → all_listen listen r.listenep ≡ true
    → length r.listenep < 2 ^ 32
    → (q : Relay) × (start_up listen c r ≡ some q)
      × (q.listenep ≡ r.listenep)
      × (q.app ≡ r.app)
      × IsUp q
unfolding start_up accepting
start_up-IsUp resolve signed listen c r e a h =
    let i = init_lem resolve signed c r true e in
    let eps = r.listenep in
    let (t, f, conns, asked, acceptors, inited) =
      start-Awaits tcp_ops listen eps (new_server c) a refl (omega arith) in
    let some_eps : (length r.listenep == 0) ≡ false = ground (arith, i.0) in
    let up : (has_acceptor eps || false) ≡ true =
      ground (arith, has_acceptor-listenep r.listenep some_eps) in
    (
      record r { server = some t },
      ap (λ o. o >>= λ s. some (record r { server = some s.0 })) f,
      refl,
      refl,
      record {
        server = t;
        held = refl;
        inited = inited ∙ up;
        acceptors = acceptors;
        asked = asked;
        conns = omega (arith, conns);
        registered = initial r.app (ap (λ s. s.services) i.1);
      },
    )
