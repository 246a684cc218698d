-- ===== src/TcpServer/Numbers.antt =====
-- The numbers of connections: __GetNextSeq, __StartNextConnection and __OnAccept of
-- r-nat-s/network/tcpserver.cpp.
use r_nat.Common.{
  ℕ, zero, suc, ◌+◌, ◌%◌, ◌^◌, ◌≤◌, ◌<◌, ◌≡◌, refl, sym, ap, ◌∙◌, inl, inr, none, some, Bool, true,
  false, ◌==◌, if◌then◌else◌, Map, nat_key, lookup, erase, insert, lookup-erase, lookup-insert,
  length, length-erase-lt, is_some, arith, Bool-cases, ◌∷◌,
}
use r_nat.Endpoint.{Endpoint}
use r_nat.Connection.{ErrorCode, operation_aborted, invalid_argument, no_such_device, system}
use r_nat.TcpServer.{
  TcpServer, ConnectionOps, search_seq, get_next_seq, start_next_connection, on_accept, emit,
  async_accept, connected, post_start,
}

-- A search of fewer rounds than there are numbers does not come back to where it began.
search_seq-erase :
    {C : Type 0} (fuel d x c : ℕ) (m : Map ℕ C)
    → c < 2 ^ 32
    → x ≡ (c + d) % 2 ^ 32
    → d + fuel < 2 ^ 32
    → search_seq fuel x (erase c m) ≡ search_seq fuel x m
unfolding search_seq
search_seq-erase zero d x c m hc hx h = refl
search_seq-erase (suc fuel) d x c m hc hx h =
    let y = (x + 1) % 2 ^ 32 in
    ground (
      arith,
      lookup-erase c y m,
      search_seq-erase fuel (d + 1) y c m hc (omega arith) (omega arith),
    )

-- A search that finds the number `c` taken goes on from there.
search_seq-taken :
    {C : Type 0} (fuel next_seq c seq : ℕ) (m : Map ℕ C)
    → c ≡ (next_seq + 1) % 2 ^ 32
    → is_some (lookup c m) ≡ true
    → search_seq fuel c m ≡ some seq
    → search_seq (suc fuel) next_seq m ≡ some seq
unfolding search_seq
search_seq-taken fuel next_seq c seq m e t h = ground arith

-- Whatever number a search returns is free and fits in 32 bits.
pub search_seq-free :
    {C : Type 0} (fuel next_seq seq : ℕ) (m : Map ℕ C)
    → search_seq fuel next_seq m ≡ some seq
    → (is_some (lookup seq m) ≡ false) × (seq < 2 ^ 32)
unfolding search_seq
search_seq-free zero next_seq seq m h = absurd (ground arith)
search_seq-free (suc fuel) next_seq seq m h =
    let c = (next_seq + 1) % 2 ^ 32 in
    elim (Bool-cases (is_some (lookup c m))) [
      | inl taken ↦ search_seq-free fuel c seq m (ground arith)
      | inr free ↦
          let q : c ≡ seq = ground arith in
          (ap (λ n. is_some (lookup n m)) (sym q) ∙ free, omega (arith, q))
    ]

-- With more rounds than connections a search returns.
search_seq-total :
    {C : Type 0} (fuel next_seq : ℕ) (m : Map ℕ C)
    → length m < fuel
    → fuel ≤ 2 ^ 32
    → (seq : ℕ) × (search_seq fuel next_seq m ≡ some seq)
unfolding search_seq
search_seq-total zero next_seq m h w = absurd (omega arith)
search_seq-total (suc fuel) next_seq m h w =
    let c = (next_seq + 1) % 2 ^ 32 in
    elim (Bool-cases (is_some (lookup c m))) [
      | inl taken ↦
          let r =
            search_seq-total fuel c (erase c m) (omega (arith, length-erase-lt c m taken))
              (omega arith) in
          let small : c < 2 ^ 32 = omega arith in
          let same = search_seq-erase fuel 0 c c m small (omega arith) (omega arith) in
          (r.0, search_seq-taken fuel next_seq c r.0 m refl taken (sym same ∙ r.1))
      | inr free ↦ (c, ground arith)
    ]

-- A number for a new connection, as the search gives it.
abbrev pub IsFresh : {C : Type 0} → TcpServer C → ℕ → Type 0
IsFresh s seq =
    (get_next_seq s ≡ some seq) × (is_some (lookup seq s.conns) ≡ false) × (seq < 2 ^ 32)

-- A server with fewer than 2^32 connections always gets a number for a new one, wherever its counter
-- stands and also when the counter wraps: the search ends, and its number is free and fits 32 bits.
pub get_next_seq-IsFresh :
    {C : Type 0} (s : TcpServer C) → length s.conns < 2 ^ 32 → (seq : ℕ) × IsFresh s seq
unfolding get_next_seq
get_next_seq-IsFresh s h =
    let r =
      search_seq-total (suc (length s.conns)) s.next_seq s.conns (omega arith) (omega arith) in
    let f = search_seq-free (suc (length s.conns)) s.next_seq r.0 s.conns r.1 in
    (r.0, (r.1, f.0, f.1))

-- A state of the server after it has begun to accept one more connection.
pub record Accepting {C : Type 0} (ops : ConnectionOps C) (acceptor : Endpoint) (s t : TcpServer C)
    : Type 0 where
  pub seq : ℕ
  pub fresh : is_some (lookup seq s.conns) ≡ false
  pub asked : t.effects ≡ async_accept acceptor seq ∷ s.effects
  pub listed :
      (n : ℕ)
      → lookup n t.conns ≡ (if n == seq then some (ops.configure s.settings) else lookup n s.conns)

start_next_connection-Accepting :
    {C : Type 0} (ops : ConnectionOps C) (acceptor : Endpoint) (s : TcpServer C)
    → length s.conns < 2 ^ 32
    → (t : TcpServer C) × (start_next_connection ops acceptor s ≡ some t)
      × Accepting ops acceptor s t
unfolding start_next_connection
start_next_connection-Accepting ops acceptor s h =
    let r = get_next_seq-IsFresh s h in
    let seq = r.0 in
    (
      record s {
        next_seq = seq;
        conns = insert seq (ops.configure s.settings) s.conns;
        effects = async_accept acceptor seq ∷ s.effects;
      },
      rw (r.1.0) refl,
      record {
        seq = seq;
        fresh = r.1.1;
        asked = refl;
        listed = λ n. ground (arith, lookup-insert seq n (ops.configure s.settings) s.conns);
      },
    )

-- What an accept does before the next one is asked for: a new connection is announced and started.
abbrev pub accepted : {C : Type 0} → ℕ → ErrorCode → TcpServer C → TcpServer C
accepted seq none s = emit (post_start seq) (emit (connected seq) s)
accepted seq (some e) s = s

abbrev pub is_aborted : ErrorCode → Bool
is_aborted (some operation_aborted) = true
is_aborted e = false

pub on_accept_lem :
    {C : Type 0} (ops : ConnectionOps C) (seq : ℕ) (acceptor : Endpoint) (e : ErrorCode)
    (s : TcpServer C)
    → s.inited ≡ true
    → s.on_connect ≡ true
    → is_aborted e ≡ false
    → on_accept ops seq acceptor e s ≡ start_next_connection ops acceptor (accepted seq e s)
unfolding on_accept
on_accept_lem ops seq acceptor none s i c a = rw (i, c) refl
on_accept_lem ops seq acceptor (some operation_aborted) s i c a = absurd (ground arith)
on_accept_lem ops seq acceptor (some invalid_argument) s i c a = rw i refl
on_accept_lem ops seq acceptor (some no_such_device) s i c a = rw i refl
on_accept_lem ops seq acceptor (some (system n)) s i c a = rw i refl

accepted-length :
    {C : Type 0} (seq : ℕ) (e : ErrorCode) (s : TcpServer C) → (accepted seq e s).conns ≡ s.conns
accepted-length seq none s = refl
accepted-length seq (some e) s = refl

-- While it listens, a server with fewer than 2^32 connections accepts again after every accept but an
-- aborted one, be it successful or failed: asio is asked for a connection with a free number, which
-- is set up and listed, and no other connection of the table changes.
pub on_accept-Accepting :
    {C : Type 0} (ops : ConnectionOps C) (seq : ℕ) (acceptor : Endpoint) (e : ErrorCode)
    (s : TcpServer C)
    → s.inited ≡ true
    → s.on_connect ≡ true
    → length s.conns < 2 ^ 32
    → is_aborted e ≡ false
    → (t : TcpServer C) × (on_accept ops seq acceptor e s ≡ some t)
      × Accepting ops acceptor (accepted seq e s) t
on_accept-Accepting ops seq acceptor e s i c h a =
    let u = accepted seq e s in
    let r =
      start_next_connection-Accepting ops acceptor u
        (omega (arith, ap length (accepted-length seq e s))) in
    (r.0, on_accept_lem ops seq acceptor e s i c a ∙ r.1, r.2)
