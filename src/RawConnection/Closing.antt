-- ===== src/RawConnection/Closing.antt =====
-- What Close of r-nat-s/network/rawtcpconnection.hpp cuts off.
use r_nat.Common.{
  ◌≡◌, refl, ap, ◌∙◌, inl, inr, Option, none, some, List, [], ◌∷◌, Bool, true, false, arith,
  if◌then◌else◌, Option-cases, ◌>>=◌,
}
use r_nat.Protocol.{Bytes}
use r_nat.Connection.{Callback, ErrorCode, parts}
use r_nat.RawConnection.{
  RawConnection, Effect, async_write, async_read_some, post, post_do_recv, shutdown, close_socket,
  disconnected, received, do_send, enqueue, send, send_v, on_send_callback, do_recv,
  on_recv_callback, close, block_recv, shut_down, start, post_callback,
}

-- The calls and completions that reach a connection.
pub data Op : Type 0 where
  sends : Bytes → Callback → Op
  sends_v : List Bytes → Callback → Op
  closes : Op
  blocks : Bool → Op
  starts : Op
  resumes : Op
  sent : ErrorCode → Op
  body : ErrorCode → Bytes → Op

unfoldable pub step : RawConnection → Op → Option RawConnection
step c (sends pkt pfn) = some (send pkt pfn c)
step c (sends_v ds pfn) = some (send_v ds pfn c)
step c closes = some (close c)
step c (blocks b) = some (block_recv b c)
step c starts = start c
step c resumes = do_recv c
step c (sent e) = some (on_send_callback e c)
step c (body e pkt) = on_recv_callback e pkt c

unfoldable pub run : List Op → RawConnection → Option RawConnection
run [] c = some c
run (o ∷ os) c = step c o >>= run os

-- What the owner is handed: bytes and the end, newest first.
unfoldable pub handed : List Effect → List Effect
handed [] = []
handed (disconnected e ∷ es) = disconnected e ∷ handed es
handed (received pkt ∷ es) = received pkt ∷ handed es
handed (async_write pkt ∷ es) = handed es
handed (async_read_some n ∷ es) = handed es
handed (post f ∷ es) = handed es
handed (post_do_recv ∷ es) = handed es
handed (shutdown ∷ es) = handed es
handed (close_socket ∷ es) = handed es

-- `d` comes after `c`, nobody listens to it, and the owner has handed nothing since.
record IsSilent (c d : RawConnection) : Type 0 where
  no_recv : d.on_recv ≡ false
  no_disconnect : d.on_disconnect ≡ false
  allocator : d.on_allocbuf ≡ true
  handed : handed d.effects ≡ handed c.effects

IsSilent-trans : {b c d : RawConnection} → IsSilent b c → IsSilent c d → IsSilent b d
IsSilent-trans x y = ground (arith, x.handed, y.handed, y.no_recv, y.no_disconnect, y.allocator)

IsSilent-refl : {b c : RawConnection} → IsSilent b c → IsSilent c c
IsSilent-refl x = ground (arith, x.no_recv, x.no_disconnect, x.allocator)

post_callback-handed :
    (pfn : Callback) (es : List Effect) → handed (post_callback pfn es) ≡ handed es
unfolding handed
post_callback-handed none es = refl
post_callback-handed (some f) es = refl

do_send-IsSilent_on :
    (c : RawConnection) (q : List (Bytes × Callback))
    → c.outgoing_queue ≡ q
    → IsSilent c c
    → IsSilent c (do_send c)
unfolding do_send handed
do_send-IsSilent_on c [] e s = ground arith
do_send-IsSilent_on c ((pkt, pfn) ∷ q) e s = ground (arith, post_callback-handed pfn c.effects)

do_send-IsSilent : (c : RawConnection) → IsSilent c c → IsSilent c (do_send c)
do_send-IsSilent c s = do_send-IsSilent_on c c.outgoing_queue refl s

do_send-after : (b c : RawConnection) → IsSilent b c → IsSilent b (do_send c)
do_send-after b c s = IsSilent-trans s (do_send-IsSilent c (IsSilent-refl s))

abbrev GoesOn : RawConnection → Option RawConnection → Type 0
GoesOn c o = (d : RawConnection) × (o ≡ some d) × IsSilent c d

do_recv-GoesOn : (c : RawConnection) → IsSilent c c → GoesOn c (do_recv c)
unfolding do_recv handed
do_recv-GoesOn c s = elim (Option-cases (do_recv c)) [
  | inl e ↦ absurd (ground (arith, s.allocator))
  | inr (d, e) ↦ (d, e, ground (arith, s.no_recv, s.no_disconnect, s.allocator, s.handed))
]

start-GoesOn : (c : RawConnection) → IsSilent c c → GoesOn c (start c)
unfolding start
start-GoesOn c s =
    let (d, e, t) = do_recv-GoesOn c s in
    (
      do_send d,
      ap (λ o. o >>= λ x. some (do_send x)) e,
      IsSilent-trans t (do_send-IsSilent d (IsSilent-refl t)),
    )

block_recv-IsSilent : (b : Bool) (c : RawConnection) → IsSilent c c → IsSilent c (block_recv b c)
unfolding block_recv handed
block_recv-IsSilent b c s = ground (arith, s.no_recv, s.no_disconnect, s.allocator)

close-IsSilent : (c : RawConnection) → c.on_allocbuf ≡ true → IsSilent c (close c)
unfolding close handed
close-IsSilent c a = ground arith

shut_down-IsSilent : (e : ErrorCode) (c : RawConnection) → IsSilent c c → IsSilent c (shut_down e c)
unfolding shut_down handed
shut_down-IsSilent e c s = ground (arith, s.no_recv, s.no_disconnect, s.allocator)

failed-IsSilent :
    (e : ErrorCode) (c : RawConnection) → IsSilent c c → IsSilent c (on_send_callback e c)
unfolding on_send_callback shut_down handed
failed-IsSilent none c s =
    let idle = record c { sending_pkt = none } in
    do_send-after c idle (ground (arith, s.no_recv, s.no_disconnect, s.allocator))
failed-IsSilent (some x) c s = ground (arith, s.no_recv, s.no_disconnect, s.allocator)

unheard :
    (pkt : Bytes) (c : RawConnection)
    → c.on_recv ≡ false
    → on_recv_callback none pkt c ≡ do_recv (record c { recving_pkt = none })
unfolding on_recv_callback
unheard pkt c e =
    let same : (if c.on_recv then record c { effects = received pkt ∷ c.effects } else c) ≡ c =
      rw e refl in
    ap (λ (x : RawConnection). do_recv (record x { recving_pkt = none })) same

step-GoesOn : (c : RawConnection) (o : Op) → IsSilent c c → GoesOn c (step c o)
unfolding step send send_v on_recv_callback
step-GoesOn c (sends pkt pfn) s = (
  _,
  refl,
  do_send-after c (enqueue ((pkt, pfn) ∷ []) c)
      (ground (arith, s.no_recv, s.no_disconnect, s.allocator)),
)
step-GoesOn c (sends_v ds pfn) s = (
  _,
  refl,
  do_send-after c (enqueue (parts ds pfn) c)
      (ground (arith, s.no_recv, s.no_disconnect, s.allocator)),
)
step-GoesOn c closes s = (_, refl, close-IsSilent c s.allocator)
step-GoesOn c (blocks b) s = (_, refl, block_recv-IsSilent b c s)
step-GoesOn c starts s = start-GoesOn c s
step-GoesOn c resumes s = do_recv-GoesOn c s
step-GoesOn c (sent e) s = (_, refl, failed-IsSilent e c s)
step-GoesOn c (body none pkt) s =
    let idle = record c { recving_pkt = none } in
    let i : IsSilent c idle = ground (arith, s.no_recv, s.no_disconnect, s.allocator) in
    let (d, e, t) = do_recv-GoesOn idle (IsSilent-refl i) in
    (d, unheard pkt c s.no_recv ∙ e, IsSilent-trans i t)
step-GoesOn c (body (some x) pkt) s = (_, refl, shut_down-IsSilent (some x) c s)

run-GoesOn : (os : List Op) (c : RawConnection) → IsSilent c c → GoesOn c (run os c)
unfolding run
run-GoesOn [] c s = (c, refl, s)
run-GoesOn (o ∷ os) c s =
    let (d, e, t) = step-GoesOn c o s in
    let (f, g, u) = run-GoesOn os d (IsSilent-refl t) in
    (f, ap (λ x. x >>= run os) e ∙ g, IsSilent-trans t u)

-- After Close no call and no completion throws, and the owner is handed nothing.
pub run-close-handed :
    (os : List Op) (c : RawConnection)
    → c.on_allocbuf ≡ true
    → (d : RawConnection) × (run os (close c) ≡ some d) × (handed d.effects ≡ handed c.effects)
run-close-handed os c a =
    let s = close-IsSilent c a in
    let (d, e, t) = run-GoesOn os (close c) (IsSilent-refl s) in (d, e, t.handed ∙ s.handed)
