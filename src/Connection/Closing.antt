-- ===== src/Connection/Closing.antt =====
-- What Close of r-nat-s/network/tcpconnection.hpp cuts off.
use mathlib.Core.Option.{some_inj}
use r_nat.Common.{
  ℕ, ◌≡◌, refl, sym, ◌∙◌, inl, inr, Option, none, some, List, [], ◌∷◌, ◌++◌, false, arith,
  Option-cases, ◌>>=◌, append_assoc, append-nil, subst,
}
use r_nat.Protocol.{Bytes}
use r_nat.Connection.{
  Connection, Effect, Callback, post, do_send, on_send_callback, do_recv, on_head_recv_callback,
  on_recv_callback, close, block_recv, shut_down, start, post_callback,
}
use r_nat.Connection.Stream.{send_closed, send_v_closed, do_send-keeps}
use r_nat.Connection.Lifecycle.{
  Op, sends, sends_v, closes, blocks, starts, resumes, sent, head, body, step, run, handed, Quiet,
  do_send-Quiet, send-Quiet, send_v-Quiet, do_recv-Quiet, start-Quiet,
}

-- Nobody listens: neither packets nor the end are handed on.
abbrev pub IsMuted : Connection → Type 0
IsMuted c = (c.on_recv ≡ false) × (c.on_disconnect ≡ false)

abbrev Silent : Connection → Connection → Type 0
Silent c d = IsMuted d × (handed d.effects ≡ handed c.effects)

Quiet-Silent : {c d : Connection} → Quiet c d → IsMuted c → Silent c d
Quiet-Silent q h = ground arith

step-Silent : (c d : Connection) (o : Op) → step c o ≡ some d → IsMuted c → Silent c d
unfolding step
step-Silent c d (sends pkt pfn) e h = ground (arith, Quiet-Silent (send-Quiet pkt pfn c) h)
step-Silent c d (sends_v ds pfn) e h = Quiet-Silent (send_v-Quiet ds pfn c d e) h
step-Silent c d closes e h = unfold close handed in ground arith
step-Silent c d (blocks b) e h = unfold block_recv handed in ground arith
step-Silent c d starts e h = Quiet-Silent (start-Quiet c d e) h
step-Silent c d resumes e h = Quiet-Silent (do_recv-Quiet c d e) h
step-Silent c d (sent none) e h =
    unfold on_send_callback in
    ground (arith, Quiet-Silent (do_send-Quiet (record c { sending_pkt = none })) h)
step-Silent c d (sent (some x)) e h = unfold on_send_callback handed shut_down in ground arith
step-Silent c d (head none packet_header) e h =
    unfold on_head_recv_callback handed shut_down in ground arith
step-Silent c d (head (some x) packet_header) e h =
    unfold on_head_recv_callback handed shut_down in ground arith
step-Silent c d (body none pkt) e h = unfold on_recv_callback do_recv handed in ground arith
step-Silent c d (body (some x) pkt) e h = unfold on_recv_callback handed shut_down in ground arith

run-Silent :
    (os : List Op) (c d : Connection)
    → run os c ≡ some d
    → IsMuted c
    → handed d.effects ≡ handed c.effects
unfolding run
run-Silent [] c d e h = ground arith
run-Silent (o ∷ os) c d e h = elim (Option-cases (step c o)) [
  | inl x ↦ ground (arith, x)
  | inr (b, x) ↦ let s = step-Silent c b o x h in run-Silent os b d (rw (x, ◌>>=◌) at e) s.0 ∙ s.1
]

close-IsMuted : (c : Connection) → IsMuted (close c) × (handed (close c).effects ≡ handed c.effects)
unfolding close handed
close-IsMuted c = ground arith

-- The callbacks of sends that were posted to the owner, in order.
unfoldable pub posted : List Effect → List ℕ
posted [] = []
posted (post f ∷ es) = posted es ++ f ∷ []
posted (e ∷ es) = posted es

abbrev pub called : Callback → List ℕ
called none = []
called (some f) = f ∷ []

-- Those of the buffers that wait, in order.
unfoldable pub waiting : List (Bytes × Callback) → List ℕ
waiting [] = []
waiting ((pkt, pfn) ∷ q) = called pfn ++ waiting q

-- Both together: each buffer's callback is posted when it is written.
abbrev pub owed : Connection → List ℕ
owed c = posted c.effects ++ waiting c.outgoing_queue

posted-post_callback :
    (pfn : Callback) (es : List Effect) → posted (post_callback pfn es) ≡ posted es ++ called pfn
unfolding posted
posted-post_callback none es = sym (append-nil (posted es))
posted-post_callback (some f) es = refl

do_send-owed_on :
    (c : Connection) (q : List (Bytes × Callback))
    → c.outgoing_queue ≡ q
    → owed (do_send c) ≡ owed c
unfolding do_send posted waiting
do_send-owed_on c [] e = ground arith
do_send-owed_on c ((pkt, pfn) ∷ q) e = ground (
  arith,
  posted-post_callback pfn c.effects,
  append_assoc (posted c.effects) (called pfn) (waiting q),
)

-- A connection without its allocator, which owes the owner the callbacks `fs`.
record Owes (fs : List ℕ) (c : Connection) : Type 0 where
  closed : c.on_allocbuf ≡ false
  owes : owed c ≡ fs

do_send-Owes : (fs : List ℕ) (c : Connection) → Owes fs c → Owes fs (do_send c)
do_send-Owes fs c h = record {
  closed = (do_send-keeps c).0 ∙ h.closed;
  owes = do_send-owed_on c c.outgoing_queue refl ∙ h.owes;
}

do_recv-Owes : (fs : List ℕ) (c d : Connection) → do_recv c ≡ some d → Owes fs c → Owes fs d
unfolding do_recv posted
do_recv-Owes fs c d e h = ground (arith, h.closed, h.owes)

start-Owes_from :
    (fs : List ℕ) (c : Connection) (o : Option Connection) (d : Connection)
    → do_recv c ≡ o
    → (o >>= λ e. some (do_send e)) ≡ some d
    → Owes fs c
    → Owes fs d
start-Owes_from fs c none d e h w = absurd (cc)
start-Owes_from fs c (some b) d e h w =
    subst (Owes fs) (some_inj.0 h) (do_send-Owes fs b (do_recv-Owes fs c b e w))

step-Owes : (fs : List ℕ) (c d : Connection) (o : Op) → step c o ≡ some d → Owes fs c → Owes fs d
unfolding step
step-Owes fs c d (sends pkt pfn) e h =
    subst (Owes fs) (sym (send_closed pkt pfn c h.closed) ∙ some_inj.0 e) h
step-Owes fs c d (sends_v ds pfn) e h = absurd (cc (e, send_v_closed ds pfn c h.closed))
step-Owes fs c d closes e h = unfold close posted in ground (arith, h.closed, h.owes)
step-Owes fs c d (blocks b) e h = unfold block_recv posted in ground (arith, h.closed, h.owes)
step-Owes fs c d starts e h = unfold start in start-Owes_from fs c (do_recv c) d refl e h
step-Owes fs c d resumes e h = do_recv-Owes fs c d e h
step-Owes fs c d (sent none) e h =
    unfold on_send_callback in
    subst (Owes fs) (some_inj.0 e) (
      do_send-Owes fs (record c { sending_pkt = none })
        (record { closed = h.closed; owes = h.owes }))
step-Owes fs c d (sent (some x)) e h =
    unfold on_send_callback posted shut_down in ground (arith, h.closed, h.owes)
step-Owes fs c d (head none packet_header) e h =
    unfold on_head_recv_callback posted shut_down in ground (arith, h.closed, h.owes)
step-Owes fs c d (head (some x) packet_header) e h =
    unfold on_head_recv_callback posted shut_down in ground (arith, h.closed, h.owes)
step-Owes fs c d (body none pkt) e h =
    unfold on_recv_callback do_recv posted in ground (arith, h.closed, h.owes)
step-Owes fs c d (body (some x) pkt) e h =
    unfold on_recv_callback posted shut_down in ground (arith, h.closed, h.owes)

run-Owes :
    (fs : List ℕ) (os : List Op) (c d : Connection) → run os c ≡ some d → Owes fs c → Owes fs d
unfolding run
run-Owes fs [] c d e h = subst (Owes fs) (some_inj.0 e) h
run-Owes fs (o ∷ os) c d e h = elim (Option-cases (step c o)) [
  | inl x ↦ absurd (ground (arith, x))
  | inr (b, x) ↦ run-Owes fs os b d (rw (x, ◌>>=◌) at e) (step-Owes fs c b o x h)
]

close-Owes : (c : Connection) → Owes (owed c) (close c)
unfolding close posted
close-Owes c = record { closed = ground arith; owes = ground arith }

-- After Close, whatever calls and completions follow, the owner is handed no packet and is not told of
-- the end. It can still be posted callbacks of sends, but no new ones: those posted since, with those
-- of the buffers that still wait, are in order those of the buffers that waited at Close.
pub run-close-handed :
    (os : List Op) (c d : Connection)
    → run os (close c) ≡ some d
    → (handed d.effects ≡ handed c.effects) × (owed d ≡ owed c)
run-close-handed os c d e =
    let m = close-IsMuted c in
    (
      run-Silent os (close c) d e m.0 ∙ m.1,
      (run-Owes (owed c) os (close c) d e (close-Owes c)).owes,
    )
