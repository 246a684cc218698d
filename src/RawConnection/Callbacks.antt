-- ===== src/RawConnection/Callbacks.antt =====
-- The callbacks of sends that r-nat-s/network/rawtcpconnection.hpp posts, and Close.
use mathlib.Core.Option.{some_inj}
use r_nat.Common.{
  ℕ, ◌≡◌, refl, sym, ap, ◌∙◌, inl, inr, Option, none, some, List, [], ◌∷◌, ◌++◌, true, arith,
  Option-cases, ◌>>=◌, append_assoc, append-nil,
}
use r_nat.Protocol.{Bytes}
use r_nat.Connection.{Callback, parts}
use r_nat.Connection.Closing.{called, waiting}
use r_nat.RawConnection.{
  RawConnection, Effect, post, do_send, enqueue, send, send_v, on_send_callback, do_recv,
  on_recv_callback, close, block_recv, shut_down, start, post_callback,
}
use r_nat.RawConnection.Closing.{
  Op, sends, sends_v, closes, blocks, starts, resumes, sent, body, step, run, handed,
  run-close-handed,
}

-- The callbacks that were posted to the owner, in order.
unfoldable pub posted : List Effect → List ℕ
posted [] = []
posted (post f ∷ es) = posted es ++ f ∷ []
posted (e ∷ es) = posted es

-- Those posted, then those of the buffers that wait.
abbrev pub owed : RawConnection → List ℕ
owed c = posted c.effects ++ waiting c.outgoing_queue

-- The callback of a call of SendV, which needs a part.
abbrev called_v : List Bytes → Callback → List ℕ
called_v [] pfn = []
called_v (d ∷ ds) pfn = called pfn

abbrev called_by : Op → List ℕ
called_by (sends pkt pfn) = called pfn
called_by (sends_v ds pfn) = called_v ds pfn
called_by closes = []
called_by (blocks b) = []
called_by starts = []
called_by resumes = []
called_by (sent e) = []
called_by (body e pkt) = []

-- The callbacks that calls hand over, in order.
unfoldable pub callbacks : List Op → List ℕ
callbacks [] = []
callbacks (o ∷ os) = called_by o ++ callbacks os

posted-post_callback :
    (pfn : Callback) (es : List Effect) → posted (post_callback pfn es) ≡ posted es ++ called pfn
unfolding posted
posted-post_callback none es = sym (append-nil (posted es))
posted-post_callback (some f) es = refl

waiting-append : (p q : List (Bytes × Callback)) → waiting (p ++ q) ≡ waiting p ++ waiting q
unfolding waiting
waiting-append [] q = refl
waiting-append ((pkt, pfn) ∷ p) q = simp (waiting-append p q, append_assoc)

waiting-parts : (ds : List Bytes) (pfn : Callback) → waiting (parts ds pfn) ≡ called_v ds pfn
unfolding waiting parts
waiting-parts [] pfn = refl
waiting-parts (d ∷ []) pfn = append-nil (called pfn)
waiting-parts (d ∷ e ∷ ds) pfn = waiting-parts (e ∷ ds) pfn

do_send-owed_on :
    (c : RawConnection) (q : List (Bytes × Callback))
    → c.outgoing_queue ≡ q
    → owed (do_send c) ≡ owed c
unfolding do_send posted waiting
do_send-owed_on c [] e = ground arith
do_send-owed_on c ((pkt, pfn) ∷ q) e = ground (
  arith,
  posted-post_callback pfn c.effects,
  append_assoc (posted c.effects) (called pfn) (waiting q),
)

do_send-owed : (c : RawConnection) → owed (do_send c) ≡ owed c
do_send-owed c = do_send-owed_on c c.outgoing_queue refl

enqueue-owed :
    (pkts : List (Bytes × Callback)) (c : RawConnection)
    → owed (do_send (enqueue pkts c)) ≡ owed c ++ waiting pkts
enqueue-owed pkts c =
    do_send-owed (enqueue pkts c)
    ∙ ap (λ fs. posted c.effects ++ fs) (waiting-append c.outgoing_queue pkts)
    ∙ sym (append_assoc (posted c.effects) (waiting c.outgoing_queue) (waiting pkts))

do_recv-owed : (c d : RawConnection) → do_recv c ≡ some d → owed d ≡ owed c
unfolding do_recv posted
do_recv-owed c d e = ground arith

start-owed_from :
    (c : RawConnection) (o : Option RawConnection) (d : RawConnection)
    → do_recv c ≡ o
    → (o >>= λ e. some (do_send e)) ≡ some d
    → owed d ≡ owed c
start-owed_from c none d e h = absurd (cc)
start-owed_from c (some b) d e h =
    ap owed (sym (some_inj.0 h)) ∙ do_send-owed b ∙ do_recv-owed c b e

send-owed :
    (pkt : Bytes) (pfn : Callback) (c : RawConnection)
    → owed (send pkt pfn c) ≡ owed c ++ called pfn
unfolding send waiting
send-owed pkt pfn c =
    enqueue-owed ((pkt, pfn) ∷ []) c ∙ ap (λ fs. owed c ++ fs) (append-nil (called pfn))

send_v-owed :
    (ds : List Bytes) (pfn : Callback) (c : RawConnection)
    → owed (send_v ds pfn c) ≡ owed c ++ called_v ds pfn
unfolding send_v
send_v-owed ds pfn c =
    enqueue-owed (parts ds pfn) c ∙ ap (λ fs. owed c ++ fs) (waiting-parts ds pfn)

completed-owed : (c : RawConnection) → owed (on_send_callback none c) ≡ owed c
unfolding on_send_callback
completed-owed c = do_send-owed (record c { sending_pkt = none })

quiet : (c d : RawConnection) → owed d ≡ owed c → owed d ≡ owed c ++ []
quiet c d e = e ∙ sym (append-nil (owed c))

step-owed : (c d : RawConnection) (o : Op) → step c o ≡ some d → owed d ≡ owed c ++ called_by o
unfolding step
step-owed c d (sends pkt pfn) e = ap owed (sym (some_inj.0 e)) ∙ send-owed pkt pfn c
step-owed c d (sends_v ds pfn) e = ap owed (sym (some_inj.0 e)) ∙ send_v-owed ds pfn c
step-owed c d closes e = quiet c d (unfold close posted in ground arith)
step-owed c d (blocks b) e = quiet c d (unfold block_recv posted in ground arith)
step-owed c d starts e = quiet c d (unfold start in start-owed_from c (do_recv c) d refl e)
step-owed c d resumes e = quiet c d (do_recv-owed c d e)
step-owed c d (sent none) e = quiet c d (ap owed (sym (some_inj.0 e)) ∙ completed-owed c)
step-owed c d (sent (some x)) e =
    quiet c d (unfold on_send_callback posted shut_down in ground arith)
step-owed c d (body none pkt) e = quiet c d (unfold on_recv_callback do_recv posted in ground arith)
step-owed c d (body (some x) pkt) e =
    quiet c d (unfold on_recv_callback posted shut_down in ground arith)

run-owed :
    (os : List Op) (c d : RawConnection) → run os c ≡ some d → owed d ≡ owed c ++ callbacks os
unfolding run callbacks
run-owed [] c d e = quiet c d (ap owed (sym (some_inj.0 e)))
run-owed (o ∷ os) c d e = elim (Option-cases (step c o)) [
  | inl x ↦ absurd (ground (arith, x))
  | inr (b, x) ↦
      run-owed os b d (rw (x, ◌>>=◌) at e)
      ∙ ap (λ fs. fs ++ callbacks os) (step-owed c b o x)
      ∙ append_assoc (owed c) (called_by o) (callbacks os)
]

close-owed : (c : RawConnection) → owed (close c) ≡ owed c
unfolding close posted
close-owed c = ground arith

-- After Close of a connection without frames, which keeps its allocator, whatever calls and
-- completions follow, none of them throws, the owner is handed no bytes and is not told of the end. It
-- can still be posted callbacks: those posted, with those of the buffers that still wait, are in
-- order those at Close and then those that the later calls of Send and SendV hand over.
pub run-close-silent :
    (os : List Op) (c : RawConnection)
    → c.on_allocbuf ≡ true
    → (d : RawConnection) × (run os (close c) ≡ some d)
      × (handed d.effects ≡ handed c.effects)
      × (owed d ≡ owed c ++ callbacks os)
run-close-silent os c a =
    let (d, e, h) = run-close-handed os c a in
    (d, e, h, run-owed os (close c) d e ∙ ap (λ fs. fs ++ callbacks os) (close-owed c))
