-- ===== src/Link/Stream/Delivery.antt =====
-- Link/Stream from the users' bytes to those that the services get.
use mathlib.Core.Option.{some_inj}
use r_nat.Common.{
  ℕ, zero, suc, ◌+◌, ◌<◌, ◌^◌, ◌≡◌, refl, sym, ap, ◌∙◌, Option, none, some, List, [], ◌∷◌, ◌++◌,
  append-nil, arith, length, length-append, get_elem?-lt,
}
use r_nat.Protocol.{Bytes}
use r_nat.Relay.Sessions.{session_of}
use r_nat.Agent.State.{App as AgentApp, User}
use r_nat.Agent.Sessions.{session_of as agent_session_of}
use r_nat.Link.Stream.{System, arrives, SystemReach, next, packets_to}
use r_nat.Link.Stream.View.{follow, seen, follow-IsPrefix}
use r_nat.Link.Stream.Relaying.{IsRelaying}
use r_nat.Link.Stream.Receiving.{bytes_of, view, IsReceiving}
use r_nat.Link.Stream.Order.{IsInOrder}
use r_nat.Link.Stream.Steps.{reach-IsInOrder}

-- Before the first user: the relay has the agent for the port, and the agent has taken all that the
-- relay sent so far.
pub record IsReady (service port k remote : ℕ) (s : System) : Type 0 where
  pub relaying : IsRelaying service port k s.relay
  pub receiving : IsReceiving remote port s.agent
  pub caught_up : s.arrived ≡ length (packets_to k s.relay.effects)
  pub no_users : (seq : ℕ) → session_of s.relay service seq ≡ none
  pub none_known : (seq : ℕ) → agent_session_of s.agent remote (port, seq) ≡ none
  pub unsent : (seq : ℕ) → s.sent seq ≡ []

abbrev bytes_in : Option Bytes → Bytes
bytes_in none = []
bytes_in (some bs) = bs

-- The bytes that the service of a user has got.
abbrev pub got : ℕ → User → AgentApp → Bytes
got remote usr a = bytes_in (view remote usr a)

ready-IsInOrder :
    (service port k remote : ℕ) (s : System)
    → IsReady service port k remote s
    → IsInOrder service port k remote s
unfolding follow
ready-IsInOrder service port k remote s h = record {
  relaying = h.relaying;
  receiving = h.receiving;
  past = packets_to k s.relay.effects;
  wire = [];
  split = sym (append-nil _);
  counted = sym h.caught_up;
  idle = λ seq e. h.unsent seq;
  ahead = λ seq.
      ap (λ o. bytes_of o s.agent.effects) (h.none_known seq)
      ∙ ap (λ o. seen o (s.sent seq)) (sym (h.no_users seq));
}

-- Bytes got, out of bytes sent by a user that has a session or has sent nothing.
in_flight :
    (v o : Option Bytes) (q : Option ℕ) (sent : Bytes)
    → ((bs : Bytes) → v ≡ some bs → (rest : Bytes) × (o ≡ some (bs ++ rest)))
    → o ≡ seen q sent
    → (rest : Bytes) × (sent ≡ bytes_in v ++ rest)
in_flight none o q sent h e = (sent, refl)
in_flight (some bs) o none sent h e = absurd (cc (e, (h bs refl).1))
in_flight (some bs) o (some x) sent h e =
    let (rest, f) = h bs refl in (rest, some_inj.0 (sym e ∙ f))

none_left : (past wire : List Bytes) → length (past ++ wire) ≡ length past → wire ≡ []
none_left past [] e = refl
none_left past (x ∷ xs) e = absurd (omega (arith, e, length-append past (x ∷ xs)))

all_got :
    (v : Option Bytes) (q : Option ℕ) (sent : Bytes)
    → (q ≡ none → sent ≡ [])
    → v ≡ seen q sent
    → bytes_in v ≡ sent
all_got v none sent h e = ap bytes_in e ∙ sym (h refl)
all_got v (some x) sent h e = ap bytes_in e

module _ (service port k remote : ℕ) where
  caught_up-got :
      (t : System)
      → IsInOrder service port k remote t
      → t.arrived ≡ length (packets_to k t.relay.effects)
      → (seq : ℕ) → got remote (port, seq) t.agent ≡ t.sent seq
  unfolding follow
  caught_up-got t i e seq =
      let none_on : i.wire ≡ [] =
        none_left i.past i.wire (ap length (sym i.split) ∙ sym e ∙ sym i.counted) in
      all_got (view remote (port, seq) t.agent) (session_of t.relay service seq) (t.sent seq)
        (i.idle seq)
        (ap (λ ps. follow port seq ps (view remote (port, seq) t.agent)) (sym none_on)
          ∙ i.ahead seq)

-- From a start where the agent is the port's only one, has taken all packets, and no user is known:
-- while the users of the port come, send and go, the service's bytes come back, sends complete on both
-- sides and the agent takes the packets of the one connection at its own pace, in any interleaving,
-- what the agent has given the service of each user, on the connection of the user's session, is a
-- prefix of what this user has sent, none of it lost, doubled, out of order or another user's; and when
-- the agent has taken all packets, it is all of it.
pub SystemReach-delivers :
    (service port k remote : ℕ) (s t : System) (seq : ℕ)
    → port < 2 ^ 16
    → IsReady service port k remote s
    → SystemReach service k remote s t
    → ((on_its_way : Bytes) × (t.sent seq ≡ got remote (port, seq) t.agent ++ on_its_way))
      × (t.arrived ≡ length (packets_to k t.relay.effects)
          → got remote (port, seq) t.agent ≡ t.sent seq)
SystemReach-delivers service port k remote s t seq low h reach =
    let i =
      reach-IsInOrder service port k remote low reach (ready-IsInOrder service port k remote s h) in
    let v = view remote (port, seq) t.agent in
    (
      in_flight v _ (session_of t.relay service seq) (t.sent seq)
          (follow-IsPrefix port seq i.wire v).kept (i.ahead seq),
      λ e. caught_up-got service port k remote t i e seq,
    )

-- The agent takes `n` packets in a row.
drain :
    (service port k remote n : ℕ) (s t : System)
    → t.arrived + n ≡ length (packets_to k t.relay.effects)
    → SystemReach service k remote s t
    → (u : System) × SystemReach service k remote s u
      × (u.relay ≡ t.relay)
      × (u.sent ≡ t.sent)
      × (u.arrived ≡ length (packets_to k u.relay.effects))
drain service port k remote zero s t e reach = (t, reach, refl, refl, omega (arith, e))
drain service port k remote (suc n) s t e reach =
    let (p, at) = get_elem?-lt (packets_to k t.relay.effects) t.arrived (omega (arith, e)) in
    drain service port k remote n s _ (omega (arith, e)) (next reach (arrives p at))

-- Nothing has to be sent again: from every state that a system with such a start can reach by these
-- steps, there is one that it can reach too, with the same relay and the same bytes sent, where the
-- service of each user has got exactly what this user has sent.
pub SystemReach-drains :
    (service port k remote : ℕ) (s t : System)
    → port < 2 ^ 16
    → IsReady service port k remote s
    → SystemReach service k remote s t
    → (u : System) × SystemReach service k remote s u
      × (u.relay ≡ t.relay)
      × (u.sent ≡ t.sent)
      × ((seq : ℕ) → got remote (port, seq) u.agent ≡ t.sent seq)
SystemReach-drains service port k remote s t low h reach =
    let ready = ready-IsInOrder service port k remote s h in
    let i = reach-IsInOrder service port k remote low reach ready in
    let left = length i.wire in
    let all : t.arrived + left ≡ length (packets_to k t.relay.effects) =
      omega (arith, i.counted, length-append i.past i.wire, ap length i.split) in
    let (u, to, same, sent, done) = drain service port k remote left s t all reach in
    let j = reach-IsInOrder service port k remote low to ready in
    (
      u,
      to,
      same,
      sent,
      λ seq. caught_up-got service port k remote u j done seq ∙ ap (λ f. f seq) sent,
    )
