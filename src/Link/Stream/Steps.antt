-- ===== src/Link/Stream/Steps.antt =====
-- What the steps of Link/Stream do to the packets on their way.
use r_nat.Common.{
  ℕ, suc, ◌<◌, ◌^◌, ◌≡◌, refl, sym, ap, ◌∙◌, some, [], ◌∷◌, ◌++◌, append_assoc, arith, nat_key,
  length-append, get_elem?,
}
use r_nat.Protocol.{Bytes, parse_r2a}
use r_nat.Agent.State.{App as AgentApp}
use r_nat.Link.Stream.{
  System, SystemStep, user_comes, user_sends, user_goes, relay_completes, data_comes_back, arrives,
  service_sends, agent_completes, SystemReach, here, next, packets_to,
}
use r_nat.Link.Stream.View.{follow}
use r_nat.Link.Stream.Relaying.{on_sent-Relays, on_agent_data-Relays, on_user_recv-Relays}
use r_nat.Link.Stream.Users.{on_user_connect-Comes, on_user_disconnect-Relays}
use r_nat.Link.Stream.Receiving.{view, Receives}
use r_nat.Link.Stream.Taking.{on_sent-IsKept, on_user_recv-IsKept}
use r_nat.Link.Stream.Connecting.{on_server_recv-Receives}
use r_nat.Link.Stream.Order.{IsInOrder, after_past, idly, kept, comes, sends, goes}

module _ (service port k remote : ℕ) (low : port < 2 ^ 16) where
  pub takes :
      (packet : Bytes) (s : System)
      → IsInOrder service port k remote s
      → get_elem? (packets_to k s.relay.effects) s.arrived ≡ some packet
      → (a : AgentApp) → Receives remote port (parse_r2a packet) s.agent a
      → IsInOrder service port k remote (record s { agent = a; arrived = suc s.arrived })
  unfolding follow
  takes packet s i e a h =
      let (rest, f) = after_past i.past i.wire packet (
        ap (λ n. get_elem? (i.past ++ i.wire) n) i.counted
        ∙ ap (λ xs. get_elem? xs s.arrived) (sym i.split)
        ∙ e) in
      record {
        relaying = i.relaying;
        receiving = h.receiving;
        past = i.past ++ packet ∷ [];
        wire = rest;
        split = i.split ∙ ap (λ xs. i.past ++ xs) f ∙ sym (append_assoc i.past (packet ∷ []) rest);
        counted = omega (arith, length-append i.past (packet ∷ []), i.counted);
        idle = i.idle;
        ahead = λ seq.
            ap (follow port seq rest) (h.views seq)
            ∙ ap (λ xs. follow port seq xs (view remote (port, seq) s.agent)) (sym f)
            ∙ i.ahead seq;
      }

  step-IsInOrder :
      {s t : System}
      → SystemStep service k remote s t
      → IsInOrder service port k remote s
      → IsInOrder service port k remote t
  unfolding follow
  step-IsInOrder {s} (user_comes seq ip p e a b c) i =
      comes service port k remote low seq ip p _ s i e (low, a, b, c)
        (on_user_connect-Comes service port k seq ip p s.relay i.relaying)
  step-IsInOrder {s} (user_sends seq x buf e a) i =
      sends service port k remote low seq x buf _ s i e a
        (on_user_recv-Relays service port k seq x buf s.relay i.relaying e)
  step-IsInOrder {s} (user_goes seq a) i =
      let (ps, end, r) = on_user_disconnect-Relays service port k seq s.relay i.relaying in
      idly service port k remote low ps _ s i r
        (λ n v. goes service port k remote low seq ps n v a end)
  step-IsInOrder {s} (relay_completes pfn) i =
      idly service port k remote low [] _ s i (on_sent-Relays service port k pfn s.relay i.relaying)
        (λ n v. refl)
  step-IsInOrder {s} (data_comes_back a p id buf) i =
      idly service port k remote low [] _ s i
        (on_agent_data-Relays service port k a p id buf s.relay i.relaying) (λ n v. refl)
  step-IsInOrder {s} (arrives packet e) i =
      takes packet s i e _ (on_server_recv-Receives remote port packet s.agent i.receiving)
  step-IsInOrder {s} (service_sends r x usr buf) i =
      kept service port k remote low _ s i
        (on_user_recv-IsKept remote port r x usr buf s.agent i.receiving)
  step-IsInOrder {s} (agent_completes pfn) i =
      kept service port k remote low _ s i (on_sent-IsKept remote port pfn s.agent i.receiving)

  pub reach-IsInOrder :
      {s t : System}
      → SystemReach service k remote s t
      → IsInOrder service port k remote s
      → IsInOrder service port k remote t
  reach-IsInOrder here i = i
  reach-IsInOrder (next r e) i = step-IsInOrder e (reach-IsInOrder r i)
