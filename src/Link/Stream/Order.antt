-- ===== src/Link/Stream/Order.antt =====
-- The packets of Link/Stream that are on their way, and what the relay adds to them.
use r_nat.Common.{
  ℕ, ◌<◌, ◌^◌, ◌≡◌, refl, sym, ap, subst, ◌∙◌, inl, inr, Option, none, some, List, [], ◌∷◌, ◌++◌,
  Bool, true, false, append_assoc, arith, if◌then◌else◌, ◌==◌, ==_iff, nat_key, Bool-cases, length,
  get_elem?, Store, update,
}
use r_nat.Protocol.{Bytes, R2a, put_r2a}
use r_nat.Protocol.RoundTrip.{R2aFits, parse-put_r2a}
use r_nat.Relay.State.{App as RelayApp}
use r_nat.Relay.Sessions.{session_of}
use r_nat.Agent.State.{App as AgentApp}
use r_nat.Link.Stream.{System, packets_to}
use r_nat.Link.Stream.View.{opened, grown, taken, follow, follow-append, seen}
use r_nat.Link.Stream.Relaying.{IsRelaying, Relays}
use r_nat.Link.Stream.Users.{Comes, IsEnd}
use r_nat.Link.Stream.Receiving.{view, IsReceiving}
use r_nat.Link.Stream.Taking.{IsKept}

-- The packets that the agent has not taken lead from what the services have got to what the users
-- have sent.
pub record IsInOrder (service port k remote : ℕ) (s : System) : Type 0 where
  pub relaying : IsRelaying service port k s.relay
  pub receiving : IsReceiving remote port s.agent
  pub past : List Bytes
  pub wire : List Bytes
  pub split : packets_to k s.relay.effects ≡ past ++ wire
  pub counted : length past ≡ s.arrived
  pub idle : (seq : ℕ) → session_of s.relay service seq ≡ none → s.sent seq ≡ []
  pub ahead :
      (seq : ℕ)
      → follow port seq wire (view remote (port, seq) s.agent)
        ≡ seen (session_of s.relay service seq) (s.sent seq)

pub after_past :
    (past wire : List Bytes) (p : Bytes)
    → get_elem? (past ++ wire) (length past) ≡ some p
    → (rest : List Bytes) × (wire ≡ p ∷ rest)
after_past [] [] p e = absurd (cc)
after_past [] (x ∷ xs) p e = (xs, cc)
after_past (x ∷ past) wire p e = after_past past wire p e

module _ (service port k remote : ℕ) (low : port < 2 ^ 16) where
  -- What the relay adds to the packets on their way.
  relayed :
      (ps : List Bytes) (r : RelayApp) (sent : Store Bytes) (s : System)
      → IsInOrder service port k remote s
      → IsRelaying service port k r
      → packets_to k r.effects ≡ packets_to k s.relay.effects ++ ps
      → ((seq : ℕ) → session_of r service seq ≡ none → sent seq ≡ [])
      → ((seq : ℕ)
          → follow port seq ps (seen (session_of s.relay service seq) (s.sent seq))
            ≡ seen (session_of r service seq) (sent seq))
      → IsInOrder service port k remote (record s { relay = r; sent = sent })
  relayed ps r sent s i relaying given idle grows = record {
    relaying = relaying;
    receiving = i.receiving;
    past = i.past;
    wire = i.wire ++ ps;
    split = given ∙ ap (λ xs. xs ++ ps) i.split ∙ append_assoc i.past i.wire ps;
    counted = i.counted;
    idle = idle;
    ahead = λ seq.
        follow-append port seq i.wire ps (view remote (port, seq) s.agent)
        ∙ ap (follow port seq ps) (i.ahead seq)
        ∙ grows seq;
  }

  -- The same sessions, with packets that bring no bytes.
  pub idly :
      (ps : List Bytes) (r : RelayApp) (s : System)
      → IsInOrder service port k remote s
      → Relays service port k ps s.relay r
      → ((seq : ℕ) (v : Option Bytes) → follow port seq ps v ≡ v)
      → IsInOrder service port k remote (record s { relay = r })
  idly ps r s i a h =
      relayed ps r s.sent s i a.relaying a.given (λ seq e. i.idle seq (sym (a.same seq) ∙ e))
        (λ seq. h seq _ ∙ ap (λ o. seen o (s.sent seq)) (sym (a.same seq)))

  -- What else the agent does between two packets.
  pub kept :
      (a : AgentApp) (s : System)
      → IsInOrder service port k remote s
      → IsKept remote port s.agent a
      → IsInOrder service port k remote (record s { agent = a })
  kept a s i h = record {
    relaying = i.relaying;
    receiving = h.receiving;
    past = i.past;
    wire = i.wire;
    split = i.split;
    counted = i.counted;
    idle = i.idle;
    ahead = λ seq. ap (follow port seq i.wire) (h.views seq) ∙ i.ahead seq;
  }

  follow_one :
      (m : R2a) (seq : ℕ) (v : Option Bytes)
      → R2aFits m
      → follow port seq (put_r2a m ∷ []) v ≡ taken port seq (some m) v
  unfolding follow
  follow_one m seq v h = ap (λ o. taken port seq o v) (parse-put_r2a m h)

  -- A user that had no session, seen by the user `n`.
  comes_seen :
      (b : Bool) (o : Option ℕ) (x : ℕ) (bs : Bytes)
      → (b ≡ true → (o ≡ none) × (bs ≡ []))
      → (if b then opened (seen o bs) else seen o bs) ≡ seen (if b then some x else o) bs
  comes_seen false o x bs h = refl
  comes_seen true o x bs h = rw ((h refl).0, (h refl).1) refl

  new_user :
      (seq n : ℕ) (s : System)
      → IsInOrder service port k remote s
      → session_of s.relay service seq ≡ none
      → seq ≡ n
      → (session_of s.relay service n ≡ none) × (s.sent n ≡ [])
  new_user seq n s i e h =
      subst (λ m. (session_of s.relay service m ≡ none) × (s.sent m ≡ [])) h (e, i.idle seq e)

  own_connect :
      (seq ip p n : ℕ) (v : Option Bytes)
      → taken port n (some (R2a.connect port seq ip p)) v ≡ (if seq == n then opened v else v)
  own_connect seq ip p n v = ground arith

  own_carry :
      (seq : ℕ) (buf : Bytes) (n : ℕ) (v : Option Bytes)
      → taken port n (some (R2a.carry port seq buf)) v ≡ (if seq == n then grown buf v else v)
  own_carry seq buf n v = ground arith

  pub comes :
      (seq ip p : ℕ) (r : RelayApp) (s : System)
      → IsInOrder service port k remote s
      → session_of s.relay service seq ≡ none
      → R2aFits (R2a.connect port seq ip p)
      → Comes service port k seq ip p s.relay r
      → IsInOrder service port k remote (record s { relay = r })
  comes seq ip p r s i none_yet fits a =
      relayed (put_r2a (R2a.connect port seq ip p) ∷ []) r s.sent s i a.relaying a.given
        (λ n e. i.idle n (ground (arith, e, a.now n)))
        (λ n.
          follow_one (R2a.connect port seq ip p) n _ fits
          ∙ own_connect seq ip p n _
          ∙ comes_seen (seq == n) (session_of s.relay service n) s.relay.next_ref (s.sent n)
              (λ h. new_user seq n s i none_yet ((==_iff seq n).0 h))
          ∙ ap (λ o. seen o (s.sent n)) (sym (a.now n)))

  -- The bytes of a user with a session, seen by the user `n`.
  sends_seen :
      (b : Bool) (x : ℕ) (buf : Bytes) (o : Option ℕ) (cs bs : Bytes)
      → (b ≡ true → (o ≡ some x) × (cs ≡ bs))
      → (if b then grown buf (seen o bs) else seen o bs) ≡ seen o (if b then cs ++ buf else bs)
  sends_seen false x buf o cs bs h = refl
  sends_seen true x buf o cs bs h = rw ((h refl).0, (h refl).1) refl

  its_user :
      (seq n x : ℕ) (s : System)
      → session_of s.relay service seq ≡ some x
      → (seq == n) ≡ true
      → (session_of s.relay service n ≡ some x) × (s.sent seq ≡ s.sent n)
  its_user seq n x s e h =
      subst (λ m. (session_of s.relay service m ≡ some x) × (s.sent seq ≡ s.sent m))
        ((==_iff seq n).0 h) (e, refl)

  sends_idle :
      (seq n x : ℕ) (buf : Bytes) (s : System)
      → IsInOrder service port k remote s
      → session_of s.relay service seq ≡ some x
      → session_of s.relay service n ≡ none
      → update s.sent seq (s.sent seq ++ buf) n ≡ []
  sends_idle seq n x buf s i e f = elim (Bool-cases (seq == n)) [
    | inl h ↦ absurd (cc (f, (its_user seq n x s e h).0))
    | inr h ↦ rw h (i.idle n f)
  ]

  pub sends :
      (seq x : ℕ) (buf : Bytes) (r : RelayApp) (s : System)
      → IsInOrder service port k remote s
      → session_of s.relay service seq ≡ some x
      → seq < 2 ^ 32
      → Relays service port k (put_r2a (R2a.carry port seq buf) ∷ []) s.relay r
      → IsInOrder service port k remote
          (record s { relay = r; sent = update s.sent seq (s.sent seq ++ buf) })
  sends seq x buf r s i e fits a =
      relayed (put_r2a (R2a.carry port seq buf) ∷ []) r (update s.sent seq (s.sent seq ++ buf)) s i
        a.relaying a.given (λ n f. sends_idle seq n x buf s i e (sym (a.same n) ∙ f))
        (λ n.
          follow_one (R2a.carry port seq buf) n _ (low, fits)
          ∙ own_carry seq buf n _
          ∙ sends_seen (seq == n) x buf (session_of s.relay service n) (s.sent seq) (s.sent n)
              (its_user seq n x s e)
          ∙ ap (λ o. seen o (update s.sent seq (s.sent seq ++ buf) n)) (sym (a.same n)))

  pub goes :
      (seq : ℕ) (ps : List Bytes) (n : ℕ) (v : Option Bytes)
      → seq < 2 ^ 32
      → IsEnd port seq ps
      → follow port n ps v ≡ v
  unfolding follow
  goes seq ps n v fits (inl e) = ap (λ xs. follow port n xs v) e
  goes seq ps n v fits (inr e) =
      ap (λ xs. follow port n xs v) e ∙ follow_one (R2a.disconnect port seq) n v (low, fits)
