-- ===== src/Relay/Directory.antt =====
-- What services_ and agents_ of r-nat-s/app1 stand for: which agents are connected, and which of them
-- serve a port. A port without agents is not listened at.
pub mod Leaving
pub mod Changes
pub mod Refinement
use r_nat.Common.{
  ℕ, ◌≡◌, Option, none, some, [], ◌∷◌, Bool, true, false, ◌==◌, if◌then◌else◌, length, nat_key,
  KeySet, lookup, insert, erase, update, is_some,
}
use r_nat.Protocol.{Bytes, A2r, parse_a2r}
use r_nat.Relay.State.{App}
use r_nat.Relay.Step.{
  Event, agent_connects, agent_disconnects, agent_sends, user_connects, user_disconnects,
  user_sends, completes,
}

pub record Directory : Type 0 where
  pub connected : ℕ → Bool
  pub providers : ℕ → KeySet

abbrev pub join : ℕ → Directory → Directory
join a d = record d { connected = update d.connected a true }

abbrev pub leave : ℕ → Directory → Directory
leave a d = record {
  connected = update d.connected a false;
  providers = λ p. erase a (d.providers p);
}

abbrev pub add : ℕ → ℕ → Directory → Directory
add a p d = record d { providers = update d.providers p (insert a tt (d.providers p)) }

abbrev pub remove : ℕ → ℕ → Directory → Directory
remove a p d = record d { providers = update d.providers p (erase a (d.providers p)) }

-- What becomes of a port that no agent serves yet, by the answer of the network.
abbrev pub open_port : Option Bool → ℕ → ℕ → Directory → Option Directory
open_port none a p d = none
open_port (some false) a p d = some d
open_port (some true) a p d = some (add a p d)

-- A connected agent serves a port that others serve, or that can be listened at.
abbrev pub offer : (ℕ → Option Bool) → ℕ → ℕ → Directory → Option Directory
offer listens a p d =
    if d.connected a
    then if length (d.providers p) == 0 then open_port (listens p) a p d else some (add a p d)
    else some d

abbrev pub withdraw : ℕ → ℕ → Directory → Directory
withdraw a p d = if d.connected a then remove a p d else d

-- Of an agent's messages only BIND and UNBIND count.
abbrev pub follow : (ℕ → Option Bool) → ℕ → Option A2r → Directory → Option Directory
follow listens a none d = some d
follow listens a (some (A2r.bind p)) d = offer listens a p d
follow listens a (some (A2r.unbind p)) d = some (withdraw a p d)
follow listens a (some (A2r.carry p id pkt)) d = some d
follow listens a (some (A2r.disconnect p id)) d = some d
follow listens a (some (A2r.session p id)) d = some d

-- The directory after an event; `none` where the program throws.
abbrev pub advance : (ℕ → Option Bool) → Event → Directory → Option Directory
advance listens (agent_connects a) d = some (join a d)
advance listens (agent_disconnects a) d = some (leave a d)
advance listens (agent_sends a buf) d = follow listens a (parse_a2r buf) d
advance listens (user_connects service seq ip port) d = some d
advance listens (user_disconnects service seq) d = some d
advance listens (user_sends service seq buf) d = some d
advance listens (completes sent) d = some d

-- The agents of a port, as the program finds them.
unfoldable pub providers_of : App → ℕ → KeySet
providers_of s p = elim (lookup p s.services) [ none ↦ [] | some r ↦ (s.service_at r).agents ]

pub record Matches (s : App) (d : Directory) : Type 0 where
  pub connected : (a : ℕ) → is_some (lookup a s.agents) ≡ d.connected a
  pub providers : (p : ℕ) → providers_of s p ≡ d.providers p

-- The program and the directory throw together, or both go on and match.
abbrev pub Agrees : Option App → Option Directory → Type 0
Agrees none none = Unit {0}
Agrees none (some d) = ⊥
Agrees (some s) none = ⊥
Agrees (some s) (some d) = Matches s d
