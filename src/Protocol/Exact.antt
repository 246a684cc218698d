-- ===== src/Protocol/Exact.antt =====
-- What the two switches take each buffer for.
use r_nat.Common.{◌≡◌, ◌↔◌, ap, ◌∙◌, some}
use r_nat.Protocol.{Bytes, A2r, R2a, put_a2r, put_r2a, parse_a2r, parse_r2a}
use r_nat.Protocol.RoundTrip.{A2rFits, R2aFits}
use r_nat.Protocol.Accepted.{AreBytes, Begins, A2rTrails, R2aTrails}
use r_nat.Protocol.Accepted.FromAgent.{parse_a2r-Begins, parse_a2r-trailed}
use r_nat.Protocol.Accepted.FromRelay.{parse_r2a-Begins, parse_r2a-trailed}

-- The switches read exactly what the other side writes: the relay's takes a buffer of bytes for a
-- message of an agent exactly if the buffer is the struct of this message, with fields that fit their
-- types, and any bytes after it, which for DATA belong to the message; and so does the agent's switch
-- for the messages of the relay.
pub parse_iff :
    (p q : Bytes) (m : A2r) (n : R2a)
    → AreBytes p
    → AreBytes q
    → ((parse_a2r p ≡ some m) ↔ Begins put_a2r A2rFits A2rTrails p m)
      × ((parse_r2a q ≡ some n) ↔ Begins put_r2a R2aFits R2aTrails q n)
parse_iff p q m n h k = (
  (
    parse_a2r-Begins p m h,
    λ b. ap parse_a2r b.printed ∙ parse_a2r-trailed m b.rest b.fits b.trails,
  ),
  (
    parse_r2a-Begins q n k,
    λ b. ap parse_r2a b.printed ∙ parse_r2a-trailed n b.rest b.fits b.trails,
  ),
)
