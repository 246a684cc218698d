-- ===== src/Protocol/RoundTrip.antt =====
-- The messages of r-nat-s/include/protocol.h, from the structs of one side to the switch of the other.
use r_nat.Common.{◌<◌, ◌≡◌, some, arith, ◌^◌}
use r_nat.Protocol.{A2r, R2a, put_a2r, put_r2a, parse_a2r, parse_r2a}

-- The fields fit their types: a port uint16_t, the others uint32_t.
abbrev pub A2rFits : A2r → Type 0
A2rFits (A2r.bind port) = port < 2 ^ 16
A2rFits (A2r.unbind port) = port < 2 ^ 16
A2rFits (A2r.carry port id rest) = (port < 2 ^ 16) × (id < 2 ^ 32)
A2rFits (A2r.disconnect port id) = (port < 2 ^ 16) × (id < 2 ^ 32)
A2rFits (A2r.session port id) = (port < 2 ^ 16) × (id < 2 ^ 32)

abbrev pub R2aFits : R2a → Type 0
R2aFits (R2a.bind port error_code) = (port < 2 ^ 16) × (error_code < 2 ^ 32)
R2aFits (R2a.unbind port error_code) = (port < 2 ^ 16) × (error_code < 2 ^ 32)
R2aFits (R2a.carry port id rest) = (port < 2 ^ 16) × (id < 2 ^ 32)
R2aFits (R2a.connect port id ip usr_port) =
    (port < 2 ^ 16) × (id < 2 ^ 32) × (ip < 2 ^ 32) × (usr_port < 2 ^ 16)
R2aFits (R2a.disconnect port id) = (port < 2 ^ 16) × (id < 2 ^ 32)

pub parse-put_a2r : (m : A2r) → A2rFits m → parse_a2r (put_a2r m) ≡ some m
unfolding parse_a2r put_a2r
parse-put_a2r (A2r.bind port) h = ground arith
parse-put_a2r (A2r.unbind port) h = ground arith
parse-put_a2r (A2r.carry port id rest) h = ground arith
parse-put_a2r (A2r.disconnect port id) h = ground arith
parse-put_a2r (A2r.session port id) h = ground arith

pub parse-put_r2a : (m : R2a) → R2aFits m → parse_r2a (put_r2a m) ≡ some m
unfolding parse_r2a put_r2a
parse-put_r2a (R2a.bind port error_code) h = ground arith
parse-put_r2a (R2a.unbind port error_code) h = ground arith
parse-put_r2a (R2a.carry port id rest) h = ground arith
parse-put_r2a (R2a.connect port id ip usr_port) h = ground arith
parse-put_r2a (R2a.disconnect port id) h = ground arith

-- Whatever an agent's message, with fields in range, the relay's switch reads the same message from
-- its bytes; and so does the agent's switch for the relay's messages.
pub parse-put :
    (m : A2r) (n : R2a)
    → A2rFits m
    → R2aFits n
    → (parse_a2r (put_a2r m) ≡ some m) × (parse_r2a (put_r2a n) ≡ some n)
parse-put m n h k = (parse-put_a2r m h, parse-put_r2a n k)
