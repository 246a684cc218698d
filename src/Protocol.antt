-- ===== src/Protocol.antt =====
-- r-nat-s/include/protocol.h (the same file stands in r-nat-c): the packed messages between an
-- agent and the relay. A buffer is a list of bytes; integers are little-endian, which is the layout
-- of the structs on the targets that the README names.
pub mod RoundTrip
pub mod Accepted
pub mod Exact
use r_nat.Common.{
  ℕ, zero, suc, ◌+◌, ◌*◌, ◌/◌, ◌%◌, Option, none, some, List, [], ◌∷◌, ◌++◌, ltb, ◌==◌,
  if◌then◌else◌, length, drop,
}

abbrev pub Bytes : Type 0
Bytes = List ℕ

unfoldable pub byte_at : Bytes → ℕ → ℕ
byte_at [] i = 0
byte_at (b ∷ bs) zero = b
byte_at (b ∷ bs) (suc i) = byte_at bs i

abbrev pub u16_at : Bytes → ℕ → ℕ
u16_at bs i = byte_at bs i + 256 * byte_at bs (i + 1)

abbrev pub u32_at : Bytes → ℕ → ℕ
u32_at bs i =
    byte_at bs i
    + 256 * byte_at bs (i + 1)
    + 65536 * byte_at bs (i + 2)
    + 16777216 * byte_at bs (i + 3)

abbrev pub put_u16 : ℕ → Bytes → Bytes
put_u16 n rest = n % 256 ∷ (n / 256) % 256 ∷ rest

abbrev pub put_u32 : ℕ → Bytes → Bytes
put_u32 n rest = n % 256 ∷ (n / 256) % 256 ∷ (n / 65536) % 256 ∷ (n / 16777216) % 256 ∷ rest

-- Agent to relay. `carry` is the struct `data` with the bytes that follow it.
pub data A2r : Type 0 where
  bind : ℕ → A2r
  unbind : ℕ → A2r
  carry : ℕ → ℕ → Bytes → A2r
  disconnect : ℕ → ℕ → A2r
  session : ℕ → ℕ → A2r

-- Relay to agent.
pub data R2a : Type 0 where
  bind : ℕ → ℕ → R2a
  unbind : ℕ → ℕ → R2a
  carry : ℕ → ℕ → Bytes → R2a
  connect : ℕ → ℕ → ℕ → ℕ → R2a
  disconnect : ℕ → ℕ → R2a

-- A command byte, a port and a user's number: three of the structs have no other field.
abbrev pub header : ℕ → ℕ → ℕ → Bytes → Bytes
header cmd port id rest = cmd ∷ put_u16 port (put_u32 id rest)

-- The structs as the senders fill them in.
unfoldable pub put_a2r : A2r → Bytes
put_a2r (A2r.bind port) = 0 ∷ put_u16 port []
put_a2r (A2r.unbind port) = 1 ∷ put_u16 port []
put_a2r (A2r.carry port id rest) = header 2 port id rest
put_a2r (A2r.disconnect port id) = header 3 port id []
put_a2r (A2r.session port id) = header 4 port id []

unfoldable pub put_r2a : R2a → Bytes
put_r2a (R2a.bind port error_code) = header 0 port error_code []
put_r2a (R2a.unbind port error_code) = header 1 port error_code []
put_r2a (R2a.carry port id rest) = header 2 port id rest
put_r2a (R2a.connect port id usr_ip usr_port) =
    header 3 port id (put_u32 usr_ip (put_u16 usr_port []))
put_r2a (R2a.disconnect port id) = header 4 port id []

abbrev sized : {A : Type 0} → Bytes → ℕ → A → Option A
sized bs n m = if ltb (length bs) n then none else some m

-- The switch of AppLogic1::__OnAgentRecv with the size test of each case: `none` where the handler
-- drops the buffer.
unfoldable pub parse_a2r : Bytes → Option A2r
unfolding byte_at
parse_a2r [] = none
parse_a2r (cmd ∷ bs) =
    let p = cmd ∷ bs in
    if cmd == 0
    then sized p 3 (A2r.bind (u16_at p 1))
    else if cmd == 1
    then sized p 3 (A2r.unbind (u16_at p 1))
    else if cmd == 2
    then sized p 7 (A2r.carry (u16_at p 1) (u32_at p 3) (drop 7 p))
    else if cmd == 3
    then sized p 7 (A2r.disconnect (u16_at p 1) (u32_at p 3))
    else if cmd == 4
    then sized p 7 (A2r.session (u16_at p 1) (u32_at p 3))
    else none

-- The switch of the agent's AppLogic1::__OnServerRecv, likewise.
unfoldable pub parse_r2a : Bytes → Option R2a
unfolding byte_at
parse_r2a [] = none
parse_r2a (cmd ∷ bs) =
    let p = cmd ∷ bs in
    if cmd == 0
    then sized p 7 (R2a.bind (u16_at p 1) (u32_at p 3))
    else if cmd == 1
    then sized p 7 (R2a.unbind (u16_at p 1) (u32_at p 3))
    else if cmd == 2
    then sized p 7 (R2a.carry (u16_at p 1) (u32_at p 3) (drop 7 p))
    else if cmd == 3
    then sized p 13 (R2a.connect (u16_at p 1) (u32_at p 3) (u32_at p 7) (u16_at p 11))
    else if cmd == 4
    then sized p 7 (R2a.disconnect (u16_at p 1) (u32_at p 3))
    else none
