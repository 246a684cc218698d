-- ===== src/Protocol/Accepted.antt =====
-- The switches of both sides, from the bytes that they accept back to the structs of
-- r-nat-s/include/protocol.h.
pub mod FromAgent
pub mod FromRelay
use mathlib.Core.Option.{some_inj}
use r_nat.Common.{
  ℕ, ◌+◌, ◌*◌, ◌/◌, ◌%◌, ◌<◌, ◌≡◌, ◌⊎◌, refl, sym, ap, subst, ◌∙◌, inl, inr, Option, none, some,
  List, [], ◌∷◌, ◌++◌, Bool, true, false, ◌==◌, arith, ◌^◌, Bool-cases, ==_iff, if◌then◌else◌,
  append-nil, length,
}
use r_nat.Protocol.{
  Bytes, A2r, R2a, put_u16, put_u32, header, put_a2r, put_r2a, parse_a2r, parse_r2a, byte_at,
}
use r_nat.Protocol.RoundTrip.{A2rFits, R2aFits}

-- The numbers of a buffer are bytes.
abbrev pub AreBytes : Bytes → Type 0
AreBytes [] = Unit {0}
AreBytes (b ∷ bs) = (b < 256) × AreBytes bs

pub u16_bytes : (a b : ℕ) (xs : Bytes) → a < 256 → b < 256 → a ∷ b ∷ xs ≡ put_u16 (a + 256 * b) xs
u16_bytes a b xs h k =
    let low : a ≡ (a + 256 * b) % 256 = omega (arith, h, k) in
    let high : b ≡ (a + 256 * b) / 256 % 256 = omega (arith, h, k) in
    ap (λ x. x ∷ b ∷ xs) low ∙ ap (λ y. (a + 256 * b) % 256 ∷ y ∷ xs) high

pub u32_bytes :
    (a b c d : ℕ) (xs : Bytes)
    → a < 256
    → b < 256
    → c < 256
    → d < 256
    → a ∷ b ∷ c ∷ d ∷ xs ≡ put_u32 (a + 256 * b + 65536 * c + 16777216 * d) xs
u32_bytes a b c d xs h k l m =
    let n = a + 256 * b + 65536 * c + 16777216 * d in
    let one : a ≡ n % 256 = omega (arith, h, k, l, m) in
    let two : b ≡ n / 256 % 256 = omega (arith, h, k, l, m) in
    let three : c ≡ n / 65536 % 256 = omega (arith, h, k, l, m) in
    let four : d ≡ n / 16777216 % 256 = omega (arith, h, k, l, m) in
    ap (λ x. x ∷ b ∷ c ∷ d ∷ xs) one
    ∙ ap (λ x. n % 256 ∷ x ∷ c ∷ d ∷ xs) two
    ∙ ap (λ x. n % 256 ∷ n / 256 % 256 ∷ x ∷ d ∷ xs) three
    ∙ ap (λ x. n % 256 ∷ n / 256 % 256 ∷ n / 65536 % 256 ∷ x ∷ xs) four

-- The seven bytes of a header.
pub record AreSeven (cmd a b c d e f : ℕ) : Type 0 where
  pub one : a < 256
  pub two : b < 256
  pub three : c < 256
  pub four : d < 256
  pub five : e < 256
  pub six : f < 256

pub header_bytes :
    (cmd a b c d e f : ℕ) (xs : Bytes)
    → AreSeven cmd a b c d e f
    → cmd ∷ a ∷ b ∷ c ∷ d ∷ e ∷ f ∷ xs
      ≡ header cmd (a + 256 * b) (c + 256 * d + 65536 * e + 16777216 * f) xs
header_bytes cmd a b c d e f xs h =
    ap (λ ys. cmd ∷ a ∷ b ∷ ys) (u32_bytes c d e f xs h.three h.four h.five h.six)
    ∙ ap (λ ys. cmd ∷ ys)
        (u16_bytes a b (put_u32 (c + 256 * d + 65536 * e + 16777216 * f) xs) h.one h.two)

pub fields_fit :
    (cmd a b c d e f : ℕ)
    → AreSeven cmd a b c d e f
    → (a + 256 * b < 2 ^ 16) × (c + 256 * d + 65536 * e + 16777216 * f < 2 ^ 32)
fields_fit cmd a b c d e f h =
    (omega (arith, h.one, h.two), omega (arith, h.three, h.four, h.five, h.six))

-- What may follow the struct of a message: anything, but for DATA, which takes it in.
abbrev pub A2rTrails : A2r → Bytes → Type 0
A2rTrails (A2r.bind port) rest = Unit
A2rTrails (A2r.unbind port) rest = Unit
A2rTrails (A2r.carry port id buf) rest = rest ≡ []
A2rTrails (A2r.disconnect port id) rest = Unit
A2rTrails (A2r.session port id) rest = Unit

abbrev pub R2aTrails : R2a → Bytes → Type 0
R2aTrails (R2a.bind port error_code) rest = Unit
R2aTrails (R2a.unbind port error_code) rest = Unit
R2aTrails (R2a.carry port id buf) rest = rest ≡ []
R2aTrails (R2a.connect port id ip usr_port) rest = Unit
R2aTrails (R2a.disconnect port id) rest = Unit

-- The struct of a message in front of a buffer, with fields that fit their types.
pub record Begins {M : Type 0} (put : M → Bytes) (Fits : M → Type 0) (Trails : M → Bytes → Type 0)
    (p : Bytes) (m : M) : Type 0 where
  pub rest : Bytes
  pub trails : Trails m rest
  pub printed : p ≡ put m ++ rest
  pub fits : Fits m

pub seven :
    (cmd a b c d e f : ℕ) (xs : Bytes)
    → AreBytes (cmd ∷ a ∷ b ∷ c ∷ d ∷ e ∷ f ∷ xs)
    → AreSeven cmd a b c d e f
seven cmd a b c d e f xs h = record {
  one = h.1.0;
  two = h.1.1.0;
  three = h.1.1.1.0;
  four = h.1.1.1.1.0;
  five = h.1.1.1.1.1.0;
  six = h.1.1.1.1.1.1.0;
}
