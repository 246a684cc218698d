-- ===== src/Protocol/Accepted/FromAgent.antt =====
-- What the relay's switch accepts: AppLogic1::__OnAgentRecv of r-nat-s/app1/tunnel.cpp.
use mathlib.Core.Option.{some_inj}
use r_nat.Common.{
  ℕ, ◌+◌, ◌*◌, ◌<◌, ◌≡◌, ◌⊎◌, refl, sym, ap, subst, ◌∙◌, inl, inr, some, [], ◌∷◌, ◌++◌, arith,
  append-nil, length,
}
use r_nat.Protocol.{Bytes, A2r, header, put_a2r, parse_a2r, byte_at}
use r_nat.Protocol.RoundTrip.{parse-put_a2r, A2rFits}
use r_nat.Protocol.Accepted.{
  AreBytes, u16_bytes, header_bytes, AreSeven, fields_fit, Begins, seven, A2rTrails,
}

abbrev BeginsA2r : Bytes → A2r → Type 0
BeginsA2r p m = Begins put_a2r A2rFits A2rTrails p m

short_a2r :
    (cmd a b : ℕ) (xs : Bytes) (m : A2r)
    → a < 256
    → b < 256
    → parse_a2r (cmd ∷ a ∷ b ∷ xs) ≡ some m
    → (cmd ≡ 0) ⊎ (cmd ≡ 1)
    → BeginsA2r (cmd ∷ a ∷ b ∷ xs) m
unfolding parse_a2r put_a2r byte_at
short_a2r cmd a b xs m ha hb h (inl x) =
    let k : A2r.bind (a + 256 * b) ≡ m = some_inj.0 (ground (arith, h, x)) in
    subst (BeginsA2r (cmd ∷ a ∷ b ∷ xs)) k (record {
      rest = xs;
      trails = tt;
      printed = ap (λ c. c ∷ a ∷ b ∷ xs) x ∙ ap (λ ys. 0 ∷ ys) (u16_bytes a b xs ha hb);
      fits = omega (arith, ha, hb);
    })
short_a2r cmd a b xs m ha hb h (inr x) =
    let k : A2r.unbind (a + 256 * b) ≡ m = some_inj.0 (ground (arith, h, x)) in
    subst (BeginsA2r (cmd ∷ a ∷ b ∷ xs)) k (record {
      rest = xs;
      trails = tt;
      printed = ap (λ c. c ∷ a ∷ b ∷ xs) x ∙ ap (λ ys. 1 ∷ ys) (u16_bytes a b xs ha hb);
      fits = omega (arith, ha, hb);
    })

-- DATA, DISCONNECT and SESSION have a whole header.
long_a2r :
    (cmd a b c d e f : ℕ) (xs : Bytes) (m : A2r)
    → AreSeven cmd a b c d e f
    → parse_a2r (cmd ∷ a ∷ b ∷ c ∷ d ∷ e ∷ f ∷ xs) ≡ some m
    → (cmd ≡ 2) ⊎ (cmd ≡ 3) ⊎ (cmd ≡ 4)
    → BeginsA2r (cmd ∷ a ∷ b ∷ c ∷ d ∷ e ∷ f ∷ xs) m
unfolding parse_a2r put_a2r byte_at
long_a2r cmd a b c d e f xs m s h (inl x) =
    let port = a + 256 * b in
    let id = c + 256 * d + 65536 * e + 16777216 * f in
    let k : A2r.carry port id xs ≡ m = some_inj.0 (ground (arith, h, x)) in
    subst (BeginsA2r (cmd ∷ a ∷ b ∷ c ∷ d ∷ e ∷ f ∷ xs)) k (record {
      rest = [];
      trails = refl;
      printed =
          header_bytes cmd a b c d e f xs s
          ∙ ap (λ n. header n port id xs) x
          ∙ sym (append-nil (header 2 port id xs));
      fits = fields_fit cmd a b c d e f s;
    })
long_a2r cmd a b c d e f xs m s h (inr (inl x)) =
    let port = a + 256 * b in
    let id = c + 256 * d + 65536 * e + 16777216 * f in
    let k : A2r.disconnect port id ≡ m = some_inj.0 (ground (arith, h, x)) in
    subst (BeginsA2r (cmd ∷ a ∷ b ∷ c ∷ d ∷ e ∷ f ∷ xs)) k (record {
      rest = xs;
      trails = tt;
      printed = header_bytes cmd a b c d e f xs s ∙ ap (λ n. header n port id xs) x;
      fits = fields_fit cmd a b c d e f s;
    })
long_a2r cmd a b c d e f xs m s h (inr (inr x)) =
    let port = a + 256 * b in
    let id = c + 256 * d + 65536 * e + 16777216 * f in
    let k : A2r.session port id ≡ m = some_inj.0 (ground (arith, h, x)) in
    subst (BeginsA2r (cmd ∷ a ∷ b ∷ c ∷ d ∷ e ∷ f ∷ xs)) k (record {
      rest = xs;
      trails = tt;
      printed = header_bytes cmd a b c d e f xs s ∙ ap (λ n. header n port id xs) x;
      fits = fields_fit cmd a b c d e f s;
    })

-- The commands that the relay knows, and the length that they need.
commands_a2r :
    (cmd : ℕ) (xs : Bytes) (m : A2r)
    → parse_a2r (cmd ∷ xs) ≡ some m
    → ((cmd ≡ 0) ⊎ (cmd ≡ 1)) ⊎ (((cmd ≡ 2) ⊎ (cmd ≡ 3) ⊎ (cmd ≡ 4)) × (6 < length (cmd ∷ xs)))
unfolding parse_a2r
commands_a2r cmd xs m h = ground (arith, h)

three_a2r : (cmd : ℕ) (xs : Bytes) (m : A2r) → parse_a2r (cmd ∷ xs) ≡ some m → 2 < length (cmd ∷ xs)
unfolding parse_a2r
three_a2r cmd xs m h = ground (arith, h)

whole_a2r :
    (cmd a b : ℕ) (xs : Bytes) (m : A2r)
    → AreBytes (cmd ∷ a ∷ b ∷ xs)
    → parse_a2r (cmd ∷ a ∷ b ∷ xs) ≡ some m
    → (cmd ≡ 2) ⊎ (cmd ≡ 3) ⊎ (cmd ≡ 4)
    → 6 < length (cmd ∷ a ∷ b ∷ xs)
    → BeginsA2r (cmd ∷ a ∷ b ∷ xs) m
whole_a2r cmd a b (c ∷ d ∷ e ∷ f ∷ xs) m h p x l =
    long_a2r cmd a b c d e f xs m (seven cmd a b c d e f xs h) p x
whole_a2r cmd a b (c ∷ d ∷ e ∷ []) m h p x l = absurd (omega (arith, l))
whole_a2r cmd a b (c ∷ d ∷ []) m h p x l = absurd (omega (arith, l))
whole_a2r cmd a b (c ∷ []) m h p x l = absurd (omega (arith, l))
whole_a2r cmd a b [] m h p x l = absurd (omega (arith, l))

pub parse_a2r-Begins :
    (p : Bytes) (m : A2r) → AreBytes p → parse_a2r p ≡ some m → Begins put_a2r A2rFits A2rTrails p m
unfolding parse_a2r
parse_a2r-Begins [] m h e = absurd (cc)
parse_a2r-Begins (cmd ∷ []) m h e = absurd (omega (arith, three_a2r cmd [] m e))
parse_a2r-Begins (cmd ∷ a ∷ []) m h e = absurd (omega (arith, three_a2r cmd (a ∷ []) m e))
parse_a2r-Begins (cmd ∷ a ∷ b ∷ xs) m h e = elim (commands_a2r cmd (a ∷ b ∷ xs) m e) [
  | inl x ↦ short_a2r cmd a b xs m h.1.0 h.1.1.0 e x
  | inr x ↦ whole_a2r cmd a b xs m h e x.0 x.1
]

-- A struct with what may follow it is read as its message.
pub parse_a2r-trailed :
    (m : A2r) (rest : Bytes) → A2rFits m → A2rTrails m rest → parse_a2r (put_a2r m ++ rest) ≡ some m
unfolding parse_a2r put_a2r byte_at
parse_a2r-trailed (A2r.bind port) rest h t = ground arith
parse_a2r-trailed (A2r.unbind port) rest h t = ground arith
parse_a2r-trailed (A2r.carry port id buf) rest h t =
    ap (λ r. parse_a2r (put_a2r (A2r.carry port id buf) ++ r)) t
    ∙ ap parse_a2r (append-nil (put_a2r (A2r.carry port id buf)))
    ∙ parse-put_a2r (A2r.carry port id buf) h
parse_a2r-trailed (A2r.disconnect port id) rest h t = ground arith
parse_a2r-trailed (A2r.session port id) rest h t = ground arith
