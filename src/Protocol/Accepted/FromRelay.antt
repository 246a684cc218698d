-- ===== src/Protocol/Accepted/FromRelay.antt =====
-- What the agent's switch accepts: AppLogic1::__OnServerRecv of r-nat-c/app1/tunnel.cpp.
use mathlib.Core.Option.{some_inj}
use r_nat.Common.{
  ℕ, ◌+◌, ◌*◌, ◌<◌, ◌≡◌, ◌⊎◌, refl, sym, ap, subst, ◌∙◌, inl, inr, some, [], ◌∷◌, ◌++◌, arith,
  append-nil, length,
}
use r_nat.Protocol.{Bytes, R2a, put_u32, header, put_r2a, parse_r2a, byte_at}
use r_nat.Protocol.RoundTrip.{parse-put_r2a, R2aFits}
use r_nat.Protocol.Accepted.{
  AreBytes, u16_bytes, u32_bytes, header_bytes, AreSeven, fields_fit, Begins, seven, R2aTrails,
}

abbrev BeginsR2a : Bytes → R2a → Type 0
BeginsR2a p m = Begins put_r2a R2aFits R2aTrails p m

-- All but CONNECT.
long_r2a :
    (cmd a b c d e f : ℕ) (xs : Bytes) (m : R2a)
    → AreSeven cmd a b c d e f
    → parse_r2a (cmd ∷ a ∷ b ∷ c ∷ d ∷ e ∷ f ∷ xs) ≡ some m
    → (cmd ≡ 0) ⊎ (cmd ≡ 1) ⊎ (cmd ≡ 2) ⊎ (cmd ≡ 4)
    → BeginsR2a (cmd ∷ a ∷ b ∷ c ∷ d ∷ e ∷ f ∷ xs) m
unfolding parse_r2a put_r2a byte_at
long_r2a cmd a b c d e f xs m s h (inl x) =
    let port = a + 256 * b in
    let id = c + 256 * d + 65536 * e + 16777216 * f in
    let k : R2a.bind port id ≡ m = some_inj.0 (ground (arith, h, x)) in
    subst (BeginsR2a (cmd ∷ a ∷ b ∷ c ∷ d ∷ e ∷ f ∷ xs)) k (record {
      rest = xs;
      trails = tt;
      printed = header_bytes cmd a b c d e f xs s ∙ ap (λ n. header n port id xs) x;
      fits = fields_fit cmd a b c d e f s;
    })
long_r2a cmd a b c d e f xs m s h (inr (inl x)) =
    let port = a + 256 * b in
    let id = c + 256 * d + 65536 * e + 16777216 * f in
    let k : R2a.unbind port id ≡ m = some_inj.0 (ground (arith, h, x)) in
    subst (BeginsR2a (cmd ∷ a ∷ b ∷ c ∷ d ∷ e ∷ f ∷ xs)) k (record {
      rest = xs;
      trails = tt;
      printed = header_bytes cmd a b c d e f xs s ∙ ap (λ n. header n port id xs) x;
      fits = fields_fit cmd a b c d e f s;
    })
long_r2a cmd a b c d e f xs m s h (inr (inr (inl x))) =
    let port = a + 256 * b in
    let id = c + 256 * d + 65536 * e + 16777216 * f in
    let k : R2a.carry port id xs ≡ m = some_inj.0 (ground (arith, h, x)) in
    subst (BeginsR2a (cmd ∷ a ∷ b ∷ c ∷ d ∷ e ∷ f ∷ xs)) k (record {
      rest = [];
      trails = refl;
      printed =
          header_bytes cmd a b c d e f xs s
          ∙ ap (λ n. header n port id xs) x
          ∙ sym (append-nil (header 2 port id xs));
      fits = fields_fit cmd a b c d e f s;
    })
long_r2a cmd a b c d e f xs m s h (inr (inr (inr x))) =
    let port = a + 256 * b in
    let id = c + 256 * d + 65536 * e + 16777216 * f in
    let k : R2a.disconnect port id ≡ m = some_inj.0 (ground (arith, h, x)) in
    subst (BeginsR2a (cmd ∷ a ∷ b ∷ c ∷ d ∷ e ∷ f ∷ xs)) k (record {
      rest = xs;
      trails = tt;
      printed = header_bytes cmd a b c d e f xs s ∙ ap (λ n. header n port id xs) x;
      fits = fields_fit cmd a b c d e f s;
    })

-- CONNECT has an address and a port more.
connect_r2a :
    (cmd a b c d e f g i j k l n : ℕ) (xs : Bytes) (m : R2a)
    → AreSeven cmd a b c d e f
    → AreBytes (g ∷ i ∷ j ∷ k ∷ l ∷ n ∷ [])
    → parse_r2a (cmd ∷ a ∷ b ∷ c ∷ d ∷ e ∷ f ∷ g ∷ i ∷ j ∷ k ∷ l ∷ n ∷ xs) ≡ some m
    → cmd ≡ 3
    → BeginsR2a (cmd ∷ a ∷ b ∷ c ∷ d ∷ e ∷ f ∷ g ∷ i ∷ j ∷ k ∷ l ∷ n ∷ xs) m
unfolding parse_r2a put_r2a byte_at
connect_r2a cmd a b c d e f g i j k l n xs m s t h x =
    let port = a + 256 * b in
    let id = c + 256 * d + 65536 * e + 16777216 * f in
    let ip = g + 256 * i + 65536 * j + 16777216 * k in
    let usr_port = l + 256 * n in
    let q : R2a.connect port id ip usr_port ≡ m = some_inj.0 (ground (arith, h, x)) in
    let own = fields_fit cmd a b c d e f s in
    subst (BeginsR2a (cmd ∷ a ∷ b ∷ c ∷ d ∷ e ∷ f ∷ g ∷ i ∷ j ∷ k ∷ l ∷ n ∷ xs)) q (record {
      rest = xs;
      trails = tt;
      printed =
          header_bytes cmd a b c d e f (g ∷ i ∷ j ∷ k ∷ l ∷ n ∷ xs) s
          ∙ ap (λ y. header y port id (g ∷ i ∷ j ∷ k ∷ l ∷ n ∷ xs)) x
          ∙ ap (header 3 port id) (
              u32_bytes g i j k (l ∷ n ∷ xs) t.0 t.1.0 t.1.1.0 t.1.1.1.0
              ∙ ap (put_u32 ip) (u16_bytes l n xs t.1.1.1.1.0 t.1.1.1.1.1.0));
      fits = (
        own.0,
        own.1,
        omega (arith, t.0, t.1.0, t.1.1.0, t.1.1.1.0),
        omega (arith, t.1.1.1.1.0, t.1.1.1.1.1.0),
      );
    })

commands_r2a :
    (cmd : ℕ) (xs : Bytes) (m : R2a)
    → parse_r2a (cmd ∷ xs) ≡ some m
    → (((cmd ≡ 0) ⊎ (cmd ≡ 1) ⊎ (cmd ≡ 2) ⊎ (cmd ≡ 4)) × (6 < length (cmd ∷ xs)))
      ⊎ ((cmd ≡ 3) × (12 < length (cmd ∷ xs)))
unfolding parse_r2a
commands_r2a cmd xs m h = ground (arith, h)

whole_r2a :
    (cmd : ℕ) (xs : Bytes) (m : R2a)
    → AreBytes (cmd ∷ xs)
    → parse_r2a (cmd ∷ xs) ≡ some m
    → (cmd ≡ 0) ⊎ (cmd ≡ 1) ⊎ (cmd ≡ 2) ⊎ (cmd ≡ 4)
    → 6 < length (cmd ∷ xs)
    → BeginsR2a (cmd ∷ xs) m
whole_r2a cmd (a ∷ b ∷ c ∷ d ∷ e ∷ f ∷ xs) m h p x l =
    long_r2a cmd a b c d e f xs m (seven cmd a b c d e f xs h) p x
whole_r2a cmd (a ∷ b ∷ c ∷ d ∷ e ∷ []) m h p x l = absurd (omega (arith, l))
whole_r2a cmd (a ∷ b ∷ c ∷ d ∷ []) m h p x l = absurd (omega (arith, l))
whole_r2a cmd (a ∷ b ∷ c ∷ []) m h p x l = absurd (omega (arith, l))
whole_r2a cmd (a ∷ b ∷ []) m h p x l = absurd (omega (arith, l))
whole_r2a cmd (a ∷ []) m h p x l = absurd (omega (arith, l))
whole_r2a cmd [] m h p x l = absurd (omega (arith, l))

-- The bytes after a header, of a CONNECT.
after_header :
    (cmd a b c d e f : ℕ) (xs : Bytes) (m : R2a)
    → AreSeven cmd a b c d e f
    → AreBytes xs
    → parse_r2a (cmd ∷ a ∷ b ∷ c ∷ d ∷ e ∷ f ∷ xs) ≡ some m
    → cmd ≡ 3
    → 5 < length xs
    → BeginsR2a (cmd ∷ a ∷ b ∷ c ∷ d ∷ e ∷ f ∷ xs) m
after_header cmd a b c d e f (g ∷ i ∷ j ∷ k ∷ l ∷ n ∷ xs) m s h p x y =
    connect_r2a cmd a b c d e f g i j k l n xs m s
      (h.0, (h.1.0, (h.1.1.0, (h.1.1.1.0, (h.1.1.1.1.0, (h.1.1.1.1.1.0, tt)))))) p x
after_header cmd a b c d e f (g ∷ i ∷ j ∷ k ∷ l ∷ []) m s h p x y = absurd (omega (arith, y))
after_header cmd a b c d e f (g ∷ i ∷ j ∷ k ∷ []) m s h p x y = absurd (omega (arith, y))
after_header cmd a b c d e f (g ∷ i ∷ j ∷ []) m s h p x y = absurd (omega (arith, y))
after_header cmd a b c d e f (g ∷ i ∷ []) m s h p x y = absurd (omega (arith, y))
after_header cmd a b c d e f (g ∷ []) m s h p x y = absurd (omega (arith, y))
after_header cmd a b c d e f [] m s h p x y = absurd (omega (arith, y))

whole_connect :
    (cmd : ℕ) (xs : Bytes) (m : R2a)
    → AreBytes (cmd ∷ xs)
    → parse_r2a (cmd ∷ xs) ≡ some m
    → cmd ≡ 3
    → 12 < length (cmd ∷ xs)
    → BeginsR2a (cmd ∷ xs) m
whole_connect cmd (a ∷ b ∷ c ∷ d ∷ e ∷ f ∷ xs) m h p x l =
    after_header cmd a b c d e f xs m (seven cmd a b c d e f xs h) h.1.1.1.1.1.1.1 p x
      (omega (arith, l))
whole_connect cmd (a ∷ b ∷ c ∷ d ∷ e ∷ []) m h p x l = absurd (omega (arith, l))
whole_connect cmd (a ∷ b ∷ c ∷ d ∷ []) m h p x l = absurd (omega (arith, l))
whole_connect cmd (a ∷ b ∷ c ∷ []) m h p x l = absurd (omega (arith, l))
whole_connect cmd (a ∷ b ∷ []) m h p x l = absurd (omega (arith, l))
whole_connect cmd (a ∷ []) m h p x l = absurd (omega (arith, l))
whole_connect cmd [] m h p x l = absurd (omega (arith, l))

pub parse_r2a-Begins :
    (p : Bytes) (m : R2a) → AreBytes p → parse_r2a p ≡ some m → Begins put_r2a R2aFits R2aTrails p m
unfolding parse_r2a
parse_r2a-Begins [] m h e = absurd (cc)
parse_r2a-Begins (cmd ∷ xs) m h e = elim (commands_r2a cmd xs m e) [
  | inl x ↦ whole_r2a cmd xs m h e x.0 x.1
  | inr x ↦ whole_connect cmd xs m h e x.0 x.1
]

-- A struct with what may follow it is read as its message.
pub parse_r2a-trailed :
    (m : R2a) (rest : Bytes) → R2aFits m → R2aTrails m rest → parse_r2a (put_r2a m ++ rest) ≡ some m
unfolding parse_r2a put_r2a byte_at
parse_r2a-trailed (R2a.bind port error_code) rest h t = ground arith
parse_r2a-trailed (R2a.unbind port error_code) rest h t = ground arith
parse_r2a-trailed (R2a.carry port id buf) rest h t =
    ap (λ r. parse_r2a (put_r2a (R2a.carry port id buf) ++ r)) t
    ∙ ap parse_r2a (append-nil (put_r2a (R2a.carry port id buf)))
    ∙ parse-put_r2a (R2a.carry port id buf) h
parse_r2a-trailed (R2a.connect port id ip usr_port) rest h t = ground arith
parse_r2a-trailed (R2a.disconnect port id) rest h t = ground arith
