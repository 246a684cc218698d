-- ===== src/Link/Stream/View.antt =====
-- What packets from a relay mean to an agent, for one user of one port: whether it has a session, and
-- which bytes its service has got.
use mathlib.Core.Option.{some_inj}
use r_nat.Common.{
  ℕ, ◌≡◌, refl, ◌∙◌, Option, none, some, List, [], ◌∷◌, ◌++◌, Bool, true, false, sym, ◌==◌, ◌&&◌,
  if◌then◌else◌, append-nil, append_assoc, ap,
}
use r_nat.Protocol.{Bytes, R2a, parse_r2a}

abbrev pub opened : Option Bytes → Option Bytes
opened none = some []
opened (some bs) = some bs

abbrev pub grown : Bytes → Option Bytes → Option Bytes
grown buf none = none
grown buf (some bs) = some (bs ++ buf)

-- CONNECT opens a session, DATA adds to what the service got.
abbrev pub taken : (port seq : ℕ) → Option R2a → Option Bytes → Option Bytes
taken port seq none v = v
taken port seq (some (R2a.bind p e)) v = v
taken port seq (some (R2a.unbind p e)) v = v
taken port seq (some (R2a.carry p id buf)) v = if p == port && id == seq then grown buf v else v
taken port seq (some (R2a.connect p id ip q)) v = if p == port && id == seq then opened v else v
taken port seq (some (R2a.disconnect p id)) v = v

unfoldable pub follow : (port seq : ℕ) → List Bytes → Option Bytes → Option Bytes
follow port seq [] v = v
follow port seq (packet ∷ packets) v = follow port seq packets (taken port seq (parse_r2a packet) v)

pub follow-append :
    (port seq : ℕ) (ps qs : List Bytes) (v : Option Bytes)
    → follow port seq (ps ++ qs) v ≡ follow port seq qs (follow port seq ps v)
unfolding follow
follow-append port seq [] qs v = refl
follow-append port seq (p ∷ ps) qs v = follow-append port seq ps qs (taken port seq (parse_r2a p) v)

-- What a user has sent, if it has a session.
abbrev pub seen : Option ℕ → Bytes → Option Bytes
seen none bs = none
seen (some x) bs = some bs

-- Bytes are only ever added.
pub record IsPrefix (v w : Option Bytes) : Type 0 where
  pub kept : (bs : Bytes) → v ≡ some bs → (rest : Bytes) × (w ≡ some (bs ++ rest))

IsPrefix-trans : {u v w : Option Bytes} → IsPrefix u v → IsPrefix v w → IsPrefix u w
IsPrefix-trans a b = record {
  kept = λ bs e.
      let (xs, f) = a.kept bs e in
      let (ys, g) = b.kept (bs ++ xs) f in (xs ++ ys, g ∙ ap some (append_assoc bs xs ys));
}

IsPrefix-refl : (v : Option Bytes) → IsPrefix v v
IsPrefix-refl v = record { kept = λ bs e. ([], e ∙ ap some (sym (append-nil bs))) }

opened-IsPrefix : (b : Bool) (v : Option Bytes) → IsPrefix v (if b then opened v else v)
opened-IsPrefix false v = IsPrefix-refl v
opened-IsPrefix true none = record { kept = λ bs e. absurd (cc) }
opened-IsPrefix true (some xs) = IsPrefix-refl (some xs)

grown-IsPrefix :
    (buf : Bytes) (b : Bool) (v : Option Bytes) → IsPrefix v (if b then grown buf v else v)
grown-IsPrefix buf false v = IsPrefix-refl v
grown-IsPrefix buf true none = record { kept = λ bs e. absurd (cc) }
grown-IsPrefix buf true (some xs) = record {
  kept = λ bs e. (buf, ap some (ap (λ ys. ys ++ buf) (some_inj.0 e)));
}

taken-IsPrefix :
    (port seq : ℕ) (o : Option R2a) (v : Option Bytes) → IsPrefix v (taken port seq o v)
taken-IsPrefix port seq none v = IsPrefix-refl v
taken-IsPrefix port seq (some (R2a.bind p e)) v = IsPrefix-refl v
taken-IsPrefix port seq (some (R2a.unbind p e)) v = IsPrefix-refl v
taken-IsPrefix port seq (some (R2a.carry p id buf)) v =
    grown-IsPrefix buf (p == port && id == seq) v
taken-IsPrefix port seq (some (R2a.connect p id ip q)) v =
    opened-IsPrefix (p == port && id == seq) v
taken-IsPrefix port seq (some (R2a.disconnect p id)) v = IsPrefix-refl v

pub follow-IsPrefix :
    (port seq : ℕ) (ps : List Bytes) (v : Option Bytes) → IsPrefix v (follow port seq ps v)
unfolding follow
follow-IsPrefix port seq [] v = IsPrefix-refl v
follow-IsPrefix port seq (p ∷ ps) v =
    IsPrefix-trans (taken-IsPrefix port seq (parse_r2a p) v)
      (follow-IsPrefix port seq ps (taken port seq (parse_r2a p) v))
