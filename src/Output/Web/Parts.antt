-- ===== src/Output/Web/Parts.antt =====
-- internal/output/web.go: what holds of all clients, behind what is done to one of them.
use amqp_routing_inspector.Base.{
  ℕ, inl, inr, List, [], ◌∷◌, ◌++◌, map, nat_eq, ◌==◌, All, Bool-cases,
}
use amqp_routing_inspector.Output.Web.{
  Client, Handler, running, returned, take_message, Parted, parted, take_by, depart,
}

-- A handler's client, whether it goes on or not.
abbrev pub OfHandler : (Client → Type 0) → Handler → Type 0
OfHandler P (running c) = P c
OfHandler P (returned c) = P c

abbrev pub OfParts : (Client → Type 0) → Parted → Type 0
OfParts P (rest, out) = All P rest × All P out

pub All-append :
    (P : Client → Type 0) (cs ds : List Client) → All P cs → All P ds → All P (cs ++ ds)
All-append P [] ds a b = b
All-append P (c ∷ cs) ds (x, a) b = (x, All-append P cs ds a b)

pub All-mapped :
    (P Q : Client → Type 0) (f : Client → Client)
    → ((c : Client) → P c → Q (f c))
    → (cs : List Client) → All P cs
    → All Q (map f cs)
All-mapped P Q f h [] a = tt
All-mapped P Q f h (c ∷ cs) (x, a) = (h c x, All-mapped P Q f h cs a)

module _ (P : Client → Type 0) where
  parted-All : (h : Handler) (cs : List Client) → OfHandler P h → All P cs → OfParts P (parted h cs)
  parted-All (running c) cs x a = ((x, a), tt)
  parted-All (returned c) cs x a = (a, (x, tt))

  pub take_by-All :
      (id : ℕ) (cs : List Client)
      → ((c : Client) → P c → OfHandler P (take_message c))
      → All P cs
      → OfParts P (take_by id cs)
  unfolding take_by
  take_by-All id [] f a = (tt, tt)
  take_by-All id (c ∷ cs) f (x, a) = elim (Bool-cases (c.id == id)) [
    | inl q ↦ simp q (parted-All (take_message c) cs (f c x) a)
    | inr q ↦ let (rest, out) = take_by-All id cs f a in simp q ((x, rest), out)
  ]

  pub depart-All : (id : ℕ) (cs : List Client) → All P cs → OfParts P (depart id cs)
  unfolding depart
  depart-All id [] a = (tt, tt)
  depart-All id (c ∷ cs) (x, a) = elim (Bool-cases (c.id == id)) [
    | inl q ↦ simp q (a, (x, tt))
    | inr q ↦ let (rest, out) = depart-All id cs a in simp q ((x, rest), out)
  ]
