-- ===== src/Base/Order.antt =====
-- sort.Slice by a strict order, and why its result does not depend on the order of the input.
use mathlib.Core.Path.{◌≡◌, refl, ap, ◌∙◌, ap₂, sym, subst}
use Prim.Native.Nat.{suc}
use mathlib.Core.Logic.{◌≢◌, ◌⊎◌, inl, inr}
use mathlib.Core.Logic.Or
use mathlib.Core.Bool.{Bool, true, false, not, Bool-set}
use mathlib.Core.List.{
  List, [], ◌∷◌, map, Perm, Mem, Nodup, Nodup-cons, mem-cons, mem-cons_self, not-mem-nil,
}
use mathlib.Core.List.Perm
use native.Mathlib.Omega.{arith}
use amqp_routing_inspector.Base.Tests.{Key, ◌==◌, if◌then◌else◌, Bool-cases}
use amqp_routing_inspector.Base.Lists.{All, All-map, length}

module _ {ℓ} {A : Type ℓ} (less : A → A → Bool) where
  abbrev insert_branch : Bool → A → A → List A → List A → List A
  insert_branch b x y ys rest = if b then x ∷ y ∷ ys else y ∷ rest

  unfoldable pub insert : A → List A → List A
  insert x [] = x ∷ []
  insert x (y ∷ ys) = insert_branch (less x y) x y ys (insert x ys)

  unfoldable pub sort : List A → List A
  unfolding insert
  sort [] = []
  sort (x ∷ xs) = insert x (sort xs)

  -- Strictly ascending: each element is below all that follow.
  abbrev pub IsAscending : List A → Type ℓ
  IsAscending [] = Unit
  IsAscending (x ∷ xs) = All (λ y. less x y ≡ true) xs × IsAscending xs

  abbrev pub Comparable : A → A → Type 0
  Comparable x y = (less x y ≡ true) ⊎ (less y x ≡ true)

  -- Any two elements at different places are comparable.
  abbrev pub AllComparable : List A → Type ℓ
  AllComparable [] = Unit
  AllComparable (x ∷ xs) = All (Comparable x) xs × AllComparable xs

  insert-perm : (x : A) (xs : List A) → Perm (insert x xs) (x ∷ xs)
  unfolding insert
  insert-perm x [] = Perm.refl _
  insert-perm x (y ∷ ys) = elim (Bool-cases (less x y)) [
    | inl e ↦ rw e (Perm.refl _)
    | inr e ↦ rw e (Perm.trans (Perm.cons y (insert-perm x ys)) (Perm.swap x y ys))
  ]

  pub sort-perm : (xs : List A) → Perm (sort xs) xs
  unfolding sort
  sort-perm [] = Perm.refl _
  sort-perm (x ∷ xs) = Perm.trans (insert-perm x (sort xs)) (Perm.cons x (sort-perm xs))

  All-insert {κ} : (P : A → Type κ) (x : A) (xs : List A) → P x → All P xs → All P (insert x xs)
  unfolding insert
  All-insert P x [] p h = (p, tt)
  All-insert P x (y ∷ ys) p h = elim (Bool-cases (less x y)) [
    | inl e ↦ rw e (p, h)
    | inr e ↦ rw e (h.0, All-insert P x ys p h.1)
  ]

  All-sort {κ} : (P : A → Type κ) (xs : List A) → All P xs → All P (sort xs)
  unfolding sort
  All-sort P [] h = tt
  All-sort P (x ∷ xs) h = All-insert P x (sort xs) h.0 (All-sort P xs h.1)

  length-insert : (x : A) (xs : List A) → length (insert x xs) ≡ suc (length xs)
  unfolding insert
  length-insert x [] = refl
  length-insert x (y ∷ ys) = elim (Bool-cases (less x y)) [
    | inl e ↦ rw e refl
    | inr e ↦ rw e (ap suc (length-insert x ys))
  ]

  pub length-sort : (xs : List A) → length (sort xs) ≡ length xs
  unfolding sort
  length-sort [] = refl
  length-sort (x ∷ xs) = length-insert x (sort xs) ∙ ap suc (length-sort xs)

-- An element of a list has what all elements have, where that is a proposition.
pub All-mem {ℓ κ} :
    {A : Type ℓ} (P : A → Type κ) (prop : (a : A) → IsProp (P a)) {x : A} (xs : List A)
    → All P xs
    → Mem x xs
    → P x
All-mem P prop [] h m = absurd (not-mem-nil m)
All-mem P prop {x} (y ∷ ys) h m =
    Or.elim (prop x) (mem-cons.0 m) (λ e. subst P (sym e) h.0) (All-mem P prop ys h.1)

-- The laws of a strict order. That it is total is asked of the keys alone.
pub record IsStrictOrder {ℓ} {A : Type ℓ} (less : A → A → Bool) : Type ℓ where
  pub irrefl : (a : A) → less a a ≡ false
  pub trans : (a b c : A) → less a b ≡ true → less b c ≡ true → less a c ≡ true

module _ {ℓ} {A : Type ℓ} {less : A → A → Bool} (o : IsStrictOrder less) where
  open o use {irrefl, trans}

  insert-IsAscending :
      (x : A) (xs : List A)
      → All (Comparable less x) xs
      → IsAscending less xs
      → IsAscending less (insert less x xs)
  unfolding insert
  insert-IsAscending x [] c s = (tt, tt)
  insert-IsAscending x (y ∷ ys) c s = elim (Bool-cases (less x y)) [
    | inl e ↦ rw e ((e, All-map _ (λ z. less x z ≡ true) ys (λ z. trans x y z e) s.0), s)
    | inr e ↦ rw e (
      All-insert less (λ z. less y z ≡ true) x ys (ground (arith, c.0)) s.0,
      insert-IsAscending x ys c.1 s.1,
    )
  ]

  pub sort-IsAscending : (xs : List A) → AllComparable less xs → IsAscending less (sort less xs)
  unfolding sort
  sort-IsAscending [] c = tt
  sort-IsAscending (x ∷ xs) c =
      insert-IsAscending x (sort less xs) (All-sort less (Comparable less x) xs c.0)
        (sort-IsAscending xs c.1)

  asymm : (x y : A) → less x y ≡ true → less y x ≡ true → ⊥
  asymm x y p q = cc (irrefl x, trans x y x p q)

  below_mem : (x y : A) (xs : List A) → IsAscending less (x ∷ xs) → Mem y xs → less x y ≡ true
  below_mem x y xs s = All-mem (λ z. less x z ≡ true) (λ z. Bool-set _ _) xs s.0

  module _ (set : IsSet A) where
    head_eq :
        (x y : A) (xs ys : List A)
        → IsAscending less (x ∷ xs)
        → IsAscending less (y ∷ ys)
        → Perm (x ∷ xs) (y ∷ ys)
        → x ≡ y
    head_eq x y xs ys s t p =
        Or.elim (set x y) (mem-cons.0 ((Perm.mem_iff p).0 mem-cons_self)) (λ e. e)
          λ m.
            Or.elim (set x y) (mem-cons.0 ((Perm.mem_iff p).1 mem-cons_self)) sym
              λ n. absurd (asymm x y (below_mem x y xs s n) (below_mem y x ys t m))

    -- An ascending list is determined by its elements.
    IsAscending-unique :
        (xs ys : List A) → IsAscending less xs → IsAscending less ys → Perm xs ys → xs ≡ ys
    IsAscending-unique [] ys s t p = Perm.nil-eq p
    IsAscending-unique (x ∷ xs) [] s t p = Perm.eq-nil p
    IsAscending-unique (x ∷ xs) (y ∷ ys) s t p =
        let e = head_eq x y xs ys s t p in
        ap₂ ◌∷◌ e (
          IsAscending-unique xs ys s.1 t.1
            (Perm.cons_inv (subst (λ z. Perm (x ∷ xs) (z ∷ ys)) (sym e) p)))

  module _ {κ} {K : Type κ} (key : A → K) (set : IsSet A)
      (connected : (a b : A) → key a ≢ key b → Comparable less a b) where
    All-Comparable : (x : A) (xs : List A) → ¬ Mem (key x) (map key xs) → All (Comparable less x) xs
    All-Comparable x [] h = tt
    All-Comparable x (y ∷ ys) h = (
      connected x y (λ e. h (mem-cons.1 (Or.inl e))),
      All-Comparable x ys (λ m. h (mem-cons.1 (Or.inr m))),
    )

    pub Nodup-AllComparable : (xs : List A) → Nodup (map key xs) → AllComparable less xs
    Nodup-AllComparable [] h = tt
    Nodup-AllComparable (x ∷ xs) h =
        (All-Comparable x xs (Nodup-cons.0 h).0, Nodup-AllComparable xs (Nodup-cons.0 h).1)

    -- The order in which a map is walked does not show in the sorted result.
    pub sort_perm_eq :
        (xs ys : List A) → Perm xs ys → Nodup (map key xs) → sort less xs ≡ sort less ys
    sort_perm_eq xs ys p h =
        IsAscending-unique set _ _ (sort-IsAscending xs (Nodup-AllComparable xs h))
          (sort-IsAscending ys (Nodup-AllComparable ys (Perm.nodup (Perm.map key p) h)))
          (Perm.trans (sort-perm less xs) (Perm.trans p (Perm.symm (sort-perm less ys))))

-- The comparison `if a.k != b.k { return a.k < b.k }; return rest`.
module _ {ℓ κ} {A : Type ℓ} {K : Type κ} ⦃e : Key K⦄ (key : A → K) (ltk : K → K → Bool)
    (rest : A → A → Bool) where
  abbrev pub by_key : A → A → Bool
  by_key a b = if not (key a == key b) then ltk (key a) (key b) else rest a b

  pub by_key-IsStrictOrder : IsStrictOrder ltk → IsStrictOrder rest → IsStrictOrder by_key
  by_key-IsStrictOrder o r = record {
    irrefl = λ a. ground (arith, e.same_iff (key a) (key a), r.irrefl a);
    trans = λ a b c p q. ground (
      arith,
      e.same_iff (key a) (key b),
      e.same_iff (key b) (key c),
      e.same_iff (key a) (key c),
      o.irrefl (key a),
      o.trans (key a) (key b) (key c),
      o.trans (key a) (key b) (key a),
      r.trans a b c,
    );
  }
