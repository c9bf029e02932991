-- ===== src/Device/Rows/Sorted.antt =====
-- What ORDER BY and LIMIT do to rows.
use mathlib.Core.List.{Memᴰ}
use safe_play_guardian.Prelude.{
  ℕ, zero, suc, ◌≤◌, ◌≡◌, refl, sym, ap, ◌∙◌, subst, ◌⊎◌, inl, inr, Bool, true, false, Bool-cases,
  List, [], ◌∷◌, All, length, arith,
}
use safe_play_guardian.Device.Rows.{where_, insert_sorted, order_by}
use safe_play_guardian.Event.Log.{take}

pub All-under :
    {A : Type 0} (Q R : A → Type 0) (xs : List A) → ((x : A) → Q x → R x) → All Q xs → All R xs
All-under Q R [] f h = tt
All-under Q R (x ∷ xs) f (q, h) = (f x q, All-under Q R xs f h)

pub take-All : {A : Type 0} (Q : A → Type 0) (n : ℕ) (xs : List A) → All Q xs → All Q (take n xs)
unfolding take
take-All Q zero xs h = tt
take-All Q (suc n) [] h = tt
take-All Q (suc n) (x ∷ xs) (q, h) = (q, take-All Q n xs h)

pub length-take : {A : Type 0} (n : ℕ) (xs : List A) → length (take n xs) ≤ n
unfolding take
length-take zero xs = ground arith
length-take (suc n) [] = ground arith
length-take (suc n) (x ∷ xs) = let h = length-take n xs in ground arith

-- Each row stands in relation to all after it.
unfoldable pub Ordered : {A : Type 0} → (A → A → Type 0) → List A → Type 0
Ordered R [] = Unit
Ordered R (x ∷ xs) = All (R x) xs × Ordered R xs

pub take-Ordered :
    {A : Type 0} (R : A → A → Type 0) (n : ℕ) (xs : List A) → Ordered R xs → Ordered R (take n xs)
unfolding take Ordered
take-Ordered R zero xs h = tt
take-Ordered R (suc n) [] h = tt
take-Ordered R (suc n) (x ∷ xs) (p, h) = (take-All (R x) n xs p, take-Ordered R n xs h)

pub All-mem : {A : Type 0} (Q : A → Type 0) {x : A} (xs : List A) → All Q xs → Memᴰ x xs → Q x
All-mem Q [] h m = elim m [ ]
All-mem Q {x} (y ∷ ys) (q, h) (Memᴰ.head e) = subst Q (sym e) q
All-mem Q (y ∷ ys) (q, h) (Memᴰ.tail m) = All-mem Q ys h m

-- A row is among the first ones, or these are as many as the limit and it stands after each of
-- them.
pub take-mem :
    {A : Type 0} (R : A → A → Type 0) {x : A} (n : ℕ) (xs : List A)
    → Ordered R xs
    → Memᴰ x xs
    → Memᴰ x (take n xs) ⊎ ((length (take n xs) ≡ n) × All (λ y. R y x) (take n xs))
unfolding take Ordered
take-mem R zero xs h m = inr (refl, tt)
take-mem R (suc n) [] h m = elim m [ ]
take-mem R (suc n) (y ∷ ys) (p, h) (Memᴰ.head e) = inl (Memᴰ.head e)
take-mem R (suc n) (y ∷ ys) (p, h) (Memᴰ.tail m) = elim (take-mem R n ys h m) [
  | inl k ↦ inl (Memᴰ.tail k)
  | inr (l, a) ↦ inr (omega (arith, l), (All-mem (R y) ys p m, a))
]

pub Ordered-under :
    {A : Type 0} (P : A → Type 0) (R S : A → A → Type 0) (xs : List A)
    → ((x y : A) → P x → P y → R x y → S x y)
    → All P xs
    → Ordered R xs
    → Ordered S xs
unfolding Ordered
Ordered-under {A} P R S [] f a h = tt
Ordered-under {A} P R S (x ∷ xs) f (p, a) (k, h) = (both xs a k, Ordered-under P R S xs f a h)
  where
    both : (ys : List A) → All P ys → All (R x) ys → All (S x) ys
    both [] b c = tt
    both (y ∷ ys) (q, b) (c, d) = (f x y p q c, both ys b d)

-- WHERE selects exactly the rows that pass the test.
pub where_-All :
    {A : Type 0} (p : A → Bool) (xs : List A) → All (λ x. (p x ≡ true) × Memᴰ x xs) (where_ p xs)
unfolding where_
where_-All p [] = tt
where_-All p (x ∷ xs) =
    let rest : All (λ y. (p y ≡ true) × Memᴰ y (x ∷ xs)) (where_ p xs) =
      All-under (λ y. (p y ≡ true) × Memᴰ y xs) (λ y. (p y ≡ true) × Memᴰ y (x ∷ xs)) (where_ p xs)
        (λ y (k, m). (k, Memᴰ.tail m)) (where_-All p xs) in
    elim (Bool-cases (p x)) [ inl e ↦ rw e ((e, Memᴰ.head refl), rest) | inr e ↦ rw e rest ]

pub where_-mem :
    {A : Type 0} (p : A → Bool) {x : A} (xs : List A)
    → p x ≡ true
    → Memᴰ x xs
    → Memᴰ x (where_ p xs)
unfolding where_
where_-mem p [] h m = m
where_-mem p {x} (y ∷ ys) h (Memᴰ.head e) = rw (sym (ap p e) ∙ h) (Memᴰ.head e)
where_-mem p (y ∷ ys) h (Memᴰ.tail m) = elim (Bool-cases (p y)) [
  | inl e ↦ rw e (Memᴰ.tail (where_-mem p ys h m))
  | inr e ↦ rw e (where_-mem p ys h m)
]

module _ {A : Type 0} (le : A → A → Bool) where
  module _ (Q : A → Type 0) where
    insert_sorted-All : (x : A) (xs : List A) → Q x → All Q xs → All Q (insert_sorted le x xs)
    unfolding insert_sorted
    insert_sorted-All x [] q h = (q, tt)
    insert_sorted-All x (y ∷ ys) q (p, h) = elim (Bool-cases (le x y)) [
      | inl e ↦ rw e (q, (p, h))
      | inr e ↦ rw e (p, insert_sorted-All x ys q h)
    ]

    pub order_by-All : (xs : List A) → All Q xs → All Q (order_by le xs)
    unfolding order_by
    order_by-All [] h = tt
    order_by-All (x ∷ xs) (q, h) = insert_sorted-All x (order_by le xs) q (order_by-All xs h)

  insert_sorted-mem :
      {y : A} (x : A) (xs : List A) → Memᴰ y (x ∷ xs) → Memᴰ y (insert_sorted le x xs)
  unfolding insert_sorted
  insert_sorted-mem x [] m = m
  insert_sorted-mem {y} x (z ∷ zs) m = elim (Bool-cases (le x z)) [
    | inl e ↦ rw e m
    | inr e ↦ rw e (below (λ k. insert_sorted-mem x zs k) m)
  ]
    where
      below :
          ((k : Memᴰ y (x ∷ zs)) → Memᴰ y (insert_sorted le x zs))
          → Memᴰ y (x ∷ z ∷ zs)
          → Memᴰ y (z ∷ insert_sorted le x zs)
      below f (Memᴰ.head e) = Memᴰ.tail (f (Memᴰ.head e))
      below f (Memᴰ.tail (Memᴰ.head e)) = Memᴰ.head e
      below f (Memᴰ.tail (Memᴰ.tail k)) = Memᴰ.tail (f (Memᴰ.tail k))

  pub order_by-mem : {y : A} (xs : List A) → Memᴰ y xs → Memᴰ y (order_by le xs)
  unfolding order_by
  order_by-mem [] m = m
  order_by-mem (x ∷ xs) (Memᴰ.head e) = insert_sorted-mem x (order_by le xs) (Memᴰ.head e)
  order_by-mem (x ∷ xs) (Memᴰ.tail m) =
      insert_sorted-mem x (order_by le xs) (Memᴰ.tail (order_by-mem xs m))

  -- The test decides a total and transitive relation.
  module _ (R : A → A → Type 0) (holds : (x y : A) → le x y ≡ true → R x y)
      (total : (x y : A) → le x y ≡ false → R y x)
      (trans : (x y z : A) → R x y → R y z → R x z) where
    insert_sorted-Ordered : (x : A) (xs : List A) → Ordered R xs → Ordered R (insert_sorted le x xs)
    unfolding Ordered insert_sorted
    insert_sorted-Ordered x [] h = (tt, tt)
    insert_sorted-Ordered x (y ∷ ys) (p, h) = elim (Bool-cases (le x y)) [
      | inl e ↦
          rw e
            ((holds x y e, All-under (R y) (R x) ys (λ z k. trans x y z (holds x y e) k) p), (p, h))
      | inr e ↦ rw e (insert_sorted-All (R y) x ys (total x y e) p, insert_sorted-Ordered x ys h)
    ]

    pub order_by-Ordered : (xs : List A) → Ordered R (order_by le xs)
    unfolding Ordered order_by
    order_by-Ordered [] = tt
    order_by-Ordered (x ∷ xs) = insert_sorted-Ordered x (order_by le xs) (order_by-Ordered xs)
