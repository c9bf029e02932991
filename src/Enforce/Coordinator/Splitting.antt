-- ===== src/Enforce/Coordinator/Splitting.antt =====
-- Splitting the needed capabilities over the backends keeps each of them, as often.
use safe_play_guardian.Prelude.{
  ◌+◌, ◌≡◌, refl, ap, ◌∙◌, String, ◌&&◌, ◌==◌, string_eq, eq_iff, eq_refl, Bool-cases, Option-cases,
  inl, inr, Option, none, some, List, [], ◌∷◌, ◌++◌, count, count-append, arith,
}
use safe_play_guardian.Device.Model.{Capability, Device}
use safe_play_guardian.Enforce.Enforcer.{Enforcer}
use safe_play_guardian.Enforce.Coordinator.{
  insert_cap, sort_caps, Assignments, assign, pick, by_name, place, split_caps,
}

count-insert_cap :
    (c d : Capability) (ds : List Capability) → count c (insert_cap d ds) ≡ count c (d ∷ ds)
unfolding insert_cap
count-insert_cap c d [] = refl
count-insert_cap c d (x ∷ ds) = ground (arith, count-insert_cap c d ds)

pub count-sort_caps : (c : Capability) (cs : List Capability) → count c (sort_caps cs) ≡ count c cs
unfolding sort_caps
count-sort_caps c [] = refl
count-sort_caps c (x ∷ cs) =
    ground (arith, count-insert_cap c x (sort_caps cs), count-sort_caps c cs)

-- All capabilities of the slices.
abbrev pub assigned : Assignments → List Capability
assigned [] = []
assigned ((_, caps) ∷ rest) = caps ++ assigned rest

pub count-assign :
    (c : Capability) (name : String) (x : Capability) (given : Assignments)
    → count c (assigned (assign name x given)) ≡ count c (x ∷ assigned given)
unfolding assign
count-assign c name x [] = refl
count-assign c name x ((k, caps) ∷ rest) = elim (Bool-cases (k == name)) [
  | inl e ↦ rw e (
      ground (
        arith,
        count-append c (caps ++ x ∷ []) (assigned rest),
        count-append c caps (x ∷ []),
        count-append c caps (assigned rest),
      ))
  | inr e ↦ rw e (
      ground (
        arith,
        count-append c caps (assigned (assign name x rest)),
        count-append c caps (assigned rest),
        count-assign c name x rest,
      ))
]

module _ {S : Type 0} where
  count-place :
      (c : Capability) (o : Option (Enforcer S)) (x : Capability)
      (acc : Assignments × List Capability)
      → count c (assigned (place o x acc).0) + count c (place o x acc).1
        ≡ count c (x ∷ []) + count c (assigned acc.0) + count c acc.1
  unfolding place
  count-place c none x (given, left) = ground (arith, count-append c left (x ∷ []))
  count-place c (some b) x (given, left) = ground (arith, count-assign c b.name x given)

  pub count-split_caps :
      (bs : List (Enforcer S)) (dev : Device) (c : Capability) (cs : List Capability)
      (acc : Assignments × List Capability)
      → count c (assigned (split_caps bs dev cs acc).0) + count c (split_caps bs dev cs acc).1
        ≡ count c cs + count c (assigned acc.0) + count c acc.1
  unfolding split_caps
  count-split_caps bs dev c [] acc = omega arith
  count-split_caps bs dev c (x ∷ cs) acc = ground (
    arith,
    count-split_caps bs dev c cs (place (pick bs x dev) x acc),
    count-place c (pick bs x dev) x acc,
  )

  pub by_name-pick :
      (bs : List (Enforcer S)) (c : Capability) (dev : Device) (b : Enforcer S)
      → pick bs c dev ≡ some b
      → (b' : Enforcer S) × (by_name bs b.name ≡ some b')
  unfolding pick by_name
  by_name-pick [] c dev b e = cc
  by_name-pick (x ∷ bs) c dev b e = elim (Option-cases (by_name bs b.name)) [
    | inr (b', q) ↦ (b', rw q refl)
    | inl q ↦ elim (Bool-cases (x.capabilities c && x.can_handle dev)) [
      | inl picked ↦
          let same : x ≡ b = ground arith in
          (x, rw q (ground (arith, ap (λ (y : Enforcer S). y.name == b.name) same, eq_refl b.name)))
      | inr passed ↦ let (b', r) = by_name-pick bs c dev b (ground arith) in (b', cc)
    ]
  ]

  -- A name that by_name finds is that of the backend found.
  pub by_name-name :
      (bs : List (Enforcer S)) (name : String) (b : Enforcer S)
      → by_name bs name ≡ some b
      → b.name ≡ name
  unfolding by_name
  by_name-name [] name b e = cc
  by_name-name (x ∷ bs) name b e = elim (Option-cases (by_name bs name)) [
    | inr (b', q) ↦ by_name-name bs name b (q ∙ (rw (q, by_name) at e))
    | inl q ↦ ground (arith, eq_iff x.name name)
  ]
