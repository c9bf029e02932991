-- ===== src/Event/Blocks/Groups.antt =====
-- The rows of a report by group: their counts, and that no two are of one group.
use mathlib.Core.List.{Memᴰ}
use safe_play_guardian.Prelude.{
  ℕ, ◌+◌, ◌≤◌, nat_eq, string_eq, ◌==◌, eq_iff, eq_refl, String, true, false, ◌&&◌, ◌≡◌, refl, sym,
  ap, ◌∙◌, inl, inr, Bool-cases, List, [], ◌∷◌, All, arith, and_true, if◌then◌else◌,
}
use safe_play_guardian.Event.Blocks.{BlockRow, same_key, tally}
use safe_play_guardian.Device.Rows.Sorted.{Ordered}

-- The count of the first row of a group, or 0.
abbrev pub lookup : String → String → List BlockRow → ℕ
lookup c v [] = 0
lookup c v (r ∷ rows) = if same_key c v r then r.count else lookup c v rows

-- A row of one group is one of another exactly if the groups are the same.
same_key-group :
    (c v d u : String) (r : BlockRow) → same_key d u r ≡ true → same_key c v r ≡ (d == c && u == v)
same_key-group c v d u r h =
    let (p, q) = and_true (r.capability == d) (r.value == u) h in
    rw ((eq_iff r.capability d).0 p, (eq_iff r.value u).0 q) refl

same_key-swap :
    (c v d u : String) (r : BlockRow) → (d == c && u == v) ≡ true → same_key d u r ≡ same_key c v r
same_key-swap c v d u r h =
    let (p, q) = and_true (d == c) (u == v) h in rw ((eq_iff d c).0 p, (eq_iff u v).0 q) refl

pub lookup-tally :
    (c v d u : String) (rows : List BlockRow)
    → lookup c v (tally d u rows) ≡ (if d == c && u == v then 1 else 0) + lookup c v rows
unfolding tally
lookup-tally c v d u [] = ground arith
lookup-tally c v d u (r ∷ rows) = elim (Bool-cases (same_key d u r)) [
  | inl e ↦
      rw (e, same_key-group c v d u r e)
        (elim (Bool-cases (d == c && u == v)) [
          | inl k ↦ rw k (omega arith)
          | inr k ↦ rw k (omega arith)
        ])
  | inr e ↦ rw e (elim (Bool-cases (d == c && u == v)) [
    | inl k ↦
        rw (k, sym (same_key-swap c v d u r k) ∙ e)
          (lookup-tally c v d u rows ∙ ap (λ b. (if b then 1 else 0) + lookup c v rows) k)
    | inr k ↦
        let same : lookup c v (tally d u rows) ≡ lookup c v rows =
          lookup-tally c v d u rows
          ∙ ap (λ b. (if b then 1 else 0) + lookup c v rows) k
          ∙ (omega arith) in
        rw (k, same) (omega arith)
  ])
]

group_sym : (c v d u : String) → (c == d && v == u) ≡ false → (d == c && u == v) ≡ false
group_sym c v d u h = elim (Bool-cases (d == c && u == v)) [
  | inr k ↦ k
  | inl k ↦
      let (p, q) = and_true (d == c) (u == v) k in
      let first = (eq_iff d c).0 p in
      let second = (eq_iff u v).0 q in
      let back : (c == d && v == u) ≡ true = rw (first, second, eq_refl c, eq_refl v) refl in
      ground (arith, h, back)
]

-- No two rows are of one group.
abbrev pub Apart : BlockRow → BlockRow → Type 0
Apart r q = same_key r.capability r.value q ≡ false

tally-Apart :
    (r : BlockRow) (d u : String) (rows : List BlockRow)
    → same_key d u r ≡ false
    → All (Apart r) rows
    → All (Apart r) (tally d u rows)
unfolding tally
tally-Apart r d u [] h a = (group_sym r.capability r.value d u h, tt)
tally-Apart r d u (q ∷ rows) h (p, a) = elim (Bool-cases (same_key d u q)) [
  | inl e ↦ rw e (p, a)
  | inr e ↦ rw e (p, tally-Apart r d u rows h a)
]

pub tally-Ordered :
    (d u : String) (rows : List BlockRow) → Ordered Apart rows → Ordered Apart (tally d u rows)
unfolding tally Ordered
tally-Ordered d u [] h = (tt, tt)
tally-Ordered d u (r ∷ rows) (p, h) = elim (Bool-cases (same_key d u r)) [
  | inl e ↦ rw e (p, h)
  | inr e ↦ rw e (tally-Apart r d u rows e p, tally-Ordered d u rows h)
]

-- Each row of distinct groups is the first one of its group.
pub All-lookup :
    (rows : List BlockRow)
    → Ordered Apart rows
    → All (λ r. lookup r.capability r.value rows ≡ r.count) rows
unfolding Ordered
All-lookup [] h = tt
All-lookup (r ∷ rows) (p, h) =
    (rw (eq_refl r.capability, eq_refl r.value) refl, below rows p (All-lookup rows h))
  where
    below :
        (qs : List BlockRow)
        → All (Apart r) qs
        → All (λ q. lookup q.capability q.value rows ≡ q.count) qs
        → All (λ q. lookup q.capability q.value (r ∷ rows) ≡ q.count) qs
    below [] a b = tt
    below (q ∷ qs) (a, k) (b, l) =
        (rw (group_sym q.capability q.value r.capability r.value a) b, below qs k l)

pub lookup-mem :
    (c v : String) (rows : List BlockRow)
    → 1 ≤ lookup c v rows
    → (r : BlockRow) × Memᴰ r rows × (r.capability ≡ c) × (r.value ≡ v)
lookup-mem c v [] h = absurd (omega (arith, h))
lookup-mem c v (r ∷ rows) h = elim (Bool-cases (same_key c v r)) [
  | inl e ↦
      let (p, q) = and_true (r.capability == c) (r.value == v) e in
      (r, Memᴰ.head refl, (eq_iff r.capability c).0 p, (eq_iff r.value v).0 q)
  | inr e ↦ let (q, m, k, l) = lookup-mem c v rows (ground (arith, e, h)) in (q, Memᴰ.tail m, k, l)
]
