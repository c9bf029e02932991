-- ===== src/Event/Blocks/Tallies.antt =====
-- Counting the events of each group, and what the rows of a report count.
use mathlib.Core.List.{Memᴰ}
use safe_play_guardian.Prelude.{
  ℕ, ◌≤◌, nat_eq, string_eq, ◌==◌, eq_refl, String, Bool, true, ◌&&◌, ◌≡◌, refl, sym, ap, ◌∙◌,
  subst, ◌⊎◌, inl, inr, Bool-cases, Option, none, some, List, [], ◌∷◌, All, length, arith,
}
use safe_play_guardian.Event.Model.{Event}
use safe_play_guardian.Event.Redact.{attr, attrs_of}
use safe_play_guardian.Event.Log.{take}
use safe_play_guardian.Event.Blocks.{BlockRow, more, extracted, column, grouped}
use safe_play_guardian.Device.Rows.{where_, order_by}
use safe_play_guardian.Device.Rows.Sorted.{
  All-under, take-All, length-take, Ordered, take-Ordered, take-mem, All-mem, order_by-All,
  order_by-mem, order_by-Ordered,
}
use safe_play_guardian.Event.Blocks.Groups.{
  lookup, lookup-tally, Apart, tally-Ordered, All-lookup, lookup-mem,
}

module _ (extract : String → String) where
  abbrev pub as_text : Option String → String
  as_text none = ""
  as_text (some json) = extract json

  -- The text that an event's attribute has in the report, or the empty text.
  abbrev pub shown : String → Event → String
  shown key e = as_text (attr key (attrs_of e.attrs))

  column-shown : (key : String) (e : Event) → column extract key e ≡ shown key e
  unfolding column
  column-shown key e = both (attr key (attrs_of e.attrs))
    where
      both : (o : Option String) → extracted extract o ≡ as_text o
      both none = refl
      both (some json) = refl

  -- The events of a group.
  abbrev pub in_group : String → String → Event → Bool
  in_group c v e = shown "capability" e == c && shown "value" e == v

  abbrev pub number : String → String → List Event → ℕ
  number c v es = length (where_ (in_group c v) es)

  lookup-grouped :
      (c v : String) (es : List Event) → lookup c v (grouped extract es) ≡ number c v es
  unfolding grouped where_
  lookup-grouped c v [] = refl
  lookup-grouped c v (e ∷ es) =
      rw (column-shown "capability" e, column-shown "value" e)
        (let rest = lookup-grouped c v es in
          let step =
            lookup-tally c v (shown "capability" e) (shown "value" e) (grouped extract es) in
          elim (Bool-cases (in_group c v e)) [
            | inl k ↦ ground (arith, step, rest, k)
            | inr k ↦ ground (arith, step, rest, k)
          ])

  grouped-Ordered : (es : List Event) → Ordered Apart (grouped extract es)
  unfolding grouped Ordered
  grouped-Ordered [] = tt
  grouped-Ordered (e ∷ es) =
      rw (column-shown "capability" e, column-shown "value" e)
        (tally-Ordered (shown "capability" e) (shown "value" e) (grouped extract es)
          (grouped-Ordered es))

  -- Of these events, and with this limit: the rows are at most as many; each counts its group; no
  -- row has a higher count than one before it; and the group of each event is listed, or as many
  -- as the limit are, none of which is smaller.
  abbrev pub Counts : ℕ → List Event → List BlockRow → Type 0
  Counts limit es rows =
      (length rows ≤ limit)
      × All (λ r. r.count ≡ number r.capability r.value es) rows
      × Ordered (λ a b. b.count ≤ a.count) rows
      × ((e : Event)
          → Memᴰ e es
          → ((r : BlockRow) × Memᴰ r rows × (in_group r.capability r.value e ≡ true))
            ⊎ ((length rows ≡ limit)
                × All (λ r. number (shown "capability" e) (shown "value" e) es ≤ r.count) rows))

  number-head :
      (e : Event) (es : List Event) → 1 ≤ number (shown "capability" e) (shown "value" e) (e ∷ es)
  unfolding where_
  number-head e es = rw (eq_refl (shown "capability" e), eq_refl (shown "value" e)) (omega arith)

  number-mem :
      (e : Event) (es : List Event)
      → Memᴰ e es
      → 1 ≤ number (shown "capability" e) (shown "value" e) es
  unfolding where_
  number-mem e [] m = elim m [ ]
  number-mem e (x ∷ es) (Memᴰ.head q) =
      subst (λ y. 1 ≤ number (shown "capability" e) (shown "value" e) (y ∷ es)) q (number-head e es)
  number-mem e (x ∷ es) (Memᴰ.tail m) =
      let rest = number-mem e es m in
      elim (Bool-cases (in_group (shown "capability" e) (shown "value" e) x)) [
        | inl k ↦ rw k (omega (arith, rest))
        | inr k ↦ rw k rest
      ]

  pub block_rows-Counts :
      (es : List Event) (limit : ℕ)
      → Counts limit es (take limit (order_by more (grouped extract es)))
  block_rows-Counts es limit =
      let rows = grouped extract es in
      let counted : All (λ r. r.count ≡ number r.capability r.value es) rows =
        All-under (λ r. lookup r.capability r.value rows ≡ r.count)
          (λ r. r.count ≡ number r.capability r.value es) rows
          (λ r k. sym k ∙ lookup-grouped r.capability r.value es)
          (All-lookup rows (grouped-Ordered es)) in
      let sorted : Ordered (λ a b. b.count ≤ a.count) (order_by more rows) =
        order_by-Ordered more (λ a b. b.count ≤ a.count) (λ a b k. ground (arith, k))
          (λ a b k. ground (arith, k)) (λ a b c k l. ground (arith, k, l)) rows in
      (
        length-take limit (order_by more rows),
        take-All (λ r. r.count ≡ number r.capability r.value es) limit (order_by more rows)
            (order_by-All more (λ r. r.count ≡ number r.capability r.value es) rows counted),
        take-Ordered (λ a b. b.count ≤ a.count) limit (order_by more rows) sorted,
        λ e m. listed e counted sorted (
            lookup-mem (shown "capability" e) (shown "value" e) rows (
              subst (λ n. 1 ≤ n) (sym (lookup-grouped (shown "capability" e) (shown "value" e) es))
                (number-mem e es m))),
      )
    where
      listed :
          (e : Event)
          → All (λ r. r.count ≡ number r.capability r.value es) (grouped extract es)
          → Ordered (λ a b. b.count ≤ a.count) (order_by more (grouped extract es))
          → ((r : BlockRow) × Memᴰ r (grouped extract es)
              × (r.capability ≡ shown "capability" e)
              × (r.value ≡ shown "value" e))
          → ((r : BlockRow) × Memᴰ r (take limit (order_by more (grouped extract es)))
              × (in_group r.capability r.value e ≡ true))
            ⊎ ((length (take limit (order_by more (grouped extract es))) ≡ limit)
                × All
                    (λ r. number (shown "capability" e) (shown "value" e) es ≤ r.count)
                    (take limit (order_by more (grouped extract es))))
      listed e counted sorted (r, m, p, q) =
          elim (take-mem (λ a b. b.count ≤ a.count) limit (order_by more (grouped extract es))
            sorted (order_by-mem more (grouped extract es) m)) [
              | inl k ↦
                  inl (
                    r,
                    k,
                    rw (p, q, eq_refl (shown "capability" e), eq_refl (shown "value" e)) refl,
                  )
              | inr (full, a) ↦ inr (
                full,
                subst
                    (λ n.
                      All (λ (y : BlockRow). n ≤ y.count)
                        (take limit (order_by more (grouped extract es))))
                    (All-mem (λ x. x.count ≡ number x.capability x.value es) (grouped extract es)
                        counted m
                      ∙ ap (λ c. number c r.value es) p
                      ∙ ap (λ v. number (shown "capability" e) v es) q)
                    a,
              )
            ]
