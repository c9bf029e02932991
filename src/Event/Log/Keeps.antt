-- ===== src/Event/Log/Keeps.antt =====
-- Writing to the log changes no other table.
use safe_play_guardian.Prelude.{
  ◌≡◌, ◌==◌, nat_eq, string_eq, subst, Bool-cases, inl, inr, some, List, [], ◌∷◌, ◌++◌, any, arith,
  Option,
}
use safe_play_guardian.Event.Model.{Event, valid}
use safe_play_guardian.Event.Log.{insert, insert_row, event_id, event_time}
use safe_play_guardian.Event.Logger.{PolicyLookup, append}
use safe_play_guardian.Store.Tables.{Tables}
use safe_play_guardian.Store.Exec.{World, clock}
use safe_play_guardian.Store.Keeps.{
  Ensures, Nothing, >>=-keeps, exec-keeps, clock-keeps, draw-keeps,
}

module _ (w : World) (I : Tables → Type 0)
    (ignores : (t : Tables) (es : List Event) → I t → I (record t { events = es })) where
  insert_row-keeps : (ev : Event) (t t' : Tables) → I t → insert_row ev t ≡ some t' → I t'
  unfolding insert_row
  insert_row-keeps ev t t' h e = elim (Bool-cases (any (λ (r : Event). r.id == ev.id) t.events)) [
    | inl f ↦ absurd (ground arith)
    | inr f ↦
        let same : record t { events = t.events ++ ev ∷ [] } ≡ t' = ground arith in
        subst (λ u. I u) same (ignores t (t.events ++ ev ∷ []) h)
  ]

  event_id-keeps : (ev : Event) → Ensures I (event_id w ev) Nothing
  unfolding event_id
  event_id-keeps ev u k = elim (Bool-cases (ev.id == "")) [
    | inl e ↦ rw e (draw-keeps I w u k)
    | inr e ↦ rw e (k, tt)
  ]

  event_time-keeps : (ev : Event) → Ensures I (event_time w ev) Nothing
  unfolding event_time
  event_time-keeps ev u k = elim (Bool-cases (ev.at.instant == 0)) [
    | inl e ↦ rw e (>>=-keeps I Nothing (clock w) _ (clock-keeps I w) (λ now v j. (j, tt)) u k)
    | inr e ↦ rw e (k, tt)
  ]

  pub insert-keeps : (ev : Event) → Ensures I (insert w ev) Nothing
  unfolding insert
  insert-keeps ev s i = elim (Bool-cases (valid ev.kind)) [
    | inr v ↦ rw v i
    | inl v ↦ elim (Bool-cases (ev.device_id == "")) [
      | inl d ↦ rw (v, d) i
      | inr d ↦
          rw (v, d)
            (>>=-keeps I Nothing (event_id w ev) _ (event_id-keeps ev)
              (λ new. >>=-keeps I Nothing (event_time w ev) _ (event_time-keeps ev) (λ at.
                >>=-keeps I Nothing (clock w) _ (clock-keeps I w)
                  (λ recorded. exec-keeps I w _ (insert_row-keeps _))))
              s i)
    ]
  ]

  pub append-keeps :
      (lookup : Option PolicyLookup) (ev : Event) → Ensures I (append w lookup ev) Nothing
  unfolding append
  append-keeps lookup ev = insert-keeps _
