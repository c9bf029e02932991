-- ===== src/Device/Reconcile/Matching.antt =====
-- What Reconcile does with a sighting whose strong signals name a device.
use safe_play_guardian.Prelude.{
  ℕ, ◌≡◌, refl, sym, subst, String, true, false, Option, some, List, map, All,
}
use safe_play_guardian.Device.Model.{Observation, IdentityKind}
use safe_play_guardian.Device.Reconcile.{
  strong_match, merge_observation, merge_or_weak, reconcile_impl,
}
use safe_play_guardian.Device.Consistent.{IsConsistent}
use safe_play_guardian.Device.Consistent.Statements.{Has}
use safe_play_guardian.Device.Reconcile.Integrity.{strong_match-Ensures, Matched}
use safe_play_guardian.Device.Reconcile.Strong.{strongest, Finds, strong_match-Finds}
use safe_play_guardian.Device.Reconcile.Signals.{heard, signals, Stage}
use safe_play_guardian.Device.Reconcile.Recorded.{merge_observation-Stage}
use safe_play_guardian.Store.Tables.{DeviceRow, Tables}
use safe_play_guardian.Store.Exec.{World, Result, ok, err, Db, bind_result, return}
use safe_play_guardian.Store.Keeps.{Post}
use safe_play_guardian.Store.Runs.{Done, bind_result-Done}

abbrev pub device_ids : Tables → List String
device_ids t = map (λ (d : DeviceRow). d.id) t.devices

-- The answer is the device, no device was made or lost, and each signal of the observation that is
-- not empty is an identity of the device.
abbrev pub GoesTo : String → Observation → Tables → String → Tables → Type 0
GoesTo id obs before a t =
    (a ≡ id)
    × (device_ids t ≡ device_ids before)
    × All (λ (p : IdentityKind × String). heard id p t.network_identities ≡ true) (signals obs)

module _ (w : World) (faultless : (n : ℕ) → w.fails n ≡ false) (obs : Observation)
    (id : String) where
  merge-GoesTo :
      (before : Tables) (s : Db)
      → Has id s.tables
      → s.tables ≡ before
      → Done (GoesTo id obs before) (merge_or_weak w obs (some id) s)
  unfolding merge_or_weak
  merge-GoesTo before s h e =
      subst (λ t. Done (GoesTo id obs t) (merge_or_weak w obs (some id) s)) e
        (bind_result-Done (λ _. Stage id (device_ids s.tables) (signals obs))
          (GoesTo id obs s.tables) (merge_observation w id obs s) (λ _. return id)
          (merge_observation-Stage w faultless id (device_ids s.tables) obs s (h, (refl, tt)))
          (λ _ u (k, (ids, all)). (refl, ids, all)))

  Matched-GoesTo :
      (before : Tables) (p : Result (Option String) × Db)
      → Post IsConsistent Matched p
      → Done (Finds (some id) before) p
      → Done (GoesTo id obs before) (bind_result p (merge_or_weak w obs))
  Matched-GoesTo before (err e, s) h f = absurd f
  Matched-GoesTo before (ok a, s) (i, m) (same, e) =
      subst (λ o. Done (GoesTo id obs before) (merge_or_weak w obs o s)) (sym e)
        (merge-GoesTo before s (i, subst (λ o. Matched o s.tables) e m) same)

  -- Where no statement fails and the tables are consistent, if the device of the token, else that
  -- of the agent identity, else that of a burned-in MAC is one device, then Reconcile succeeds and
  -- answers with it, makes and loses no device, and records each signal of the observation that is
  -- not empty (agent identity, MAC, address, host name) as an identity of it.
  pub reconcile_impl-strongest :
      (s : Db)
      → IsConsistent s.tables
      → strongest obs s.tables ≡ some id
      → Done (GoesTo id obs s.tables) (reconcile_impl w obs s)
  unfolding reconcile_impl
  reconcile_impl-strongest s i e =
      Matched-GoesTo s.tables (strong_match w obs s) (strong_match-Ensures w obs s i) (
        subst (λ o. Done (Finds o s.tables) (strong_match w obs s)) e
          (strong_match-Finds w faultless obs s))
