-- ===== src/Device/Tests.antt =====
-- Reconcile at a concrete sighting.
use safe_play_guardian.Prelude.{◌≡◌, refl, none, some, [], ◌∷◌}
use safe_play_guardian.Samples.{calm, home, home_db, home-IsConsistent, phone_seen, phone_device}
use safe_play_guardian.Device.Model.{Device, identity_ip, cap_schedule_block}
use safe_play_guardian.Device.Registry.{upsert}
use safe_play_guardian.Device.Registry.Saved.{Saved, upsert-Saved}
use safe_play_guardian.Device.Mac.{is_randomized_mac}
use safe_play_guardian.Device.Rows.{first_where}
use safe_play_guardian.Device.Reconcile.{reconcile_impl}
use safe_play_guardian.Device.Reconcile.Strong.{strongest}
use safe_play_guardian.Device.Reconcile.Matching.{GoesTo, reconcile_impl-strongest}
use safe_play_guardian.Store.Runs.{Done}

phone_is_strongest : strongest phone_seen home ≡ some "phone"
unfolding is_randomized_mac first_where
phone_is_strongest = refl

reconcile_impl-strongest_example :
    Done (GoesTo "phone" phone_seen home) (reconcile_impl calm phone_seen home_db)
reconcile_impl-strongest_example =
    reconcile_impl-strongest calm (λ n. refl) phone_seen "phone" home_db home-IsConsistent
      phone_is_strongest

-- A laptop with an address twice and a capability, and no identity yet.
abbrev laptop : Device
laptop = record phone_device {
  id = "";
  label = "Laptop";
  state = "";
  identities =
      record { kind = identity_ip; value = "10.0.0.5"; last_seen = some 7 }
      ∷ record { kind = identity_ip; value = "10.0.0.5"; last_seen = none }
      ∷ [];
  caps = cap_schedule_block ∷ [];
}

upsert-Saved_example : Done (Saved home laptop) (upsert calm laptop home_db)
upsert-Saved_example = upsert-Saved calm laptop home_db (λ n. refl) refl
