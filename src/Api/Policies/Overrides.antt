-- ===== src/Api/Policies/Overrides.antt =====
-- An override that is put is read back.
use safe_play_guardian.Prelude.{
  ℕ, ◌+◌, ◌≡◌, ◌≢◌, refl, ◌⊎◌, inl, inr, Bool-cases, string_eq, eq_iff, eq_refl, String, true,
  false, some, arith,
}
use safe_play_guardian.Device.Rows.{has_device}
use safe_play_guardian.Policy.Model.{Override}
use safe_play_guardian.Policy.Store.{
  Codec, find_row, put_row, write_override, decoded, get_device_override, set_device_override,
}
use safe_play_guardian.Policy.Store.RoundTrip.{find_row-put_row}
use safe_play_guardian.Store.Tables.{Tables}
use safe_play_guardian.Store.Exec.{World, Db, exec}
use safe_play_guardian.Store.Runs.{query-eq}
use safe_play_guardian.Api.Reply.{Reply, write_json, write_error}
use safe_play_guardian.Api.Policies.{read_device_override, put_device_override}

-- The put is answered with the override, and so is a read after it, and the rows of the other
-- devices are as before; or the device is not there, the answer is an error, and nothing is
-- changed.
abbrev pub PutAndRead :
    World → Codec Override → String → Override → Db → Reply Override × Db → Type 0
PutAndRead w c id o s p =
    ((has_device s.tables.devices id ≡ true)
      × (p.0 ≡ write_json 200 o)
      × ((read_device_override w c id p.1).0 ≡ write_json 200 o)
      × ((other : String)
          → other ≢ id
          → find_row other p.1.tables.device_overrides ≡ find_row other s.tables.device_overrides))
    ⊎ ((has_device s.tables.devices id ≡ false)
        × (p.0 ≡ write_error 500 "store override")
        × (p.1.tables ≡ s.tables))

module _ (w : World) (faultless : (n : ℕ) → w.fails n ≡ false) (c : Codec Override) where
  -- The tables with the override's row.
  abbrev with_override : String → Override → Tables → Tables
  with_override id o t = record t { device_overrides = put_row id (c.marshal o) t.device_overrides }

  read-written :
      (id : String) (o : Override) (s : Db)
      → c.unmarshal (c.marshal o) ≡ some o
      → find_row id s.tables.device_overrides ≡ some (c.marshal o)
      → (read_device_override w c id s).0 ≡ write_json 200 o
  unfolding read_device_override get_device_override decoded
  read-written id o s law e =
      rw (query-eq w faultless (λ t. find_row id t.device_overrides) s, e, decoded, law) refl

  -- Where no statement fails and the JSON of the override decodes to it: if the device is there,
  -- the put of the override and a read after it are answered with it, and the rows of the other
  -- devices are as before; if it is not there, the answer to the put is 500 and no table is
  -- changed.
  pub put_device_override-PutAndRead :
      (id : String) (o : Override) (s : Db)
      → c.unmarshal (c.marshal o) ≡ some o
      → PutAndRead w c id o s (put_device_override w c id (some o) s)
  unfolding put_device_override set_device_override write_override exec
  put_device_override-PutAndRead id o s law = elim (Bool-cases (has_device s.tables.devices id)) [
    | inl h ↦
        rw (faultless s.tick, h)
          (inl (
            refl,
            refl,
            read-written id o (record { tick = s.tick + 1; tables = with_override id o s.tables })
                law
                (ground (
                  arith,
                  find_row-put_row id id (c.marshal o) s.tables.device_overrides,
                  eq_refl id,
                )),
            λ other d. ground (
              arith,
              find_row-put_row other id (c.marshal o) s.tables.device_overrides,
              eq_iff id other,
            ),
          ))
    | inr h ↦ rw (faultless s.tick, h) (inr (refl, refl, refl))
  ]
