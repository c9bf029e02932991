-- ===== src/Device/Registry/Tokens.antt =====
-- The agent token of a device, as Get reads it and Upsert writes it.
use safe_play_guardian.Prelude.{
  ◌≡◌, refl, ap, ◌∙◌, sym, String, ◌==◌, string_eq, Option, none, some,
}
use safe_play_guardian.Device.Rows.{first_where, identities_of, caps_of, scan_device, row_of}
use safe_play_guardian.Device.Registry.{get, scanned, attach_children}
use safe_play_guardian.Store.Tables.{DeviceRow, Tables}
use safe_play_guardian.Store.Exec.{World, Db, query}
use safe_play_guardian.Store.Keeps.{
  Post, Ensures, >>=-Ensures, >>=-keeps, query-Ensures, query-keeps, strengthen, weaken,
}

-- The device's row, if there is one.
abbrev pub row_at : String → Tables → Option DeviceRow
row_at id t = first_where (λ (d : DeviceRow). d.id == id) t.devices

-- The token column of the device's row, if there is a row.
abbrev pub token_at : String → Tables → Option (Option String)
token_at id t = elim (row_at id t) [ none ↦ none | some r ↦ some r.agent_token ]

-- Get reads the row of the device, and keeps whatever holds of the tables.
pub get-row_at :
    (w : World) (I : Tables → Type 0) (id : String)
    → Ensures I (get w id) (λ d t. row_at id t ≡ some (row_of d))
unfolding get scanned attach_children scan_device
get-row_at w I id =
    >>=-Ensures I (λ o t. o ≡ row_at id t) (λ d t. row_at id t ≡ some (row_of d))
      (query w (row_at id)) (scanned w) (query-Ensures I w _ _ (λ t h. refl)) found
  where
    At : DeviceRow → Tables → Type 0
    At r t = I t × (row_at id t ≡ some r)

    found :
        (o : Option DeviceRow) (s : Db)
        → I s.tables
        → o ≡ row_at id s.tables
        → Post I (λ d t. row_at id t ≡ some (row_of d)) (scanned w o s)
    found none s h q = h
    found (some r) s h q =
        strengthen I (At r) (λ t k. k.0) (λ d t. row_of d ≡ r)
          (λ d t. row_at id t ≡ some (row_of d)) (λ d t k e. k.1 ∙ ap some (sym e)) _
          (>>=-keeps (At r) (λ d t. row_of d ≡ r) (query w (identities_of r.id)) _
            (query-keeps (At r) w (identities_of r.id))
            (λ is.
              >>=-keeps (At r) (λ d t. row_of d ≡ r) (query w (caps_of r.id)) _
                (query-keeps (At r) w (caps_of r.id)) (λ cs u k. (k, refl)))
            s (h, sym q))

-- The token that Get reads is the row's.
pub get-token_at :
    (w : World) (I : Tables → Type 0) (id : String)
    → Ensures I (get w id) (λ d t. token_at id t ≡ some d.agent_token)
get-token_at w I id =
    weaken I (λ d t. row_at id t ≡ some (row_of d)) (λ d t. token_at id t ≡ some d.agent_token)
      (get w id) (λ d t e. rw (e, token_at) refl) (get-row_at w I id)
