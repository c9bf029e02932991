-- ===== src/Api/Devices/Confined.antt =====
-- What Patch may change: the fields that the request names, of the device that it names.
use safe_play_guardian.Prelude.{
  ◌≡◌, ◌≢◌, refl, ◌∙◌, sym, subst, String, true, ◌==◌, string_eq, eq_iff, Bool-cases, inl, inr, ◌⊎◌,
  Option, none, some, arith, trim_space, if◌then◌else◌,
}
use safe_play_guardian.Device.Model.{Device, DeviceState, state_active}
use safe_play_guardian.Device.Rows.{row_of, put_device}
use safe_play_guardian.Device.Registry.{get, upsert}
use safe_play_guardian.Device.Registry.Tokens.{row_at, get-row_at}
use safe_play_guardian.Device.Registry.Writes.{
  written_row, row_at-put, row_at-put_other, upsert-keeps,
}
use safe_play_guardian.Device.Registry.Integrity.{first_where-holds}
use safe_play_guardian.Store.Tables.{DeviceRow, Tables}
use safe_play_guardian.Store.Exec.{World, Error, Db}
use safe_play_guardian.Api.Reply.{Reply, write_json, write_error, finish}
use safe_play_guardian.Api.Reply.Leaves.{Leaves, attempted-Leaves}
use safe_play_guardian.Api.Devices.{
  PatchDeviceRequest, patched_text, patched_person, is_known_state, patched_state, with_state,
  patched, store_patched, patch_existing, patch_device, get_failure, server_error,
}

-- The new text is the old one, or that of the request, which is not empty.
abbrev pub TakesText : Option String → String → String → Type 0
TakesText none old new = new ≡ old
TakesText (some v) old new = (new ≡ old) ⊎ ((new ≡ trim_space v) × (new ≢ ""))

abbrev pub TakesPerson : Option String → Option String → Option String → Type 0
TakesPerson none old new = new ≡ old
TakesPerson (some p) old new = new ≡ some p

-- A row without a state becomes active.
abbrev pub TakesState : Option String → DeviceState → DeviceState → Type 0
TakesState none old new = (new ≡ old) ⊎ ((old ≡ "") × (new ≡ state_active))
TakesState (some s) old new = (new ≡ s) × (is_known_state s ≡ true)

-- The row after the request; the identity, the agent token and the last sighting are kept.
pub record Edited (req : PatchDeviceRequest) (old new : DeviceRow) : Type 0 where
  pub same_id : new.id ≡ old.id
  pub same_token : new.agent_token ≡ old.agent_token
  pub same_sighting : new.last_seen ≡ old.last_seen
  pub label : TakesText req.label old.label new.label
  pub kind : TakesText req.kind old.kind new.kind
  pub owner : TakesPerson req.person_id old.person_id new.person_id
  pub state : TakesState req.state old.state new.state

patched_text-Takes : (o : Option String) (old : String) → TakesText o old (patched_text o old)
patched_text-Takes none old = refl
patched_text-Takes (some v) old = elim (Bool-cases (trim_space v == "")) [
  | inl e ↦ rw e (inl refl)
  | inr e ↦ rw e (inr (refl, ground (arith, eq_iff (trim_space v) "")))
]

patched_person-Takes : (o old : Option String) → TakesPerson o old (patched_person o old)
patched_person-Takes none old = refl
patched_person-Takes (some p) old = refl

patched_state-Takes :
    (o : Option String) (old new : DeviceState)
    → patched_state o old ≡ some new
    → TakesState o old (if new == "" then state_active else new)
unfolding patched_state is_known_state
patched_state-Takes none old new h = elim (Bool-cases (new == "")) [
  | inl e ↦ rw e (inr (same ∙ (eq_iff new "").0 e, refl))
  | inr e ↦ rw e (inl (sym same))
]
  where
    same : old ≡ new
    same = ground (arith, h)
patched_state-Takes (some s) old new h = elim (Bool-cases (is_known_state s)) [
  | inl k ↦
      let same : s ≡ new = ground (arith, h, k) in
      elim (Bool-cases (new == "")) [
        | inl e ↦
            absurd (unknown (subst (λ x. is_known_state x ≡ true) (same ∙ (eq_iff new "").0 e) k))
        | inr e ↦ rw e (sym same, k)
      ]
  | inr k ↦ absurd (ground (arith, h, k))
]
  where
    unknown : is_known_state "" ≡ true → ⊥
    unknown q = cc

module _ (id : String) (req : PatchDeviceRequest) (t₀ : Tables) where
  -- Every other row is as before, and the row of the device is as before or edited.
  abbrev pub Confined : Tables → Type 0
  Confined t =
      ((x : String) → id ≢ x → row_at x t ≡ row_at x t₀)
      × ((row_at id t ≡ row_at id t₀)
          ⊎ ((old : DeviceRow) × (new : DeviceRow) × (row_at id t₀ ≡ some old)
              × (row_at id t ≡ some new)
              × Edited req old new))

  -- An answer with a device gives the row that is left.
  abbrev pub Answered : Reply Device → Tables → Type 0
  Answered (write_json n d) t = Confined t × (n ≡ 200) × (row_at id t ≡ some (row_of d))
  Answered (write_error n m) t = Confined t

  abbrev Untouched : Tables → Type 0
  Untouched t = (x : String) → row_at x t ≡ row_at x t₀

  Untouched-Confined : (t : Tables) → Untouched t → Confined t
  Untouched-Confined t h = (λ x _. h x, inl (h id))

  patched-Edited :
      (d d' : Device)
      → patched req d ≡ some d'
      → Edited req (row_of d) (written_row d') × (d'.id ≡ d.id)
  unfolding patched
  patched-Edited d d' h = chosen (patched_state req.state d.state) refl h
    where
      chosen :
          (o : Option DeviceState)
          → patched_state req.state d.state ≡ o
          → with_state req d o ≡ some d'
          → Edited req (row_of d) (written_row d') × (d'.id ≡ d.id)
      chosen none q k = cc
      chosen (some s) q k =
          subst (λ (o : Option Device). Fits o) k
            (
              record {
                same_id = refl;
                same_token = refl;
                same_sighting = refl;
                label = patched_text-Takes req.label d.label;
                kind = patched_text-Takes req.kind d.kind;
                owner = patched_person-Takes req.person_id d.person_id;
                state = patched_state-Takes req.state d.state s q;
              },
              refl,
            )
        where
          Fits : Option Device → Type 0
          Fits none = Unit
          Fits (some e) = Edited req (row_of d) (written_row e) × (e.id ≡ d.id)

  module _ (w : World) (named : id ≢ "") where
    store_patched-Answered :
        (d : Device) (o : Option Device) (s : Db)
        → patched req d ≡ o
        → Untouched s.tables
        → row_at id s.tables ≡ some (row_of d)
        → Leaves Answered (store_patched w o s)
    unfolding store_patched
    store_patched-Answered d none s q u row = Untouched-Confined s.tables u
    store_patched-Answered d (some d') s q u row =
        attempted-Leaves Confined (λ e t. row_at d'.id t ≡ some (row_of e)) Answered (upsert w d' s)
          server_error (λ e. finish (write_json 200 e))
          (upsert-keeps w Confined (λ t is h. h) (λ t cs h. h) d' known put s
            (Untouched-Confined s.tables u))
          (λ e t h. h)
          (λ e v h k. (h, refl, subst (λ i. row_at i v.tables ≡ some (row_of e)) same k))
      where
        same : d'.id ≡ id
        same =
            (patched-Edited d d' q).1
            ∙ (eq_iff d.id id).0
                (first_where-holds (λ (r : DeviceRow). r.id == id) s.tables.devices row)

        known : d'.id ≢ ""
        known e = named (sym same ∙ e)

        put :
            (t : Tables)
            → Confined t
            → Confined (record t { devices = put_device (written_row d') t.devices })
        put t h = (
          λ x other.
              row_at-put_other (written_row d') t x (λ e. other (sym same ∙ e)) ∙ h.0 x other,
          inr (
            row_of d,
            written_row d',
            sym (u id) ∙ row,
            subst
                (λ i.
                  row_at i (record t { devices = put_device (written_row d') t.devices })
                  ≡ some (written_row d'))
                same (row_at-put (written_row d') t),
            (patched-Edited d d' q).0,
          ),
        )

    get_failure-Answered : (e : Error) (t : Tables) → Untouched t → Answered (get_failure e) t
    get_failure-Answered e t u = elim e as (λ x. Answered (get_failure x) t) [
      | Error.device_not_found ↦ Untouched-Confined t u
      | _ ↦ Untouched-Confined t u
    ]

-- Patch of a device with an identity, whichever statements fail: the row of every other device is
-- as before; the row of this one is as before or edited, where the identity, the agent token and
-- the last sighting are kept, a field whose pointer is nil is kept, a label or kind is not
-- replaced by an empty one, and the state is a known one. An answer with a device is a 200 and
-- gives the row that is left.
pub patch_device-Answered :
    (id : String) (req : PatchDeviceRequest) (w : World) (s : Db)
    → id ≢ ""
    → Leaves (Answered id req s.tables) (patch_device w id (some req) s)
unfolding patch_device patch_existing
patch_device-Answered id req w s named =
    attempted-Leaves (Untouched id req s.tables) (λ d t. row_at id t ≡ some (row_of d))
      (Answered id req s.tables) (get w id s) get_failure (patch_existing w (some req))
      (get-row_at w (Untouched id req s.tables) id s (λ x. refl))
      (get_failure-Answered id req s.tables w named)
      (λ d v u row. store_patched-Answered id req s.tables w named d (patched req d) v refl u row)
