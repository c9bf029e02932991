-- ===== src/Api/Agents/Issued.antt =====
-- What Register answers: the token that the device's row holds.
use safe_play_guardian.Prelude.{
  ◌≡◌, ◌≢◌, refl, sym, ap, ◌∙◌, subst, String, false, ◌==◌, string_eq, eq_iff, Bool-cases, inl, inr,
  ◌⊎◌, Option, none, some, arith, trim_space,
}
use safe_play_guardian.Device.Model.{Device}
use safe_play_guardian.Device.Rows.{row_of}
use safe_play_guardian.Device.Registry.{get, upsert}
use safe_play_guardian.Device.Registry.Tokens.{row_at, token_at, get-row_at}
use safe_play_guardian.Device.Registry.Writes.{written_row, row_at-put, upsert-leaves}
use safe_play_guardian.Device.Registry.Integrity.{first_where-holds}
use safe_play_guardian.Device.Reconcile.{reconcile}
use safe_play_guardian.Store.Tables.{DeviceRow, Tables}
use safe_play_guardian.Store.Exec.{
  World, Result, ok, err, Db, ◌>>=◌, bind_result, return, clock, ticked, draw,
}
use safe_play_guardian.Store.Keeps.{Post, weaken}
use safe_play_guardian.Api.Reply.{Reply, write_json, write_error, finish, attempted}
use safe_play_guardian.Api.Reply.Leaves.{Leaves, attempted-Leaves}
use safe_play_guardian.Api.Agents.{
  RegisterRequest, RegisterResponse, ObserveHook, register_observation, own_token, registered,
  issue_token, register_valid, register,
}

-- The token that an answer gives is that of the row of the device that it names, whose identity is
-- not empty.
abbrev pub Issued : Reply RegisterResponse → Tables → Type 0
Issued (write_json n r) t =
    (n ≡ 200) × ((r.device_id ≡ "") ⊎ (token_at r.device_id t ≡ some (some r.agent_token)))
Issued (write_error n m) t = Unit

own_token-some : (o : Option String) (token : String) → own_token o ≡ some token → o ≡ some token
own_token-some none token h = cc
own_token-some (some t) token h = elim (Bool-cases (t == "")) [
  | inl e ↦ absurd (ground (arith, e, h))
  | inr e ↦ ground (arith, e, h)
]

abbrev Anything : Tables → Type 0
Anything t = Unit

module _ (w : World) (hook : ObserveHook) where
  -- The answer with a fresh token, after Upsert.
  abbrev fresh_reply : String → String → Result Device × Db → Reply RegisterResponse × Db
  fresh_reply id tok p =
      attempted (bind_result p (λ _. return tok)) (λ e. write_error 500 "issue token")
        (λ t. finish (registered id t))

  fresh-Issued :
      (id tok : String) (J : Tables → Type 0) (p : Result Device × Db)
      → Post Anything (λ (_ : Device). J) p
      → ((t : Tables) → J t → Issued (registered id tok) t)
      → Leaves Issued (fresh_reply id tok p)
  fresh-Issued id tok J (ok d, s) h f = f s.tables h.1
  fresh-Issued id tok J (err e, s) h f = tt

  anything : {A : Type 0} (p : Result A × Db) → Post Anything (λ (_ : A). Anything) p
  anything (ok a, s) = (tt, tt)
  anything (err e, s) = tt

  token-of_row :
      (id : String) (t : Tables) (r : DeviceRow) (o : Option String)
      → row_at id t ≡ some r
      → r.agent_token ≡ o
      → token_at id t ≡ some o
  token-of_row id t r o h k = rw (h, token_at) (ap some k)

  issue_token-Issued :
      (id : String) (d : Device) (o : Option String) (s : Db)
      → own_token d.agent_token ≡ o
      → row_at id s.tables ≡ some (row_of d)
      → Leaves Issued (issue_token w hook id d o s)
  unfolding issue_token draw
  issue_token-Issued id d (some token) s own row = (
    refl,
    inr (
        token-of_row id s.tables (row_of d) (some token) row
          (own_token-some d.agent_token token own)),
  )
  issue_token-Issued id d none s own row = elim (Bool-cases (id == "")) [
    | inl e ↦
        fresh-Issued id (w.random s.tick) Anything (upsert w d' (ticked s)) (anything _)
          (λ t _. (refl, inl ((eq_iff id "").0 e)))
    | inr e ↦
        fresh-Issued id (w.random s.tick) Written (upsert w d' (ticked s))
          (weaken Anything (λ e t. Written t × (row_at d'.id t ≡ some (row_of e))) (λ _. Written)
            (upsert w d') (λ e t k. k.0)
            (upsert-leaves w Anything Written (λ t h. tt) (λ t is h. h) (λ t cs h. h) d' (named e)
              (λ t h. row_at-put (written_row d') t))
            (ticked s) tt)
          (λ t h. (
            refl,
            inr (
                token-of_row id t (written_row d') (some (w.random s.tick))
                  (subst (λ i. row_at i t ≡ some (written_row d')) same h) refl),
          ))
  ]
    where
      d' : Device
      d' = record d { agent_token = some (w.random s.tick) }

      same : d.id ≡ id
      same =
          (eq_iff d.id id).0
            (first_where-holds (λ (r : DeviceRow). r.id == id) s.tables.devices row)

      named : (id == "") ≡ false → d.id ≢ ""
      named e k = let q = sym same ∙ k in ground (arith, eq_iff id "")

      Written : Tables → Type 0
      Written t = row_at d.id t ≡ some (written_row d')

  -- Register, whichever statements fail: an answer with a token is a 200, and unless the identity
  -- of the device that it names is empty, the token is that of the device's row.
  pub register-Issued :
      (body : Option RegisterRequest) (s : Db) → Leaves Issued (register w hook body s)
  unfolding register register_valid
  register-Issued none s = tt
  register-Issued (some req) s = elim (Bool-cases (trim_space req.device_id == "")) [
    | inl e ↦ rw (e, register) tt
    | inr e ↦
        rw (e, register)
          (attempted-Leaves Anything (λ _. Anything) Issued
            ((clock w >>= λ now. reconcile w hook (register_observation req now)) s) _ _
            (anything _) (λ e t h. tt)
            (λ id u h k.
              attempted-Leaves Anything (λ d t. row_at id t ≡ some (row_of d)) Issued (get w id u) _
                _ (get-row_at w Anything id u tt) (λ e t h. tt)
                (λ d v h row. issue_token-Issued id d (own_token d.agent_token) v refl row)))
  ]
