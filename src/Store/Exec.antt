-- ===== src/Store/Exec.antt =====
-- Programs over the database: a step may fail, reads the clock, or draws a random text.
use safe_play_guardian.Prelude.{
  ℕ, ◌+◌, Stamp, String, Bool, Option, none, some, List, [], ◌∷◌, if◌then◌else◌,
}
use safe_play_guardian.Store.Tables.{Tables}

pub data Error : Type 0 where
  database : Error
  constraint : Error
  device_not_found : Error
  person_not_found : Error
  decode : Error
  invalid_kind : Error
  missing_device_id : Error
  username_required : Error
  password_too_short : Error
  user_exists : Error
  bad_credentials : Error
  no_session : Error
  name_required : Error
  get_device : Error
  get_policy : Error
  get_override : Error

-- A value, or the error a call returned.
pub data Result {ℓ} (A : Type ℓ) : Type ℓ where
  ok : A → Result A
  err : Error → Result A

-- The n-th call of the outside world: does a statement fail, what does the clock say, what does the
-- random source give, and in which order does Go visit the keys of a map? And which text does the
-- SQLite driver write for a time?
pub record World : Type 0 where
  pub fails : ℕ → Bool
  pub now : ℕ → ℕ
  pub random : ℕ → String
  pub visit : ℕ → List String → List String
  pub time_text : Stamp → String

pub record Db : Type 0 where
  pub tick : ℕ
  pub tables : Tables

-- The writes made before an error stay: no store of the program opens a transaction.
abbrev pub M : Type 0 → Type 0
M A = Db → Result A × Db

abbrev pub bind_result : {A B : Type 0} → Result A × Db → (A → M B) → Result B × Db
bind_result (ok a, s) k = k a s
bind_result (err e, s) k = (err e, s)

infixl 5 ◌>>=◌ ◌>>◌
abbrev pub ◌>>=◌ : {A B : Type 0} → M A → (A → M B) → M B
◌>>=◌ m k s = bind_result (m s) k

abbrev pub ◌>>◌ : {B : Type 0} → M (Unit {0}) → M B → M B
m >> k = m >>= λ _. k

abbrev pub return : {A : Type 0} → A → M A
return a s = (ok a, s)

abbrev pub raise : {A : Type 0} → Error → M A
raise e s = (err e, s)

-- `if err := ...` over a list, stopping at the first error.
unfoldable pub each : {A : Type 0} → (A → M (Unit {0})) → List A → M (Unit {0})
each f [] = return tt
each f (x ∷ xs) = let rest = each f xs in f x >> rest

abbrev pub ticked : Db → Db
ticked s = record s { tick = s.tick + 1 }

abbrev written : Option Tables → Db → Result (Unit {0}) × Db
written none s = (err constraint, ticked s)
written (some t) s = (ok tt, record { tick = s.tick + 1; tables = t })

module _ (w : World) where
  -- A SELECT.
  unfoldable pub query : {A : Type 0} → (Tables → A) → M A
  query f s = if w.fails s.tick then (err database, ticked s) else (ok (f s.tables), ticked s)

  -- An INSERT, UPDATE or DELETE; `none` is a violated constraint.
  unfoldable pub exec : (Tables → Option Tables) → M (Unit {0})
  exec f s = if w.fails s.tick then (err database, ticked s) else written (f s.tables) s

  -- time.Now, and CURRENT_TIMESTAMP where the code reads what it wrote.
  unfoldable pub clock : M ℕ
  clock s = (ok (w.now s.tick), ticked s)

  -- A text from crypto/rand; the program stops where that fails.
  unfoldable pub draw : M String
  draw s = (ok (w.random s.tick), ticked s)

  -- The keys of a map in the order of a `range` loop.
  unfoldable pub visit_keys : List String → M (List String)
  visit_keys keys s = (ok (w.visit s.tick keys), ticked s)
