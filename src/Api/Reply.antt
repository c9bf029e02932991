-- ===== src/Api/Reply.antt =====
-- internal/api/devices.go: writeJSON and writeError, and how a handler goes on after a call.
pub mod Leaves
use safe_play_guardian.Prelude.{ℕ, String}
use safe_play_guardian.Store.Exec.{Error, Result, ok, err, Db, M}

-- A status with a JSON body, or with {"error": ...}.
pub data Reply (A : Type 0) : Type 0 where
  write_json : ℕ → A → Reply A
  write_error : ℕ → String → Reply A

abbrev pub status_of : {A : Type 0} → Reply A → ℕ
status_of (write_json n a) = n
status_of (write_error n m) = n

-- A handler over the database, once its request is decoded.
abbrev pub Handler : Type 0 → Type 0
Handler C = Db → C × Db

abbrev pub finish : {C : Type 0} → C → Handler C
finish c s = (c, s)

abbrev pub attempted : {A C : Type 0} → Result A × Db → (Error → C) → (A → Handler C) → C × Db
attempted (ok a, s) fail k = k a s
attempted (err e, s) fail k = (fail e, s)

-- `if err != nil { writeError; return }`
abbrev pub attempt : {A C : Type 0} → M A → (Error → C) → (A → Handler C) → Handler C
attempt m fail k s = attempted (m s) fail k
