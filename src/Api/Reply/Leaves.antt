-- ===== src/Api/Reply/Leaves.antt =====
-- What a handler answers and leaves in the tables: rules for a call and what follows it.
use safe_play_guardian.Store.Tables.{Tables}
use safe_play_guardian.Store.Exec.{Result, ok, err, Error, Db}
use safe_play_guardian.Store.Keeps.{Post}
use safe_play_guardian.Store.Runs.{Done}
use safe_play_guardian.Api.Reply.{Handler, attempted}

abbrev pub Leaves : {C : Type 0} → (C → Tables → Type 0) → C × Db → Type 0
Leaves R (c, s) = R c s.tables

-- The call may fail.
pub attempted-Leaves :
    {A C : Type 0} (I : Tables → Type 0) (Q : A → Tables → Type 0) (R : C → Tables → Type 0)
    (p : Result A × Db) (fail : Error → C) (k : A → Handler C)
    → Post I Q p
    → ((e : Error) (t : Tables) → I t → R (fail e) t)
    → ((a : A) (s : Db) → I s.tables → Q a s.tables → Leaves R (k a s))
    → Leaves R (attempted p fail k)
attempted-Leaves I Q R (ok a, s) fail k h f g = g a s h.0 h.1
attempted-Leaves I Q R (err e, s) fail k h f g = f e s.tables h

-- The call succeeds.
pub attempted-Done :
    {A C : Type 0} (Q : A → Tables → Type 0) (R : C → Tables → Type 0) (p : Result A × Db)
    (fail : Error → C) (k : A → Handler C)
    → Done Q p
    → ((a : A) (s : Db) → Q a s.tables → Leaves R (k a s))
    → Leaves R (attempted p fail k)
attempted-Done Q R (ok a, s) fail k h g = g a s h
attempted-Done Q R (err e, s) fail k h g = absurd h
