-- ===== src/Store/Runs.antt =====
-- What programs over the database do where no statement fails: they end with a result.
use safe_play_guardian.Prelude.{zero, suc, ℕ, ◌+◌, ◌≡◌, refl, false, Option, some, List, [], ◌∷◌}
use safe_play_guardian.Store.Tables.{Tables}
use safe_play_guardian.Store.Exec.{
  World, Result, ok, err, Db, M, bind_result, each, query, exec, ticked,
}

-- The number of a call, n calls after one.
abbrev pub steps : ℕ → ℕ → ℕ
steps zero tick = tick
steps (suc n) tick = steps n (tick + 1)

-- The program succeeds, and its result satisfies Q in the tables that it leaves.
abbrev pub Done : {A : Type 0} → (A → Tables → Type 0) → Result A × Db → Type 0
Done Q (ok a, s) = Q a s.tables
Done Q (err _, s) = ⊥

pub bind_result-Done :
    {A B : Type 0} (Q : A → Tables → Type 0) (R : B → Tables → Type 0) (p : Result A × Db)
    (k : A → M B)
    → Done Q p
    → ((a : A) (s : Db) → Q a s.tables → Done R (k a s))
    → Done R (bind_result p k)
bind_result-Done Q R (ok a, s) k h f = f a s h
bind_result-Done Q R (err e, s) k h f = absurd h

module _ (w : World) (faultless : (n : ℕ) → w.fails n ≡ false) where
  pub query-Done :
      {A : Type 0} (f : Tables → A) (s : Db)
      → Done (λ a t. (t ≡ s.tables) × (a ≡ f s.tables)) (query w f s)
  unfolding query
  query-Done f s = rw (faultless s.tick) (refl, refl)

  pub exec-Done :
      (f : Tables → Option Tables) (Q : Tables → Type 0) (s : Db)
      → ((t : Tables) × (f s.tables ≡ some t) × Q t)
      → Done (λ _. Q) (exec w f s)
  unfolding exec
  exec-Done f Q s (t, e, q) = rw (faultless s.tick, e) q

  pub each-Done :
      {A : Type 0} (f : A → M (Unit {0})) (I : Tables → Type 0) (xs : List A) (s : Db)
      → ((x : A) (u : Db) → I u.tables → Done (λ _. I) (f x u))
      → I s.tables
      → Done (λ _. I) (each f xs s)
  unfolding each
  each-Done f I [] s h i = i
  each-Done f I (x ∷ xs) s h i =
      bind_result-Done (λ _. I) (λ _. I) (f x s) (λ _. each f xs) (h x s i)
        (λ a u j. each-Done f I xs u h j)

  pub query-eq : {A : Type 0} (f : Tables → A) (s : Db) → query w f s ≡ (ok (f s.tables), ticked s)
  unfolding query
  query-eq f s = rw (faultless s.tick) refl

  pub exec-eq :
      (f : Tables → Option Tables) (s : Db) {t : Tables}
      → f s.tables ≡ some t
      → exec w f s ≡ (ok tt, record { tick = s.tick + 1; tables = t })
  unfolding exec
  exec-eq f s e = rw (faultless s.tick, e) refl
