-- ===== src/Store/Keeps.antt =====
-- What programs over the database keep, whichever statements fail: rules for each construct.
use safe_play_guardian.Prelude.{
  ◌≡◌, String, Bool-cases, Option-cases, inl, inr, Option, some, List, [], ◌∷◌,
}
use safe_play_guardian.Store.Tables.{Tables}
use safe_play_guardian.Store.Exec.{
  World, Result, ok, err, Db, M, ◌>>=◌, bind_result, each, query, exec, clock, draw, visit_keys,
}

-- The tables satisfy I after the program, on success and on error, and a result satisfies Q there.
abbrev pub Post : {A : Type 0} → (Tables → Type 0) → (A → Tables → Type 0) → Result A × Db → Type 0
Post I Q (ok a, s) = I s.tables × Q a s.tables
Post I Q (err e, s) = I s.tables

-- From tables that satisfy I, the program keeps I, and its result satisfies Q.
abbrev pub Ensures : {A : Type 0} → (Tables → Type 0) → M A → (A → Tables → Type 0) → Type 0
Ensures I m Q = (s : Db) → I s.tables → Post I Q (m s)

-- No claim about the result.
abbrev pub Nothing : {A : Type 0} → A → Tables → Type 0
Nothing a t = Unit

module _ (I : Tables → Type 0) where
  bind_result-Post :
      {A B : Type 0} (Q : A → Tables → Type 0) (R : B → Tables → Type 0) (p : Result A × Db)
      (k : A → M B)
      → Post I Q p
      → ((a : A) (s : Db) → I s.tables → Q a s.tables → Post I R (k a s))
      → Post I R (bind_result p k)
  bind_result-Post Q R (ok a, s) k h f = f a s h.0 h.1
  bind_result-Post Q R (err e, s) k h f = h

  pub >>=-Ensures :
      {A B : Type 0} (Q : A → Tables → Type 0) (R : B → Tables → Type 0) (m : M A) (k : A → M B)
      → Ensures I m Q
      → ((a : A) (s : Db) → I s.tables → Q a s.tables → Post I R (k a s))
      → Ensures I (m >>= k) R
  >>=-Ensures Q R m k h f s i = bind_result-Post Q R (m s) k (h s i) f

  -- The common case: nothing is used of the first result.
  pub >>=-keeps :
      {A B : Type 0} (R : B → Tables → Type 0) (m : M A) (k : A → M B)
      → Ensures I m Nothing
      → ((a : A) → Ensures I (k a) R)
      → Ensures I (m >>= k) R
  >>=-keeps R m k h f = >>=-Ensures Nothing R m k h (λ a s i _. f a s i)

  pub weaken :
      {A : Type 0} (Q R : A → Tables → Type 0) (m : M A)
      → ((a : A) (t : Tables) → Q a t → R a t)
      → Ensures I m Q
      → Ensures I m R
  weaken Q R m f h s i = go (m s) (h s i)
    where
      go : (p : Result _ × Db) → Post I Q p → Post I R p
      go (ok a, u) p = (p.0, f a u.tables p.1)
      go (err e, u) p = p

  pub forget :
      {A : Type 0} (Q : A → Tables → Type 0) (m : M A) → Ensures I m Q → Ensures I m Nothing
  forget Q m h = weaken Q Nothing m (λ a t q. tt) h

  module _ (w : World) where
    pub query-Ensures :
        {A : Type 0} (f : Tables → A) (Q : A → Tables → Type 0)
        → ((t : Tables) → I t → Q (f t) t)
        → Ensures I (query w f) Q
    unfolding query
    query-Ensures f Q h s i = elim (Bool-cases (w.fails s.tick)) [
      | inl e ↦ rw e i
      | inr e ↦ rw e (i, h s.tables i)
    ]

    pub query-keeps : {A : Type 0} (f : Tables → A) → Ensures I (query w f) Nothing
    query-keeps f = query-Ensures f Nothing (λ t i. tt)

    pub exec-Ensures :
        (f : Tables → Option Tables) (Q : Unit {0} → Tables → Type 0)
        → ((t t' : Tables) → I t → f t ≡ some t' → I t' × Q tt t')
        → Ensures I (exec w f) Q
    unfolding exec
    exec-Ensures f Q h s i = elim (Bool-cases (w.fails s.tick)) [
      | inl e ↦ rw e i
      | inr e ↦ elim (Option-cases (f s.tables)) [
        | inl n ↦ rw (e, n) i
        | inr (t', n) ↦ rw (e, n) (h s.tables t' i n)
      ]
    ]

    pub exec-keeps :
        (f : Tables → Option Tables)
        → ((t t' : Tables) → I t → f t ≡ some t' → I t')
        → Ensures I (exec w f) Nothing
    exec-keeps f h = exec-Ensures f Nothing (λ t t' i e. (h t t' i e, tt))

    pub clock-keeps : Ensures I (clock w) Nothing
    unfolding clock
    clock-keeps s i = (i, tt)

    pub draw-keeps : Ensures I (draw w) Nothing
    unfolding draw
    draw-keeps s i = (i, tt)

    pub visit_keys-keeps : (keys : List String) → Ensures I (visit_keys w keys) Nothing
    unfolding visit_keys
    visit_keys-keeps keys s i = (i, tt)

  pub each-keeps :
      {A : Type 0} (f : A → M (Unit {0})) (xs : List A)
      → ((x : A) → Ensures I (f x) Nothing)
      → Ensures I (each f xs) Nothing
  unfolding each
  each-keeps f [] h s i = (i, tt)
  each-keeps f (x ∷ xs) h s i =
      >>=-keeps Nothing (f x) (λ _. each f xs) (h x) (λ _. each-keeps f xs h) s i

-- A part of the program that needs and keeps a stronger invariant J.
pub strengthen :
    (I J : Tables → Type 0)
    → ((t : Tables) → J t → I t)
    → {A : Type 0} (Q R : A → Tables → Type 0) → ((a : A) (t : Tables) → J t → Q a t → R a t)
    → (p : Result A × Db) → Post J Q p
    → Post I R p
strengthen I J f Q R g (ok a, s) h = (f s.tables h.0, g a s.tables h.0 h.1)
strengthen I J f Q R g (err e, s) h = f s.tables h

-- A first part that keeps more than the rest of the program.
pub >>=-Post :
    (I J : Tables → Type 0)
    → ((t : Tables) → J t → I t)
    → {A B : Type 0} (Q : A → Tables → Type 0) (R : B → Tables → Type 0) (p : Result A × Db)
      (k : A → M B)
    → Post J Q p
    → ((a : A) (s : Db) → J s.tables → Q a s.tables → Post I R (k a s))
    → Post I R (bind_result p k)
>>=-Post I J f Q R (ok a, s) k h g = g a s h.0 h.1
>>=-Post I J f Q R (err e, s) k h g = f s.tables h
