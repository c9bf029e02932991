-- ===== src/Enforce/Agent/Queue.antt =====
-- The agent backend's queue hands a slice over exactly once, and answers for each capability.
use safe_play_guardian.Prelude.{
  ◌≡◌, ◌≢◌, refl, ap, String, ◌==◌, string_eq, eq_iff, eq_refl, none, some, List, [], ◌∷◌, map,
  arith, if◌then◌else◌,
}
use safe_play_guardian.Device.Model.{Capability}
use safe_play_guardian.Enforce.Enforcer.{Slice, PerRule, Answers}
use safe_play_guardian.Enforce.Agent.{
  Pending, load, delete, store, queued, apply, pull_pending, backend,
}

load-delete :
    (key id : String) (m : Pending)
    → load key (delete id m) ≡ (if id == key then none else load key m)
unfolding load delete
load-delete key id [] = ground arith
load-delete key id ((k, v) ∷ m) =
    ground (arith, load-delete key id m, eq_iff k id, eq_iff k key, eq_iff id key)

-- What one check-in of the device takes, and what the next one finds.
pub record HandsOver (id : String) (slice : Slice) (before queue : Pending) : Type 0 where
  pub taken : (pull_pending id queue).0 ≡ some slice
  pub once : (pull_pending id (pull_pending id queue).1).0 ≡ none
  pub others :
      (other : String)
      → other ≢ id
      → (pull_pending other (pull_pending id queue).1).0 ≡ (pull_pending other before).0

-- After Apply the next PullPending of the device takes this slice, whatever was queued before; the
-- one after it takes none; and what any other device takes is what it would have taken before.
pub apply-HandsOver :
    (id : String) (slice : Slice) (m : Pending) → HandsOver id slice m (apply id slice m).1
unfolding apply pull_pending store load
apply-HandsOver id slice m =
    let none_left : load id (delete id ((id, slice) ∷ delete id m)) ≡ none =
      ground (arith, load-delete id id ((id, slice) ∷ delete id m), eq_refl id) in
    record {
      taken = ground (arith, eq_refl id);
      once = none_left;
      others = λ other d. ground (
        arith,
        load-delete other id ((id, slice) ∷ delete id m),
        load-delete other id m,
        eq_iff id other,
      );
    }

-- The backend answers for each capability of its slice, in the slice's order.
pub agent-Answers : Answers backend
unfolding backend apply
agent-Answers id slice s = answered slice.caps
  where
    answered : (cs : List Capability) → map (λ (r : PerRule). r.capability) (map queued cs) ≡ cs
    answered [] = refl
    answered (c ∷ cs) = ap (λ l. c ∷ l) (answered cs)
