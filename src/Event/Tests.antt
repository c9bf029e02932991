-- ===== src/Event/Tests.antt =====
-- The log, the redaction and the screen time at concrete events.
use mathlib.Core.List.{Memᴰ}
use Prim.Native.String.{[] as no_text}
use safe_play_guardian.Device.Rows.{text_le}
use safe_play_guardian.Device.Rows.TextOrder.{le, text_le-le}
use safe_play_guardian.Device.Rows.Sorted.{Ordered}
use safe_play_guardian.Prelude.{
  ℕ, zero, suc, utc_stamp, leb, List, All, sym, ◌∙◌, ◌-◌, [], ◌∷◌, ◌≡◌, refl, none, some, arith,
  ◌==◌, string_eq, ◌&&◌, if◌then◌else◌,
}
use safe_play_guardian.Samples.{
  calm, sorted_calm, ones, home, home_db, utc_only, family, house_rules, phone_device,
  blocked_visit, sighting_at,
}
use safe_play_guardian.Store.Exec.{Db}
use safe_play_guardian.Policy.Model.{ResolvedPolicy, monitoring_metadata}
use safe_play_guardian.Policy.Resolver.{ok, resolve, merge}
use safe_play_guardian.Policy.Resolver.Verdict.{Found}
use safe_play_guardian.Event.Model.{Event, kind_block}
use safe_play_guardian.Event.Redact.{attr, attrs_of, redact}
use safe_play_guardian.Event.Redact.Privacy.{redact_lem, hidden}
use safe_play_guardian.Event.Log.{sweep}
use safe_play_guardian.Event.Log.Journal.{Appended, append-Appended, SweepPost, sweep-Swept}
use safe_play_guardian.Event.Logger.{append, effective_level}
use safe_play_guardian.Event.Logger.Levels.{lookup_of, effective_level-resolve}
use safe_play_guardian.Event.Usage.{usage}
use safe_play_guardian.Event.Usage.Spans.{SortsPlain, IsSighting, InOrder, Spans, usage-Spans}

redact_lem_example : attr "host" (attrs_of (redact blocked_visit monitoring_metadata).attrs) ≡ (
    if blocked_visit.kind == kind_block && hidden monitoring_metadata "host"
    then none
    else attr "host" (attrs_of blocked_visit.attrs))
redact_lem_example = redact_lem blocked_visit monitoring_metadata "host"

append-Appended_example :
    Appended
      (effective_level (some (lookup_of family)) blocked_visit)
      blocked_visit
      home.events
      (append calm (some (lookup_of family)) blocked_visit home_db)
append-Appended_example = append-Appended calm (some (lookup_of family)) blocked_visit home_db

sweep-Swept_example :
    SweepPost (calm.now 0 - 4_999_999_998_500) home.events (sweep calm 4_999_999_998_500 home_db)
sweep-Swept_example = sweep-Swept calm 4_999_999_998_500 home_db

house_rules-alone : merge (some house_rules) none ≡ some house_rules
unfolding merge
house_rules-alone = refl

abbrev phone_found : Found family "phone" house_rules
phone_found = record {
  dev = phone_device;
  get_dev = refl;
  person = "ann";
  owned = refl;
  policy = some house_rules;
  get_policy = refl;
  override = none;
  get_override = refl;
  merges = house_rules-alone;
}

effective_level-resolve_example :
    (res : ResolvedPolicy) × (resolve utc_only family "phone" 43_200_000_000_000 ≡ ok res)
    × (effective_level (some (lookup_of family)) blocked_visit ≡ res.log_level)
effective_level-resolve_example =
    effective_level-resolve utc_only family "phone" 43_200_000_000_000 house_rules phone_found
      blocked_visit refl refl

-- The order of texts of one character only is that of their lengths.
ones-sorted : (a b : ℕ) → text_le (ones a) (ones b) ≡ leb a b
unfolding ones le
ones-sorted zero b = text_le-le no_text (ones b) ∙ (ground arith)
ones-sorted (suc a) zero = text_le-le (ones (suc a)) no_text ∙ (ground arith)
ones-sorted (suc a) (suc b) =
    let rest = sym (text_le-le (ones a) (ones b)) ∙ ones-sorted a b in
    text_le-le (ones (suc a)) (ones (suc b)) ∙ (ground (arith, rest))

sorted_calm-SortsPlain : SortsPlain sorted_calm
sorted_calm-SortsPlain a b p q = ones-sorted a.instant b.instant

usage-Spans_example :
    (es : List Event) × All (λ e. IsSighting "phone" (utc_stamp 500) e × Memᴰ e home.events) es
    × ((e : Event) → IsSighting "phone" (utc_stamp 500) e → Memᴰ e home.events → Memᴰ e es)
    × Ordered InOrder es
    × Spans (usage sorted_calm "phone" (utc_stamp 500) home.events) es
usage-Spans_example =
    usage-Spans sorted_calm sorted_calm-SortsPlain "phone" (utc_stamp 500) (refl, omega arith)
      home.events (omega arith) ((refl, omega arith), ((refl, omega arith), tt))

abbrev blocked_db : Db
blocked_db = record {
  tick = 0;
  tables = record home { events = blocked_visit ∷ sighting_at 2000 ∷ blocked_visit ∷ [] };
}
