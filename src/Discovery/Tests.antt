-- ===== src/Discovery/Tests.antt =====
-- The hosts of a concrete network.
use safe_play_guardian.Prelude.{
  ◌+◌, ◌-◌, ◌^◌, ◌≡◌, map, arith, String, Bool, false, ◌==◌, string_eq, some, List, [], ◌∷◌, All,
}
use safe_play_guardian.Samples.{tablet_seen, phone_seen}
use safe_play_guardian.Device.Model.{Observation}
use safe_play_guardian.Discovery.Scanner.{Seen, Answer, done, cycle}
use safe_play_guardian.Discovery.Scanner.Handover.{cycle-keeps}
use safe_play_guardian.Discovery.Sweep.{Ip, ip_number, network_number, enumerate_ips}
use safe_play_guardian.Discovery.Sweep.Hosts.{numbers, enumerate_ips-numbers}

abbrev router : Ip
router = record { a = 192; b = 168; c = 1; d = 77 }

enumerate_ips-numbers_example :
    map ip_number (enumerate_ips 29 32 router)
    ≡ numbers (network_number 29 router + 1) (2 ^ (32 - 29) - 2)
enumerate_ips-numbers_example =
    enumerate_ips-numbers 29 router (omega arith) (omega arith) (omega arith)

-- A Reconcile that keeps what it was given.
abbrev journal : Observation → List Observation → Answer × List Observation
journal o s = (done, o ∷ s)

abbrev hides_tablet : String → Bool
hides_tablet mac = mac == "3c:22:fb:00:00:02"

abbrev AllShown : Seen → List Observation → Type 0
AllShown seen s = All (λ (o : Observation). (hides_tablet o.mac ≡ false) × (o.source ≡ "scan")) s

cycle-keeps_example :
    let out =
      cycle hides_tablet 1 7 journal
        (λ b. b)
        (some (tablet_seen ∷ phone_seen ∷ []) ∷ [])
        ([], []) in
    AllShown out.0 out.1
cycle-keeps_example =
    cycle-keeps hides_tablet 1 7 journal AllShown (λ mac seen s h. h)
      (λ o seen s a h. ((a.shown, a.source), h)) (λ b. b) (λ b e m. m)
      (some (tablet_seen ∷ phone_seen ∷ []) ∷ []) ([], []) tt
