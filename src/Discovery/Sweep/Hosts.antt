-- ===== src/Discovery/Sweep/Hosts.antt =====
-- The addresses that a sweep asks: all hosts of the network, each once.
use safe_play_guardian.Prelude.{
  ℕ, zero, suc, ◌+◌, ◌-◌, ◌*◌, ◌/◌, ◌%◌, ◌^◌, ◌<◌, ◌≤◌, ◌≡◌, refl, ◌⊎◌, inl, inr, ltb, nat_eq,
  false, ◌||◌, List, [], ◌∷◌, map, arith,
}
use safe_play_guardian.Discovery.Sweep.{
  Ip, ip_number, ip_of, hosts_from, network_number, enumerate_ips,
}

-- The numbers from `from` on.
abbrev pub numbers : ℕ → ℕ → List ℕ
numbers from zero = []
numbers from (suc n) = from ∷ numbers (from + 1) n

ip_number-ip_of : (v : ℕ) → v < 4294967296 → ip_number (ip_of v) ≡ v
ip_number-ip_of v h = omega arith

hosts_from-numbers :
    (v i rounds : ℕ)
    → v + i + rounds ≤ 4294967296
    → map ip_number (hosts_from v i rounds) ≡ numbers (v + i) rounds
unfolding hosts_from
hosts_from-numbers v i zero h = refl
hosts_from-numbers v i (suc rounds) h =
    let next : v + (i + 1) ≡ v + i + 1 = omega arith in
    let small : (v + i) % 4294967296 ≡ v + i = omega arith in
    rw
      (
        small,
        ip_number-ip_of (v + i) (omega arith),
        hosts_from-numbers v (i + 1) rounds (omega arith),
        next,
      )
      refl

-- A mask of 22 to 30 ones.
abbrev Masks : ℕ → Type 0
Masks ones =
    (ones ≡ 22)
    ⊎ ((ones ≡ 23)
        ⊎ ((ones ≡ 24)
            ⊎ ((ones ≡ 25)
                ⊎ ((ones ≡ 26) ⊎ ((ones ≡ 27) ⊎ ((ones ≡ 28) ⊎ ((ones ≡ 29) ⊎ (ones ≡ 30))))))))

-- The network of an address ends below 2^32.
network-le :
    (ones n : ℕ)
    → Masks ones
    → n < 4294967296
    → (n / 2 ^ (32 - ones) * 2 ^ (32 - ones) + 2 ^ (32 - ones) ≤ 4294967296) × (4 ≤ 2 ^ (32 - ones))
network-le ones n m h = elim m [
  | inl e ↦ rw e (omega arith, omega arith)
  | inr m ↦ elim m [
    | inl e ↦ rw e (omega arith, omega arith)
    | inr m ↦ elim m [
      | inl e ↦ rw e (omega arith, omega arith)
      | inr m ↦ elim m [
        | inl e ↦ rw e (omega arith, omega arith)
        | inr m ↦ elim m [
          | inl e ↦ rw e (omega arith, omega arith)
          | inr m ↦ elim m [
            | inl e ↦ rw e (omega arith, omega arith)
            | inr m ↦ elim m [
              | inl e ↦ rw e (omega arith, omega arith)
              | inr m ↦ elim m [
                | inl e ↦ rw e (omega arith, omega arith)
                | inr e ↦ rw e (omega arith, omega arith)
              ]
            ]
          ]
        ]
      ]
    ]
  ]
]

-- For a mask of 22 to 30 ones and an address below 2^32, enumerateIPs gives, in ascending order
-- and each once, exactly the addresses strictly between the first and the last of the network.
pub enumerate_ips-numbers :
    (ones : ℕ) (ip : Ip)
    → 22 ≤ ones
    → ones ≤ 30
    → ip_number ip < 4294967296
    → map ip_number (enumerate_ips ones 32 ip)
      ≡ numbers (network_number ones ip + 1) (2 ^ (32 - ones) - 2)
unfolding enumerate_ips
enumerate_ips-numbers ones ip p q h =
    let masks : Masks ones = omega arith in
    let (fits, large) = network-le ones (ip_number ip) masks h in
    let accepted : (ltb ones 22 || ltb 30 ones) ≡ false = ground arith in
    rw accepted (hosts_from-numbers (network_number ones ip) 1 (2 ^ (32 - ones) - 2) (omega arith))
