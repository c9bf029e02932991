-- ===== src/Discovery/Sweep.antt =====
-- internal/discovery/sweep.go: the host addresses of a network.
pub mod Hosts
use safe_play_guardian.Prelude.{
  ℕ, zero, suc, ◌+◌, ◌-◌, ◌*◌, ◌/◌, ◌%◌, ◌^◌, ltb, ◌==◌, nat_eq, not, ◌||◌, List, [], ◌∷◌,
  if◌then◌else◌,
}

-- Four bytes.
pub record Ip : Type 0 where
  pub a : ℕ
  pub b : ℕ
  pub c : ℕ
  pub d : ℕ

-- The number of an address, and the address of a uint32.
abbrev pub ip_number : Ip → ℕ
ip_number ip = ip.a * 16777216 + ip.b * 65536 + ip.c * 256 + ip.d

abbrev pub ip_of : ℕ → Ip
ip_of v = record { a = v / 16777216 % 256; b = v / 65536 % 256; c = v / 256 % 256; d = v % 256 }

-- `for i := 1; i < count-1; i++`, from the value i, for the given number of rounds.
unfoldable pub hosts_from : ℕ → ℕ → ℕ → List Ip
hosts_from v i zero = []
hosts_from v i (suc rounds) = ip_of ((v + i) % 4294967296) ∷ hosts_from v (i + 1) rounds

-- n.IP.Mask(n.Mask): the network's first address, for a mask of `ones` leading ones.
abbrev pub network_number : ℕ → Ip → ℕ
network_number ones ip = ip_number ip / 2 ^ (32 - ones) * 2 ^ (32 - ones)

-- enumerateIPs of an IPv4 network with a mask of `ones` leading ones out of `bits`.
unfoldable pub enumerate_ips : ℕ → ℕ → Ip → List Ip
unfolding hosts_from
enumerate_ips ones bits ip =
    if not (bits == 32) || ltb ones 22 || ltb 30 ones
    then []
    else hosts_from (network_number ones ip) 1 (2 ^ (32 - ones) - 2)
