-- ===== src/Examples/Layers.antt =====
-- The headers one by one.
use redes1grupal.Base.{
  ◌==◌, if◌then◌else◌, length, [], ◌==◌, ◌∷◌, List, if◌then◌else◌, inl, ℕ, ◌-◌, ◌≡◌, ◌⊎◌, refl,
  arith, All,
}
use redes1grupal.Memory.{Mem, Bytes, read_bytes}
use redes1grupal.Packet.{routing, Ipv6Option, new_ip, IpPacket}
use redes1grupal.Checksum.{in_cksum}
use redes1grupal.Checksum.Reference.{ones_sum, in_cksum-ones_sum, in_cksum_odd_ignores_last}
use redes1grupal.Ipv6.{
  inet_address, extension, extension, inet_address, analyze_ipv6, finished, fault,
}
use redes1grupal.GetPacket.Classify.{skip_extensions}
use redes1grupal.GetPacket.Skip.{skip_extensions-fuel}
use redes1grupal.Ipv6.Laws.{analyze_ipv6-routing, analyze_ipv6-ends, analyze_ipv6-routing}
use redes1grupal.Examples.{stack, stack-IsBytes, buffer}

in_cksum-ones_sum_example : in_cksum stack 3 20 ≡ 65535 - ones_sum stack 3 20
in_cksum-ones_sum_example = in_cksum-ones_sum stack 3 20 stack-IsBytes refl (omega arith)

-- The same memory with the last byte of the region cleared, at address 4.
abbrev cleared : Bytes
cleared a = elim (Prim.Native.Nat.compare a 4) [ Prim.Native.Nat.Ordering.eq ↦ 0 | _ ↦ 0xaa ]

in_cksum_odd_ignores_last_example : in_cksum stack 0 5 ≡ in_cksum cleared 0 6
in_cksum_odd_ignores_last_example =
    in_cksum_odd_ignores_last stack cleared 0 2 stack-IsBytes (λ a. ground arith) (omega arith)
      (λ j ne. ground arith) refl

analyze_ipv6-ends_example :
    ((r : IpPacket × ℕ) × (analyze_ipv6 14 new_ip buffer ≡ finished r))
    ⊎ (analyze_ipv6 14 new_ip buffer ≡ fault)
analyze_ipv6-ends_example = analyze_ipv6-ends 14 new_ip buffer

-- An IPv6 header at byte 14 with a routing header of two addresses and TCP behind it.
abbrev routed : Mem
routed = record buffer {
  byte = λ a.
      if a == 20
      then 43
      else if a == 54
      then 6
      else if a == 55
      then 4
      else if a == 78
      then 1
      else 0xaa;
}

analyze_ipv6-routing_example :
    (r : IpPacket) × (hlen : ℕ) × (o : Ipv6Option) × (addrs : List (List ℕ)) × (analyze_ipv6 14
        new_ip routed
      ≡ finished (r, hlen))
    × (r.options ≡ o ∷ [])
    × (o.body ≡ routing 0xaa 0xaa addrs)
    × (length addrs ≡ 2)
    × All (λ address. address ≡ inet_address (read_bytes 16 62 routed.byte)) addrs
analyze_ipv6-routing_example =
    analyze_ipv6-routing 14 new_ip routed refl (omega arith) (unfold extension in refl)
      (omega arith)

skip_extensions-fuel_example :
    skip_extensions 40 14 44 40 buffer ≡ skip_extensions 100 14 44 40 buffer
skip_extensions-fuel_example =
    skip_extensions-fuel 40 100 14 44 40 buffer stack-IsBytes (omega arith) (inl (omega arith))
      (inl (omega arith))
