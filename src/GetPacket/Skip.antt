-- ===== src/GetPacket/Skip.antt =====
-- The search of `get_packet` for the protocol behind the extension headers of IPv6.
use redes1grupal.Base.{ℕ, zero, suc, ◌+◌, ◌^◌, ◌≤◌, ◌<◌, ◌≡◌, ◌⊎◌, refl, arith}
use redes1grupal.Memory.{Mem}
use redes1grupal.Memory.Laws.{IsBytes}
use redes1grupal.GetPacket.Classify.{
  Skip, by_eight, by_four, fixed, stop, skip, skip_size, skip_extensions, no_transport,
}
use redes1grupal.GetPacket.Shorts.{sub_short}

-- A header takes at least eight bytes, and its length byte bounds what it takes.
skip_size-le :
    (kind : Skip) (len : ℕ)
    → len < 256
    → (kind ≡ stop) ⊎ ((8 ≤ skip_size kind len) × (skip_size kind len ≤ 2048))
unfolding skip_size
skip_size-le by_eight len h = ground arith
skip_size-le by_four len h = ground arith
skip_size-le fixed len h = ground arith
skip_size-le stop len h = ground arith

-- The loop does not run out of fuel: with as many rounds as `clen` says, or more, or with a `clen`
-- that is negative, how much fuel there is makes no difference.
pub skip_extensions-fuel :
    (f g dp tproto clen : ℕ) (m : Mem)
    → IsBytes m.byte
    → clen < 2 ^ 16
    → (clen ≤ f) ⊎ (2 ^ 15 ≤ clen)
    → (clen ≤ g) ⊎ (2 ^ 15 ≤ clen)
    → skip_extensions f dp tproto clen m ≡ skip_extensions g dp tproto clen m
unfolding skip_extensions
skip_extensions-fuel zero zero dp tproto clen m b short hf hg = refl
skip_extensions-fuel zero (suc g) dp tproto clen m b short hf hg = ground arith
skip_extensions-fuel (suc f) zero dp tproto clen m b short hf hg = ground arith
skip_extensions-fuel (suc f) (suc g) dp tproto clen m b short hf hg =
    let size : ℕ = skip_size (skip tproto) (m.byte (dp + 1)) in
    ground (
      arith,
      skip_size-le (skip tproto) (m.byte (dp + 1)) (b (dp + 1)),
      skip_extensions-fuel f g (dp + size) (no_transport (m.byte dp)) (sub_short clen size) m b,
    )
