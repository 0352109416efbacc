-- ===== src/GetPacket/Shorts.antt =====
-- A C `short` as its 16-bit pattern: the arithmetic and the comparisons of `clen` and `hlen`.
use redes1grupal.Base.{
  ℕ, ◌+◌, ◌-◌, ◌%◌, ◌^◌, Bool, Option, none, some, ltb, leb, ◌&&◌, ◌||◌, if◌then◌else◌,
}

-- `(short)a`, and `a -= b` for `b` below 2 ^ 16.
abbrev pub to_short : ℕ → ℕ
to_short a = a % 2 ^ 16

abbrev pub sub_short : ℕ → ℕ → ℕ
sub_short a b = (a + 2 ^ 16 - b) % 2 ^ 16

abbrev pub is_negative : ℕ → Bool
is_negative a = leb (2 ^ 15) a

-- `a > 0`
abbrev pub is_positive : ℕ → Bool
is_positive a = ltb 0 a && ltb a (2 ^ 15)

-- `a < k` for a short `a` and a small constant `k`
abbrev pub less_than : ℕ → ℕ → Bool
less_than a k = is_negative a || ltb a k

-- `a > b` for two shorts
abbrev pub greater : ℕ → ℕ → Bool
greater a b = if is_negative a then is_negative b && ltb b a else (is_negative b || ltb b a)

-- `a > b` where `b` is an unsigned 32-bit integer: a negative short counts as a large number.
abbrev pub greater_unsigned : ℕ → ℕ → Bool
greater_unsigned a b = ltb b (if is_negative a then a + (2 ^ 32 - 2 ^ 16) else a)

-- A pointer moved by a short. One that leaves the buffer at the front is a fault.
abbrev pub move : ℕ → ℕ → Option ℕ
move d h =
    if is_negative h
    then (if ltb d (2 ^ 16 - h) then none else some (d - (2 ^ 16 - h)))
    else some (d + h)
