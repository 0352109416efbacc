-- ===== src/Checksum.antt =====
-- `in_cksum` and `in_cksum2` of jpcap-0.7/src/c/JpcapSender.c. The `u_short` that a pointer reads
-- is little-endian, and `unsigned long` is 64 bits wide.
pub mod Sums
pub mod Verify
pub mod Segment
pub mod Reference
use redes1grupal.Base.{
  ℕ, zero, suc, ◌+◌, ◌-◌, ◌*◌, ◌/◌, ◌%◌, ◌^◌, bit_and, htons, if◌then◌else◌, ◌==◌,
}
use redes1grupal.Memory.{Bytes, load16}

abbrev pub add64 : ℕ → ℕ → ℕ
add64 sum w = (sum + w) % 2 ^ 64

-- `while(size > 1){ sum += *(data++); size -= 2; }`
unfoldable pub sum_words : Bytes → ℕ → ℕ → ℕ → ℕ
sum_words f a (suc (suc size)) sum = sum_words f (a + 2) size (add64 sum (load16 a 0 f))
sum_words f a size sum = sum

-- The two folds of the carries, and the complement of the low half.
unfoldable pub fold : ℕ → ℕ
fold sum = let sum' = sum % 65536 + sum / 65536 in 65535 - (sum' / 65536 + sum' % 65536) % 65536

-- The odd byte is the high half of the word that starts at it.
unfoldable pub in_cksum : Bytes → ℕ → ℕ → ℕ
in_cksum f a size =
    let sum = sum_words f a size 0 in
    fold (if size % 2 == 1 then add64 sum (bit_and (load16 (a + (size - 1)) 0 f) 0xff00) else sum)

-- The pseudo header of an IPv4 packet whose header stands at `ip`.
unfoldable pub pseudo_sum : Bytes → ℕ → ℕ → ℕ
pseudo_sum f ip len =
    load16 ip 12 f
    + load16 ip 14 f
    + load16 ip 16 f
    + load16 ip 18 f
    + htons (f (ip + 9) % 256)
    + len

unfoldable pub in_cksum2 : Bytes → ℕ → ℕ → ℕ → ℕ → ℕ
in_cksum2 f ip len a size =
    let sum = sum_words f a size (pseudo_sum f ip len) in
    fold (if size % 2 == 1 then add64 sum (f (a + (size - 1))) else sum)
