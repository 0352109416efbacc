-- ===== src/Captor/Control.antt =====
-- The native methods of `JpcapCaptor` that ask or set something of an open handle
-- (jpcap-0.7/src/c/JpcapCaptor.c). A Java int is its 32-bit pattern.
use redes1grupal.Base.{
  ◌≤◌, ◌+◌, ◌*◌, ◌%◌, inr, ◌/◌, ◌-◌, arith, ltb, inl, u32, if◌then◌else◌, Option-cases, none, ◌==◌,
  not, some, ◌>>=◌, ◌^◌, true, ◌<◌, Option, Bool, ◌≡◌, ℕ,
}
use redes1grupal.Captor.{of_timeval, to_timeval, live_handle}
use redes1grupal.Native.{Native, Pcap}

-- The fields of a `JpcapCaptor` object that `updateStat` sets.
pub record Statistics : Type 0 where
  pub received_packets : ℕ
  pub dropped_packets : ℕ

-- `struct timeval` of an `int`, which may be negative; the division goes towards zero.
unfoldable pub int_to_timeval : ℕ → ℕ × ℕ
int_to_timeval millis = if ltb millis (2 ^ 31) then to_timeval millis else (
  (2 ^ 64 - (2 ^ 32 - millis) / 1000) % 2 ^ 64,
  (2 ^ 64 - (2 ^ 32 - millis) % 1000 * 1000) % 2 ^ 64,
)

module _ (pcap : Pcap) where
  unfoldable pub set_non_blocking_mode : ℕ → Bool → Native pcap → Option (Native pcap)
  set_non_blocking_mode id non_blocking n = do
    h ← live_handle pcap id n
    some (record n { world = pcap.setnonblock h non_blocking n.world })

  -- An error is -1, which counts as true.
  unfoldable pub is_non_blocking_mode : ℕ → Native pcap → Option (Bool × Native pcap)
  is_non_blocking_mode id n = do
    h ← live_handle pcap id n
    let answer = pcap.getnonblock h n.world
    some (not (answer.0 == 0), record n { world = answer.1 })

  unfoldable pub break_loop : ℕ → Native pcap → Option (Native pcap)
  break_loop id n = do
    h ← live_handle pcap id n
    some (record n { world = pcap.breakloop h n.world })

  -- The result of `pcap_stats` is not tested: if it fails, the object is given what the structure
  -- held before, `stale`.
  unfoldable pub update_stat : ℕ → ℕ × ℕ → Native pcap → Option (Statistics × Native pcap)
  update_stat id stale n = do
    h ← live_handle pcap id n
    let answer = pcap.stats h n.world
    let counts : ℕ × ℕ = elim (answer.0) [ none ↦ stale | some counts ↦ counts ]
    some (
      record { received_packets = u32 (counts.0); dropped_packets = u32 (counts.1) },
      record n { world = answer.1 },
    )

  unfoldable pub set_packet_read_timeout : ℕ → ℕ → Native pcap → Option (Bool × Native pcap)
  set_packet_read_timeout id millis n = do
    h ← live_handle pcap id n
    let answer = pcap.set_timeout h (int_to_timeval millis) n.world
    some (answer.0, record n { world = answer.1 })

  -- -1 if the option cannot be read. The result is the 32-bit pattern of the `jint`.
  unfoldable pub get_packet_read_timeout : ℕ → Native pcap → Option ℕ
  get_packet_read_timeout id n = do
    h ← live_handle pcap id n
    some (elim (pcap.get_timeout h n.world) [ none ↦ 0xffffffff | some tv ↦ u32 (of_timeval tv) ])

-- A `struct timeval` in microseconds.
abbrev pub micros : ℕ × ℕ → ℕ
micros (sec, usec) = sec * 1000000 + usec

-- What the operating system documents of the option: what was set is read back, rounded up to the
-- ticks of its clock, which are a second at most.
pub record TimeoutLaws (pcap : Pcap) : Type 0 where
  pub tick : ℕ
  pub tick_range : tick ≤ 1000000
  pub get_timeout-set_timeout :
      (h : ℕ) (tv : ℕ × ℕ) (w : pcap.World)
      → (pcap.set_timeout h tv w).0 ≡ true
      → tv.0 < 2 ^ 31
      → tv.1 < 1000000
      → (read : ℕ × ℕ) × (pcap.get_timeout h ((pcap.set_timeout h tv w).1) ≡ some read)
        × (micros tv ≤ micros read)
        × (micros read ≤ micros tv + tick)

rounded :
    (millis tick : ℕ) (read : ℕ × ℕ)
    → millis < 2 ^ 31
    → tick ≤ 1000000
    → micros (to_timeval millis) ≤ micros read
    → micros read ≤ micros (to_timeval millis) + tick
    → (millis ≤ u32 (of_timeval read)) × (u32 (of_timeval read) ≤ millis + tick / 1000)
unfolding to_timeval of_timeval
rounded millis tick (sec, usec) small ticks lower upper = (omega arith, omega arith)

-- If a time out that is not negative, and so far below 2 ^ 31 that a tick of the system's clock may be
-- added, is reported by `setPacketReadTimeout` as set, then `getPacketReadTimeout` returns that time out,
-- or one that is longer by no more than a tick: a pattern below 2 ^ 31, which is the Java int itself.
-- The system is assumed to read back what was set, rounded up to such ticks of a second at most.
pub get_packet_read_timeout-set :
    (pcap : Pcap) (laws : TimeoutLaws pcap) (id millis : ℕ) (n n' : Native pcap)
    → millis + laws.tick / 1000 < 2 ^ 31
    → set_packet_read_timeout pcap id millis n ≡ some (true, n')
    → (r : ℕ) × (get_packet_read_timeout pcap id n' ≡ some r)
      × (millis ≤ r)
      × (r ≤ millis + laws.tick / 1000)
      × (r < 2 ^ 31)
unfolding set_packet_read_timeout get_packet_read_timeout live_handle int_to_timeval
get_packet_read_timeout-set pcap laws id millis n n' small e =
    let tv : ℕ × ℕ = to_timeval millis in
    elim (Option-cases (n.pcds id)) [
      | inl f ↦ absurd (ground (arith, e, f))
      | inr (h, f) ↦
          let (read, got, lower, upper) =
            laws.get_timeout-set_timeout h tv n.world (ground (arith, e, f))
              (unfold to_timeval in omega arith) (unfold to_timeval in omega arith) in
          let (least, most) =
            rounded millis laws.tick read (omega (arith, small)) laws.tick_range lower upper in
          (
            u32 (of_timeval read),
            ground (arith, e, f, got),
            least,
            most,
            omega (arith, most, small),
          )
    ]
