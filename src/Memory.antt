-- ===== src/Memory.antt =====
-- The buffers that the C code reads and writes through pointers, and the JNI array regions that
-- are copied into and out of them (jpcap-0.7/src/c/Jpcap_sub.h and its users).
pub mod Laws
use redes1grupal.Base.{
  ℕ, zero, suc, ◌+◌, ◌*◌, ◌/◌, ◌%◌, ◌^◌, Bool, Option, none, some, List, [], ◌∷◌, length, take,
  if◌then◌else◌, ltb, leb, ◌==◌,
}

-- What Java sees pending after a JNI call.
pub data Exception : Type 0 where
  index_out_of_bounds : Exception
  -- `Throw(IOException, msg)`, one constructor for each message.
  another_sender : Exception
  non_ip_packet : Exception
  socket_not_initialized : Exception
  sendto_error : Exception
  socket_open : Exception
  no_socket : Exception
  pcap_error : Exception

-- The bytes at the addresses from 0 up.
abbrev pub Bytes : Type 0
Bytes = ℕ → ℕ

-- A buffer of `size` bytes, and the exception that is pending in the Java environment.
pub record Mem : Type 0 where
  pub byte : Bytes
  pub size : ℕ
  pub pending : Option Exception

-- `*a = v` for a byte.
unfoldable pub write8 : ℕ → ℕ → Bytes → Bytes
write8 a v f j = if j == a then v else f j

-- The field at offset `i` of the struct at `p`, one byte wide.
abbrev pub store8 : ℕ → ℕ → ℕ → Bytes → Bytes
store8 p i v f = write8 (p + i) (v % 256) f

-- A two-byte field in the byte order of the machine, which is little-endian.
abbrev pub store16 : ℕ → ℕ → ℕ → Bytes → Bytes
store16 p i v f = write8 (p + (i + 1)) (v / 256 % 256) (write8 (p + i) (v % 256) f)

abbrev pub store32 : ℕ → ℕ → ℕ → Bytes → Bytes
store32 p i v f = store16 p (i + 2) (v / 65536) (store16 p i v f)

abbrev pub load16 : ℕ → ℕ → Bytes → ℕ
load16 p i f = f (p + i) + f (p + (i + 1)) * 256

abbrev pub load32 : ℕ → ℕ → Bytes → ℕ
load32 p i f = load16 p i f + load16 p (i + 2) f * 65536

-- `n` bytes from `a` up: `SetByteArrayRegion` on a fresh array of `n` elements.
unfoldable pub read_bytes : ℕ → ℕ → Bytes → List ℕ
read_bytes zero a f = []
read_bytes (suc n) a f = f a ∷ read_bytes n (a + 1) f

unfoldable pub write_bytes : ℕ → List ℕ → Bytes → Bytes
write_bytes a [] f = f
write_bytes a (x ∷ xs) f = write_bytes (a + 1) xs (write8 a x f)

-- An access of `n` bytes at `a`. What is out of the buffer is undefined behaviour, a fault.
abbrev pub within : ℕ → ℕ → Mem → Bool
within a n m = leb (a + n) m.size

-- Stores that the bounds `a`, `n` cover.
abbrev pub storing : ℕ → ℕ → (Bytes → Bytes) → Mem → Option Mem
storing a n g m = if within a n m then some (record m { byte = g m.byte }) else none

abbrev pub throw : Exception → Mem → Mem
throw e m = record m { pending = some e }

-- `GetByteArrayRegion(array, 0, n, a)`: an array that is too short throws and copies nothing;
-- a null array is a fault.
unfoldable pub get_region : Option (List ℕ) → ℕ → ℕ → Mem → Option Mem
get_region none n a m = none
get_region (some xs) n a m =
    if ltb (length xs) n
    then some (throw index_out_of_bounds m)
    else storing a n (write_bytes a (take n xs)) m
