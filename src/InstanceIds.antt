-- ===== src/InstanceIds.antt =====
-- The numbers of the instances, jpcap-0.7/src/java/jpcap/JpcapInstance.java, and how `JpcapSender` and
-- `JpcapCaptor` take and give them back.
pub mod Reserve
pub mod Leaks
use redes1grupal.Base.{true, false, zero, ltb, some, suc, none, if◌then◌else◌, Option, ℕ, Bool}
use redes1grupal.JpcapSub.{max_number_of_instance}
use redes1grupal.Native.{update}

-- `instanciatedFlag`, for the numbers below `MAX_NUMBER_OF_INSTANCE`
abbrev pub InstanceFlags : Type 0
InstanceFlags = ℕ → Bool

-- The loop of `reserveID`, with `n` rounds to go.
unfoldable pub first_free : ℕ → ℕ → InstanceFlags → Option ℕ
first_free zero i flag = none
first_free (suc n) i flag = let rest = first_free n (suc i) flag in if flag i then rest else some i

-- The ID, where `none` is -1, and the flags.
unfoldable pub reserve_id : InstanceFlags → Option ℕ × InstanceFlags
reserve_id flag = elim (first_free max_number_of_instance 0 flag) [
  | none ↦ (none, flag)
  | some id ↦ (some id, update flag id true)
]

-- An ID that is no index is an `ArrayIndexOutOfBoundsException`.
unfoldable pub unreserve_id : ℕ → InstanceFlags → Option InstanceFlags
unreserve_id id flag = if ltb id max_number_of_instance then some (update flag id false) else none

-- `openDevice` of both classes, and `openFile`: the constructor, and the native method, which `opens` or
-- not. The result is the ID of the instance, or none with an `IOException`.
unfoldable pub open_instance : Bool → InstanceFlags → Option ℕ × InstanceFlags
open_instance opens flag = let (id, flag') = reserve_id flag in (if opens then id else none, flag')

-- The ID of a sender on the raw socket
abbrev pub raw_socket_id : ℕ
raw_socket_id = 99999

-- `openRawSocket`, whose native method may throw.
unfoldable pub open_raw_socket : Bool → InstanceFlags → Option ℕ × InstanceFlags
open_raw_socket opens flag =
    let (id, flag') = reserve_id flag in
    (elim id [ none ↦ none | some i ↦ if opens then some raw_socket_id else none ], flag')
