-- ===== src/Examples/Typed.antt =====
-- Addresses as the user types them, and numbers of instances.
use redes1grupal.Base.{
  ◌⊎◌, none, ltb, ◌<◌, All, arith, length, refl, [], true, some, ◌∷◌, ◌≡◌, ℕ, List,
}
use redes1grupal.Addresses.{is_octet, ip_bytes, all_pieces, split, is_valid_ip_address}
use redes1grupal.Addresses.Dotted.{ip_bytes-dotted, dotted}
use redes1grupal.Addresses.Bytes.{ip_bytes-valid}
use redes1grupal.InstanceIds.{reserve_id, InstanceFlags, open_instance}
use redes1grupal.InstanceIds.Leaks.{open_instance-exhausted, failed_opens}
use redes1grupal.JpcapSub.{max_number_of_instance}
use redes1grupal.InstanceIds.Reserve.{reserve_id-cases, IsReserved}

-- With zeros in front, which the pattern takes.
abbrev typed_ip : List ℕ
typed_ip = b'0' ∷ b'1' ∷ b'0' ∷ b'.' ∷ b'0' ∷ b'.' ∷ b'0' ∷ b'0' ∷ b'.' ∷ b'2' ∷ b'5' ∷ b'5' ∷ []

typed_ip-valid : is_valid_ip_address typed_ip ≡ true
unfolding is_valid_ip_address split all_pieces is_octet
typed_ip-valid = refl

ip_bytes-valid_example :
    (bytes : List ℕ) × (ip_bytes typed_ip ≡ some bytes)
    × (length bytes ≡ 4)
    × All (λ x. x < 256) bytes
ip_bytes-valid_example = ip_bytes-valid typed_ip typed_ip-valid

ip_bytes-dotted_example :
    (is_valid_ip_address (dotted 192 168 0 99) ≡ true)
    × (ip_bytes (dotted 192 168 0 99) ≡ some (192 ∷ 168 ∷ 0 ∷ 99 ∷ []))
ip_bytes-dotted_example =
    ip_bytes-dotted 192 168 0 99 (omega arith) (omega arith) (omega arith) (omega arith)

abbrev two_taken : InstanceFlags
two_taken i = ltb i 2

reserve_id-cases_example :
    ((reserve_id two_taken ≡ (none, two_taken))
      × ((j : ℕ) → j < max_number_of_instance → two_taken j ≡ true))
    ⊎ ((id : ℕ) × (after : InstanceFlags) × (reserve_id two_taken ≡ (some id, after))
        × IsReserved two_taken id after)
reserve_id-cases_example = reserve_id-cases two_taken

open_instance-exhausted_example :
    (open_instance true (failed_opens max_number_of_instance)).0 ≡ none
open_instance-exhausted_example = open_instance-exhausted true
