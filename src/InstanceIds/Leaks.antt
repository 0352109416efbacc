-- ===== src/InstanceIds/Leaks.antt =====
-- Opens that fail.
use redes1grupal.Base.{
  none, ◌==◌, Bool, Bool-cases, inr, inl, arith, zero, ltb, suc, ◌≡◌, false, ◌≤◌, ℕ,
}
use redes1grupal.InstanceIds.{InstanceFlags, open_instance}
use redes1grupal.JpcapSub.{max_number_of_instance}
use redes1grupal.InstanceIds.Reserve.{reserve_id-cases}

-- After `n` opens that failed, from a start at which no ID is taken.
unfoldable pub failed_opens : ℕ → InstanceFlags
failed_opens zero = λ i. false
failed_opens (suc n) = (open_instance false (failed_opens n)).1

failed_opens_lem : (n : ℕ) → n ≤ max_number_of_instance → (i : ℕ) → failed_opens n i ≡ ltb i n
unfolding failed_opens open_instance
failed_opens_lem zero h i = ground arith
failed_opens_lem (suc n) h i =
    let flag : InstanceFlags = failed_opens n in
    let known = failed_opens_lem n (omega (arith, h)) in
    elim (reserve_id-cases flag) [
      | inl (e, all) ↦ absurd (ground (arith, all n (omega (arith, h)), known n))
      | inr (id, after, e, r) ↦
          let same : id ≡ n = ground (arith, known id, r.free, known n, r.least n) in
          elim (Bool-cases (i == n)) [
            | inl at ↦ ground (arith, e, at, same, r.taken)
            | inr other ↦ ground (arith, e, other, same, r.others i, known i)
          ]
    ]

-- After 255 opens that failed, every open throws, also one whose native method would succeed, though no
-- instance exists: the ID that the constructor reserved is never given back.
pub open_instance-exhausted :
    (opens : Bool) → (open_instance opens (failed_opens max_number_of_instance)).0 ≡ none
unfolding open_instance
open_instance-exhausted opens =
    let flag : InstanceFlags = failed_opens max_number_of_instance in
    elim (reserve_id-cases flag) [
      | inl (e, all) ↦ ground (arith, e)
      | inr (id, after, e, r) ↦ absurd (
          ground (arith, r.free, r.small, failed_opens_lem max_number_of_instance (omega arith) id))
    ]
