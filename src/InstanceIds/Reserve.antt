-- ===== src/InstanceIds/Reserve.antt =====
-- What `reserveID` returns.
use redes1grupal.InstanceIds.{InstanceFlags, unreserve_id, first_free, reserve_id}
use redes1grupal.Base.{
  refl, zero, Bool-cases, inr, suc, arith, ◌≢◌, inl, false, some, ◌⊎◌, true, ◌+◌, ◌≤◌, ◌<◌, none,
  ◌≡◌, ℕ,
}
use redes1grupal.JpcapSub.{max_number_of_instance}
use redes1grupal.Native.{update}

first_free-cases :
    (n i : ℕ) (flag : InstanceFlags)
    → ((first_free n i flag ≡ none) × ((j : ℕ) → i ≤ j → j < i + n → flag j ≡ true))
      ⊎ ((id : ℕ) × (first_free n i flag ≡ some id)
          × (i ≤ id)
          × (id < i + n)
          × (flag id ≡ false)
          × ((j : ℕ) → i ≤ j → j < id → flag j ≡ true))
unfolding first_free
first_free-cases zero i flag = inl (refl, λ j lo hi. absurd (omega (arith, lo, hi)))
first_free-cases (suc n) i flag = elim (Bool-cases (flag i)) [
  | inr free ↦ inr (
    i,
    ground (arith, free),
    omega arith,
    omega arith,
    free,
    λ j lo hi. absurd (omega (arith, lo, hi)),
  )
  | inl taken ↦
      let from : (j : ℕ) → i ≤ j → (j ≡ i) ⊎ (suc i ≤ j) = λ j lo. ground (arith, lo) in
      elim (first_free-cases n (suc i) flag) [
        | inl (e, all) ↦ inl (
          ground (arith, taken, e),
          λ j lo hi. elim (from j lo) [
            | inl same ↦ rw same taken
            | inr above ↦ all j above (omega (arith, hi))
          ],
        )
        | inr (id, e, lo, hi, free, below) ↦ inr (
          id,
          ground (arith, taken, e),
          omega (arith, lo),
          omega (arith, hi),
          free,
          λ j l h. elim (from j l) [ inl same ↦ rw same taken | inr above ↦ below j above h ],
        )
      ]
]

-- The ID is the least one that was not taken, it alone is taken then, and giving it back restores
-- every flag.
pub record IsReserved (flag : InstanceFlags) (id : ℕ) (after : InstanceFlags) : Type 0 where
  pub small : id < max_number_of_instance
  pub free : flag id ≡ false
  pub taken : after id ≡ true
  pub least : (j : ℕ) → j < id → flag j ≡ true
  pub others : (j : ℕ) → j ≢ id → after j ≡ flag j
  pub restored :
      (back : InstanceFlags) × (unreserve_id id after ≡ some back) × ((j : ℕ) → back j ≡ flag j)

-- `reserveID` gives out the least ID below 255 that is not taken, and takes it, and no other, and
-- giving it back restores every flag; it fails only if all 255 are taken, and then changes nothing.
pub reserve_id-cases :
    (flag : InstanceFlags)
    → ((reserve_id flag ≡ (none, flag)) × ((j : ℕ) → j < max_number_of_instance → flag j ≡ true))
      ⊎ ((id : ℕ) × (after : InstanceFlags) × (reserve_id flag ≡ (some id, after))
          × IsReserved flag id after)
unfolding reserve_id unreserve_id
reserve_id-cases flag = elim (first_free-cases max_number_of_instance 0 flag) [
  | inl (e, all) ↦ inl (ground (arith, e), λ j hi. all j (omega arith) (omega (arith, hi)))
  | inr (id, e, lo, hi, free, below) ↦
      let after : InstanceFlags = update flag id true in
      inr (
        id,
        after,
        ground (arith, e),
        record {
          small = omega (arith, hi);
          free = free;
          taken = ground arith;
          least = λ j l. below j (omega arith) l;
          others = λ j other. ground (arith, other);
          restored = (update after id false, ground (arith, hi), λ j. ground (arith, free));
        },
      )
]
