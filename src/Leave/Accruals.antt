-- ===== src/Leave/Accruals.antt =====
-- The split of a year's used leave over contract segments:
-- `allocateLeaveUsageToContractAccruals` of internal/service/leave_service.go.
use hrbackend.Prelude.{
  subst, sym, zero, suc, false, Bool-cases, ltb, ◌-◌, ◌∙◌, ℕ, ◌+◌, ◌≤◌, ◌<◌, ◌≡◌, ◌⊎◌, inl, inr,
  refl, List, [], ◌∷◌, arith, min, sum_by, All, if◌then◌else◌, ap, map,
}
use hrbackend.Prelude.Int.{ℤ, pos, negsuc, pos_part, ltb_ℤ, int32, int32_half, ◌-32◌, ◌≤ℤ◌, IsInt32}

-- `domain.LeaveContractAccrual`, less the columns that the function passes by.
pub record Accrual : Type 0 where
  pub contract_id : ℕ
  pub gained_minutes : ℤ
  pub deducted_minutes : ℤ
  pub remaining_minutes : ℤ

-- The minutes taken from a segment.
abbrev pub taken : ℤ → Accrual → ℤ
taken remaining a = if ltb_ℤ remaining a.gained_minutes then remaining else a.gained_minutes

-- The loop, on what is left to deduct.
unfoldable pub allocate : ℤ → List Accrual → List Accrual
allocate remaining [] = []
allocate remaining (a ∷ as') =
    let untouched = allocate remaining as' in
    let deducted = taken remaining a in
    let after = allocate (remaining -32 deducted) as' in
    if ltb_ℤ (pos 0) remaining
    then record a { deducted_minutes = deducted; remaining_minutes = a.gained_minutes -32 deducted }
      ∷ after
    else record a { deducted_minutes = pos 0; remaining_minutes = a.gained_minutes } ∷ untouched

unfoldable pub allocate_leave_usage_to_contract_accruals : List Accrual → ℤ → List Accrual
allocate_leave_usage_to_contract_accruals accruals used =
    allocate (if ltb_ℤ used (pos 0) then pos 0 else used) accruals

-- The minutes that a segment gained are an int32 and not negative.
abbrev pub IsGain : Accrual → Type 0
IsGain a = (pos 0 ≤ℤ a.gained_minutes) × IsInt32 a.gained_minutes

-- A segment is split into what is deducted and what remains.
abbrev pub IsSplit : Accrual → Type 0
IsSplit a =
    (pos 0 ≤ℤ a.deducted_minutes)
    × (pos 0 ≤ℤ a.remaining_minutes)
    × (pos_part a.deducted_minutes + pos_part a.remaining_minutes ≡ pos_part a.gained_minutes)

-- Nothing is deducted from a segment while an older one has minutes left.
abbrev pub OldestFirst : List Accrual → Type 0
OldestFirst [] = Unit
OldestFirst (a ∷ as') =
    ((a.remaining_minutes ≡ pos 0) ⊎ All (λ b. b.deducted_minutes ≡ pos 0) as') × OldestFirst as'

allocate_none :
    (as' : List Accrual) (r : ℤ)
    → ltb_ℤ (pos 0) r ≡ false
    → All (λ b. b.deducted_minutes ≡ pos 0) (allocate r as')
unfolding allocate
allocate_none [] r h = tt
allocate_none (a ∷ as') r h = rw h (refl, allocate_none as' r h)

-- What is taken from a segment, and what is left for the others.
abbrev share : ℕ → Accrual → ℕ
share r a = min r (pos_part a.gained_minutes)

taken_exact : (r : ℕ) (a : Accrual) → IsGain a → taken (pos r) a ≡ pos (share r a)
taken_exact r a g = ground arith

sub_exact : (x y : ℕ) → y ≤ x → x < int32_half → (pos x -32 pos y) ≡ pos (x - y)
unfolding ◌-32◌ int32
sub_exact x y le lt = ground arith

gained_exact : (a : Accrual) → IsGain a → a.gained_minutes ≡ pos (pos_part a.gained_minutes)
gained_exact a g = ground arith

abbrev split_at : ℕ → Accrual → Accrual
split_at r a = record a {
  deducted_minutes = pos (share r a);
  remaining_minutes = pos (pos_part a.gained_minutes - share r a);
}

allocate_first :
    (a : Accrual) (as' : List Accrual) (r : ℕ)
    → IsGain a
    → 0 < r
    → r < int32_half
    → allocate (pos r) (a ∷ as') ≡ split_at r a ∷ allocate (pos (r - share r a)) as'
unfolding allocate
allocate_first a as' r g h lt =
    let rest : (pos r -32 taken (pos r) a) ≡ pos (r - share r a) =
      ap (λ d. pos r -32 d) (taken_exact r a g) ∙ sub_exact r (share r a) (omega arith) lt in
    let kept : (a.gained_minutes -32 taken (pos r) a)
        ≡ pos (pos_part a.gained_minutes - share r a) =
      ap (λ d. a.gained_minutes -32 d) (taken_exact r a g)
      ∙ ap (λ g. g -32 pos (share r a)) (gained_exact a g)
      ∙ sub_exact (pos_part a.gained_minutes) (share r a) (omega arith) (omega arith) in
    ground (arith, rest, kept, taken_exact r a g)

-- The fields that the function leaves alone.
abbrev pub segment_of : Accrual → ℕ × ℤ
segment_of a = (a.contract_id, a.gained_minutes)

-- Every segment is split, the oldest are used up first, and in all the lesser of the used minutes r
-- and the gained minutes is deducted.
abbrev pub IsAllocation : ℕ → List Accrual → List Accrual → Type 0
IsAllocation r before after =
    All IsSplit after
    × OldestFirst after
    × (sum_by (λ a. pos_part a.deducted_minutes) after
        ≡ min r (sum_by (λ a. pos_part a.gained_minutes) before))
    × (map segment_of after ≡ map segment_of before)

untouched_first :
    (a : Accrual) (as' : List Accrual)
    → allocate (pos 0) (a ∷ as')
      ≡ record a { deducted_minutes = pos 0; remaining_minutes = a.gained_minutes }
        ∷ allocate (pos 0) as'
unfolding allocate
untouched_first a as' = refl

nothing_left :
    (a : Accrual) (as' : List Accrual)
    → IsGain a
    → IsAllocation 0 as' (allocate (pos 0) as')
    → IsAllocation 0 (a ∷ as') (allocate (pos 0) (a ∷ as'))
nothing_left a as' g (splits, oldest, total, same) =
    subst (IsAllocation 0 (a ∷ as')) (sym (untouched_first a as')) (
      (ground arith, splits),
      (inr (allocate_none as' (pos 0) refl), oldest),
      omega arith,
      ap (λ l. segment_of a ∷ l) same,
    )

some_left :
    (a : Accrual) (as' : List Accrual) (r : ℕ)
    → IsGain a
    → 0 < r
    → r < int32_half
    → IsAllocation (r - share r a) as' (allocate (pos (r - share r a)) as')
    → IsAllocation r (a ∷ as') (allocate (pos r) (a ∷ as'))
some_left a as' r g lt h (splits, oldest, total, same) =
    subst (IsAllocation r (a ∷ as')) (sym (allocate_first a as' r g lt h)) (
      (ground arith, splits),
      (
        elim (Bool-cases (ltb r (pos_part a.gained_minutes))) [
          | inl part ↦ inr (
              subst (λ n. All (λ b. b.deducted_minutes ≡ pos 0) (allocate (pos n) as')) {x = 0}
                {y = r - share r a} (ground arith) (allocate_none as' (pos 0) refl))
          | inr whole ↦ inl (ground arith)
        ],
        oldest,
      ),
      omega arith,
      ap (λ l. segment_of a ∷ l) same,
    )

allocate_lem :
    (as' : List Accrual) (r : ℕ)
    → All IsGain as'
    → r < int32_half
    → IsAllocation r as' (allocate (pos r) as')
unfolding allocate
allocate_lem [] r g h = (tt, tt, omega arith, refl)
allocate_lem (a ∷ as') zero (ga, gs) h = nothing_left a as' ga (allocate_lem as' 0 gs h)
allocate_lem (a ∷ as') (suc r) (ga, gs) h =
    some_left a as' (suc r) ga (omega arith) h
      (allocate_lem as' (suc r - share (suc r) a) gs (omega arith))

-- Where the segments gained minutes that are int32 and not negative, and the used minutes are an
-- int32, the function keeps the segments in order, splits each one's gained minutes into deducted and
-- remaining minutes, uses up the oldest segments first, and deducts in all the lesser of the used and
-- the gained minutes, or nothing for a negative use.
pub allocate_leave_usage-IsAllocation :
    (accruals : List Accrual) (used : ℤ)
    → All IsGain accruals
    → IsInt32 used
    → IsAllocation
        (pos_part used)
        accruals
        (allocate_leave_usage_to_contract_accruals accruals used)
unfolding allocate_leave_usage_to_contract_accruals
allocate_leave_usage-IsAllocation accruals (pos n) g h =
    subst (λ z. IsAllocation n accruals (allocate z accruals)) {x = pos n}
      {y = if ltb_ℤ (pos n) (pos 0) then pos 0 else pos n} (ground arith)
      (allocate_lem accruals n g (ground arith))
allocate_leave_usage-IsAllocation accruals (negsuc n) g h =
    subst (λ z. IsAllocation 0 accruals (allocate z accruals)) {x = pos 0}
      {y = if ltb_ℤ (negsuc n) (pos 0) then pos 0 else negsuc n} (ground arith)
      (allocate_lem accruals 0 g (omega arith))
