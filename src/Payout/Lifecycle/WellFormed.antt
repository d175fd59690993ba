-- ===== src/Payout/Lifecycle/WellFormed.antt =====
-- Well-formed payout requests: what each operation of internal/service/payout_service.go writes.
use hrbackend.Prelude.{ℕ, ◌≡◌, refl, false, Option, some, inl, inr, arith, ◌||◌, subst, sym}
use hrbackend.Prelude.Int.{ℤ, pos, negsuc, pos_part}
use hrbackend.Prelude.GoText.{Text}
use hrbackend.Time.{Time}
use hrbackend.Floats.{Floats}
use hrbackend.Balance.{PayoutRow, pending, approved, rejected, paid}
use hrbackend.Payout.Decision.{decided_as}
use hrbackend.Payout.{UpdateParams, not_positive, year_out_of_range}
use hrbackend.Payout.Lifecycle.{
  StageHolds, AreKept, IsWellFormed, rewritten_as, rejected_as, filed_as, paid_as,
}
use hrbackend.Payout.Decision.{decided_as}

module _ (F : Floats) where
  open F use {Float, of_ℤ, ◌*F◌, is_positive, is_negative, to_rate, to_amount}

  pub paid_IsWellFormed :
      (admin : ℕ) (now : Time) (c : PayoutRow Float)
      → c.status ≡ approved
      → IsWellFormed F c
      → IsWellFormed F (paid_as admin now c)
  paid_IsWellFormed admin now c hs (h, y, y', g, stage) = (
    h,
    y,
    y',
    g,
    subst (λ s. StageHolds s c → StageHolds paid (paid_as admin now c)) (sym hs)
        (λ (d, n). (d, ground arith)) stage,
  )

  pub rewritten_IsWellFormed :
      (p : UpdateParams) (hours year : ℤ) (gross : Float) (c : PayoutRow Float)
      → p.requested_hours ≡ hours
      → p.balance_year ≡ year
      → not_positive hours || year_out_of_range year ≡ false
      → to_amount (◌*F◌ (of_ℤ hours) c.hourly_rate) ≡ some gross
      → is_negative gross ≡ false
      → IsWellFormed F c
      → IsWellFormed F (rewritten_as p gross c)
  rewritten_IsWellFormed p (pos h) (pos y) gross c eh ey v ea en (_, _, _, (hp, _, _), stage) = (
    ground arith,
    ground arith,
    ground arith,
    (
      hp,
      en,
      (
        c.hourly_rate,
        inl refl,
        subst (λ z. to_amount (◌*F◌ (of_ℤ (pos (pos_part z))) c.hourly_rate) ≡ some gross) (sym eh)
            ea,
      ),
    ),
    elim c.status as (λ s. StageHolds s c → StageHolds s (rewritten_as p gross c)) [
      | pending ↦ λ x. x
      | approved ↦ λ x. x
      | rejected ↦ λ x. x
      | paid ↦ λ x. x
    ]
        stage,
  )
  rewritten_IsWellFormed p (negsuc h) y gross c eh ey v ea en w = ground arith
  rewritten_IsWellFormed p (pos h) (negsuc y) gross c eh ey v ea en w = ground arith

  pub filed_IsWellFormed :
      (employee created_by : ℕ) (hours year : ℤ) (rate kept gross : Float) (remark : Option Text)
      → not_positive hours || year_out_of_range year ≡ false
      → AreKept F hours rate kept gross
      → IsWellFormed F (filed_as employee created_by hours year kept gross remark)
  filed_IsWellFormed employee created_by (pos h) (pos y) rate kept gross remark v (er, ea, ep, en) =
      (ground arith, ground arith, ground arith, (ep, en, (rate, inr er, ea)), (refl, refl))
  filed_IsWellFormed employee created_by (negsuc h) y rate kept gross remark v w = ground arith
  filed_IsWellFormed employee created_by (pos h) (negsuc y) rate kept gross remark v w =
      ground arith

  pub approved_IsWellFormed :
      (admin : ℕ) (remark : Option Text) (period now : Time) (c : PayoutRow Float)
      → c.status ≡ pending
      → IsWellFormed F c
      → IsWellFormed F (decided_as approved admin remark period now c)
  approved_IsWellFormed admin remark period now c hs (h, y, y', g, stage) = (
    h,
    y,
    y',
    g,
    subst
        (λ s. StageHolds s c → StageHolds approved (decided_as approved admin remark period now c))
        (sym hs) (λ (d, p). (ground arith, p)) stage,
  )

  pub rejected_IsWellFormed :
      (admin : ℕ) (remark : Option Text) (now : Time) (c : PayoutRow Float)
      → c.status ≡ pending
      → IsWellFormed F c
      → IsWellFormed F (rejected_as admin remark now c)
  rejected_IsWellFormed admin remark now c hs (h, y, y', g, stage) = (
    h,
    y,
    y',
    g,
    subst (λ s. StageHolds s c → StageHolds rejected (rejected_as admin remark now c)) (sym hs)
        (λ (d, p). (ground arith, p)) stage,
  )
