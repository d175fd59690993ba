-- ===== src/Payout/Lifecycle/Steps.antt =====
-- Each call of internal/service/payout_service.go as a step on the requests.
use hrbackend.Prelude.{
  ℕ, ◌≡◌, refl, Option, some, arith, Bool-cases, Option-cases, inl, inr, ap, subst, sym,
}
use hrbackend.Prelude.Int.{ℤ}
use hrbackend.Prelude.GoText.{codes, text_eq, normalized}
use hrbackend.Prelude.Results.{ok, Result-cases}
use hrbackend.Time.{Time}
use hrbackend.Floats.{Floats}
use hrbackend.Store.{Action, IsAtomic}
use hrbackend.Store.Table.{select, select-update_self}
use hrbackend.Balance.{PayoutRow, pending, approved, rejected, paid, LeaveDb}
use hrbackend.Payout.Atomic.{
  create_payout_request-IsAtomic, update_payout_request-IsAtomic,
  update_payout_request_by_admin-IsAtomic, create_approved_payout_request_by_admin-IsAtomic,
  decide_payout_request_by_admin-IsAtomic, mark_payout_request_paid_by_admin-IsAtomic,
}
use hrbackend.Payout.Decision.{decided_as, approve_inverts, approve_checked_inverts}
use hrbackend.Payout.{
  CreateParams, UpdateParams, CreateByAdminParams, DecideParams, PayoutError, write_payout_fields,
  update_payout,
}
use hrbackend.Payout.Service.{
  create_payout_request, update_payout_request, update_payout_request_by_admin,
  create_approved_payout_request_by_admin, decide_payout_request_by_admin,
  mark_payout_request_paid_by_admin,
}
use hrbackend.Payout.Lifecycle.{
  PayoutCall, create, update_own, update_any, create_approved, decide, mark_paid, Follows, stays,
  approves, rejects, pays, PayoutStep, idle, filed, revised, perform, rewritten_as, rejected_as,
  filed_as, paid_as,
}
use hrbackend.Payout.Lifecycle.Inverts.{
  mark_paid_inverts, update_own_inverts, update_any_inverts, insert_inverts, checked_inverts,
  create_inverts, create_approved_inserts, reject_inverts,
}
use hrbackend.Payout.Lifecycle.WellFormed.{
  paid_IsWellFormed, rewritten_IsWellFormed, filed_IsWellFormed, approved_IsWellFormed,
  rejected_IsWellFormed,
}

module _ (F : Floats) (legal_total : ℕ → ℕ → Time → ℤ) (contract_rate : ℕ → Option F.Float) where
  open F use {Float, of_ℤ, ◌*F◌, to_amount}

  -- A step from what a call does when it succeeds, for a call that leaves no trace when it fails.
  either :
      {A : Type 0} (m : Action (LeaveDb Float) PayoutError A) (db : LeaveDb Float)
      → IsAtomic m
      → ((a : A) → m db ≡ (ok a, (m db).1) → PayoutStep F db (m db).1)
      → PayoutStep F db (m db).1
  either m db atomic step = elim (Result-cases (m db).0) [
    | inl (e, h) ↦ idle (atomic db e h)
    | inr (a, h) ↦ step a (ap (λ x. (x, (m db).1)) h)
  ]

  mark_paid_step :
      (admin id : ℕ) (now : Time) (db db' : LeaveDb Float) (r : PayoutRow Float)
      → mark_payout_request_paid_by_admin F legal_total contract_rate admin id now db ≡ (ok r, db')
      → PayoutStep F db db'
  mark_paid_step admin id now db db' r e =
      let (c, h, hs, edb) = mark_paid_inverts F legal_total contract_rate admin id now db db' r e in
      revised id (paid_as admin now) c h (paid_IsWellFormed F admin now c hs)
        (subst (λ s. Follows s paid) (sym hs) pays) refl refl edb

  write_step :
      (id : ℕ) (p : UpdateParams) (c : PayoutRow Float) (db db' : LeaveDb Float)
      (r : PayoutRow Float)
      → select id db.payouts ≡ some c
      → write_payout_fields F legal_total contract_rate id p
          (◌*F◌ (of_ℤ p.requested_hours) c.hourly_rate)
          db
        ≡ (ok r, db')
      → PayoutStep F db db'
  unfolding write_payout_fields update_payout
  write_step id p c db db' r h e =
      elim (Option-cases (to_amount (◌*F◌ (of_ℤ p.requested_hours) c.hourly_rate))) [
        | inl ha ↦ ground arith
        | inr (gross, ha) ↦
            revised id (rewritten_as p gross) c h
              (rewritten_IsWellFormed F p p.requested_hours p.balance_year gross c refl refl
                (ground arith) ha (ground arith))
              stays refl refl
              (ground (arith, select-update_self id (rewritten_as p gross) db.payouts c h))
      ]

  create_step :
      (fresh actor : ℕ) (now : Time) (p : CreateParams) (db db' : LeaveDb Float) (k : ℕ)
      → create_payout_request F legal_total contract_rate fresh now actor p db ≡ (ok k, db')
      → PayoutStep F db db'
  create_step fresh actor now p db db' k e =
      let (rate, inserted) =
        checked_inverts F legal_total contract_rate fresh now p.employee_id p.created_by_employee_id
          p.requested_hours p.balance_year p.request_note db db' k
          (create_inverts F legal_total contract_rate fresh actor now p db db' k e) in
      let (kept, gross, amounts, _, h, v, edb) =
        insert_inverts F legal_total contract_rate fresh p.employee_id p.created_by_employee_id
          p.requested_hours p.balance_year rate p.request_note db db' k inserted in
      filed fresh _ h
        (filed_IsWellFormed F p.employee_id p.created_by_employee_id p.requested_hours
          p.balance_year rate kept gross p.request_note v amounts)
        stays edb

  create_approved_step :
      (fresh admin : ℕ) (now : Time) (p : CreateByAdminParams) (db db' : LeaveDb Float)
      (r : PayoutRow Float)
      → create_approved_payout_request_by_admin F legal_total contract_rate fresh now admin p db
        ≡ (ok r, db')
      → PayoutStep F db db'
  create_approved_step fresh admin now p db db' r e =
      let (rate, kept, gross, amounts, h, v, edb) =
        create_approved_inserts F legal_total contract_rate fresh admin now p db db' r e in
      let row =
        filed_as p.employee_id admin p.requested_hours p.balance_year kept gross p.request_note in
      filed fresh (decided_as approved admin p.decision_note p.pay_period_start now row) h
        (approved_IsWellFormed F admin p.decision_note p.pay_period_start now row refl (
          filed_IsWellFormed F p.employee_id admin p.requested_hours p.balance_year rate kept gross
            p.request_note v amounts))
        approves edb

  decide_step :
      (admin id : ℕ) (p : DecideParams) (now : Time) (db db' : LeaveDb Float) (r : PayoutRow Float)
      → decide_payout_request_by_admin F legal_total contract_rate admin id p now db ≡ (ok r, db')
      → PayoutStep F db db'
  decide_step admin id p now db db' r e =
      elim (Bool-cases (text_eq (normalized p.decision) (codes "approve"))) [
        | inl ha ↦
            let (c, hs, hp, ec) =
              approve_inverts F legal_total contract_rate admin id p now db db' r e ha in
            let (period, _, edb, _, _) =
              approve_checked_inverts F legal_total contract_rate admin id p now db db' c r ec hs in
            let st : c.status ≡ pending = ground arith in
            revised id (decided_as approved admin p.decision_note period now) c hs
              (approved_IsWellFormed F admin p.decision_note period now c st)
              (subst (λ s. Follows s approved) (sym st) approves) refl refl edb
        | inr hr ↦
            let (c, hs, st, edb) =
              reject_inverts F legal_total contract_rate admin id p now db db' r e hr in
            revised id (rejected_as admin p.decision_note now) c hs
              (rejected_IsWellFormed F admin p.decision_note now c st)
              (subst (λ s. Follows s rejected) (sym st) rejects) refl refl edb
      ]

  -- Every call is a step, whatever it is given.
  pub perform-PayoutStep :
      (now : Time) (call : PayoutCall) (db : LeaveDb Float)
      → PayoutStep F db (perform F legal_total contract_rate now call db)
  unfolding perform
  perform-PayoutStep now (create fresh actor p) db =
      either (create_payout_request F legal_total contract_rate fresh now actor p) db
        (create_payout_request-IsAtomic F legal_total contract_rate fresh actor now p)
        (create_step fresh actor now p db _)
  perform-PayoutStep now (update_own actor id p) db =
      either (update_payout_request F legal_total contract_rate actor id p) db
        (update_payout_request-IsAtomic F legal_total contract_rate actor id p)
        (λ r e.
          let (c, h, w) = update_own_inverts F legal_total contract_rate actor id p db _ r e in
          write_step id p c db _ r h w)
  perform-PayoutStep now (update_any admin id p) db =
      either (update_payout_request_by_admin F legal_total contract_rate admin id p) db
        (update_payout_request_by_admin-IsAtomic F legal_total contract_rate admin id p)
        (λ r e.
          let (c, h, w) = update_any_inverts F legal_total contract_rate admin id p db _ r e in
          write_step id p c db _ r h w)
  perform-PayoutStep now (create_approved fresh admin p) db =
      either (create_approved_payout_request_by_admin F legal_total contract_rate fresh now admin p)
        db
        (create_approved_payout_request_by_admin-IsAtomic F legal_total contract_rate fresh admin
          now p)
        (create_approved_step fresh admin now p db _)
  perform-PayoutStep now (decide admin id p) db =
      either (decide_payout_request_by_admin F legal_total contract_rate admin id p now) db
        (decide_payout_request_by_admin-IsAtomic F legal_total contract_rate admin id p now)
        (decide_step admin id p now db _)
  perform-PayoutStep now (mark_paid admin id) db =
      either (mark_payout_request_paid_by_admin F legal_total contract_rate admin id now) db
        (mark_payout_request_paid_by_admin-IsAtomic F legal_total contract_rate admin id now)
        (mark_paid_step admin id now db _)
