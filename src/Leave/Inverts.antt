-- ===== src/Leave/Inverts.antt =====
-- The calls of internal/service/leave_service.go that succeed: the request each found and wrote.
use hrbackend.Prelude.{ℕ, ◌≡◌, Bool, true, false, some, arith, Option-cases, Bool-cases, inl, inr}
use hrbackend.Prelude.Int.{ℤ}
use hrbackend.Prelude.GoText.{Text, codes, text_eq, trim_space}
use hrbackend.Prelude.Results.{ok, Result-cases}
use hrbackend.Time.{Time}
use hrbackend.Store.{IsAtomic, exec_tx}
use hrbackend.Store.Table.{select}
use hrbackend.Balance.{
  LeaveRow, LeaveDb, compute_legal_leave_used_for_year, lock_employee_for_leave_balance,
}
use hrbackend.Leave.Queries.{
  as_read, LeaveFields, get_active_leave_policy_by_type, insert_leave_request,
  get_leave_request_for_update, update_leave, update_leave_request_decision, leave_type_of,
  duration_type_of,
}
use hrbackend.Leave.Updates.{UpdateLeaveParams, normalize_update_params}
use hrbackend.Leave.Service.{
  CreateLeaveParams, DecideLeaveParams, calculate_requested_minutes, check_policy, create_leave,
  edit_leave, update_leave_request, update_leave_request_by_admin, check_leave_balance,
  decide_leave_request_by_admin,
}
use hrbackend.Leave.Minutes.{Contracts}
use hrbackend.Leave.Steps.{
  is_editable, Affordable, LeaveStep, rejects, approves, insert_step, edit_step,
}

module _ {Float : Type 0} (legal_total : ℕ → ℕ → Time → ℤ) (contract_at : Contracts) where
  pub create_leave_step :
      (fresh : ℕ) (p : CreateLeaveParams) (db db' : LeaveDb Float) (k : ℕ)
      → create_leave legal_total contract_at fresh p db ≡ (ok k, db')
      → LeaveStep legal_total db db'
  unfolding create_leave check_policy get_active_leave_policy_by_type
  create_leave_step fresh p db db' k e =
      elim (Option-cases (leave_type_of (trim_space p.leave_type))) [
        | inl h ↦ ground arith
        | inr (t, ht) ↦ elim (Option-cases (duration_type_of (trim_space p.duration_type))) [
          | inl h ↦ ground arith
          | inr (d, hd) ↦
              let fields : LeaveFields = record {
                leave_type = t;
                duration_type = d;
                start_date = p.start_date;
                end_date = p.end_date;
                start_time = p.start_time;
                end_time = p.end_time;
                reason = p.reason;
              } in
              elim (Result-cases (calculate_requested_minutes contract_at p.employee_id fields)) [
                | inl h ↦ ground arith
                | inr (m, hm) ↦
                    insert_step legal_total contract_at fresh p.employee_id p.created_by_employee_id
                      fields m db db' k (ground arith)
              ]
        ]
      ]

  pub edit_leave_step :
      (id : ℕ) (current r r' : LeaveRow) (u : UpdateLeaveParams) (b : Bool) (now : Time)
      (db db' : LeaveDb Float)
      → select id db.leaves ≡ some r
      → is_editable r.status ≡ true
      → edit_leave legal_total contract_at id current u b now db ≡ (ok r', db')
      → LeaveStep legal_total db db'
  unfolding edit_leave check_policy get_active_leave_policy_by_type
  edit_leave_step id current r r' u b now db db' h s e =
      elim (Result-cases (normalize_update_params current u b now)) [
        | inl hn ↦ ground arith
        | inr (f, hn) ↦
            elim (Result-cases (calculate_requested_minutes contract_at current.employee_id f)) [
              | inl hm ↦ ground arith
              | inr (m, hm) ↦
                  edit_step legal_total contract_at id r r' f m db db' h s (ground arith)
            ]
      ]

  pub update_leave_request_step :
      (actor id : ℕ) (u : UpdateLeaveParams) (now : Time) (db db' : LeaveDb Float) (r' : LeaveRow)
      → update_leave_request legal_total contract_at actor id u now db ≡ (ok r', db')
      → LeaveStep legal_total db db'
  unfolding update_leave_request exec_tx get_leave_request_for_update
  update_leave_request_step actor id u now db db' r' e = elim (Option-cases (select id db.leaves)) [
    | inl h ↦ ground arith
    | inr (r, h) ↦
        edit_leave_step id (as_read r) r r' u true now db db' h (ground arith) (ground arith)
  ]

  pub update_leave_request_by_admin_step :
      (admin id : ℕ) (u : UpdateLeaveParams) (remark : Text) (now : Time) (db db' : LeaveDb Float)
      (r' : LeaveRow)
      → update_leave_request_by_admin legal_total contract_at admin id u remark now db
        ≡ (ok r', db')
      → LeaveStep legal_total db db'
  unfolding update_leave_request_by_admin exec_tx get_leave_request_for_update
  update_leave_request_by_admin_step admin id u remark now db db' r' e =
      elim (Option-cases (select id db.leaves)) [
        | inl h ↦ ground arith
        | inr (r, h) ↦
            edit_leave_step id (as_read r) r r' u false now db db' h (ground arith) (ground arith)
      ]

  -- What an approval checked.
  pub check_leave_balance-Affordable :
      (r : LeaveRow) (now : Time) (db db' : LeaveDb Float)
      → check_leave_balance legal_total contract_at (as_read r) now db ≡ (ok tt, db')
      → (db' ≡ db) × Affordable legal_total db r now
  unfolding check_leave_balance get_active_leave_policy_by_type lock_employee_for_leave_balance
      compute_legal_leave_used_for_year
  check_leave_balance-Affordable r now db db' e = elim (Option-cases (db.policies r.leave_type)) [
    | inl h ↦ ground arith
    | inr (p, h) ↦ elim (Bool-cases p.deducts_balance) [
      | inl d ↦ (ground arith, inr (ground arith, ground arith))
      | inr d ↦ (ground arith, inl (ground arith))
    ]
  ]

  check_leave_balance_keeps :
      (r : LeaveRow) (now : Time) (db : LeaveDb Float)
      → (check_leave_balance legal_total contract_at r now db).1 ≡ db
  unfolding check_leave_balance get_active_leave_policy_by_type lock_employee_for_leave_balance
      compute_legal_leave_used_for_year
  check_leave_balance_keeps r now db = ground arith

  approve_step :
      (admin id : ℕ) (p : DecideLeaveParams) (now : Time) (db db' : LeaveDb Float) (r r' : LeaveRow)
      → decide_leave_request_by_admin legal_total contract_at admin id p now db ≡ (ok r', db')
      → text_eq (trim_space p.decision) (codes "approve") ≡ true
      → select id db.leaves ≡ some r
      → LeaveStep legal_total db db'
  unfolding decide_leave_request_by_admin exec_tx get_leave_request_for_update
      update_leave_request_decision update_leave
  approve_step admin id p now db db' r r' e ha h =
      elim (Result-cases (check_leave_balance legal_total contract_at (as_read r) now db).0) [
        | inl (f, hf) ↦ ground arith
        | inr (u, hu) ↦
            let keeps = check_leave_balance_keeps (as_read r) now db in
            approves id r p.decision_note admin now h (ground arith)
              (check_leave_balance-Affordable r now db db (ground arith)).1 (ground arith)
      ]

  reject_step :
      (admin id : ℕ) (p : DecideLeaveParams) (now : Time) (db db' : LeaveDb Float) (r r' : LeaveRow)
      → decide_leave_request_by_admin legal_total contract_at admin id p now db ≡ (ok r', db')
      → text_eq (trim_space p.decision) (codes "approve") ≡ false
      → select id db.leaves ≡ some r
      → LeaveStep legal_total db db'
  unfolding decide_leave_request_by_admin exec_tx get_leave_request_for_update
      update_leave_request_decision update_leave
  reject_step admin id p now db db' r r' e ha h =
      rejects id r p.decision_note admin now h (ground arith) (ground arith)

  pub decide_leave_request_step :
      (admin id : ℕ) (p : DecideLeaveParams) (now : Time) (db db' : LeaveDb Float) (r' : LeaveRow)
      → decide_leave_request_by_admin legal_total contract_at admin id p now db ≡ (ok r', db')
      → LeaveStep legal_total db db'
  unfolding decide_leave_request_by_admin exec_tx get_leave_request_for_update
  decide_leave_request_step admin id p now db db' r' e = elim (Option-cases (select id db.leaves)) [
    | inl h ↦ ground arith
    | inr (r, h) ↦ elim (Bool-cases (text_eq (trim_space p.decision) (codes "approve"))) [
      | inl ha ↦ approve_step admin id p now db db' r r' e ha h
      | inr ha ↦ reject_step admin id p now db db' r r' e ha h
    ]
  ]

  pub create_leave-IsAtomic :
      (fresh : ℕ) (p : CreateLeaveParams)
      → IsAtomic (create_leave {Float = Float} legal_total contract_at fresh p)
  unfolding create_leave check_policy get_active_leave_policy_by_type insert_leave_request
  create_leave-IsAtomic fresh p db e h = ground arith
