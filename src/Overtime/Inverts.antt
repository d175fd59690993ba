-- ===== src/Overtime/Inverts.antt =====
-- The operations of internal/service/overtime_service.go that succeed, each as a step on the entries.
use hrbackend.Prelude.{
  ℕ, ◌≡◌, refl, Option, none, some, arith, Option-cases, Bool-cases, inl, inr, subst, sym,
}
use hrbackend.Prelude.GoText.{codes, text_eq, normalized}
use hrbackend.Prelude.Results.{ok, Result-cases}
use hrbackend.Time.{Time}
use hrbackend.Store.{IsAtomic, exec_tx}
use hrbackend.Store.Table.{select}
use hrbackend.Overtime.{
  OvertimeRow, OvertimeDb, CreateOvertimeParams, DecideOvertimeParams, UpdateOvertimeParams,
  NewEntry, EntryChanges, trim_overtime_string_ptr,
}
use hrbackend.Overtime.Reasons.{trimmed_given}
use hrbackend.Overtime.Queries.{
  check_schedule, insert_overtime_entry, get_overtime_entry_for_update, update_entry,
  approve_overtime_entry, reject_overtime_entry, write_overtime_changes, delete_overtime_entry,
}
use hrbackend.Overtime.Service.{
  normalize_create, normalize_update, create_normalized, create_overtime_entry,
  create_overtime_entry_by_admin, decide_overtime_entry_by_admin, change_entry,
  update_overtime_entry_by_admin, update_my_overtime_entry, delete_overtime_entry_by_admin,
  delete_my_overtime_entry,
}
use hrbackend.Overtime.Steps.{
  ScheduleFits, MinutesFit, OvertimeStep, submits, approves, rejects, changes, deletes,
}

check_schedule_keeps :
    (s : Option ℕ) (employee : ℕ) (db : OvertimeDb) → (check_schedule s employee db).1 ≡ db
unfolding check_schedule
check_schedule_keeps none employee db = refl
check_schedule_keeps (some s) employee db = ground arith

check_schedule_fits :
    (s : Option ℕ) (employee : ℕ) (db : OvertimeDb)
    → (check_schedule s employee db).0 ≡ ok tt
    → ScheduleFits db.schedules employee s
unfolding check_schedule
check_schedule_fits none employee db e = tt
check_schedule_fits (some s) employee db e = ground arith

insert_step :
    (fresh : ℕ) (n : NewEntry) (db db' : OvertimeDb) (k : ℕ)
    → insert_overtime_entry fresh n db ≡ (ok k, db')
    → OvertimeStep db db'
unfolding insert_overtime_entry
insert_step fresh n db db' k e =
    let keeps = check_schedule_keeps n.schedule_id n.employee_id db in
    elim (Result-cases (check_schedule n.schedule_id n.employee_id db).0) [
      | inl (f, hf) ↦ ground arith
      | inr (u, hu) ↦ elim (Option-cases (select fresh db.entries)) [
        | inr (r, h) ↦ ground arith
        | inl h ↦
            submits fresh n h (check_schedule_fits n.schedule_id n.employee_id db (ground arith))
              (ground arith) (ground arith)
      ]
    ]

normalize_create_keeps :
    (p : CreateOvertimeParams) (db : OvertimeDb) → (normalize_create p db).1 ≡ db
unfolding normalize_create
normalize_create_keeps p db = ground arith

create_step :
    (fresh : ℕ) (p : CreateOvertimeParams) (db db' : OvertimeDb) (k : ℕ)
    → create_normalized fresh p db ≡ (ok k, db')
    → OvertimeStep db db'
unfolding create_normalized
create_step fresh p db db' k e =
    let keeps = normalize_create_keeps p db in
    elim (Result-cases (normalize_create p db).0) [
      | inl (f, hf) ↦ ground arith
      | inr (n, hn) ↦ insert_step fresh n db db' k (ground arith)
    ]

normalize_update_keeps :
    (p : UpdateOvertimeParams) (db : OvertimeDb) → (normalize_update p db).1 ≡ db
unfolding normalize_update
normalize_update_keeps p db = ground arith

write_step :
    (id : ℕ) (r r' : OvertimeRow) (c : EntryChanges) (db db' : OvertimeDb)
    → select id db.entries ≡ some r
    → r.paid_period_id ≡ none
    → write_overtime_changes id r.employee_id c db ≡ (ok r', db')
    → OvertimeStep db db'
unfolding write_overtime_changes update_entry
write_step id r r' c db db' h unpaid e =
    let keeps = check_schedule_keeps c.schedule_id r.employee_id db in
    elim (Result-cases (check_schedule c.schedule_id r.employee_id db).0) [
      | inl (f, hf) ↦ ground arith
      | inr (u, hu) ↦
          changes id r c h unpaid
            (check_schedule_fits c.schedule_id r.employee_id db (ground arith))
            (elim (Option-cases c.minutes) [
              | inl hm ↦ subst MinutesFit (sym hm) tt
              | inr (m, hm) ↦ subst MinutesFit (sym hm) (ground arith)
            ])
            (ground arith)
    ]

change_step :
    (id : ℕ) (r r' : OvertimeRow) (p : UpdateOvertimeParams) (db db' : OvertimeDb)
    → select id db.entries ≡ some r
    → r.paid_period_id ≡ none
    → change_entry id r.employee_id p db ≡ (ok r', db')
    → OvertimeStep db db'
unfolding change_entry
change_step id r r' p db db' h unpaid e =
    let keeps = normalize_update_keeps p db in
    elim (Result-cases (normalize_update p db).0) [
      | inl (f, hf) ↦ ground arith
      | inr (c, hc) ↦ write_step id r r' c db db' h unpaid (ground arith)
    ]

pub update_overtime_entry_by_admin_step :
    (admin id : ℕ) (p : UpdateOvertimeParams) (db db' : OvertimeDb) (r' : OvertimeRow)
    → update_overtime_entry_by_admin admin id p db ≡ (ok r', db')
    → OvertimeStep db db'
unfolding update_overtime_entry_by_admin exec_tx get_overtime_entry_for_update
update_overtime_entry_by_admin_step admin id p db db' r' e =
    elim (Option-cases (select id db.entries)) [
      | inl h ↦ ground arith
      | inr (r, h) ↦ change_step id r r' p db db' h (ground arith) (ground arith)
    ]

pub update_my_overtime_entry_step :
    (actor id : ℕ) (p : UpdateOvertimeParams) (db db' : OvertimeDb) (r' : OvertimeRow)
    → update_my_overtime_entry actor id p db ≡ (ok r', db')
    → OvertimeStep db db'
unfolding update_my_overtime_entry exec_tx get_overtime_entry_for_update
update_my_overtime_entry_step actor id p db db' r' e = elim (Option-cases (select id db.entries)) [
  | inl h ↦ ground arith
  | inr (r, h) ↦ change_step id r r' p db db' h (ground arith) (ground arith)
]

pub delete_overtime_entry_by_admin_step :
    (admin id : ℕ) (db db' : OvertimeDb)
    → delete_overtime_entry_by_admin admin id db ≡ (ok tt, db')
    → OvertimeStep db db'
unfolding delete_overtime_entry_by_admin exec_tx get_overtime_entry_for_update delete_overtime_entry
delete_overtime_entry_by_admin_step admin id db db' e = elim (Option-cases (select id db.entries)) [
  | inl h ↦ ground arith
  | inr (r, h) ↦ deletes id r h (ground arith) (ground arith)
]

pub delete_my_overtime_entry_step :
    (actor id : ℕ) (db db' : OvertimeDb)
    → delete_my_overtime_entry actor id db ≡ (ok tt, db')
    → OvertimeStep db db'
unfolding delete_my_overtime_entry exec_tx get_overtime_entry_for_update delete_overtime_entry
delete_my_overtime_entry_step actor id db db' e = elim (Option-cases (select id db.entries)) [
  | inl h ↦ ground arith
  | inr (r, h) ↦ deletes id r h (ground arith) (ground arith)
]

pub decide_overtime_entry_by_admin_step :
    (admin id : ℕ) (p : DecideOvertimeParams) (now : Time) (db db' : OvertimeDb) (r' : OvertimeRow)
    → decide_overtime_entry_by_admin admin id p now db ≡ (ok r', db')
    → OvertimeStep db db'
unfolding decide_overtime_entry_by_admin exec_tx get_overtime_entry_for_update
    approve_overtime_entry reject_overtime_entry update_entry
decide_overtime_entry_by_admin_step admin id p now db db' r' e =
    elim (Option-cases (select id db.entries)) [
      | inl h ↦ ground arith
      | inr (r, h) ↦ elim (Bool-cases (text_eq (normalized p.decision) (codes "approve"))) [
        | inl ha ↦ approves id r admin now h (ground arith) (ground arith)
        | inr ha ↦ elim (Option-cases (trim_overtime_string_ptr p.rejection_reason)) [
          | inl hn ↦ ground arith
          | inr (why, hw) ↦
              rejects id r why h (ground arith) (trimmed_given p.rejection_reason why hw)
                (ground arith)
        ]
      ]
    ]

pub create_overtime_entry_step :
    (fresh actor : ℕ) (p : CreateOvertimeParams) (db db' : OvertimeDb) (k : ℕ)
    → create_overtime_entry fresh actor p db ≡ (ok k, db')
    → OvertimeStep db db'
unfolding create_overtime_entry
create_overtime_entry_step fresh actor p db db' k e =
    create_step fresh (record p { employee_id = actor }) db db' k (ground arith)

pub create_overtime_entry_by_admin_step :
    (fresh admin : ℕ) (p : CreateOvertimeParams) (db db' : OvertimeDb) (k : ℕ)
    → create_overtime_entry_by_admin fresh admin p db ≡ (ok k, db')
    → OvertimeStep db db'
unfolding create_overtime_entry_by_admin
create_overtime_entry_by_admin_step fresh admin p db db' k e =
    create_step fresh p db db' k (ground arith)

create_normalized-IsAtomic :
    (fresh : ℕ) (p : CreateOvertimeParams) → IsAtomic (create_normalized fresh p)
unfolding create_normalized insert_overtime_entry
create_normalized-IsAtomic fresh p db e h =
    let keeps = normalize_create_keeps p db in
    elim (Result-cases (normalize_create p db).0) [
      | inl (f, hf) ↦ ground arith
      | inr (n, hn) ↦
          let kept = check_schedule_keeps n.schedule_id n.employee_id db in
          elim (Result-cases (check_schedule n.schedule_id n.employee_id db).0) [
            | inl (f, hf) ↦ ground arith
            | inr (u, hu) ↦ ground arith
          ]
    ]

pub create_overtime_entry-IsAtomic :
    (fresh actor : ℕ) (p : CreateOvertimeParams) → IsAtomic (create_overtime_entry fresh actor p)
unfolding create_overtime_entry
create_overtime_entry-IsAtomic fresh actor p db e h =
    ground (arith, create_normalized-IsAtomic fresh (record p { employee_id = actor }) db e)

pub create_overtime_entry_by_admin-IsAtomic :
    (fresh admin : ℕ) (p : CreateOvertimeParams)
    → IsAtomic (create_overtime_entry_by_admin fresh admin p)
unfolding create_overtime_entry_by_admin
create_overtime_entry_by_admin-IsAtomic fresh admin p db e h =
    ground (arith, create_normalized-IsAtomic fresh p db e)
