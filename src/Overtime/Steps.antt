-- ===== src/Overtime/Steps.antt =====
-- Each operation of internal/service/overtime_service.go as a step on the overtime entries.
use hrbackend.Prelude.{ℕ, ◌≡◌, true, Option, none, some}
use hrbackend.Prelude.Int.{ℤ}
use hrbackend.Prelude.GoText.{Text, has_ink}
use hrbackend.Time.{Time}
use hrbackend.Store.Table.{Table, select, update, insert, delete}
use hrbackend.Overtime.{
  submitted, OvertimeRow, OvertimeDb, NewEntry, EntryChanges, positive, submitted_as, approved_as,
  rejected_as, changed_as,
}

-- A schedule that an entry names is the employee's.
abbrev pub ScheduleFits : Table ℕ → ℕ → Option ℕ → Type 0
ScheduleFits schedules employee none = Unit
ScheduleFits schedules employee (some s) = select s schedules ≡ some employee

-- Minutes that a call writes.
abbrev pub MinutesFit : Option ℤ → Type 0
MinutesFit none = Unit
MinutesFit (some m) = positive m ≡ true

-- A call leaves the entries, adds one, decides one that is submitted, or changes or deletes one that
-- is not paid.
pub data OvertimeStep (db db' : OvertimeDb) : Type 0 where
  idle : db' ≡ db → OvertimeStep db db'
  submits :
      (k : ℕ) (n : NewEntry)
      → select k db.entries ≡ none
      → ScheduleFits db.schedules n.employee_id n.schedule_id
      → positive n.minutes ≡ true
      → db' ≡ record db { entries = insert k (submitted_as n) db.entries }
      → OvertimeStep db db'
  approves :
      (k : ℕ) (r : OvertimeRow) (admin : ℕ) (now : Time)
      → select k db.entries ≡ some r
      → r.status ≡ submitted
      → db' ≡ record db { entries = update k (approved_as admin now) db.entries }
      → OvertimeStep db db'
  rejects :
      (k : ℕ) (r : OvertimeRow) (why : Text)
      → select k db.entries ≡ some r
      → r.status ≡ submitted
      → has_ink why ≡ true
      → db' ≡ record db { entries = update k (rejected_as (some why)) db.entries }
      → OvertimeStep db db'
  changes :
      (k : ℕ) (r : OvertimeRow) (c : EntryChanges)
      → select k db.entries ≡ some r
      → r.paid_period_id ≡ none
      → ScheduleFits db.schedules r.employee_id c.schedule_id
      → MinutesFit c.minutes
      → db' ≡ record db { entries = update k (changed_as c) db.entries }
      → OvertimeStep db db'
  deletes :
      (k : ℕ) (r : OvertimeRow)
      → select k db.entries ≡ some r
      → r.paid_period_id ≡ none
      → db' ≡ record db { entries = delete k db.entries }
      → OvertimeStep db db'
