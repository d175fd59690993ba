-- ===== src/Overtime/Invariant.antt =====
-- What every sequence of calls of internal/service/overtime_service.go keeps of the overtime entries.
use hrbackend.Params.{coalesce_null}
use hrbackend.Prelude.{
  ℕ, ◌<◌, ◌≡◌, ◌≢◌, ◌⊎◌, refl, true, Option, none, some, List, [], ◌∷◌, arith, ◌==◌, Bool-cases,
  inl, inr, subst, sym,
}
use hrbackend.Prelude.Int.{ℤ, pos_part}
use hrbackend.Prelude.GoText.{Text, has_ink}
use hrbackend.Time.{Time}
use hrbackend.Store.Table.{
  Table, select, update, AllRows, HasKeys, update-HasKeys, insert-HasKeys, delete-HasKeys,
  insert-AllRows, delete-AllRows, select-AllRows, update-AllRows, select-update, select-insert,
  select-delete,
}
use hrbackend.Overtime.{
  OvertimeStatus, submitted, approved, rejected, OvertimeRow, OvertimeDb, NewEntry, EntryChanges,
  submitted_as, approved_as, rejected_as, changed_as, positive,
}
use hrbackend.Overtime.Steps.{
  ScheduleFits, MinutesFit, OvertimeStep, idle, submits, approves, rejects, changes, deletes,
}
use hrbackend.Overtime.Lifecycle.{OvertimeRequest, perform, perform-OvertimeStep}

-- A reason that is given, with a character in it that is no space.
abbrev pub HasReason : Option Text → Type 0
HasReason none = ⊥
HasReason (some t) = has_ink t ≡ true

-- What the record of an entry in each status holds: only an approved one is ever paid.
abbrev pub StageHolds : OvertimeStatus → OvertimeRow → Type 0
StageHolds submitted r =
    (r.approved_by_employee_id ≡ none) × (r.rejection_reason ≡ none) × (r.paid_period_id ≡ none)
StageHolds approved r = (r.approved_by_employee_id ≢ none) × (r.rejection_reason ≡ none)
StageHolds rejected r =
    (r.approved_by_employee_id ≡ none) × HasReason r.rejection_reason × (r.paid_period_id ≡ none)

abbrev pub IsWellFormed : Table ℕ → OvertimeRow → Type 0
IsWellFormed schedules r =
    (0 < r.minutes) × ScheduleFits schedules r.employee_id r.schedule_id × StageHolds r.status r

-- Keys are unique and every entry is well-formed.
abbrev pub IsSound : OvertimeDb → Type 0
IsSound db = HasKeys db.entries × AllRows (IsWellFormed db.schedules) db.entries

submitted-IsWellFormed :
    (schedules : Table ℕ) (n : NewEntry)
    → ScheduleFits schedules n.employee_id n.schedule_id
    → positive n.minutes ≡ true
    → IsWellFormed schedules (submitted_as n)
submitted-IsWellFormed schedules n fits m = (ground arith, fits, (refl, refl, refl))

approved-IsWellFormed :
    (schedules : Table ℕ) (r : OvertimeRow) (admin : ℕ) (now : Time)
    → IsWellFormed schedules r
    → IsWellFormed schedules (approved_as admin now r)
approved-IsWellFormed schedules r admin now (m, fits, _) = (m, fits, (ground arith, refl))

rejected-IsWellFormed :
    (schedules : Table ℕ) (r : OvertimeRow) (why : Text)
    → r.status ≡ submitted
    → has_ink why ≡ true
    → IsWellFormed schedules r
    → IsWellFormed schedules (rejected_as (some why) r)
rejected-IsWellFormed schedules r why st given (m, fits, stage) = (
  m,
  fits,
  (
    refl,
    given,
    subst (λ s. StageHolds s r → r.paid_period_id ≡ none) (sym st) (λ (_, _, p). p) stage,
  ),
)

changed_fits :
    (schedules : Table ℕ) (employee : ℕ) (new old : Option ℕ)
    → ScheduleFits schedules employee new
    → ScheduleFits schedules employee old
    → ScheduleFits schedules employee (coalesce_null new old)
changed_fits schedules employee none old n o = o
changed_fits schedules employee (some s) old n o = n

changed_minutes :
    (m : Option ℤ) (old : ℕ)
    → MinutesFit m
    → 0 < old
    → 0 < (elim m [ none ↦ old | some k ↦ pos_part k ])
changed_minutes none old h p = p
changed_minutes (some k) old h p = ground arith

changed-IsWellFormed :
    (schedules : Table ℕ) (r : OvertimeRow) (c : EntryChanges)
    → ScheduleFits schedules r.employee_id c.schedule_id
    → MinutesFit c.minutes
    → IsWellFormed schedules r
    → IsWellFormed schedules (changed_as c r)
changed-IsWellFormed schedules r c fits mins (m, old, stage) = (
  changed_minutes c.minutes r.minutes mins m,
  changed_fits schedules r.employee_id c.schedule_id r.schedule_id fits old,
  elim r.status as (λ s. StageHolds s r → StageHolds s (changed_as c r)) [
    | submitted ↦ λ x. x
    | approved ↦ λ x. x
    | rejected ↦ λ x. x
  ]
      stage,
)

revise-IsSound :
    (db : OvertimeDb) (k : ℕ) (f : OvertimeRow → OvertimeRow) (r : OvertimeRow)
    → IsSound db
    → select k db.entries ≡ some r
    → (IsWellFormed db.schedules r → IsWellFormed db.schedules (f r))
    → IsSound (record db { entries = update k f db.entries })
revise-IsSound db k f r (hk, ha) h w = (
  update-HasKeys k f db.entries hk,
  update-AllRows (IsWellFormed db.schedules) k f db.entries r hk ha h
      (w (select-AllRows (IsWellFormed db.schedules) k db.entries r ha h)),
)

step-IsSound : (db db' : OvertimeDb) → OvertimeStep db db' → IsSound db → IsSound db'
step-IsSound db db' (idle e) s = subst IsSound (sym e) s
step-IsSound db db' (submits k n h fits m e) (hk, ha) = subst IsSound (sym e) (
  insert-HasKeys k (submitted_as n) db.entries h hk,
  insert-AllRows (IsWellFormed db.schedules) k (submitted_as n) db.entries
      (submitted-IsWellFormed db.schedules n fits m) ha,
)
step-IsSound db db' (approves k r admin now h st e) s = subst IsSound (sym e) (
    revise-IsSound db k (approved_as admin now) r s h
      (approved-IsWellFormed db.schedules r admin now))
step-IsSound db db' (rejects k r why h st given e) s = subst IsSound (sym e) (
    revise-IsSound db k (rejected_as (some why)) r s h
      (rejected-IsWellFormed db.schedules r why st given))
step-IsSound db db' (changes k r c h unpaid fits mins e) s =
    subst IsSound (sym e)
      (revise-IsSound db k (changed_as c) r s h (changed-IsWellFormed db.schedules r c fits mins))
step-IsSound db db' (deletes k r h unpaid e) (hk, ha) =
    subst IsSound (sym e)
      (delete-HasKeys k db.entries hk, delete-AllRows (IsWellFormed db.schedules) k db.entries ha)

unfoldable pub perform_all : List (Time × OvertimeRequest) → OvertimeDb → OvertimeDb
perform_all [] db = db
perform_all ((now, call) ∷ calls) db = perform_all calls (perform now call db)

-- From a database whose overtime entries have unique keys and are well-formed (the minutes are
-- positive, the schedule that an entry names is its employee's, an approved entry has an approver and no
-- rejection reason, a rejected one has a reason that is not blank and no approver, a submitted one has
-- neither, and only an approved one is paid), every sequence of the service's calls, failing ones
-- included, leads to one of the same kind.
pub overtime_calls-IsSound :
    (calls : List (Time × OvertimeRequest)) (db : OvertimeDb)
    → IsSound db
    → IsSound (perform_all calls db)
unfolding perform_all
overtime_calls-IsSound [] db s = s
overtime_calls-IsSound ((now, call) ∷ calls) db s =
    overtime_calls-IsSound calls (perform now call db)
      (step-IsSound db _ (perform-OvertimeStep now call db) s)

-- The statuses that an entry may pass between in one call.
pub data Follows : OvertimeStatus → OvertimeStatus → Type 0 where
  stays : {s : OvertimeStatus} → Follows s s
  follows_approved : Follows submitted approved
  follows_rejected : Follows submitted rejected

-- What becomes of an entry: it may go while it is not paid; one that stays keeps its employee and its
-- pay period, and one that is paid keeps everything.
abbrev pub Continues : OvertimeRow → Option OvertimeRow → Type 0
Continues r none = r.paid_period_id ≡ none
Continues r (some s) =
    Follows r.status s.status
    × (s.employee_id ≡ r.employee_id)
    × (s.paid_period_id ≡ r.paid_period_id)
    × ((r.paid_period_id ≡ none) ⊎ (s ≡ r))

Continues-same : (r : OvertimeRow) → Continues r (some r)
Continues-same r = (stays, refl, refl, inr refl)

revise-Continues :
    (db : OvertimeDb) (k id : ℕ) (f : OvertimeRow → OvertimeRow) (r s : OvertimeRow)
    → select k db.entries ≡ some s
    → Continues s (some (f s))
    → select id db.entries ≡ some r
    → Continues r (select id (update k f db.entries))
revise-Continues db k id f r s hs c h = elim (Bool-cases (k == id)) [
  | inl eq ↦
      subst (Continues r) {x = some (f s)} (ground (arith, select-update k id f db.entries))
        (subst (λ x. Continues x (some (f s))) {x = s} {y = r} (ground arith) c)
  | inr ne ↦
      subst (Continues r) {x = some r} (ground (arith, select-update k id f db.entries))
        (Continues-same r)
]

-- Only an approved entry is paid.
submitted_unpaid :
    (schedules : Table ℕ) (r : OvertimeRow)
    → IsWellFormed schedules r
    → r.status ≡ submitted
    → r.paid_period_id ≡ none
submitted_unpaid schedules r (_, _, stage) st =
    subst (λ s. StageHolds s r → r.paid_period_id ≡ none) (sym st) (λ (_, _, p). p) stage

step-Continues :
    (db db' : OvertimeDb) (id : ℕ) (r : OvertimeRow)
    → IsSound db
    → OvertimeStep db db'
    → select id db.entries ≡ some r
    → Continues r (select id db'.entries)
step-Continues db db' id r s (idle e) h =
    subst (Continues r) {x = some r} (ground arith) (Continues-same r)
step-Continues db db' id r s (submits k n free fits m e) h =
    subst (Continues r) {x = some r}
      (ground (arith, select-insert k id (submitted_as n) db.entries)) (Continues-same r)
step-Continues db db' id r (hk, ha) (approves k t admin now hs st e) h =
    subst (λ d. Continues r (select id d.entries)) (sym e)
      (revise-Continues db k id (approved_as admin now) r t hs
        (
          subst (λ x. Follows x approved) (sym st) follows_approved,
          refl,
          refl,
          inl (
              submitted_unpaid db.schedules t
                (select-AllRows (IsWellFormed db.schedules) k db.entries t ha hs) st),
        )
        h)
step-Continues db db' id r (hk, ha) (rejects k t why hs st given e) h =
    subst (λ d. Continues r (select id d.entries)) (sym e)
      (revise-Continues db k id (rejected_as (some why)) r t hs
        (
          subst (λ x. Follows x rejected) (sym st) follows_rejected,
          refl,
          refl,
          inl (
              submitted_unpaid db.schedules t
                (select-AllRows (IsWellFormed db.schedules) k db.entries t ha hs) st),
        )
        h)
step-Continues db db' id r s (changes k t c hs unpaid fits mins e) h =
    subst (λ d. Continues r (select id d.entries)) (sym e)
      (revise-Continues db k id (changed_as c) r t hs (stays, refl, refl, inl unpaid) h)
step-Continues db db' id r s (deletes k t hs unpaid e) h = elim (Bool-cases (k == id)) [
  | inl eq ↦
      subst (Continues r) {x = none} (ground (arith, select-delete k id db.entries)) (ground arith)
  | inr ne ↦
      subst (Continues r) {x = some r} (ground (arith, select-delete k id db.entries))
        (Continues-same r)
]

-- In a database whose overtime entries are sound, a call of the overtime service, whatever it is given,
-- either deletes an entry, which then is not paid, or keeps its employee and its pay period and leaves
-- its status or moves it from submitted to approved or to rejected; an entry that is paid stays as it
-- is in every field.
pub overtime_call-Continues :
    (now : Time) (call : OvertimeRequest) (db : OvertimeDb) (id : ℕ) (r : OvertimeRow)
    → IsSound db
    → select id db.entries ≡ some r
    → Continues r (select id (perform now call db).entries)
overtime_call-Continues now call db id r s h =
    step-Continues db _ id r s (perform-OvertimeStep now call db) h
