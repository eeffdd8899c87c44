-- ===== src/Scheduling.antt =====
-- src/modules/scheduling/scheduling.service.ts: messages to be sent at a time. The processing of a
-- schedule is a task that stops at each `await`: what else happens comes in between, so a task is
-- kept with the phase that it has reached, and moves on by `advance`. The timers belong to the
-- framework: what the service asks of them is logged. A schedule's identifier is its document's.
pub mod Starts
pub mod Moves
pub mod Tasks
pub mod Cancelling
pub mod Steps
pub mod Sending
pub mod Refused
mod Tests
mod Schedules
unfoldable pub use Schedules.*
use Prim.Native.String
use whataapp_otp_project.Base.{
  ℕ, zero, suc, ◌+◌, ◌-◌, String, Bool, true, false, ◌&&◌, Option, none, some, List, [], ◌∷◌, ◌++◌,
  map, ◌===◌, if◌then◌else◌, leb, is_some,
}
use whataapp_otp_project.Base.JsMap
use whataapp_otp_project.Base.Collection.{Collection}

module _ (c : Collection Schedule) where
  -- The `processingSchedules`, the tasks that run, the calls to the timers, and the messages handed
  -- to the WhatsApp service: schedule, client, recipient and text.
  pub record State : Type 0 where
    pub schedules : c.Store
    pub processing_schedules : List (String × Unit {0})
    pub tasks : List (String × Phase)
    pub timers : List TimerCall
    pub handed : List (String × String × String × String)

  -- What `processSchedule` does before it first waits.
  unfoldable pub begin : String → State → State
  begin id s = if is_some (JsMap.get id s.processing_schedules) then s else record s {
    processing_schedules = JsMap.set id tt s.processing_schedules;
    tasks = JsMap.set id reading s.tasks;
  }

  abbrev pub move : String → Phase → State → State
  move id ph s = record s { tasks = JsMap.set id ph s.tasks }

  -- The `finally` block, at which the task is over.
  unfoldable pub finish : String → State → State
  finish id s = record s {
    processing_schedules = JsMap.delete id s.processing_schedules;
    tasks = JsMap.delete id s.tasks;
  }

  abbrev pub write : String → (Schedule → Schedule) → State → State
  write id f s = record s { schedules = c.update_one (has_id id) f s.schedules }

  unfoldable pub read_schedule : String → Option Schedule → State → State
  read_schedule id none s = finish id s
  read_schedule id (some d) s =
      if is_status d.status pending then move id (marking d) s else finish id s

  -- `!account || !account.clientId`
  unfoldable pub with_account : String → Schedule → AccountReply → State → State
  with_account id d (account_failed m) s = move id (failing m) s
  with_account id d (account_is none) s = move id (failing no_account) s
  with_account id d (account_is (some client)) s =
      if client === ""
      then move id (failing no_account) s
      else move id (sending d client d.recipients) s

  -- The call of `sendMessage` is made, and then fails or returns.
  unfoldable pub send_next :
      String → Schedule → String → List String → Option String → State → State
  send_next id d client [] r s = move id (finishing none) s
  send_next id d client (recipient ∷ rest) r s =
      let s1 = record s { handed = s.handed ++ (id, client, recipient, d.message) ∷ [] } in
      elim r [
        | none ↦ move id (sending d client rest) s1
        | some m ↦ move id (finishing (some (send_error recipient m))) s1
      ]

  unfoldable pub act : String → Phase → Reply → State → State
  act id reading r s = read_schedule id (c.find_one (has_id id) s.schedules) s
  act id (marking d) r s = move id (asking d) (write id (set_status processing) s)
  act id (asking d) r s = with_account id d r.account s
  act id (sending d client rest) r s =
      send_next id d client rest (some (refusal_without_user r.session).1) s
  act id (finishing e) r s = finish id (write id (close e r.now) s)
  act id (failing m) r s =
      finish id (write id (λ d. record d { status = failed; error = some m }) s)

  -- A task goes on to its next `await`.
  unfoldable pub advance : String → Reply → State → State
  advance id r s = elim (JsMap.get id s.tasks) [ none ↦ s | some ph ↦ act id ph r s ]

  unfoldable pub create_schedule_job : Schedule → ℕ → State → State
  create_schedule_job d now s =
      if leb d.scheduled_time now
      then begin d.id s
      else record s { timers = s.timers ++ add_timeout d.id (d.scheduled_time - now) ∷ [] }

  -- `owned`: the account exists and belongs to the user. `id` is the new document's.
  unfoldable pub create :
      CreateScheduleDto → String → Bool → String → ℕ → ℕ → State → State × Result Schedule
  create dto account owned id now job_now s =
      if owned
      then (if leb dto.scheduled_time now
          then (s, err not_in_future)
          else (let d = new_schedule dto account id in
              (
                create_schedule_job d job_now (record s { schedules = c.create d s.schedules }),
                ok d,
              )))
      else (s, err account_not_found)

  abbrev pub drop_timer : String → State → State
  drop_timer id s = record s { timers = s.timers ++ delete_timeout id ∷ [] }

  -- The new job of a schedule whose time was changed.
  unfoldable pub reschedule : Option ℕ → Option Schedule → ℕ → State → State
  reschedule (some t) (some d) now s = create_schedule_job d now s
  reschedule _ _ now s = s

  unfoldable pub apply_dto :
      String → UpdateScheduleDto → ℕ → State → State × Result (Option Schedule)
  apply_dto id dto job_now s =
      let s1 = write id (apply_update dto) s in
      let updated = c.find_one (has_id id) s1.schedules in
      (reschedule dto.scheduled_time updated job_now s1, ok updated)

  unfoldable pub update_open :
      Option ℕ → String → UpdateScheduleDto → ℕ → ℕ → State → State × Result (Option Schedule)
  update_open none id dto now job_now s = apply_dto id dto job_now s
  update_open (some t) id dto now job_now s =
      if leb t now then (s, err not_in_future) else apply_dto id dto job_now (drop_timer id s)

  -- What follows once the schedule is found, from its status.
  unfoldable pub update_found :
      ScheduleStatus → String → UpdateScheduleDto → ℕ → ℕ → State → State × Result (Option Schedule)
  update_found completed id dto now job_now s = (s, err (cannot_update completed))
  update_found processing id dto now job_now s = (s, err (cannot_update processing))
  update_found _ id dto now job_now s = update_open dto.scheduled_time id dto now job_now s

  unfoldable pub update :
      String → UpdateScheduleDto → String → ℕ → ℕ → State → State × Result (Option Schedule)
  update id dto account now job_now s = elim (c.find_one (is_of id account) s.schedules) [
    | none ↦ (s, err schedule_not_found)
    | some d ↦ update_found d.status id dto now job_now s
  ]

  unfoldable pub remove : String → String → State → State × Result String
  remove id account s = elim (c.find_one (is_of id account) s.schedules) [
    | none ↦ (s, err schedule_not_found)
    | some d ↦
        if is_status d.status processing
        then (s, err cannot_delete)
        else (record (drop_timer id s) { schedules = c.delete_one (has_id id) s.schedules }, ok id)
  ]

  unfoldable pub cancel_schedule : String → String → State → State × Result String
  cancel_schedule id account s = elim (c.find_one (is_of id account) s.schedules) [
    | none ↦ (s, err schedule_not_found)
    | some d ↦
        if is_status d.status pending
        then (write id (set_status cancelled) (drop_timer id s), ok id)
        else (s, err (cannot_cancel d.status))
  ]

  unfoldable pub begin_all : List Schedule → State → State
  begin_all [] s = s
  begin_all (d ∷ ds) s = begin_all ds (begin d.id s)

  unfoldable pub handle_cron : ℕ → State → State
  handle_cron now s =
      begin_all
        (c.find_all (λ d. is_status d.status pending && leb d.scheduled_time now) s.schedules) s

  unfoldable pub create_jobs : List Schedule → ℕ → State → State
  create_jobs [] now s = s
  create_jobs (d ∷ ds) now s = create_jobs ds now (create_schedule_job d now s)

  unfoldable pub init_schedules : ℕ → State → State
  init_schedules now s =
      let s1 = create_jobs (c.find_all (λ d. is_status d.status pending) s.schedules) now s in
      record s1 {
        schedules =
            c.update_many (λ d. is_status d.status processing) (set_status pending) s1.schedules;
      }
