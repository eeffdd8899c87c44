-- ===== src/Scheduling/Starts.antt =====
-- What the requests, the cron job and the timers do to the tasks: they start tasks at most.
use whataapp_otp_project.Base.{
  ℕ, ◌≡◌, refl, String, Bool, true, false, ◌&&◌, Option, none, some, List, [], ◌∷◌, leb, is_some,
  arith, eq_iff, if_elim, Option-cases, Bool-cases, inl, inr,
}
use whataapp_otp_project.Base.JsMap
use whataapp_otp_project.Base.JsMap.{get-set, get-delete}
use whataapp_otp_project.Base.Collection.{Collection}
use whataapp_otp_project.Scheduling.{
  ScheduleStatus, pending, processing, completed, failed, cancelled, is_status, Schedule,
  CreateScheduleDto, UpdateScheduleDto, Phase, reading, is_of, State, begin, create_schedule_job,
  create, drop_timer, reschedule, apply_dto, update_open, update_found, update, remove,
  cancel_schedule, begin_all, handle_cron, create_jobs, init_schedules,
}

module _ (c : Collection Schedule) where
  -- The schedules marked as being processed are those with a task.
  abbrev pub IsInStep : State c → Type 0
  IsInStep s =
      (id : String) → is_some (JsMap.get id s.processing_schedules) ≡ is_some (JsMap.get id s.tasks)

  -- A change that starts tasks at most: the marks fit, and the running tasks go on.
  pub record Starts (s s' : State c) : Type 0 where
    pub in_step : IsInStep s → IsInStep s'
    pub kept :
        (j : String) (ph : Phase)
        → IsInStep s
        → JsMap.get j s.tasks ≡ some ph
        → JsMap.get j s'.tasks ≡ some ph

  Starts-none :
      (s s' : State c)
      → s'.processing_schedules ≡ s.processing_schedules
      → s'.tasks ≡ s.tasks
      → Starts s s'
  Starts-none s s' p t = record { in_step = λ h id. rw (p, t) (h id); kept = λ j ph h e. rw t e }

  Starts-trans : (s s' s'' : State c) → Starts s s' → Starts s' s'' → Starts s s''
  Starts-trans s s' s'' a b = record {
    in_step = λ h. b.in_step (a.in_step h);
    kept = λ j ph h e. b.kept j ph (a.in_step h) (a.kept j ph h e);
  }

  pub begin-Starts : (id : String) (s : State c) → Starts s (begin c id s)
  unfolding begin
  begin-Starts id s = elim (Option-cases (JsMap.get id s.processing_schedules)) [
    | inr (u, e) ↦ rw (e, begin) (Starts-none s s refl refl)
    | inl e ↦
        rw (e, begin)
          (record {
            in_step = λ h j.
                ground (
                  arith,
                  h j,
                  get-set id j tt s.processing_schedules,
                  get-set id j reading s.tasks,
                );
            kept = λ j ph h at_j. ground (arith, h j, e, eq_iff id j, get-set id j reading s.tasks);
          })
  ]

  create_schedule_job-Starts :
      (d : Schedule) (now : ℕ) (s : State c) → Starts s (create_schedule_job c d now s)
  unfolding create_schedule_job
  create_schedule_job-Starts d now s =
      if_elim (Starts s) (leb d.scheduled_time now) (begin-Starts d.id s)
        (Starts-none s _ refl refl)

  begin_all-Starts : (ds : List Schedule) (s : State c) → Starts s (begin_all c ds s)
  unfolding begin_all
  begin_all-Starts [] s = Starts-none s s refl refl
  begin_all-Starts (d ∷ ds) s =
      Starts-trans s (begin c d.id s) _ (begin-Starts d.id s) (begin_all-Starts ds (begin c d.id s))

  create_jobs-Starts :
      (ds : List Schedule) (now : ℕ) (s : State c) → Starts s (create_jobs c ds now s)
  unfolding create_jobs
  create_jobs-Starts [] now s = Starts-none s s refl refl
  create_jobs-Starts (d ∷ ds) now s =
      let s1 = create_schedule_job c d now s in
      Starts-trans s s1 _ (create_schedule_job-Starts d now s) (create_jobs-Starts ds now s1)

  pub create-Starts :
      (dto : CreateScheduleDto) (account : String) (owned : Bool) (id : String) (now job_now : ℕ)
      (s : State c)
      → Starts s (create c dto account owned id now job_now s).0
  unfolding create
  create-Starts dto account false id now job_now s = Starts-none s s refl refl
  create-Starts dto account true id now job_now s = elim (Bool-cases (leb dto.scheduled_time now)) [
    | inl e ↦ rw (e, create) (Starts-none s s refl refl)
    | inr e ↦
        rw (e, create)
          (Starts-trans s _ _ (Starts-none s _ refl refl) (create_schedule_job-Starts _ job_now _))
  ]

  reschedule-Starts :
      (t : Option ℕ) (d : Option Schedule) (now : ℕ) (s : State c)
      → Starts s (reschedule c t d now s)
  unfolding reschedule
  reschedule-Starts (some t) (some d) now s = create_schedule_job-Starts d now s
  reschedule-Starts (some t) none now s = Starts-none s s refl refl
  reschedule-Starts none d now s = Starts-none s s refl refl

  apply_dto-Starts :
      (id : String) (dto : UpdateScheduleDto) (job_now : ℕ) (s s' : State c)
      → Starts s s'
      → Starts s (apply_dto c id dto job_now s').0
  unfolding apply_dto
  apply_dto-Starts id dto job_now s s' h = Starts-trans s s' _ h (
      Starts-trans s' _ _ (Starts-none s' _ refl refl)
        (reschedule-Starts dto.scheduled_time _ job_now _))

  update_open-Starts :
      (t : Option ℕ) (id : String) (dto : UpdateScheduleDto) (now job_now : ℕ) (s : State c)
      → Starts s (update_open c t id dto now job_now s).0
  unfolding update_open
  update_open-Starts none id dto now job_now s =
      apply_dto-Starts id dto job_now s s (Starts-none s s refl refl)
  update_open-Starts (some t) id dto now job_now s = elim (Bool-cases (leb t now)) [
    | inl e ↦ rw (e, update_open) (Starts-none s s refl refl)
    | inr e ↦
        rw (e, update_open)
          (apply_dto-Starts id dto job_now s (drop_timer c id s) (Starts-none s _ refl refl))
  ]

  update_found-Starts :
      (st : ScheduleStatus) (id : String) (dto : UpdateScheduleDto) (now job_now : ℕ) (s : State c)
      → Starts s (update_found c st id dto now job_now s).0
  unfolding update_found
  update_found-Starts completed id dto now job_now s = Starts-none s s refl refl
  update_found-Starts processing id dto now job_now s = Starts-none s s refl refl
  update_found-Starts pending id dto now job_now s =
      update_open-Starts dto.scheduled_time id dto now job_now s
  update_found-Starts failed id dto now job_now s =
      update_open-Starts dto.scheduled_time id dto now job_now s
  update_found-Starts cancelled id dto now job_now s =
      update_open-Starts dto.scheduled_time id dto now job_now s

  pub update-Starts :
      (id : String) (dto : UpdateScheduleDto) (account : String) (now job_now : ℕ) (s : State c)
      → Starts s (update c id dto account now job_now s).0
  unfolding update
  update-Starts id dto account now job_now s =
      elim (Option-cases (c.find_one (is_of id account) s.schedules)) [
        | inl e ↦ rw (e, update) (Starts-none s s refl refl)
        | inr (d, e) ↦ rw (e, update) (update_found-Starts d.status id dto now job_now s)
      ]

  pub remove-Starts : (id account : String) (s : State c) → Starts s (remove c id account s).0
  unfolding remove
  remove-Starts id account s = elim (Option-cases (c.find_one (is_of id account) s.schedules)) [
    | inl e ↦ rw (e, remove) (Starts-none s s refl refl)
    | inr (d, e) ↦ elim (Bool-cases (is_status d.status processing)) [
      | inl busy ↦ rw (e, remove, busy) (Starts-none s s refl refl)
      | inr free ↦ rw (e, remove, free) (Starts-none s _ refl refl)
    ]
  ]

  pub cancel-Starts :
      (id account : String) (s : State c) → Starts s (cancel_schedule c id account s).0
  unfolding cancel_schedule
  cancel-Starts id account s = elim (Option-cases (c.find_one (is_of id account) s.schedules)) [
    | inl e ↦ rw (e, cancel_schedule) (Starts-none s s refl refl)
    | inr (d, e) ↦ elim (Bool-cases (is_status d.status pending)) [
      | inl waits ↦ rw (e, cancel_schedule, waits) (Starts-none s _ refl refl)
      | inr other ↦ rw (e, cancel_schedule, other) (Starts-none s s refl refl)
    ]
  ]

  pub init_schedules-Starts : (now : ℕ) (s : State c) → Starts s (init_schedules c now s)
  unfolding init_schedules
  init_schedules-Starts now s =
      Starts-trans s _ _
        (create_jobs-Starts (c.find_all (λ d. is_status d.status pending) s.schedules) now s)
        (Starts-none _ _ refl refl)

  pub cron-Starts : (now : ℕ) (s : State c) → Starts s (handle_cron c now s)
  unfolding handle_cron
  cron-Starts now s =
      begin_all-Starts
        (c.find_all (λ d. is_status d.status pending && leb d.scheduled_time now) s.schedules) s
