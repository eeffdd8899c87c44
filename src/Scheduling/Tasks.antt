-- ===== src/Scheduling/Tasks.antt =====
-- At most one task processes a schedule at a time.
use whataapp_otp_project.Base.{ℕ, ◌≡◌, ◌∙◌, String, Bool, false, some, List, [], ◌∷◌, ◌===◌, All}
use whataapp_otp_project.Base.JsMap
use whataapp_otp_project.Base.JsMap.{get-set, get-delete}
use whataapp_otp_project.Base.Collection.{Collection}
use whataapp_otp_project.Scheduling.{
  Schedule, CreateScheduleDto, UpdateScheduleDto, Phase, Reply, State, begin, advance, create,
  update, remove, cancel_schedule, handle_cron, init_schedules,
}
use whataapp_otp_project.Scheduling.Starts.{
  IsInStep, create-Starts, update-Starts, remove-Starts, cancel-Starts, init_schedules-Starts,
  cron-Starts, begin-Starts,
}
use whataapp_otp_project.Scheduling.Moves.{advance-Moves}

-- What reaches the service: requests, the cron job, timers that fire, and steps of the tasks.
pub data Event : Type 0 where
  creates : CreateScheduleDto → String → Bool → String → ℕ → ℕ → Event
  updates : String → UpdateScheduleDto → String → ℕ → ℕ → Event
  removes : String → String → Event
  cancels : String → String → Event
  cron : ℕ → Event
  fires : String → Event
  inits : ℕ → Event
  advances : String → Reply → Event

-- An event that is not a step of this schedule's task.
abbrev pub IsElsewhere : String → Event → Type 0
IsElsewhere id (advances j r) = (j === id) ≡ false
IsElsewhere id _ = Unit {0}

module _ (c : Collection Schedule) where
  abbrev pub happens : State c → Event → State c
  happens s (creates dto account owned id now job_now) =
      (create c dto account owned id now job_now s).0
  happens s (updates id dto account now job_now) = (update c id dto account now job_now s).0
  happens s (removes id account) = (remove c id account s).0
  happens s (cancels id account) = (cancel_schedule c id account s).0
  happens s (cron now) = handle_cron c now s
  happens s (fires id) = begin c id s
  happens s (inits now) = init_schedules c now s
  happens s (advances id r) = advance c id r s

  abbrev pub run : State c → List Event → State c
  run s [] = s
  run s (e ∷ es) = run (happens s e) es

  happens-IsInStep : (e : Event) (s : State c) → IsInStep c s → IsInStep c (happens s e)
  happens-IsInStep (creates dto account owned id now job_now) s h =
      (create-Starts c dto account owned id now job_now s).in_step h
  happens-IsInStep (updates id dto account now job_now) s h =
      (update-Starts c id dto account now job_now s).in_step h
  happens-IsInStep (removes id account) s h = (remove-Starts c id account s).in_step h
  happens-IsInStep (cancels id account) s h = (cancel-Starts c id account s).in_step h
  happens-IsInStep (cron now) s h = (cron-Starts c now s).in_step h
  happens-IsInStep (fires id) s h = (begin-Starts c id s).in_step h
  happens-IsInStep (inits now) s h = (init_schedules-Starts c now s).in_step h
  happens-IsInStep (advances id r) s h = (advance-Moves c id r s).in_step h

  -- Where the schedules marked as being processed are those for which a task runs, they stay so,
  -- whatever happens and in whatever order.
  pub run-IsInStep : (es : List Event) (s : State c) → IsInStep c s → IsInStep c (run s es)
  run-IsInStep [] s h = h
  run-IsInStep (e ∷ es) s h = run-IsInStep es (happens s e) (happens-IsInStep e s h)

  happens_keeps :
      (id : String) (ph : Phase) (e : Event) (s : State c)
      → IsInStep c s
      → IsElsewhere id e
      → JsMap.get id s.tasks ≡ some ph
      → JsMap.get id (happens s e).tasks ≡ some ph
  happens_keeps id ph (advances j r) s h away running =
      (advance-Moves c j r s).others id away ∙ running
  happens_keeps id ph (creates dto account owned i now job_now) s h away running =
      (create-Starts c dto account owned i now job_now s).kept id ph h running
  happens_keeps id ph (updates i dto account now job_now) s h away running =
      (update-Starts c i dto account now job_now s).kept id ph h running
  happens_keeps id ph (removes i account) s h away running =
      (remove-Starts c i account s).kept id ph h running
  happens_keeps id ph (cancels i account) s h away running =
      (cancel-Starts c i account s).kept id ph h running
  happens_keeps id ph (cron now) s h away running = (cron-Starts c now s).kept id ph h running
  happens_keeps id ph (fires i) s h away running = (begin-Starts c i s).kept id ph h running
  happens_keeps id ph (inits now) s h away running =
      (init_schedules-Starts c now s).kept id ph h running

  -- Where the marks fit the tasks, a task that runs is neither started again nor moved by anything
  -- but its own steps: not by the cron job, by timers, by requests or by other tasks.
  pub task_undisturbed :
      (id : String) (ph : Phase) (es : List Event) (s : State c)
      → IsInStep c s
      → All (IsElsewhere id) es
      → JsMap.get id s.tasks ≡ some ph
      → JsMap.get id (run s es).tasks ≡ some ph
  task_undisturbed id ph [] s h away running = running
  task_undisturbed id ph (e ∷ es) s h away running =
      task_undisturbed id ph es (happens s e) (happens-IsInStep e s h) away.1
        (happens_keeps id ph e s h away.0 running)
