-- ===== src/Scheduling/Moves.antt =====
-- What a step of a task does to the tasks.
use whataapp_otp_project.Base.{
  ◌≡◌, refl, String, false, Option, none, some, List, [], ◌∷◌, ◌===◌, arith, eq_iff, if_elim,
  Option-cases, inl, inr,
}
use whataapp_otp_project.Base.JsMap
use whataapp_otp_project.Base.JsMap.{get-set, get-delete}
use whataapp_otp_project.Base.Collection.{Collection}
use whataapp_otp_project.Scheduling.{
  refusal_without_user, pending, is_status, Schedule, Phase, reading, marking, asking, sending,
  finishing, failing, AccountReply, account_is, account_failed, Reply, State, finish, read_schedule,
  with_account, send_next, act, advance,
}
use whataapp_otp_project.Scheduling.Starts.{IsInStep}

module _ (c : Collection Schedule) where
  -- What a step of the task for `id` leaves: either its next phase or nothing of it, and every other
  -- task as it is.
  pub record Moves (id : String) (s s' : State c) : Type 0 where
    pub in_step : IsInStep c s → IsInStep c s'
    pub others : (j : String) → (id === j) ≡ false → JsMap.get j s'.tasks ≡ JsMap.get j s.tasks

  move-Moves :
      (id : String) (ph new : Phase) (s s' : State c)
      → JsMap.get id s.tasks ≡ some ph
      → s'.processing_schedules ≡ s.processing_schedules
      → s'.tasks ≡ JsMap.set id new s.tasks
      → Moves id s s'
  move-Moves id ph new s s' running p t = record {
    in_step = λ h j. rw (p, t) (ground (arith, h j, eq_iff id j, get-set id j new s.tasks));
    others = λ j ne. rw t (ground (arith, get-set id j new s.tasks));
  }

  finish-Moves :
      (id : String) (s s' : State c)
      → s'.processing_schedules ≡ s.processing_schedules
      → s'.tasks ≡ s.tasks
      → Moves id s (finish c id s')
  unfolding finish
  finish-Moves id s s' p t = record {
    in_step = λ h j.
        rw (p, t)
          (ground (arith, h j, get-delete id j s.tasks, get-delete id j s.processing_schedules));
    others = λ j ne. rw t (ground (arith, get-delete id j s.tasks));
  }

  read-Moves :
      (id : String) (d : Option Schedule) (ph : Phase) (s : State c)
      → JsMap.get id s.tasks ≡ some ph
      → Moves id s (read_schedule c id d s)
  unfolding read_schedule
  read-Moves id none ph s h = finish-Moves id s s refl refl
  read-Moves id (some d) ph s h =
      if_elim (Moves id s) (is_status d.status pending)
        (move-Moves id ph (marking d) s _ h refl refl) (finish-Moves id s s refl refl)

  with_account-Moves :
      (id : String) (d : Schedule) (a : AccountReply) (ph : Phase) (s : State c)
      → JsMap.get id s.tasks ≡ some ph
      → Moves id s (with_account c id d a s)
  unfolding with_account
  with_account-Moves id d (account_failed m) ph s h = move-Moves id ph _ s _ h refl refl
  with_account-Moves id d (account_is none) ph s h = move-Moves id ph _ s _ h refl refl
  with_account-Moves id d (account_is (some client)) ph s h =
      if_elim (Moves id s) (client === "") (move-Moves id ph _ s _ h refl refl)
        (move-Moves id ph _ s _ h refl refl)

  send_next-Moves :
      (id : String) (d : Schedule) (client : String) (rest : List String) (r : Option String)
      (ph : Phase) (s : State c)
      → JsMap.get id s.tasks ≡ some ph
      → Moves id s (send_next c id d client rest r s)
  unfolding send_next
  send_next-Moves id d client [] r ph s h = move-Moves id ph _ s _ h refl refl
  send_next-Moves id d client (x ∷ rest) none ph s h = move-Moves id ph _ s _ h refl refl
  send_next-Moves id d client (x ∷ rest) (some m) ph s h = move-Moves id ph _ s _ h refl refl

  act-Moves :
      (id : String) (ph : Phase) (r : Reply) (s : State c)
      → JsMap.get id s.tasks ≡ some ph
      → Moves id s (act c id ph r s)
  unfolding act
  act-Moves id reading r s h = read-Moves id _ reading s h
  act-Moves id (marking d) r s h = move-Moves id _ (asking d) s _ h refl refl
  act-Moves id (asking d) r s h = with_account-Moves id d r.account _ s h
  act-Moves id (sending d client rest) r s h =
      send_next-Moves id d client rest (some (refusal_without_user r.session).1) _ s h
  act-Moves id (finishing e) r s h = finish-Moves id s _ refl refl
  act-Moves id (failing m) r s h = finish-Moves id s _ refl refl

  pub advance-Moves : (id : String) (r : Reply) (s : State c) → Moves id s (advance c id r s)
  unfolding advance
  advance-Moves id r s = elim (Option-cases (JsMap.get id s.tasks)) [
    | inl e ↦ rw (e, advance) (record { in_step = λ h. h; others = λ j ne. refl })
    | inr (ph, e) ↦ rw (e, advance) (act-Moves id ph r s e)
  ]
