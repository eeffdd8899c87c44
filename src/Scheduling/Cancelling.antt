-- ===== src/Scheduling/Cancelling.antt =====
-- What a cancellation achieves before and after the processing has read the schedule.
use whataapp_otp_project.Base.{
  ◌≡◌, refl, sym, ◌∙◌, ap, subst, String, none, some, List, [], ◌∷◌, ◌===◌, arith, eq_iff, eq_refl,
  find, find_passes,
}
use whataapp_otp_project.Base.JsMap
use whataapp_otp_project.Base.JsMap.{get-set, get-delete}
use whataapp_otp_project.Base.Collection.{Collection, find-modify_first}
use whataapp_otp_project.Scheduling.{
  pending, processing, cancelled, Schedule, Phase, reading, marking, asking, Reply, Result, ok,
  has_id, is_of, set_status, State, drop_timer, move, finish, write, read_schedule, act, advance,
  cancel_schedule,
}

find_of :
    (id account : String) (ds : List Schedule) (d : Schedule)
    → find (has_id id) ds ≡ some d
    → d.whatsapp_account ≡ account
    → find (is_of id account) ds ≡ some d
find_of id account [] d h e = cc
find_of id account (x ∷ ds) d h e =
    ground (arith, eq_iff x.whatsapp_account account, find_of id account ds d)

module _ (c : Collection Schedule) where
  advance_phase :
      (id : String) (ph : Phase) (r : Reply) (s : State c)
      → JsMap.get id s.tasks ≡ some ph
      → advance c id r s ≡ act c id ph r s
  unfolding advance
  advance_phase id ph r s h = rw (h, advance) refl

  written :
      (id : String) (d : Schedule) (f : Schedule → Schedule) (store : c.Store)
      → ((x : Schedule) → (f x).id ≡ x.id)
      → find (has_id id) (c.docs store) ≡ some d
      → find (has_id id) (c.docs (c.update_one (has_id id) f store)) ≡ some (f d)
  written id d f store keeps found =
      ap (find (has_id id)) (c.update_one_lem (has_id id) f store)
      ∙ find-modify_first (has_id id) f (c.docs store) d found
          (ap (λ i. i === id) (keeps d) ∙ find_passes (has_id id) (c.docs store) found)

  module _ (id : String) (d : Schedule) (s : State c)
      (found : find (has_id id) (c.docs s.schedules) ≡ some d) (waits : d.status ≡ pending) where
    abbrev after_cancel : State c
    after_cancel = write c id (set_status cancelled) (drop_timer c id s)

    cancel_lem : cancel_schedule c id d.whatsapp_account s ≡ (after_cancel, ok id)
    unfolding cancel_schedule
    cancel_lem =
        let at_account : c.find_one (is_of id d.whatsapp_account) s.schedules ≡ some d =
          c.find_one_lem (is_of id d.whatsapp_account) s.schedules
          ∙ find_of id d.whatsapp_account (c.docs s.schedules) d found refl in
        rw (at_account, cancel_schedule) (ground (arith, waits))

    abbrev pub cancel : State c
    cancel = (cancel_schedule c id d.whatsapp_account s).0

    cancel_stored : find (has_id id) (c.docs after_cancel.schedules) ≡ some (set_status cancelled d)
    cancel_stored = written id d (set_status cancelled) s.schedules (λ x. refl) found

    read_cancelled :
        (r : Reply)
        → JsMap.get id s.tasks ≡ some reading
        → advance c id r after_cancel ≡ finish c id after_cancel
    unfolding act read_schedule
    read_cancelled r running =
        advance_phase id reading r after_cancel running
        ∙ ap (λ o. read_schedule c id o after_cancel)
            (c.find_one_lem (has_id id) after_cancel.schedules ∙ cancel_stored)

    mark_cancelled :
        (r : Reply)
        → JsMap.get id s.tasks ≡ some (marking d)
        → advance c id r after_cancel
          ≡ move c id (asking d) (write c id (set_status processing) after_cancel)
    unfolding act
    mark_cancelled r running = advance_phase id (marking d) r after_cancel running

    -- A pending schedule that is cancelled before its processing has read it is not sent: the step
    -- that reads it hands nothing over, leaves it cancelled, and ends the task.
    pub cancelled_in_time :
        (r : Reply)
        → JsMap.get id s.tasks ≡ some reading
        → ((advance c id r cancel).handed ≡ s.handed)
          × (find (has_id id) (c.docs (advance c id r cancel).schedules)
              ≡ some (set_status cancelled d))
          × (JsMap.get id (advance c id r cancel).tasks ≡ none)
    unfolding finish
    cancelled_in_time r running =
        subst
          (λ s'.
            (s'.handed ≡ s.handed)
            × (find (has_id id) (c.docs s'.schedules) ≡ some (set_status cancelled d))
            × (JsMap.get id s'.tasks ≡ none))
          (sym (
            ap (λ (o : State c × Result String). advance c id r o.0) cancel_lem
            ∙ read_cancelled r running))
          (refl, cancel_stored, ground (arith, eq_refl id, get-delete id id s.tasks))

    -- A cancellation that comes between the reading of the schedule and its marking is answered as
    -- a success, and undone: the schedule is then being processed, and the task goes on to send it.
    pub cancelled_too_late :
        (r : Reply)
        → JsMap.get id s.tasks ≡ some (marking d)
        → ((cancel_schedule c id d.whatsapp_account s).1 ≡ ok id)
          × (find (has_id id) (c.docs (advance c id r cancel).schedules)
              ≡ some (set_status processing (set_status cancelled d)))
          × (JsMap.get id (advance c id r cancel).tasks ≡ some (asking d))
    cancelled_too_late r running =
        let kept =
          subst
            (λ s'.
              (find (has_id id) (c.docs s'.schedules)
                ≡ some (set_status processing (set_status cancelled d)))
              × (JsMap.get id s'.tasks ≡ some (asking d)))
            (sym (
              ap (λ (o : State c × Result String). advance c id r o.0) cancel_lem
              ∙ mark_cancelled r running))
            (
              written id (set_status cancelled d) (set_status processing) after_cancel.schedules
                  (λ x. refl) cancel_stored,
              ground (arith, eq_refl id, get-set id id (asking d) s.tasks),
            ) in
        (ap (λ (o : State c × Result String). o.1) cancel_lem, kept.0, kept.1)
