-- ===== src/Scheduling/Sending.antt =====
-- What the processing of a schedule sends, and how the schedule ends.
use whataapp_otp_project.Base.{
  ℕ, ◌≡◌, refl, sym, subst, ◌∙◌, ap, ◌≢◌, String, true, Option, none, some, List, [], ◌∷◌, ◌++◌,
  ◌===◌, arith, eq_refl, find, find_passes,
}
use whataapp_otp_project.Base.JsMap
use whataapp_otp_project.Base.JsMap.{get-set, get-delete}
use whataapp_otp_project.Base.Collection.{Collection, find-modify_first}
use whataapp_otp_project.Scheduling.{
  pending, processing, Schedule, reading, asking, sending, finishing, account_is, Reply, has_id,
  set_status, State, move, finish, act, advance, close, send_error,
}
use whataapp_otp_project.Scheduling.Steps.{
  advance_at, send_fails, moved, start_lem, marked, drive, phase_of, messages, refused,
}

module _ (c : Collection Schedule) where
  -- What the processing of a schedule comes to: what it handed over, how the schedule ended, and that
  -- its task is over and its mark gone.
  pub record Ended (id : String) (d : Schedule) (client : String) (served : List String)
      (e : Option String) (now : ℕ) (s s' : State c) : Type 0 where
    pub handed : s'.handed ≡ s.handed ++ messages c id d client served
    pub result :
        find (has_id id) (c.docs s'.schedules) ≡ some (close e now (set_status processing d))
    pub over : phase_of c id s' ≡ none
    pub unmarked : JsMap.get id s'.processing_schedules ≡ none

  close_id : (e : Option String) (now : ℕ) (d : Schedule) → (close e now d).id ≡ d.id
  unfolding close
  close_id none now d = refl
  close_id (some m) now d = refl

  -- The schedule as it is written at the end.
  closed :
      (id : String) (d : Schedule) (e : Option String) (now : ℕ) (store : c.Store)
      → find (has_id id) (c.docs store) ≡ some d
      → find (has_id id) (
          c.docs (
            c.update_one
              (has_id id)
              (close e now)
              (c.update_one (has_id id) (set_status processing) store)))
        ≡ some (close e now (set_status processing d))
  closed id d e now store found =
      let named : has_id id d ≡ true = find_passes (has_id id) (c.docs store) found in
      let step1 = c.update_one_lem (has_id id) (set_status processing) store in
      let step2 =
        c.update_one_lem (has_id id) (close e now)
          (c.update_one (has_id id) (set_status processing) store) in
      ap (find (has_id id)) step2
      ∙ find-modify_first (has_id id) (close e now) _ (set_status processing d)
          (ap (find (has_id id)) step1
            ∙ find-modify_first (has_id id) (set_status processing) (c.docs store) d found named)
          (ap (λ i. i === id) (close_id e now (set_status processing d)) ∙ named)

  end_lem :
      (id : String) (d : Schedule) (client : String) (served : List String) (e : Option String)
      (r : Reply) (s s' : State c)
      → phase_of c id s' ≡ some (finishing e)
      → find (has_id id) (c.docs s.schedules) ≡ some d
      → s'.schedules ≡ c.update_one (has_id id) (set_status processing) s.schedules
      → s'.handed ≡ s.handed ++ messages c id d client served
      → Ended id d client served e r.now s (advance c id r s')
  unfolding act finish
  end_lem id d client served e r s s' h found stored log =
      subst (Ended id d client served e r.now s) (sym (advance_at c id (finishing e) r s' h))
        (record {
          handed = log;
          result =
              ap (λ st. find (has_id id) (c.docs (c.update_one (has_id id) (close e r.now) st)))
                stored
              ∙ closed id d e r.now s.schedules found;
          over = ground (arith, eq_refl id, get-delete id id s'.tasks);
          unmarked = ground (arith, eq_refl id, get-delete id id s'.processing_schedules);
        })

  module _ (id client : String) (d : Schedule) (r0 r1 r2 r3 r4 : Reply) (s : State c)
      (h : phase_of c id s ≡ some reading) (found : find (has_id id) (c.docs s.schedules) ≡ some d)
      (waits : d.status ≡ pending) (account : r2.account ≡ account_is (some client))
      (named : client ≢ "") where
    abbrev begun : State c
    begun = move c id (sending d client d.recipients) (move c id (asking d) (marked c id d s))

    -- A pending schedule whose account is found and that has recipients, processed without anything
    -- in between, stops at its first recipient, since the send, which is called without a user, is
    -- refused: the message was tried for that recipient alone, the schedule ends as failed with the
    -- error, and its task is over.
    pub stops_at_failure :
        (x : String) (after : List String)
        → d.recipients ≡ x ∷ after
        → Ended id d client
            (x ∷ [])
            (some (send_error x (refused c r3)))
            r4.now
            s
            (drive c id (r0 ∷ r1 ∷ r2 ∷ r3 ∷ r4 ∷ []) s)
    stops_at_failure x after all =
        let e = some (send_error x (refused c r3)) in
        let tried = record begun { handed = s.handed ++ (id, client, x, d.message) ∷ [] } in
        let last = move c id (finishing e) tried in
        let there : phase_of c id begun ≡ some (sending d client (x ∷ after)) =
          moved c id (sending d client d.recipients) (move c id (asking d) (marked c id d s))
          ∙ ap (λ rs. some (sending d client rs)) all in
        subst (Ended id d client (x ∷ []) e r4.now s)
          (sym (
            ap (λ s'. advance c id r4 (advance c id r3 s'))
              (start_lem c id client d r0 r1 r2 s h found waits account named)
            ∙ ap (advance c id r4) (send_fails c id d client x after r3 begun there)))
          (end_lem id d client (x ∷ []) e r4 s last (moved c id (finishing e) tried) found refl
            refl)
