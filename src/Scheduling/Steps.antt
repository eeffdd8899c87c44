-- ===== src/Scheduling/Steps.antt =====
-- The steps of a task that processes a schedule.
use whataapp_otp_project.Base.{
  ◌≡◌, refl, ◌∙◌, ap, ◌≢◌, String, Option, none, some, List, [], ◌∷◌, ◌++◌, map, if◌then◌else◌,
  arith, eq_refl, find, ===-ne,
}
use whataapp_otp_project.Base.JsMap
use whataapp_otp_project.Base.JsMap.{get-set, get-delete}
use whataapp_otp_project.Base.Collection.{Collection}
use whataapp_otp_project.Scheduling.{
  pending, processing, is_status, Schedule, Phase, reading, marking, asking, sending, finishing,
  failing, account_is, Reply, has_id, set_status, State, move, finish, write, read_schedule,
  with_account, send_next, act, advance, no_account, send_error, refusal_without_user,
}

module _ (c : Collection Schedule) where
  -- A task that is given these replies, one for each of its steps, and nothing in between.
  abbrev pub drive : String → List Reply → State c → State c
  drive id [] s = s
  drive id (r ∷ rs) s = drive id rs (advance c id r s)

  abbrev pub phase_of : String → State c → Option Phase
  phase_of id s = JsMap.get id s.tasks

  -- The messages that a schedule hands over for some of its recipients.
  abbrev pub messages :
      String → Schedule → String → List String → List (String × String × String × String)
  messages id d client rs = map (λ r. (id, client, r, d.message)) rs

  -- What the send is refused with.
  abbrev pub refused : Reply → String
  refused r = (refusal_without_user r.session).1

  pub advance_at :
      (id : String) (ph : Phase) (r : Reply) (s : State c)
      → phase_of id s ≡ some ph
      → advance c id r s ≡ act c id ph r s
  unfolding advance
  advance_at id ph r s h = rw (h, advance) refl

  pub send_fails :
      (id : String) (d : Schedule) (client x : String) (rest : List String) (r : Reply)
      (s : State c)
      → phase_of id s ≡ some (sending d client (x ∷ rest))
      → advance c id r s
        ≡ move c id
            (finishing (some (send_error x (refused r))))
            (record s { handed = s.handed ++ (id, client, x, d.message) ∷ [] })
  unfolding act send_next
  send_fails id d client x rest r s h = advance_at id (sending d client (x ∷ rest)) r s h

  pub send_done :
      (id : String) (d : Schedule) (client : String) (r : Reply) (s : State c)
      → phase_of id s ≡ some (sending d client [])
      → advance c id r s ≡ move c id (finishing none) s
  unfolding act send_next
  send_done id d client r s h = advance_at id (sending d client []) r s h

  pub moved : (id : String) (ph : Phase) (s : State c) → phase_of id (move c id ph s) ≡ some ph
  moved id ph s = ground (arith, eq_refl id, get-set id id ph s.tasks)

  read_pending :
      (id : String) (d : Schedule) (r : Reply) (s : State c)
      → phase_of id s ≡ some reading
      → find (has_id id) (c.docs s.schedules) ≡ some d
      → d.status ≡ pending
      → advance c id r s ≡ move c id (marking d) s
  unfolding act read_schedule
  read_pending id d r s h found waits =
      advance_at id reading r s h
      ∙ ap (λ o. read_schedule c id o s) (c.find_one_lem (has_id id) s.schedules ∙ found)
      ∙ ap (λ st. if is_status st pending then move c id (marking d) s else finish c id s) waits

  mark :
      (id : String) (d : Schedule) (r : Reply) (s : State c)
      → phase_of id s ≡ some (marking d)
      → advance c id r s ≡ move c id (asking d) (write c id (set_status processing) s)
  unfolding act
  mark id d r s h = advance_at id (marking d) r s h

  ask :
      (id client : String) (d : Schedule) (r : Reply) (s : State c)
      → phase_of id s ≡ some (asking d)
      → r.account ≡ account_is (some client)
      → client ≢ ""
      → advance c id r s ≡ move c id (sending d client d.recipients) s
  unfolding act with_account
  ask id client d r s h account named =
      advance_at id (asking d) r s h
      ∙ ap (λ a. with_account c id d a s) account
      ∙ ap
          (λ b.
            if b
            then move c id (failing no_account) s
            else move c id (sending d client d.recipients) s)
          (===-ne client "" named)

  abbrev pub marked : String → Schedule → State c → State c
  marked id d s = write c id (set_status processing) (move c id (marking d) s)

  -- A pending schedule is read and marked, and its account is found.
  pub start_lem :
      (id client : String) (d : Schedule) (r0 r1 r2 : Reply) (s : State c)
      → phase_of id s ≡ some reading
      → find (has_id id) (c.docs s.schedules) ≡ some d
      → d.status ≡ pending
      → r2.account ≡ account_is (some client)
      → client ≢ ""
      → drive id (r0 ∷ r1 ∷ r2 ∷ []) s
        ≡ move c id (sending d client d.recipients) (move c id (asking d) (marked id d s))
  start_lem id client d r0 r1 r2 s h found waits account named =
      ap (λ s'. advance c id r2 (advance c id r1 s')) (read_pending id d r0 s h found waits)
      ∙ ap (advance c id r2) (mark id d r1 (move c id (marking d) s) (moved id (marking d) s))
      ∙ ask id client d r2 (move c id (asking d) (marked id d s))
          (moved id (asking d) (marked id d s)) account named
