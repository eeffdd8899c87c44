-- ===== src/Whatsapp/Sender/Rows.antt =====
-- What a send from a table does: the flags of the sessions, and the user's count.
use native.Mathlib.Nat.{zero-add}
use whataapp_otp_project.Base.{
  ℕ, ◌+◌, sym, subst, ◌∙◌, ◌≢◌, inl, inr, String, Option, List, [], ◌∷◌, if◌then◌else◌,
  count-append, Option-cases,
}
use whataapp_otp_project.Base.Collection.{Collection}
use whataapp_otp_project.Users.{User}
use whataapp_otp_project.Whatsapp.Sessions.{get_client_state}
use whataapp_otp_project.Whatsapp.Sender.Single.{MessageResult, StateReply, Attempt, World}
use whataapp_otp_project.Whatsapp.Sender.Batch.{SendProgress, is_success}
use whataapp_otp_project.Whatsapp.Sender.Usage.{Adds, Adds-nothing, Adds-trans}
use whataapp_otp_project.Whatsapp.Sender.Accounting.{successes, send_to_recipients-Ran}
use whataapp_otp_project.Whatsapp.Sender.Send.{
  Result, ok, err, start_summary, admit, guarded, Row, first_success, send_row, send_rows,
  excel_body, send_message_excel,
}
use whataapp_otp_project.Whatsapp.Sender.Answers.{
  answered, Counts, admit_state-Adds, admit-idle, guarded-Counts,
}

module _ (c : Collection User) where
  resolved_row :
      (id : Option String) (user number : String) (rs : Result (List (String × Attempt)))
      (content : Result String) (w : World c)
      → user ≢ ""
      → let o =
          send_row c id user (record { number = number; recipients = rs; content = content }) w in
        Adds c user (successes o.1) w o.0
  unfolding send_row
  resolved_row id user number (err e) content w real = Adds-nothing c user w
  resolved_row id user number (ok []) content w real = Adds-nothing c user w
  resolved_row id user number (ok (r ∷ rs)) (err e) w real = Adds-nothing c user w
  resolved_row id user number (ok (r ∷ rs)) (ok content) w real =
      (send_to_recipients-Ran c id (r ∷ rs) content user (start_summary 1) w real).adds

  send_rows-Adds :
      (id : Option String) (user : String) (rows : List (Row c)) (p : SendProgress) (w : World c)
      → user ≢ ""
      → let o = send_rows c id user rows p w in Adds c user (successes o.2) w o.0
  unfolding send_rows
  send_rows-Adds id user [] p w real = Adds-nothing c user w
  send_rows-Adds id user (row ∷ rows) p w real =
      let o = send_row c id user row w in
      let p1 : SendProgress = record p {
        completed = p.completed + 1;
        successful = if first_success c o.1 then p.successful + 1 else p.successful;
      } in
      let o2 = send_rows c id user rows p1 o.0 in
      subst (λ k. Adds c user k w o2.0)
        (sym (count-append (λ (r : MessageResult). is_success r.status) o.1 o2.2))
        (Adds-trans c user (successes o.1) (successes o2.2) w o.0 o2.0
          (resolved_row id user row.number row.recipients row.content w real)
          (send_rows-Adds id user rows p1 o.0 real))

  -- A send from a table, refused or not, leaves the sending flag of every session as it was, and
  -- raises the user's count by exactly the successes that its results report. The user's identifier
  -- is not empty.
  pub send_message_excel-Counts :
      (id : String) (options_id : Option String) (user : String) (reply : StateReply) (now : ℕ)
      (rows : List (Row c)) (w : World c)
      → user ≢ ""
      → Counts c user w (send_message_excel c id options_id user reply now rows w)
  unfolding send_message_excel
  send_message_excel-Counts id options_id user reply now rows w real =
      let first = admit c id user reply now w in
      let pre : Adds c user 0 w first.0 =
        unfold admit in
        admit_state-Adds c (get_client_state id w.manager) user id user reply now w in
      let body = excel_body c options_id user rows in
      elim (Option-cases first.1) [
        | inr (e, refused) ↦ rw (refused, send_message_excel) pre
        | inl admitted ↦
            let idle = pre.locks id ∙ admit-idle c id user reply now w admitted in
            let last = guarded c id now body first.0 in
            rw (admitted, send_message_excel)
              (subst (λ l. Adds c user l w last.0) (zero-add (answered last.1))
                (Adds-trans c user 0 (answered last.1) w first.0 last.0 pre (
                  guarded-Counts c user id now body first.0 idle
                    (λ w'. unfold excel_body in send_rows-Adds options_id user rows _ w' real))))
      ]
