-- ===== src/Whatsapp/Sender/Answers.antt =====
-- What a whole send does: the flags of the sessions, the user's count, and the answer.
use native.Mathlib.Nat.{zero-add}
use whataapp_otp_project.Base.{
  ℕ, ◌≡◌, subst, ◌∙◌, ◌≢◌, inl, inr, String, Bool, true, false, Option, none, some, List, [], ◌∷◌,
  ◌===◌, if◌then◌else◌, arith, eq_iff, eq_refl, length, if_elim, Option-cases,
}
use whataapp_otp_project.Base.JsMap
use whataapp_otp_project.Base.JsMap.{get-set}
use whataapp_otp_project.Base.Collection.{Collection}
use whataapp_otp_project.Users.{User}
use whataapp_otp_project.Whatsapp.Sessions.{
  ClientState, Updates, Manager, update_client_state, assign, get_client_state,
}
use whataapp_otp_project.Whatsapp.Sender.Single.{StateReply, Attempt, World}
use whataapp_otp_project.Whatsapp.Sender.Usage.{
  sending, Adds, Adds-nothing, Adds-trans, assert-Adds,
}
use whataapp_otp_project.Whatsapp.Sender.Accounting.{
  successes, send_to_recipients-Ran, send_to_recipients_with_photo-Ran,
}
use whataapp_otp_project.Whatsapp.Sender.Send.{
  Result, ok, err, Answer, Call, lock, unlock, start_summary, lacks_content, content_of,
  validate_client_connection, admit, admit_state, with_content, with_recipients, send_resolved,
  send_body, set_flags, guarded, send_message,
}

-- The successes that an answer reports.
abbrev pub answered : Result Answer → ℕ
answered (err e) = 0
answered (ok a) = successes a.results

module _ (c : Collection User) where
  -- An outcome that keeps every sending flag and counts the successes that it reports.
  abbrev pub Counts : String → World c → World c × Result Answer → Type 0
  Counts user w o = Adds c user (answered o.1) w o.0

  validate-Adds :
      (user id : String) (st : ClientState) (reply : StateReply) (now : ℕ) (w : World c)
      → Adds c user 0 w (validate_client_connection c st id reply now w).0
  unfolding validate_client_connection
  validate-Adds user id st reply now w =
      ground (arith, Adds-nothing c user w, assert-Adds c user id true reply now w)

  pub admit_state-Adds :
      (o : Option ClientState) (user' id user : String) (reply : StateReply) (now : ℕ) (w : World c)
      → Adds c user' 0 w (admit_state c o id user reply now w).0
  unfolding admit_state
  admit_state-Adds none user' id user reply now w = Adds-nothing c user' w
  admit_state-Adds (some st) user' id user reply now w =
      ground (arith, Adds-nothing c user' w, validate-Adds user' id st reply now w)

  -- An admitted session is there and idle.
  pub admit-idle :
      (id user : String) (reply : StateReply) (now : ℕ) (w : World c)
      → (admit c id user reply now w).1 ≡ none
      → sending id w.manager ≡ some false
  unfolding admit admit_state
  admit-idle id user reply now w h = ground arith

  send_resolved-Counts :
      (k : Call) (content : String) (rs : List (String × Attempt)) (w : World c)
      → k.user_id ≢ ""
      → Counts k.user_id w (send_resolved c k content rs w)
  unfolding send_resolved
  send_resolved-Counts k content [] w real = Adds-nothing c k.user_id w
  send_resolved-Counts k content (r ∷ rs) w real =
      if_elim (Counts k.user_id w) k.photo
        (send_to_recipients_with_photo-Ran c k.options_client_id (r ∷ rs) content k.user_id
          (start_summary (length (r ∷ rs))) w real).adds
        (send_to_recipients-Ran c k.options_client_id (r ∷ rs) content k.user_id
          (start_summary (length (r ∷ rs))) w real).adds

  with_recipients-Counts :
      (k : Call) (content : String) (o : Result (List (String × Attempt))) (w : World c)
      → k.user_id ≢ ""
      → Counts k.user_id w (with_recipients c k content o w)
  unfolding with_recipients
  with_recipients-Counts k content (err e) w real = Adds-nothing c k.user_id w
  with_recipients-Counts k content (ok rs) w real = send_resolved-Counts k content rs w real

  with_content-Counts :
      (k : Call) (o : Result String) (w : World c)
      → k.user_id ≢ ""
      → Counts k.user_id w (with_content c k o w)
  unfolding with_content
  with_content-Counts k (err e) w real = Adds-nothing c k.user_id w
  with_content-Counts k (ok content) w real = with_recipients-Counts k content k.recipients w real

  send_body-Counts :
      (k : Call) (w : World c) → k.user_id ≢ "" → Counts k.user_id w (send_body c k w)
  unfolding send_body
  send_body-Counts k w real =
      if_elim (Counts k.user_id w) (lacks_content k.message k.photo) (Adds-nothing c k.user_id w)
        (with_content-Counts k (content_of k.message k.content) w real)

  sending-flags :
      (j id : String) (u : Updates) (b b' : Bool) (m : Manager)
      → u.is_sending ≡ some b'
      → sending id m ≡ some b
      → sending j (update_client_state id u m) ≡ (if id === j then some b' else sending j m)
  unfolding update_client_state
  sending-flags j id u b b' m h is_there = elim (Option-cases (JsMap.get id m.client_states)) [
    | inl e ↦ ground arith
    | inr (st, e) ↦
        rw (e, update_client_state)
          (ground (arith, eq_iff id j, get-set id j (assign st u) m.client_states))
  ]

  -- The session is locked while the body runs and free afterwards, and every other flag is kept.
  pub guarded-Counts :
      (user id : String) (now : ℕ) (body : World c → World c × Result Answer) (w : World c)
      → sending id w.manager ≡ some false
      → ((w' : World c) → Counts user w' (body w'))
      → Counts user w (guarded c id now body w)
  unfolding guarded
  guarded-Counts user id now body w idle counts =
      let locked = set_flags c id (lock now) w in
      let o = body locked in
      let held : sending id o.0.manager ≡ some true =
        (counts locked).locks id
        ∙ ground (arith, eq_refl id, sending-flags id id (lock now) false true w.manager) in
      record {
        counted = (counts locked).counted;
        locks = λ j. ground (
          arith,
          eq_iff id j,
          held,
          sending-flags j id unlock true false o.0.manager,
          (counts locked).locks j,
          sending-flags j id (lock now) false true w.manager,
        );
      }

  -- A send, refused or not, leaves the sending flag of every session as it was, so a session is
  -- never left locked; and it raises the user's count by exactly the successes that it reports. The
  -- user's identifier is not empty.
  pub send_message-Counts :
      (k : Call) (w : World c) → k.user_id ≢ "" → Counts k.user_id w (send_message c k w)
  unfolding send_message
  send_message-Counts k w real =
      let first = admit c k.client_id k.user_id k.state k.now w in
      let pre : Adds c k.user_id 0 w first.0 =
        unfold admit in
        admit_state-Adds (get_client_state k.client_id w.manager) k.user_id k.client_id k.user_id
          k.state k.now w in
      elim (Option-cases first.1) [
        | inr (e, refused) ↦ rw (refused, send_message) pre
        | inl admitted ↦
            let idle =
              pre.locks k.client_id ∙ admit-idle k.client_id k.user_id k.state k.now w admitted in
            let last = guarded c k.client_id k.now (send_body c k) first.0 in
            rw (admitted, send_message)
              (subst (λ l. Adds c k.user_id l w last.0) (zero-add (answered last.1))
                (Adds-trans c k.user_id 0 (answered last.1) w first.0 last.0 pre (
                  guarded-Counts k.user_id k.client_id k.now (send_body c k) first.0 idle
                    (λ w'. send_body-Counts k w' real))))
      ]
