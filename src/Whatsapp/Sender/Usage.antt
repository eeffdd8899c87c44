-- ===== src/Whatsapp/Sender/Usage.antt =====
-- What one message does to the user's count, to the sessions and to its result.
use whataapp_otp_project.Base.{
  ℕ, ◌+◌, ◌≡◌, refl, ◌∙◌, ◌≢◌, inl, inr, String, Bool, true, false, Option, none, some, List, [],
  ◌∷◌, if◌then◌else◌, arith, eq_iff, find, truthy, Option-cases, if_elim, ◌&&◌, ◌++◌,
}
use whataapp_otp_project.Base.Collection.{Collection, modify_first}
use native.Mathlib.Nat.{add-zero, zero-add, add_assoc}
use whataapp_otp_project.Base.JsMap
use whataapp_otp_project.Base.JsMap.{get-set}
use whataapp_otp_project.Users.{User, has_id}
use whataapp_otp_project.Whatsapp.Sessions.{
  Manager, ClientState, Updates, update_client_state, assign,
}
use whataapp_otp_project.Whatsapp.Ack.{
  delivered, rejected, waiting, AckResult, wait_for_delivery_ack,
}
use whataapp_otp_project.Whatsapp.Sender.Single.{
  StateReply, state_is, state_failed, SendReply, accepted, send_failed, Attempt, World, count_one,
  mark_session_unhealthy, increment_message_usage, assert_whatsapp_connected, assert_if_known,
  handle_send_error, after_wait, after_reply, after_check, or_unknown_id, uniq_content,
  attempt_single, unready, chat_id, send_single_message, send_single_file_message,
  send_single_photo_message, mark_if_known, MessageResult, or_unknown, is_stale_session_error,
  is_known_success_error, is_rate_limit_error,
}
use whataapp_otp_project.Whatsapp.Sender.Batch.{is_success}

-- The messages counted for a user with a subscription.
abbrev pub usage_of : Option User → Option ℕ
usage_of none = none
usage_of (some u) = elim u.subscription [ none ↦ none | some sub ↦ some sub.messages_used ]

abbrev pub usage : String → List User → Option ℕ
usage id ds = usage_of (find (has_id id) ds)

usage-count_one :
    (id : String) (ds : List User) (n : ℕ)
    → usage id ds ≡ some n
    → usage id (modify_first (has_id id) count_one ds) ≡ some (n + 1)
usage-count_one id [] n h = cc
usage-count_one id (d ∷ ds) n h = ground (arith, usage-count_one id ds n)

-- Whether a client's session is sending.
abbrev pub sending_of : Option ClientState → Option Bool
sending_of none = none
sending_of (some st) = some st.is_sending

abbrev pub sending : String → Manager → Option Bool
sending id m = sending_of (JsMap.get id m.client_states)

pub sending-update_client_state :
    (j id : String) (u : Updates) (m : Manager)
    → u.is_sending ≡ none
    → sending j (update_client_state id u m) ≡ sending j m
unfolding update_client_state
sending-update_client_state j id u m h = elim (Option-cases (JsMap.get id m.client_states)) [
  | inl e ↦ rw (e, update_client_state)
  | inr (st, e) ↦
      rw (e, update_client_state)
        (ground (arith, eq_iff id j, get-set id j (assign st u) m.client_states))
]

module _ (c : Collection User) where
  -- One step on the way of a message: it keeps every session's sending flag, and adds to the user's
  -- count.
  pub record Adds (user : String) (k : ℕ) (w w' : World c) : Type 0 where
    pub counted :
        (n : ℕ) → usage user (c.docs w.users) ≡ some n → usage user (c.docs w'.users) ≡ some (n + k)
    pub locks : (j : String) → sending j w'.manager ≡ sending j w.manager

  pub Adds-nothing : (user : String) (w : World c) → Adds user 0 w w
  Adds-nothing user w = record { counted = λ n h. rw add-zero h; locks = λ j. refl }

  pub Adds-trans :
      (user : String) (k l : ℕ) (w w' w'' : World c)
      → Adds user k w w'
      → Adds user l w' w''
      → Adds user (k + l) w w''
  Adds-trans user k l w w' w'' a b = record {
    counted = λ n h. rw (← add_assoc n k l) (b.counted (n + k) (a.counted n h));
    locks = λ j. b.locks j ∙ a.locks j;
  }

  mark-Adds :
      (user id : String) (now : ℕ) (w : World c) → Adds user 0 w (mark_session_unhealthy c id now w)
  unfolding mark_session_unhealthy
  mark-Adds user id now w = record {
    counted = λ n h. rw add-zero h;
    locks = λ j. sending-update_client_state j id (unready now) w.manager refl;
  }

  increment-Adds : (user : String) (w : World c) → Adds user 1 w (increment_message_usage c user w)
  unfolding increment_message_usage
  increment-Adds user w = record {
    counted = λ n h.
        rw (c.update_one_lem (has_id user) count_one w.users)
          (usage-count_one user (c.docs w.users) n h);
    locks = λ j. refl;
  }

  pub assert-Adds :
      (user id : String) (trigger : Bool) (reply : StateReply) (now : ℕ) (w : World c)
      → Adds user 0 w (assert_whatsapp_connected c id trigger reply now w).0
  unfolding assert_whatsapp_connected
  assert-Adds user id trigger (state_is s) now w =
      ground (arith, Adds-nothing user w, mark-Adds user id now w)
  assert-Adds user id trigger (state_failed m) now w =
      ground (arith, Adds-nothing user w, mark-Adds user id now w)

  pub assert_if_known-Adds :
      (user : String) (id : Option String) (reply : StateReply) (now : ℕ) (w : World c)
      → Adds user 0 w (assert_if_known c id reply now w).0
  assert_if_known-Adds user none reply now w = Adds-nothing user w
  assert_if_known-Adds user (some id) reply now w =
      ground (arith, Adds-nothing user w, assert-Adds user id true reply now w)

  mark_if_known-Adds :
      (user : String) (id : Option String) (now : ℕ) (w : World c)
      → Adds user 0 w (mark_if_known c id now w)
  mark_if_known-Adds user none now w = Adds-nothing user w
  mark_if_known-Adds user (some id) now w =
      ground (arith, Adds-nothing user w, mark-Adds user id now w)

  -- A message was served: the result names the recipient, and the user's count grew by one exactly
  -- if the result reports a success.
  pub record Served (user recipient : String) (w w' : World c) (r : MessageResult) : Type 0 where
    pub adds : Adds user (if is_success r.status then 1 else 0) w w'
    pub to : r.recipient ≡ recipient

  abbrev pub Serves : String → String → World c → World c × MessageResult → Type 0
  Serves user recipient w o = Served user recipient w o.0 o.1

  handle_send_error-Serves :
      (recipient : String) (error : Option String) (id : Option String) (user : String) (now : ℕ)
      (w : World c)
      → user ≢ ""
      → Serves user recipient w (handle_send_error c recipient error id user now w)
  unfolding handle_send_error
  handle_send_error-Serves recipient error id user now w real =
      let message = or_unknown error in
      if_elim (Serves user recipient w) (truthy id && is_stale_session_error message)
        (record { adds = mark_if_known-Adds user id now w; to = refl })
        (if_elim (Serves user recipient w) (is_known_success_error message)
          (record { adds = ground (arith, eq_iff user "", increment-Adds user w); to = refl })
          (if_elim (Serves user recipient w) (is_rate_limit_error message)
            (record { adds = Adds-nothing user w; to = refl })
            (record { adds = Adds-nothing user w; to = refl })))

  after_wait-Serves :
      (id_or : Option String → Option String) (recipient : String) (id message_id : Option String)
      (user : String) (now : ℕ) (r : AckResult) (w : World c)
      → user ≢ ""
      → Serves user recipient w (after_wait c id_or recipient id message_id user now r w)
  unfolding after_wait
  after_wait-Serves id_or recipient id message_id user now (delivered true) w real = record {
    adds = increment-Adds user w;
    to = refl;
  }
  after_wait-Serves id_or recipient id message_id user now (delivered false) w real = record {
    adds = mark_if_known-Adds user id now w;
    to = refl;
  }
  after_wait-Serves id_or recipient id message_id user now (rejected m) w real =
      handle_send_error-Serves recipient (some m) id user now w real
  after_wait-Serves id_or recipient id message_id user now waiting w real = record {
    adds = mark_if_known-Adds user id now w;
    to = refl;
  }

  after_reply-Serves :
      (id_or : Option String → Option String) (recipient : String) (id : Option String)
      (user : String) (now : ℕ) (reply : SendReply) (w : World c)
      → user ≢ ""
      → Serves user recipient w (after_reply c id_or recipient id user now reply w)
  unfolding after_reply
  after_reply-Serves id_or recipient id user now (send_failed m) w real =
      handle_send_error-Serves recipient m id user now w real
  after_reply-Serves id_or recipient id user now (accepted message_id ack es) w real =
      after_wait-Serves id_or recipient id message_id user now
        (wait_for_delivery_ack message_id ack es) w real

  -- Steps that come before add up with the message.
  pub after-Serves :
      (user recipient : String) (w w' : World c) (o : World c × MessageResult)
      → Adds user 0 w w'
      → Serves user recipient w' o
      → Serves user recipient w o
  after-Serves user recipient w w' o first s = record {
    adds =
        rw (← zero-add (if is_success o.1.status then 1 else 0))
          (Adds-trans user 0 (if is_success o.1.status then 1 else 0) w w' o.0 first s.adds);
    to = s.to;
  }

  after_check-Serves :
      (id_or : Option String → Option String) (id : Option String) (recipient content user : String)
      (a : Attempt) (w : World c) (thrown : Option String)
      → user ≢ ""
      → Serves user recipient w (after_check c id_or id recipient content user a (w, thrown))
  unfolding after_check
  after_check-Serves id_or id recipient content user a w (some m) real =
      handle_send_error-Serves recipient (some m) id user a.sent_at w real
  after_check-Serves id_or id recipient content user a w none real =
      let w' = record w { outbox = w.outbox ++ (chat_id recipient, content) ∷ [] } in
      after-Serves user recipient w w' _
        (record { counted = λ n h. rw add-zero h; locks = λ j. refl })
        (after_reply-Serves id_or recipient id user a.sent_at a.reply w' real)

  attempt_single-Serves :
      (id_or : Option String → Option String) (id : Option String) (recipient content user : String)
      (a : Attempt) (w : World c)
      → user ≢ ""
      → Serves user recipient w (attempt_single c id_or id recipient content user a w)
  attempt_single-Serves id_or id recipient content user a w real =
      let checked = assert_if_known c id a.state_again a.sent_at w in
      after-Serves user recipient w checked.0 _
        (assert_if_known-Adds user id a.state_again a.sent_at w)
        (after_check-Serves id_or id recipient content user a checked.0 checked.1 real)

  pub send_single_message-Serves :
      (id : Option String) (recipient content user : String) (a : Attempt) (w : World c)
      → user ≢ ""
      → Serves user recipient w (send_single_message c id recipient content user a w)
  unfolding send_single_message
  send_single_message-Serves id recipient content user a w real =
      attempt_single-Serves or_unknown_id id recipient (uniq_content recipient content) user a w
        real

  pub send_single_file_message-Serves :
      (id : Option String) (recipient caption user : String) (a : Attempt) (w : World c)
      → user ≢ ""
      → Serves user recipient w (send_single_file_message c id recipient caption user a w)
  unfolding send_single_file_message
  send_single_file_message-Serves id recipient caption user a w real =
      attempt_single-Serves (λ m. m) id recipient caption user a w real

  pub send_single_photo_message-Serves :
      (id : Option String) (recipient caption user : String) (a : Attempt) (w : World c)
      → user ≢ ""
      → Serves user recipient w (send_single_photo_message c id recipient caption user a w)
  unfolding send_single_photo_message
  send_single_photo_message-Serves id recipient caption user a w real =
      attempt_single-Serves or_unknown_id id recipient (uniq_content recipient caption) user a w
        real
