-- ===== src/Whatsapp/Sender/Confirmed.antt =====
-- What the result of one message says about the message.
use whataapp_otp_project.Base.{
  ℕ, ◌≤◌, ◌≡◌, refl, ◌≢◌, ap, inl, inr, Bool-cases, String, true, false, Option, none, some, List,
  truthy, if_elim,
}
use mathlib.Core.List.{Memᴰ}
use whataapp_otp_project.Base.Collection.{Collection}
use whataapp_otp_project.Users.{User}
use whataapp_otp_project.Whatsapp.Ack.{
  Ack, level, Event, Confirms, AckResult, delivered, rejected, waiting, timer_error,
  wait_for_delivery_ack, delivered-Confirms, early_ack_rejects,
}
use whataapp_otp_project.Whatsapp.Sender.Single.{
  Status, sent, failed, likely_sent, MessageResult, SendReply, accepted, send_failed, Attempt,
  World, handle_send_error, after_wait, after_reply, after_check, or_unknown, failure,
  is_stale_session_error, is_known_success_error, is_rate_limit_error, uniq_content,
  assert_if_known, send_single_message,
}

-- A message confirmed by WhatsApp while the service waited for it.
pub record Confirmed (reply : SendReply) : Type 0 where
  pub message_id : String
  pub initial : Option Ack
  pub events : List Event
  pub was_accepted : reply ≡ accepted (some message_id) initial events
  pub event : Event
  pub arrived : Memᴰ event events
  pub confirms : Confirms message_id event

failed_unsent : ◌≢◌ {A = Status} failed sent
failed_unsent h = cc

likely_unsent : ◌≢◌ {A = Status} likely_sent sent
likely_unsent h = cc

module _ (c : Collection User) where
  abbrev Unsent : World c × MessageResult → Type 0
  Unsent o = o.1.status ≢ sent

  handle_send_error-unsent :
      (recipient : String) (error id : Option String) (user : String) (now : ℕ) (w : World c)
      → (handle_send_error c recipient error id user now w).1.status ≢ sent
  unfolding handle_send_error
  handle_send_error-unsent recipient error id user now w =
      let message = or_unknown error in
      if_elim Unsent _ failed_unsent (
        if_elim Unsent (is_known_success_error message) likely_unsent
          (if_elim Unsent (is_rate_limit_error message) failed_unsent failed_unsent))

  after_wait-sent :
      (id_or : Option String → Option String) (recipient : String) (id message_id : Option String)
      (user : String) (now : ℕ) (r : AckResult) (w : World c)
      → (after_wait c id_or recipient id message_id user now r w).1.status ≡ sent
      → r ≡ delivered true
  unfolding after_wait
  after_wait-sent id_or recipient id message_id user now (delivered true) w h = refl
  after_wait-sent id_or recipient id message_id user now (delivered false) w h = cc
  after_wait-sent id_or recipient id message_id user now (rejected m) w h =
      absurd (handle_send_error-unsent recipient (some m) id user now w h)
  after_wait-sent id_or recipient id message_id user now waiting w h = cc

  after_reply-sent :
      (id_or : Option String → Option String) (recipient : String) (id : Option String)
      (user : String) (now : ℕ) (reply : SendReply) (w : World c)
      → (after_reply c id_or recipient id user now reply w).1.status ≡ sent
      → Confirmed reply
  unfolding after_reply
  after_reply-sent id_or recipient id user now (send_failed m) w h =
      absurd (handle_send_error-unsent recipient m id user now w h)
  after_reply-sent id_or recipient id user now (accepted message_id ack es) w h =
      let (i, is_some, (e, m, k)) = delivered-Confirms message_id ack es (
        after_wait-sent id_or recipient id message_id user now
          (wait_for_delivery_ack message_id ack es) w h) in
      record {
        message_id = i;
        initial = ack;
        events = es;
        was_accepted = ap (λ m. accepted m ack es) is_some;
        event = e;
        arrived = m;
        confirms = k;
      }

  after_check-sent :
      (id_or : Option String → Option String) (id : Option String) (recipient content user : String)
      (a : Attempt) (w : World c) (thrown : Option String)
      → (after_check c id_or id recipient content user a (w, thrown)).1.status ≡ sent
      → Confirmed a.reply
  unfolding after_check
  after_check-sent id_or id recipient content user a w (some m) h =
      absurd (handle_send_error-unsent recipient (some m) id user a.sent_at w h)
  after_check-sent id_or id recipient content user a w none h =
      after_reply-sent id_or recipient id user a.sent_at a.reply _ h

  -- A message is reported as sent only if the client accepted it and, while the service waited, an
  -- event confirmed that very message: an acknowledgement under its identifier, or its own one at a
  -- poll or at the time-out, of level 1 or more.
  pub send_single_message-Confirmed :
      (id : Option String) (recipient content user : String) (a : Attempt) (w : World c)
      → (send_single_message c id recipient content user a w).1.status ≡ sent
      → Confirmed a.reply
  unfolding send_single_message
  send_single_message-Confirmed id recipient content user a w h =
      let checked = assert_if_known c id a.state_again a.sent_at w in
      after_check-sent _ id recipient (uniq_content recipient content) user a checked.0 checked.1 h

  timer_error-fails :
      (recipient : String) (id : Option String) (user : String) (now : ℕ) (w : World c)
      → handle_send_error c recipient (some timer_error) id user now w
        ≡ (w, failure recipient timer_error)
  unfolding handle_send_error is_stale_session_error
  timer_error-fails recipient id user now w = elim (Bool-cases (truthy id)) [
    | inl e ↦ rw e refl
    | inr e ↦ rw e refl
  ]

  -- A message with an identifier whose first acknowledgement already says that WhatsApp has it is
  -- reported as failed, and neither the users nor the sessions change for it.
  pub early_ack_fails :
      (id_or : Option String → Option String) (id : Option String)
      (recipient message_id user : String) (n now : ℕ) (es : List Event) (w : World c)
      → message_id ≢ ""
      → 1 ≤ n
      → after_reply c id_or recipient id user now (accepted (some message_id) (some (level n)) es) w
        ≡ (w, failure recipient timer_error)
  unfolding after_reply after_wait
  early_ack_fails id_or id recipient message_id user n now es w named high =
      rw (early_ack_rejects message_id n es named high) (timer_error-fails recipient id user now w)
