-- ===== src/Whatsapp/Sender/Single.antt =====
-- One message to one recipient: `assertWhatsAppConnected`, `sendSingleMessage`,
-- `sendSingleFileMessage`, `handleSendError`, `markSessionUnhealthy`.
mod Texts
unfoldable pub use Texts.*
use Prim.Native.Char.{code}
use Prim.Native.String
use text.Mathlib.Text.{find?}
use whataapp_otp_project.Base.{
  ℕ, ◌+◌, String, Bool, true, false, ◌&&◌, ◌||◌, Option, none, some, List, [], ◌∷◌, ◌++◌, ◌===◌,
  if◌then◌else◌, leb, truthy, any, is_some,
}
use whataapp_otp_project.Base.Collection.{Collection}
use whataapp_otp_project.Users.{User, EmbeddedSubscription}
use whataapp_otp_project.Users
use whataapp_otp_project.Whatsapp.Sessions.{Manager, Updates, update_client_state}
use whataapp_otp_project.Whatsapp.Ack.{
  Ack, Event, delivered, rejected, AckResult, wait_for_delivery_ack,
}

module _ (c : Collection User) where
  -- The sessions, the users, and the log: the messages handed to the client, and the sessions for
  -- which a reconnection was started.
  pub record World : Type 0 where
    pub manager : Manager
    pub users : c.Store
    pub outbox : List (String × String)
    pub recoveries : List String

  unfoldable pub mark_session_unhealthy : String → ℕ → World → World
  mark_session_unhealthy id now w = record w {
    manager = update_client_state id (unready now) w.manager;
    recoveries = w.recoveries ++ id ∷ [];
  }

  unfoldable pub increment_message_usage : String → World → World
  increment_message_usage user w = record w {
    users = c.update_one (Users.has_id user) count_one w.users;
  }

  -- The message of the exception, if one is thrown.
  unfoldable pub assert_whatsapp_connected :
      String → Bool → StateReply → ℕ → World → World × Option String
  assert_whatsapp_connected id trigger (state_is s) now w =
      if s === "CONNECTED" then (w, none) else (
        if trigger then mark_session_unhealthy id now w else w,
        some
            (concat "WhatsApp client is " (concat s ". Session recovery started — retry shortly.")),
      )
  assert_whatsapp_connected id trigger (state_failed m) now w = (
    if trigger then mark_session_unhealthy id now w else w,
    some "WhatsApp session is unhealthy and recovery has started. Please retry in a few seconds.",
  )

  -- The check made where the client's identifier is known.
  abbrev pub assert_if_known : Option String → StateReply → ℕ → World → World × Option String
  assert_if_known none reply now w = (w, none)
  assert_if_known (some id) reply now w =
      if truthy (some id) then assert_whatsapp_connected id true reply now w else (w, none)

  abbrev pub mark_if_known : Option String → ℕ → World → World
  mark_if_known none now w = w
  mark_if_known (some id) now w = if truthy (some id) then mark_session_unhealthy id now w else w

  unfoldable pub handle_send_error :
      String → Option String → Option String → String → ℕ → World → World × MessageResult
  unfolding is_stale_session_error
  handle_send_error recipient error id user now w =
      let message = or_unknown error in
      if truthy id && is_stale_session_error message
      then (
        mark_if_known id now w,
        failure recipient "Session became unhealthy and is recovering. Retry this send.",
      )
      else if is_known_success_error message
      then (
        if truthy (some user) then increment_message_usage user w else w,
        record {
          recipient = recipient;
          status = likely_sent;
          error = none;
          warning =
              some
                "WhatsApp accepted the send but delivery could not be confirmed. Verify on the device.";
          message_id = none;
        },
      )
      else if is_rate_limit_error message
      then (w, failure recipient "Rate limited - try again later")
      else (w, failure recipient message)

  -- What follows the wait for the acknowledgement; `id_or` fills in for a missing identifier.
  unfoldable pub after_wait :
      (Option String → Option String)
      → String
      → Option String
      → Option String
      → String
      → ℕ
      → AckResult
      → World
      → World × MessageResult
  after_wait id_or recipient id message_id user now (delivered true) w = (
    increment_message_usage user w,
    record {
      recipient = recipient;
      status = sent;
      error = none;
      warning = none;
      message_id = id_or message_id;
    },
  )
  after_wait id_or recipient id message_id user now (rejected m) w =
      handle_send_error recipient (some m) id user now w
  after_wait id_or recipient id message_id user now _ w = (
    mark_if_known id now w,
    record {
      recipient = recipient;
      status = failed;
      error =
          some "Message was not confirmed by WhatsApp. Session recovery started — please retry.";
      warning = none;
      message_id = message_id;
    },
  )

  -- What follows the answer of the client's `sendMessage`.
  unfoldable pub after_reply :
      (Option String → Option String)
      → String
      → Option String
      → String
      → ℕ
      → SendReply
      → World
      → World × MessageResult
  after_reply id_or recipient id user now (send_failed m) w =
      handle_send_error recipient m id user now w
  after_reply id_or recipient id user now (accepted message_id ack es) w =
      after_wait id_or recipient id message_id user now (wait_for_delivery_ack message_id ack es) w

  abbrev pub deliver :
      (Option String → Option String)
      → Option String
      → String
      → String
      → String
      → Attempt
      → World
      → World × MessageResult
  deliver id_or id recipient content user a w =
      after_reply id_or recipient id user a.sent_at a.reply
        (record w { outbox = w.outbox ++ (chat_id recipient, content) ∷ [] })

  -- The rest of the `try` block after the check of the connection.
  unfoldable pub after_check :
      (Option String → Option String)
      → Option String
      → String
      → String
      → String
      → Attempt
      → World × Option String
      → World × MessageResult
  after_check id_or id recipient content user a (w, some m) =
      handle_send_error recipient (some m) id user a.sent_at w
  after_check id_or id recipient content user a (w, none) =
      deliver id_or id recipient content user a w

  abbrev pub attempt_single :
      (Option String → Option String)
      → Option String
      → String
      → String
      → String
      → Attempt
      → World
      → World × MessageResult
  attempt_single id_or id recipient content user a w =
      after_check id_or id recipient content user a (assert_if_known id a.state_again a.sent_at w)

  unfoldable pub send_single_message :
      Option String → String → String → String → Attempt → World → World × MessageResult
  send_single_message id recipient content user a w =
      attempt_single or_unknown_id id recipient (uniq_content recipient content) user a w

  -- The three kinds of files are handed to the client in the same way, with the caption given.
  unfoldable pub send_single_file_message :
      Option String → String → String → String → Attempt → World → World × MessageResult
  send_single_file_message id recipient caption user a w =
      attempt_single (λ m. m) id recipient caption user a w

  -- The older way to send a picture, which greets the owner of the number itself.
  unfoldable pub send_single_photo_message :
      Option String → String → String → String → Attempt → World → World × MessageResult
  send_single_photo_message id recipient caption user a w =
      attempt_single or_unknown_id id recipient (uniq_content recipient caption) user a w
