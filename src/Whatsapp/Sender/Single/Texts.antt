-- ===== src/Whatsapp/Sender/Single/Texts.antt =====
-- message-sender.service.ts: the results of messages, what the client answers, the texts that are
-- sent, and the errors that are told apart by their text.
use Prim.Native.Char.{code}
use Prim.Native.String
use text.Mathlib.Text.{find?}
use whataapp_otp_project.Base.{
  ℕ, ◌+◌, String, Bool, false, ◌&&◌, ◌||◌, Option, none, some, List, [], ◌∷◌, ◌===◌, if◌then◌else◌,
  leb, truthy, any, is_some,
}
use whataapp_otp_project.Users.{User}
use whataapp_otp_project.Whatsapp.Sessions.{Updates}
use whataapp_otp_project.Whatsapp.Ack.{Ack, Event}

pub data Status : Type 0 where
  sent failed likely_sent skipped : Status

pub record MessageResult : Type 0 where
  pub recipient : String
  pub status : Status
  pub error : Option String
  pub warning : Option String
  pub message_id : Option String

-- The answer of `client.getState()`, or the message of the error or of the time-out.
pub data StateReply : Type 0 where
  state_is : String → StateReply
  state_failed : String → StateReply

-- The answer of `client.sendMessage`: the message's identifier, its first acknowledgement and what
-- arrives while the service waits; or the message of the error, if it has one.
pub data SendReply : Type 0 where
  accepted : Option String → Option Ack → List Event → SendReply
  send_failed : Option String → SendReply

pub record Attempt : Type 0 where
  pub state_before : StateReply
  pub state_again : StateReply
  pub reply : SendReply
  pub checked_at : ℕ
  pub sent_at : ℕ
  pub done_at : ℕ

abbrev pub concat : String → String → String
concat s t = Prim.Native.String.◌++◌ s t

-- `s.includes(t)`
abbrev pub includes : String → String → Bool
includes s t = is_some (find? s t)

-- `recipient.replace(/\D/g, '')`
abbrev digits : String → String
digits String.[] = String.[]
digits (String.◌∷◌ c s) =
    let rest = digits s in
    if leb b'0' (code c) && leb (code c) b'9' then String.◌∷◌ c rest else rest

unfoldable pub chat_id : String → String
chat_id recipient = concat (digits recipient) "@c.us"

-- The text that greets the owner of the number.
unfoldable pub uniq_content : String → String → String
uniq_content recipient content =
    concat
      "\u{639}\u{632}\u{64a}\u{632}\u{64a} \u{635}\u{627}\u{62d}\u{628} \u{627}\u{644}\u{631}\u{642}\u{645} "
      (concat recipient (concat ":\n " (concat content "  ")))

abbrev pub stale_session_errors : List String
stale_session_errors =
    "Execution context was destroyed" ∷ "Protocol error" ∷ "Session closed" ∷ "Target closed"
    ∷ "Cannot find context with specified id" ∷ "Navigation failed" ∷ "net::ERR_"
    ∷ "getState timeout" ∷ []

abbrev pub known_success_errors : List String
known_success_errors =
    "getMessageModel" ∷ "msg.serialize is not a function" ∷ "Cannot read property 'serialize'" ∷ []

unfoldable pub is_stale_session_error : String → Bool
is_stale_session_error message = any (includes message) stale_session_errors

abbrev pub is_known_success_error : String → Bool
is_known_success_error message = any (includes message) known_success_errors

abbrev pub is_rate_limit_error : String → Bool
is_rate_limit_error message = includes message "Rate limit" || includes message "too many"

abbrev pub or_unknown : Option String → String
or_unknown none = "Unknown error"
or_unknown (some m) = if m === "" then "Unknown error" else m

abbrev pub unready : ℕ → Updates
unready now = record {
  is_ready = some false;
  is_sending = none;
  last_activity = some now;
  reconnect_attempts = none;
}

-- `$inc: { 'subscription.messagesUsed': 1 }`
abbrev pub count_one : User → User
count_one u = elim u.subscription [
  | none ↦ u
  | some sub ↦ record u {
    subscription = some (record sub { messages_used = sub.messages_used + 1 });
  }
]

abbrev pub failure : String → String → MessageResult
failure recipient error = record {
  recipient = recipient;
  status = failed;
  error = some error;
  warning = none;
  message_id = none;
}

-- `messageResult?.id?.id || 'unknown'`
abbrev pub or_unknown_id : Option String → Option String
or_unknown_id m = if truthy m then m else some "unknown"
