-- ===== src/Scheduling/Schedules.antt =====
-- scheduling.service.ts and schema/schedule.schema.ts: schedules, the requests about them, and the
-- phases of their processing.
use Prim.Native.String
use whataapp_otp_project.Base.{
  ℕ, zero, suc, String, Bool, true, false, ◌&&◌, Option, none, some, List, ◌===◌, if◌then◌else◌,
}
use whataapp_otp_project.Whatsapp.Sessions.{ClientState}
use whataapp_otp_project.Whatsapp.Sender.Send.{
  SendError, session_not_found, already_sending, no_subscription,
}

-- schema/schedule.schema.ts
pub data ScheduleStatus : Type 0 where
  pending processing completed failed cancelled : ScheduleStatus

abbrev pub is_status : ScheduleStatus → ScheduleStatus → Bool
is_status pending pending = true
is_status processing processing = true
is_status completed completed = true
is_status failed failed = true
is_status cancelled cancelled = true
is_status _ _ = false

pub record Schedule : Type 0 where
  pub id : String
  pub message : String
  pub recipients : List String
  pub scheduled_time : ℕ
  pub whatsapp_account : String
  pub retry_count : ℕ
  pub status : ScheduleStatus
  pub completed_at : Option ℕ
  pub error : Option String
  pub message_delay_ms : ℕ

pub record CreateScheduleDto : Type 0 where
  pub message : String
  pub recipients : List String
  pub scheduled_time : ℕ
  pub message_delay_ms : Option ℕ

-- The fields of the request that are fields of a schedule.
pub record UpdateScheduleDto : Type 0 where
  pub message : Option String
  pub recipients : Option (List String)
  pub scheduled_time : Option ℕ
  pub message_delay_ms : Option ℕ
  pub status : Option ScheduleStatus

pub data ScheduleError : Type 0 where
  account_not_found : ScheduleError
  not_in_future : ScheduleError
  schedule_not_found : ScheduleError
  cannot_update : ScheduleStatus → ScheduleError
  cannot_delete : ScheduleError
  cannot_cancel : ScheduleStatus → ScheduleError

pub data Result {ℓ} (A : Type ℓ) : Type ℓ where
  ok : A → Result A
  err : ScheduleError → Result A

-- What the service asks of the registry of timers. Adding a timer under a name that is taken and
-- deleting one that is not there throw, and both exceptions are caught.
pub data TimerCall : Type 0 where
  add_timeout : String → ℕ → TimerCall
  delete_timeout : String → TimerCall

-- What `processSchedule` does next: read the schedule, mark it, ask for the account, send to those
-- that are left, and write the result. `failing` is the `catch` block.
pub data Phase : Type 0 where
  reading : Phase
  marking : Schedule → Phase
  asking : Schedule → Phase
  sending : Schedule → String → List String → Phase
  finishing : Option String → Phase
  failing : String → Phase

-- The answer of the accounts' service: the client's identifier of the account, or an exception.
pub data AccountReply : Type 0 where
  account_is : Option String → AccountReply
  account_failed : String → AccountReply

-- What a step of a task may be answered, and the time: `session` is the session of the account's
-- client when the send looks it up.
pub record Reply : Type 0 where
  pub account : AccountReply
  pub session : Option ClientState
  pub now : ℕ

-- How `sendMessage` of the sender refuses a call without a user, as `processSchedule` makes it: the
-- error and its text, which shows the user as one that is not there.
unfoldable pub refusal_without_user : Option ClientState → SendError × String
refusal_without_user none = (session_not_found, "Session not found. Please start a new session.")
refusal_without_user (some st) =
    if st.is_sending
    then (already_sending, "Already sending messages from this account. Please wait.")
    else (
      no_subscription,
      "User subscription not found for user undefined and subscription undefined and user null.",
    )

abbrev pub has_id : String → Schedule → Bool
has_id id d = d.id === id

abbrev pub is_of : String → String → Schedule → Bool
is_of id account d = (d.id === id) && (d.whatsapp_account === account)

abbrev or_keep {ℓ} : {A : Type ℓ} → A → Option A → A
or_keep a none = a
or_keep a (some b) = b

unfoldable pub apply_update : UpdateScheduleDto → Schedule → Schedule
apply_update dto d = record d {
  message = or_keep d.message dto.message;
  recipients = or_keep d.recipients dto.recipients;
  scheduled_time = or_keep d.scheduled_time dto.scheduled_time;
  message_delay_ms = or_keep d.message_delay_ms dto.message_delay_ms;
  status = or_keep d.status dto.status;
}

abbrev or_default_delay : Option ℕ → ℕ
or_default_delay none = 5000
or_default_delay (some zero) = 5000
or_default_delay (some (suc n)) = suc n

unfoldable pub new_schedule : CreateScheduleDto → String → String → Schedule
new_schedule dto account id = record {
  id = id;
  message = dto.message;
  recipients = dto.recipients;
  scheduled_time = dto.scheduled_time;
  whatsapp_account = account;
  retry_count = 0;
  status = pending;
  completed_at = none;
  error = none;
  message_delay_ms = or_default_delay dto.message_delay_ms;
}

abbrev pub set_status : ScheduleStatus → Schedule → Schedule
set_status st d = record d { status = st }

abbrev concat : String → String → String
concat s t = Prim.Native.String.◌++◌ s t

abbrev pub send_error : String → String → String
send_error recipient m = concat "Error sending to recipient " (concat recipient (concat ": " m))

abbrev pub no_account : String
no_account = "WhatsApp account not found or not connected"

-- The end of the `try` block, from the error of the first recipient that failed.
unfoldable pub close : Option String → ℕ → Schedule → Schedule
close none now d = record d { status = completed; completed_at = some now; error = none }
close (some m) now d = record d { status = failed; completed_at = none; error = some m }
