-- ===== src/Scheduling/Tests.antt =====
-- A schedule for two recipients, and the theorems about it.
use whataapp_otp_project.Base.{
  ◌≡◌, refl, ◌≢◌, String, true, false, none, some, List, [], ◌∷◌, arith, eq_iff, find,
}
use whataapp_otp_project.Base.JsMap
use whataapp_otp_project.Base.Collection.{in_memory}
use whataapp_otp_project.Users.{User}
use whataapp_otp_project.Whatsapp.Sessions.{ClientState, get_client_state}
use whataapp_otp_project.Whatsapp.Sender.Single.{World, state_is}
use whataapp_otp_project.Whatsapp.Sender.Send
use whataapp_otp_project.Whatsapp.Sender.Send.{Call, send_message}
use whataapp_otp_project.Scheduling.{
  pending, processing, cancelled, Schedule, Phase, reading, marking, asking, account_is, Reply, ok,
  has_id, set_status, send_error, refusal_without_user, State, advance, cancel_schedule,
}
use whataapp_otp_project.Scheduling.Starts.{IsInStep}
use whataapp_otp_project.Scheduling.Steps.{drive}
use whataapp_otp_project.Scheduling.Tasks.{
  Event, cron, fires, cancels, removes, run, task_undisturbed,
}
use whataapp_otp_project.Scheduling.Sending.{Ended, stops_at_failure}
use whataapp_otp_project.Scheduling.Refused.{send_message-refusal_without_user}
use whataapp_otp_project.Scheduling.Cancelling.{cancelled_too_late}

abbrev news : Schedule
news = record {
  id = "s1";
  message = "hello";
  recipients = "963933000001" ∷ "963933000002" ∷ [];
  scheduled_time = 100;
  whatsapp_account = "a1";
  retry_count = 0;
  status = pending;
  completed_at = none;
  error = none;
  message_delay_ms = 5000;
}

abbrev in_phase : Phase → State (in_memory Schedule)
in_phase ph = record {
  schedules = news ∷ [];
  processing_schedules = ("s1", tt) ∷ [];
  tasks = ("s1", ph) ∷ [];
  timers = [];
  handed = [];
}

abbrev fine : Reply
fine = record { account = account_is (some "c1"); session = none; now = 200 }

c1_named : ◌≢◌ {A = String} "c1" ""
c1_named = ground (arith, eq_iff "c1" "")

in_phase-IsInStep : (ph : Phase) → IsInStep (in_memory Schedule) (in_phase ph)
unfolding JsMap.get
in_phase-IsInStep ph id = ground arith

abbrev traffic : List Event
traffic = cron 150 ∷ fires "s1" ∷ cancels "s1" "a1" ∷ removes "s2" "a1" ∷ []

task_undisturbed_example :
    JsMap.get "s1" (run (in_memory Schedule) (in_phase reading) traffic).tasks ≡ some reading
unfolding JsMap.get
task_undisturbed_example =
    task_undisturbed (in_memory Schedule) "s1" reading traffic (in_phase reading)
      (in_phase-IsInStep reading) (tt, (tt, (tt, (tt, tt)))) refl

stops_at_failure_example :
    Ended
      (in_memory Schedule)
      "s1"
      news
      "c1"
      ("963933000001" ∷ [])
      (some (send_error "963933000001" "Session not found. Please start a new session."))
      200
      (in_phase reading)
      (drive (in_memory Schedule) "s1" (fine ∷ fine ∷ fine ∷ fine ∷ fine ∷ []) (in_phase reading))
unfolding JsMap.get refusal_without_user
stops_at_failure_example =
    stops_at_failure (in_memory Schedule) "s1" "c1" news fine fine fine fine fine (in_phase reading)
      refl refl refl refl c1_named "963933000001" ("963933000002" ∷ []) refl

cancelled_too_late_example :
    let o = cancel_schedule (in_memory Schedule) "s1" "a1" (in_phase (marking news)) in
    (o.1 ≡ ok "s1")
    × (find (has_id "s1") (advance (in_memory Schedule) "s1" fine o.0).schedules
        ≡ some (set_status processing (set_status cancelled news)))
    × (JsMap.get "s1" (advance (in_memory Schedule) "s1" fine o.0).tasks ≡ some (asking news))
unfolding JsMap.get
cancelled_too_late_example =
    cancelled_too_late (in_memory Schedule) "s1" news (in_phase (marking news)) refl refl fine refl

abbrev idle : ClientState
idle = record {
  client = 7;
  user_id = "u1";
  is_ready = true;
  is_sending = false;
  last_activity = 0;
  reconnect_attempts = 0;
}

abbrev sender : World (in_memory User)
sender = record {
  manager = record {
    client_states = ("c1", idle) ∷ [];
    socket_client_map = [];
    restored_sessions = [];
  };
  users = [];
  outbox = [];
  recoveries = [];
}

abbrev call : Call
call = record {
  client_id = "c1";
  options_client_id = some "c1";
  message = some "hello";
  photo = false;
  user_id = "";
  state = state_is "CONNECTED";
  content = Send.ok "hello";
  recipients = Send.ok [];
  now = 5;
}

send_message-refusal_without_user_example :
    send_message (in_memory User) call sender
    ≡ (sender, Send.err (refusal_without_user (get_client_state "c1" sender.manager)).0)
send_message-refusal_without_user_example =
    send_message-refusal_without_user (in_memory User) call sender refl
