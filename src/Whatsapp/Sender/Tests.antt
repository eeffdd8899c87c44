-- ===== src/Whatsapp/Sender/Tests.antt =====
-- A send to two recipients in memory, and the theorems about it.
use whataapp_otp_project.Base.{
  ◌≡◌, refl, ◌≢◌, String, true, false, none, some, List, [], ◌∷◌, arith, eq_iff,
}
use whataapp_otp_project.Base.JsMap
use whataapp_otp_project.Base.Collection.{in_memory}
use whataapp_otp_project.Users.{User, get_free_plan}
use whataapp_otp_project.Whatsapp.Sessions.{ClientState, update_client_state}
use whataapp_otp_project.Whatsapp.Ack.{
  level, Event, message_ack, poll, timeout, delivered, waiting, on_event, wait_events,
  wait_for_delivery_ack, wait_settles,
}
use whataapp_otp_project.Whatsapp.Sender.Single.{
  sent, state_is, accepted, Attempt, World, failure, after_reply, after_check, after_wait,
  assert_whatsapp_connected, send_single_message, increment_message_usage,
}
use whataapp_otp_project.Whatsapp.Sender.Batch.{
  tally, process, touch, send_loop, send_to_recipients,
}
use whataapp_otp_project.Whatsapp.Sender.Confirmed.{
  Confirmed, send_single_message-Confirmed, early_ack_fails,
}
use whataapp_otp_project.Whatsapp.Sender.Rows.{send_message_excel-Counts}
use whataapp_otp_project.Whatsapp.Sender.Send.{
  Row, send_message_excel, Answer, ok, Call, start_summary, is_blank, check_subscription,
  validate_client_connection, admit_state, admit, send_resolved, with_recipients, with_content,
  send_body, guarded, send_message,
}
use whataapp_otp_project.Whatsapp.Sender.Answers.{Counts, send_message-Counts}
use whataapp_otp_project.Whatsapp.Sender.Refusals.{Permits, send_message-Permits}

abbrev ann : User
ann = record {
  id = "u1";
  email = "ann@example.org";
  username = "ann";
  password = "x";
  user_role = "user";
  subscription = some (get_free_plan 0);
}

abbrev idle : ClientState
idle = record {
  client = 7;
  user_id = "u1";
  is_ready = true;
  is_sending = false;
  last_activity = 0;
  reconnect_attempts = 0;
}

abbrev world : World (in_memory User)
world = record {
  manager = record {
    client_states = ("c1", idle) ∷ [];
    socket_client_map = [];
    restored_sessions = [];
  };
  users = ann ∷ [];
  outbox = [];
  recoveries = [];
}

-- The first poll finds nothing; then WhatsApp's server has the message.
abbrev served : List Event
served =
    poll (some (level 0))
    ∷ message_ack (some "other") (level 1)
    ∷ message_ack (some "m1") (level 1)
    ∷ timeout none
    ∷ []

abbrev attempt : Attempt
attempt = record {
  state_before = state_is "CONNECTED";
  state_again = state_is "CONNECTED";
  reply = accepted (some "m1") (some (level 0)) served;
  checked_at = 10;
  sent_at = 20;
  done_at = 30;
}

abbrev lost : Attempt
lost = record attempt { reply = accepted (some "m1") none (timeout none ∷ []) }

abbrev recipients : List (String × Attempt)
recipients = ("963933000001", attempt) ∷ ("963933000002", lost) ∷ []

abbrev call : Call
call = record {
  client_id = "c1";
  options_client_id = some "c1";
  message = some "hello";
  photo = false;
  user_id = "u1";
  state = state_is "CONNECTED";
  content = ok "hello";
  recipients = ok recipients;
  now = 5;
}

named_user : ◌≢◌ {A = String} "u1" ""
named_user = ground (arith, eq_iff "u1" "")

named_message : ◌≢◌ {A = String} "m1" ""
named_message = ground (arith, eq_iff "m1" "")

confirmed_wait : wait_for_delivery_ack (some "m1") (some (level 0)) served ≡ delivered true
unfolding wait_for_delivery_ack wait_events on_event
confirmed_wait = refl

wait_settles_example : wait_for_delivery_ack (some "m1") none served ≢ waiting
wait_settles_example = wait_settles (some "m1") none served refl

one_sent :
    (send_single_message
      (in_memory User)
      (some "c1")
      "963933000001"
      "hello"
      "u1"
      attempt
      world).1.status
    ≡ sent
unfolding send_single_message after_check assert_whatsapp_connected after_reply after_wait
    wait_for_delivery_ack wait_events on_event
one_sent = refl

send_single_message-Confirmed_example : Confirmed (accepted (some "m1") (some (level 0)) served)
send_single_message-Confirmed_example =
    send_single_message-Confirmed (in_memory User) (some "c1") "963933000001" "hello" "u1" attempt
      world one_sent

early_ack_fails_example :
    after_reply
      (in_memory User)
      (λ m. m)
      "963933000001"
      (some "c1")
      "u1"
      20
      (accepted (some "m1") (some (level 1)) served)
      world
    ≡ (world, failure "963933000001" "Cannot access 'timer' before initialization")
early_ack_fails_example =
    early_ack_fails (in_memory User) (λ m. m) (some "c1") "963933000001" "m1" "u1" 1 20 served world
      named_message (omega arith)

send_message-Counts_example :
    Counts (in_memory User) "u1" world (send_message (in_memory User) call world)
send_message-Counts_example = send_message-Counts (in_memory User) call world named_user

abbrev one_call : Call
one_call = record call { recipients = ok (("963933000001", attempt) ∷ []) }

abbrev one_answer : Answer
one_answer = record {
  results =
      record {
        recipient = "963933000001";
        status = sent;
        error = none;
        warning = none;
        message_id = some "m1";
      }
      ∷ [];
  photo_sent = false;
  summary = record { total = 1; completed = 1; successful = 1; failed = 0; current_batch = 1 };
}

answered_one : (send_message (in_memory User) one_call world).1 ≡ ok one_answer
unfolding send_message guarded admit admit_state check_subscription validate_client_connection
    assert_whatsapp_connected get_free_plan send_body is_blank with_content with_recipients
    send_resolved start_summary send_to_recipients send_loop process send_single_message after_check
    after_reply after_wait wait_for_delivery_ack wait_events on_event tally touch
    increment_message_usage update_client_state JsMap.get JsMap.set
answered_one = refl

send_message-Permits_example : Permits (in_memory User) one_call world
send_message-Permits_example =
    send_message-Permits (in_memory User) one_call world one_answer answered_one

abbrev table : List (Row (in_memory User))
table =
    record {
      number = "963933000001";
      recipients = ok (("963933000001", attempt) ∷ []);
      content = ok "hello";
    }
    ∷ record { number = "x"; recipients = ok []; content = ok "hello" }
    ∷ []

send_message_excel-Counts_example :
    Counts (in_memory User) "u1" world (
      send_message_excel
        (in_memory User)
        "c1"
        (some "c1")
        "u1"
        (state_is "CONNECTED")
        5
        table
        world)
send_message_excel-Counts_example =
    send_message_excel-Counts (in_memory User) "c1" (some "c1") "u1" (state_is "CONNECTED") 5 table
      world named_user
