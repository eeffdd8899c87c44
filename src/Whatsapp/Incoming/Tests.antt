-- ===== src/Whatsapp/Incoming/Tests.antt =====
-- Messages that come in to a service with one handler, and the theorems about them.
use whataapp_otp_project.Base.{◌↔◌, ◌≡◌, refl, true, false, none, some, [], ◌∷◌, arith}
use whataapp_otp_project.Base.JsMap
use whataapp_otp_project.Whatsapp.Incoming.{
  Message, State, found, Incoming, ends_with, strip_prefix, remove_first, extract_sender,
  is_old_message, handle_incoming_message, new_service,
}
use whataapp_otp_project.Whatsapp.Incoming.Once.{receives, resets, run, IsSound, run-IsSound}
use whataapp_otp_project.Whatsapp.Incoming.Reasons.{Wanted, AddsToLog, handle_incoming_message_iff}

abbrev hello : Message
hello = record {
  id = "m1";
  from = "963933000001@c.us";
  body = some "hello";
  kind = some "chat";
  timestamp = some 100;
  has_media = false;
  from_me = false;
  is_forwarded = false;
}

abbrev arrives : Incoming
arrives = record {
  message = hello;
  client_id = "c1";
  account = found (some "a1");
  current_time = 101000;
  done_at = 101500;
}

abbrev service : State
service = record (new_service 0) {
  message_handlers = (λ p account. true) ∷ [];
  session_start_times = ("c1", 99000) ∷ [];
  unread_messages =
      ("m0", record { client_id = "c2"; from = "963933000002"; timestamp = 90000 }) ∷ [];
  processed_message_ids = ("m0", tt) ∷ [];
}

sender_of : extract_sender "963933000001@c.us" ≡ "963933000001"
unfolding extract_sender remove_first strip_prefix
sender_of = refl

old_messages :
    (is_old_message 93000 101000 (some 99000) ≡ true)
    × (is_old_message 94000 101000 (some 99000) ≡ false)
    × (is_old_message 71000 101000 none ≡ false)
    × (is_old_message 70999 101000 none ≡ true)
unfolding is_old_message
old_messages = (refl, refl, refl, refl)

service-IsSound : IsSound service
unfolding new_service
service-IsSound id = omega arith

run-IsSound_example : IsSound (run service (receives arrives ∷ resets "c1" ∷ receives arrives ∷ []))
run-IsSound_example =
    run-IsSound service (receives arrives ∷ resets "c1" ∷ receives arrives ∷ []) service-IsSound

arrives-Wanted : Wanted arrives service "a1"
unfolding new_service JsMap.get ends_with is_old_message
arrives-Wanted = record {
  unseen = refl;
  no_broadcast = refl;
  not_own = refl;
  recent = refl;
  known_account = refl;
  heard = refl;
}

handed_over : AddsToLog arrives service (handle_incoming_message arrives service) "a1"
handed_over = (handle_incoming_message_iff arrives "a1" service).1 arrives-Wanted

handle_incoming_message_iff_example :
    AddsToLog arrives service (handle_incoming_message arrives service) "a1"
    ↔ Wanted arrives service "a1"
handle_incoming_message_iff_example = handle_incoming_message_iff arrives "a1" service
