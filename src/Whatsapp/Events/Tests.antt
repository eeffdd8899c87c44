-- ===== src/Whatsapp/Events/Tests.antt =====
-- A client that is logged out from its phone, and what comes after.
use whataapp_otp_project.Base.{◌≡◌, refl, inr, String, true, false, none, List, [], ◌∷◌}
use whataapp_otp_project.Base.Collection.{Collection, in_memory}
use whataapp_otp_project.Whatsapp.Incoming.{new_service}
use whataapp_otp_project.Whatsapp.Sessions.{Manager}
use whataapp_otp_project.Whatsapp.Sessions.Saved.{Account}
use whataapp_otp_project.Whatsapp.Reconnection.{Rebuild}
use whataapp_otp_project.Whatsapp.Events.{
  ClientEvent, message_create, authenticated, error, is_logout_reason, is_critical_error,
  logged_out_at, logout_later, World, setup_session_handlers, log_out, handle_client_disconnected,
  on_events,
}
use whataapp_otp_project.Whatsapp.Events.Silence.{is_ordinary, AllOrdinary, logged_out_is_silent}

abbrev accounts : Collection Account
accounts = in_memory Account

abbrev plain : String → String
plain s = s

abbrev running : Manager
running = record {
  client_states =
      (
        "c1",
        record {
          client = 1;
          user_id = "u1";
          is_ready = true;
          is_sending = false;
          last_activity = 0;
          reconnect_attempts = 0;
        },
      )
      ∷ [];
  socket_client_map = [];
  restored_sessions = [];
}

abbrev fresh : World accounts plain "c1"
fresh = record {
  session = record {
    is_handling_logout = true;
    is_cleaning_up = true;
    start_time = 0;
    message_count = 2;
    last_activity = 0;
  };
  listening = false;
  incoming = new_service 0;
  manager = running;
  accounts = [];
  told = [];
}

abbrev start : World accounts plain "c1"
start = setup_session_handlers accounts plain "c1" 10 fresh

abbrev rebuild : Rebuild
rebuild = record { client = 2; initialized = true; events = []; phone = none; now = 40 }

abbrev afterwards : List ClientEvent
afterwards = message_create 31 ∷ error "Session closed" 32 ∷ authenticated 33 ∷ []

abbrev gone : World accounts plain "c1"
gone = handle_client_disconnected accounts plain "c1" "replaced" 30 false [] rebuild start

replaced_is_logout : is_logout_reason plain "replaced by a phone" ≡ true
unfolding is_logout_reason
replaced_is_logout = refl

errors_told_apart :
    (is_critical_error "Protocol error (Runtime.callFunctionOn)" ≡ true)
    × (is_critical_error "timeout" ≡ false)
unfolding is_critical_error
errors_told_apart = (refl, refl)

told_of_logout : gone.told ≡ logged_out_at "replaced" 30 ∷ logout_later "c1" ∷ []
unfolding handle_client_disconnected log_out is_logout_reason setup_session_handlers
told_of_logout = refl

logged_out_is_silent_example : on_events accounts plain "c1" afterwards gone ≡ gone
unfolding is_logout_reason is_ordinary AllOrdinary
logged_out_is_silent_example =
    logged_out_is_silent accounts plain "c1" "replaced" 30 false [] rebuild afterwards start refl
      (inr (refl, (refl, (refl, tt))))
