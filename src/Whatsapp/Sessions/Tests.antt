-- ===== src/Whatsapp/Sessions/Tests.antt =====
-- The session manager at concrete inputs.
use whataapp_otp_project.Base.{
  ◌≡◌, refl, ◌≢◌, String, true, false, none, some, List, [], ◌∷◌, arith, eq_iff,
}
use whataapp_otp_project.Base.JsMap
use whataapp_otp_project.Whatsapp.Sessions.{
  get_client_state, Updates, Manager, new_state, update_client_state, get_active_session_count,
  get_sessions_for_user,
}
use whataapp_otp_project.Whatsapp.Sessions.Saved.{Account}
use whataapp_otp_project.Whatsapp.Sessions.Abstract.{View, Shows, replay, run-Shows}
use whataapp_otp_project.Whatsapp.Sessions.Laws.{IsValid, creates, updates, removes, maps, Op, run}

abbrev ready : Updates
ready = record {
  is_ready = some true;
  is_sending = none;
  last_activity = some 9;
  reconnect_attempts = none;
}

abbrev nothing : Manager
nothing = record { client_states = []; socket_client_map = []; restored_sessions = [] }

abbrev two : Manager
two = record {
  client_states = ("c1", new_state 7 "u1" 1) ∷ ("c2", new_state 8 "u2" 2) ∷ [];
  socket_client_map = ("s1", "c1") ∷ ("s2", "c2") ∷ [];
  restored_sessions = ("c1", tt) ∷ [];
}

abbrev calls : List Op
calls = creates "c1" "u1" false 7 1 ∷ updates "c1" ready ∷ maps "s1" "c1" ∷ removes "c2" false ∷ []

two-IsValid : IsValid two
unfolding JsMap.get
two-IsValid = record {
  clients = (refl, (refl, tt));
  sockets = (refl, (refl, tt));
  restored = (refl, tt);
}

counting :
    (get_active_session_count (update_client_state "c2" ready two) ≡ 1)
    × (get_sessions_for_user "u1" two ≡ "c1" ∷ [])
unfolding get_active_session_count update_client_state get_sessions_for_user JsMap.get JsMap.set
counting = (refl, refl)

abbrev view : View
view = record {
  sessions = λ id. JsMap.get id two.client_states;
  restored = λ id. JsMap.get id two.restored_sessions;
  sockets = λ s. JsMap.get s two.socket_client_map;
}

two-Shows : Shows two view
two-Shows = record { clients = λ id. refl; marks = λ id. refl; leads = λ s. refl }

run-Shows_example : Shows (run two calls) (replay view calls)
run-Shows_example = run-Shows two view calls two-IsValid two-Shows

c1-ne-c2 : ◌≢◌ {A = String} "c1" "c2"
c1-ne-c2 = ground (arith, eq_iff "c1" "c2")

abbrev account : Account
account = record {
  name = "shop";
  phone_number = "1";
  user = "u1";
  client_id = some "c1";
  status = "active";
  session_data = record {
    is_authenticated = false;
    last_connected = 0;
    auth_state = "pending";
    session_valid = false;
  };
}

c1_runs : get_client_state "c1" two ≡ some (new_state 7 "u1" 1)
unfolding JsMap.get
c1_runs = refl
