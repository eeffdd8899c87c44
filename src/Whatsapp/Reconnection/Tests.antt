-- ===== src/Whatsapp/Reconnection/Tests.antt =====
-- A concrete reconnection, and the lemma on it.
use whataapp_otp_project.Base.{◌≡◌, refl, true, false, none, some, [], ◌∷◌}
use whataapp_otp_project.Base.JsMap
use whataapp_otp_project.Base.Collection.{Collection, in_memory}
use whataapp_otp_project.Whatsapp.Sessions.{Manager, update_client_state}
use whataapp_otp_project.Whatsapp.Sessions.Saved.{Account}
use whataapp_otp_project.Whatsapp.Reconnection.{
  ready, qr, wait_for_connected, SoftReply, Rebuild, max_soft_init_attempts, finish_rebuild,
  rebuild, recreate_client_from_auth, rebuild_or_mark, soft_reconnect, handle_reconnection,
}
use whataapp_otp_project.Whatsapp.Reconnection.Settled.{Settles, reconnection-Settles}

abbrev accounts : Collection Account
accounts = in_memory Account

abbrev shop : Account
shop = record {
  name = "Shop";
  phone_number = "100";
  user = "u1";
  client_id = some "c1";
  status = "ready";
  session_data = record {
    is_authenticated = true;
    last_connected = 0;
    auth_state = "authenticated";
    session_valid = true;
  };
}

abbrev broken : Manager
broken = record {
  client_states =
      (
        "c1",
        record {
          client = 1;
          user_id = "u1";
          is_ready = true;
          is_sending = false;
          last_activity = 0;
          reconnect_attempts = 2;
        },
      )
      ∷ [];
  socket_client_map = ("s1", "c1") ∷ [];
  restored_sessions = [];
}

abbrev opening : SoftReply
opening = record { initialized = true; state = some "OPENING"; phone = none; now = 10 }

abbrev refused : SoftReply
refused = record { initialized = false; state = none; phone = none; now = 20 }

abbrev fresh : Rebuild
fresh = record {
  client = 2;
  initialized = true;
  events = ready ∷ qr ∷ [];
  phone = some "100";
  now = 40;
}

rebuilt :
    (handle_reconnection accounts "c1" 5
      (opening ∷ refused ∷ opening ∷ [])
      fresh
      (broken, shop ∷ [])).1
    ≡ true
unfolding handle_reconnection soft_reconnect max_soft_init_attempts rebuild_or_mark
    recreate_client_from_auth rebuild finish_rebuild wait_for_connected update_client_state
    JsMap.get JsMap.set
rebuilt = refl

reconnection-Settles_example :
    Settles "c1" broken
      (handle_reconnection accounts "c1" 5
        (opening ∷ refused ∷ opening ∷ [])
        fresh
        (broken, shop ∷ [])).0.0
      (handle_reconnection accounts "c1" 5
        (opening ∷ refused ∷ opening ∷ [])
        fresh
        (broken, shop ∷ [])).1
reconnection-Settles_example =
    reconnection-Settles accounts "c1" 5 (opening ∷ refused ∷ opening ∷ []) fresh
      (broken, shop ∷ [])
