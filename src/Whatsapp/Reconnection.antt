-- ===== src/Whatsapp/Reconnection.antt =====
-- src/modules/whatsapp/services/reconnection.service.ts and session-recovery.service.ts: how a lost
-- session is taken up again, over the session manager and the accounts. What the client answers comes
-- with a call. One reconnection of a client runs at a time, which its maps of promises see to; the
-- promises, the pauses and the log are left out, and so is what the old client does when it is destroyed.
pub mod Settled
mod Tests
use whataapp_otp_project.Base.{
  ℕ, zero, suc, String, Bool, true, false, ◌&&◌, Option, none, some, List, [], ◌∷◌, ◌===◌,
  if◌then◌else◌, truthy,
}
use whataapp_otp_project.Base.Collection.{Collection}
use whataapp_otp_project.Whatsapp.Sessions.{
  ClientState, Updates, Manager, get_client_state, create_session, update_client_state,
  remove_session,
}
use whataapp_otp_project.Whatsapp.Sessions.Saved.{
  Account, of_client, save_session_state, mark_session_as_disconnected,
}

pub data AuthEvent : Type 0 where
  ready qr auth_failure timeout : AuthEvent

-- The first of the events after the initialisation settles the wait; a wait without any times out.
unfoldable pub wait_for_connected : List AuthEvent → AuthEvent
wait_for_connected [] = timeout
wait_for_connected (e ∷ es) = e

-- One soft attempt: whether the client could be initialised, and the state that it then tells.
pub record SoftReply : Type 0 where
  pub initialized : Bool
  pub state : Option String
  pub phone : Option String
  pub now : ℕ

pub record Rebuild : Type 0 where
  pub client : ℕ
  pub initialized : Bool
  pub events : List AuthEvent
  pub phone : Option String
  pub now : ℕ

abbrev pub is_connected : SoftReply → Bool
is_connected r = elim r.state [ none ↦ false | some s ↦ r.initialized && (s === "CONNECTED") ]

abbrev pub lost : ℕ → Updates
lost now = record {
  is_ready = some false;
  is_sending = none;
  last_activity = some now;
  reconnect_attempts = none;
}

abbrev pub regained : ℕ → Updates
regained now = record {
  is_ready = some true;
  is_sending = none;
  last_activity = some now;
  reconnect_attempts = some 0;
}

unfoldable pub max_soft_init_attempts : ℕ
max_soft_init_attempts = 3

module _ (c : Collection Account) where
  abbrev pub World : Type 0
  World = Manager × c.Store

  -- The session is ready again, and saved.
  unfoldable pub succeed : String → Option String → ℕ → World → World
  succeed id phone now w =
      let m = update_client_state id (regained now) w.0 in
      (m, save_session_state c id phone now m w.1)

  unfoldable pub finish_rebuild : String → Rebuild → AuthEvent → World → World × Bool
  finish_rebuild id r ready w = (succeed id r.phone r.now w, true)
  finish_rebuild id r qr w = ((remove_session id true w.0, w.1), false)
  finish_rebuild id r auth_failure w = ((remove_session id true w.0, w.1), false)
  finish_rebuild id r timeout w = ((remove_session id true w.0, w.1), false)

  unfoldable pub rebuild : String → String → Rebuild → World → World × Bool
  rebuild id user r w =
      let m = (create_session id user true r.client r.now (remove_session id true w.0)).0 in
      if r.initialized
      then finish_rebuild id r (wait_for_connected r.events) (m, w.1)
      else ((remove_session id true m, w.1), false)

  unfoldable pub recreate_client_from_auth : String → Rebuild → World → World × Bool
  recreate_client_from_auth id r w = elim (c.find_one (of_client id) w.1) [
    | none ↦ (w, false)
    | some a ↦ if truthy (some a.user) then rebuild id a.user r w else (w, false)
  ]

  -- The full rebuild, and the mark on the account where it fails.
  unfoldable pub rebuild_or_mark : String → Rebuild → World → World × Bool
  rebuild_or_mark id r w =
      let (w1, rebuilt) = recreate_client_from_auth id r w in
      (if rebuilt then w1 else (w1.0, mark_session_as_disconnected c id w1.1), rebuilt)

  -- The soft attempts: as many as are left, on a session that is there.
  unfoldable pub soft_reconnect : ℕ → String → List SoftReply → World → World × Bool
  soft_reconnect zero id rs w = (w, false)
  soft_reconnect (suc n) id [] w = (w, false)
  soft_reconnect (suc n) id (r ∷ rs) w =
      let rest = soft_reconnect n id rs w in
      elim (get_client_state id w.0) [
        | none ↦ (w, false)
        | some st ↦ if is_connected r then (succeed id r.phone r.now w, true) else rest
      ]

  unfoldable pub handle_reconnection : String → ℕ → List SoftReply → Rebuild → World → World × Bool
  handle_reconnection id now rs r w = elim (get_client_state id w.0) [
    | none ↦ rebuild_or_mark id r w
    | some st ↦
        let (w1, soft) =
          soft_reconnect max_soft_init_attempts id rs
            (update_client_state id (lost now) w.0, w.1) in
        if soft then (w1, true) else rebuild_or_mark id r w1
  ]
