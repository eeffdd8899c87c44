-- ===== src/Whatsapp/Events.antt =====
-- src/modules/whatsapp/services/event-handler.service.ts: what a client's events do, once its handlers
-- are set up: one client object with its session state, over the incoming messages, the session
-- manager, the accounts and the reconnection. `lower` stands for `toLowerCase`. The events that lead
-- to a ready client and the QR code are left out, and so are the log and the map of session states,
-- which only the reports read.
pub mod Silence
mod Tests
use whataapp_otp_project.Base.{
  ℕ, ◌+◌, String, Bool, true, false, not, ◌&&◌, ◌||◌, Option, none, some, List, [], ◌∷◌, ◌++◌,
  if◌then◌else◌, any,
}
use whataapp_otp_project.Base.Collection.{Collection}
use whataapp_otp_project.Whatsapp.Incoming.{
  Incoming, mark_session_start, handle_incoming_message, reset_client_stats,
}
use whataapp_otp_project.Whatsapp.Incoming
use whataapp_otp_project.Whatsapp.Sender.Single.{includes}
use whataapp_otp_project.Whatsapp.Sessions.{Updates, Manager, update_client_state}
use whataapp_otp_project.Whatsapp.Sessions.Saved.{Account, of_client, mark_session_as_disconnected}
use whataapp_otp_project.Whatsapp.Reconnection.{SoftReply, Rebuild, handle_reconnection}

pub record SessionState : Type 0 where
  pub is_handling_logout : Bool
  pub is_cleaning_up : Bool
  pub start_time : ℕ
  pub message_count : ℕ
  pub last_activity : ℕ

-- What the service tells the owner of the session; `logout_later` is the call of the account
-- service that it sets a timer for.
pub data Emitted : Type 0 where
  authenticated_at : ℕ → ℕ → Emitted
  auth_failed loading_over : String → Emitted
  error_at logged_out_at disconnected_at : String → ℕ → Emitted
  reconnecting : String → Emitted
  logout_later : String → Emitted

-- The times are those that the handler reads, for a message before and after it is handled; with a disconnection comes whether the listeners could be
-- removed, and what a reconnection meets.
pub data ClientEvent : Type 0 where
  message : Incoming → ℕ → ℕ → ClientEvent
  message_create : ℕ → ClientEvent
  authenticated : ℕ → ClientEvent
  auth_failure : String → ClientEvent
  error : String → ℕ → ClientEvent
  disconnected : String → ℕ → Bool → List SoftReply → Rebuild → ClientEvent

abbrev pub logout_reasons : List String
logout_reasons = "logout" ∷ "conflict" ∷ "logged out" ∷ "navigation" ∷ "replaced" ∷ []

unfoldable pub is_logout_reason : (String → String) → String → Bool
is_logout_reason lower reason = any (includes (lower reason)) logout_reasons

abbrev pub critical_errors : List String
critical_errors = "Session closed" ∷ "Protocol error" ∷ "Target closed" ∷ "Navigation timeout" ∷ []

unfoldable pub is_critical_error : String → Bool
is_critical_error text = any (includes text) critical_errors

abbrev pub is_closing : SessionState → Bool
is_closing st = st.is_handling_logout || st.is_cleaning_up

abbrev pub active_at : ℕ → Updates
active_at now = record {
  is_ready = none;
  is_sending = none;
  last_activity = some now;
  reconnect_attempts = none;
}

abbrev pub not_ready : Updates
not_ready = record {
  is_ready = some false;
  is_sending = none;
  last_activity = none;
  reconnect_attempts = none;
}

module _ (c : Collection Account) (lower : String → String) (id : String) where
  pub record World : Type 0 where
    pub session : SessionState
    pub listening : Bool
    pub incoming : Incoming.State
    pub manager : Manager
    pub accounts : c.Store
    pub told : List Emitted

  unfoldable pub setup_session_handlers : ℕ → World → World
  setup_session_handlers now w = record w {
    session = record {
      is_handling_logout = false;
      is_cleaning_up = false;
      start_time = now;
      message_count = 0;
      last_activity = now;
    };
    listening = true;
    incoming = mark_session_start id now w.incoming;
  }

  unfoldable pub on_message : Incoming → ℕ → ℕ → World → World
  on_message i begun now w =
      let st = w.session in
      if is_closing st then w else record w {
        session = record st { message_count = st.message_count + 1; last_activity = begun };
        incoming = handle_incoming_message i w.incoming;
        manager = update_client_state id (active_at now) w.manager;
      }

  unfoldable pub on_message_create : ℕ → World → World
  on_message_create now w =
      if not w.session.is_handling_logout && not w.session.is_cleaning_up
      then record w { session = record (w.session) { last_activity = now } }
      else w

  unfoldable pub on_authenticated : ℕ → World → World
  on_authenticated now w = if is_closing w.session then w else record w {
    session = record (w.session) { last_activity = now };
    manager = update_client_state id (active_at now) w.manager;
    told = w.told ++ authenticated_at now w.session.start_time ∷ [];
  }

  unfoldable pub on_error : String → ℕ → World → World
  on_error text now w =
      if is_closing w.session && (includes text "Protocol error" && includes text "Session closed")
      then w
      else if is_critical_error text && not w.session.is_handling_logout
      then record w { told = w.told ++ error_at text now ∷ loading_over id ∷ [] }
      else w

  -- A disconnection that is a logout; `removed` tells whether the listeners could be removed.
  unfoldable pub log_out : String → ℕ → Bool → World → World
  log_out reason now removed w = record w {
    session = record (w.session) { is_handling_logout = true; is_cleaning_up = true };
    listening = not removed;
    incoming = reset_client_stats id w.incoming;
    accounts = mark_session_as_disconnected c id w.accounts;
    told = w.told ++ logged_out_at reason now ∷ logout_later id ∷ [];
  }

  unfoldable pub reconnect : String → ℕ → List SoftReply → Rebuild → World → World
  reconnect reason now rs r w = elim (c.find_one (of_client id) w.accounts) [
    | none ↦ record w { accounts = mark_session_as_disconnected c id w.accounts }
    | some a ↦
        let (after, _) = handle_reconnection c id now rs r (w.manager, w.accounts) in
        record w {
          manager = after.0;
          accounts = after.1;
          told = w.told ++ reconnecting reason ∷ [];
        }
  ]

  unfoldable pub handle_client_disconnected :
      String → ℕ → Bool → List SoftReply → Rebuild → World → World
  handle_client_disconnected reason now removed rs r w =
      let w1 = record w { manager = update_client_state id not_ready w.manager } in
      if is_logout_reason lower reason
      then log_out reason now removed w1
      else reconnect reason now rs r
          (record w1 { told = w1.told ++ disconnected_at reason now ∷ [] })

  -- A handler, if the client still has its listeners.
  unfoldable pub handle : ClientEvent → World → World
  handle (message i begun now) w = on_message i begun now w
  handle (message_create now) w = on_message_create now w
  handle (authenticated now) w = on_authenticated now w
  handle (auth_failure text) w = record w {
    told = w.told ++ auth_failed text ∷ loading_over id ∷ [];
  }
  handle (error text now) w = on_error text now w
  handle (disconnected reason now removed rs r) w =
      handle_client_disconnected reason now removed rs r w

  unfoldable pub on_event : ClientEvent → World → World
  on_event e w = let out = handle e w in if w.listening then out else w

  unfoldable pub on_events : List ClientEvent → World → World
  on_events [] w = w
  on_events (e ∷ es) w = on_events es (on_event e w)
