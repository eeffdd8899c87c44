-- ===== src/Whatsapp/Sessions.antt =====
-- src/modules/whatsapp/services/session-manager.service.ts: the sessions held in memory. A client
-- object is known by a number; a call takes the time that the service reads.
pub mod Abstract
pub mod Laws
pub mod Saved
mod Tests
use whataapp_otp_project.Base.{
  ℕ, String, Bool, true, false, Option, none, some, List, [], ◌∷◌, map, not, ◌===◌, if◌then◌else◌,
  filter, length, is_some,
}
use whataapp_otp_project.Base.JsMap

-- interfaces/client-state.interface.ts
pub record ClientState : Type 0 where
  pub client : ℕ
  pub user_id : String
  pub is_ready : Bool
  pub is_sending : Bool
  pub last_activity : ℕ
  pub reconnect_attempts : ℕ

-- `Partial<ClientState>`, in the fields that the callers give.
pub record Updates : Type 0 where
  pub is_ready : Option Bool
  pub is_sending : Option Bool
  pub last_activity : Option ℕ
  pub reconnect_attempts : Option ℕ

-- The two maps that the repository fills with nothing are left out.
pub record Manager : Type 0 where
  pub client_states : List (String × ClientState)
  pub socket_client_map : List (String × String)
  pub restored_sessions : List (String × Unit {0})

abbrev pub get_client_state : String → Manager → Option ClientState
get_client_state id m = JsMap.get id m.client_states

abbrev pub new_state : ℕ → String → ℕ → ClientState
new_state client user now = record {
  client = client;
  user_id = user;
  is_ready = false;
  is_sending = false;
  last_activity = now;
  reconnect_attempts = 0;
}

-- The client of the session, and whether it was made by this call: `client` is a new object.
unfoldable pub create_session : String → String → Bool → ℕ → ℕ → Manager → Manager × ℕ
create_session id user is_restore client now m = elim (JsMap.get id m.client_states) [
  | some st ↦ (m, st.client)
  | none ↦ (
    record m {
      client_states = JsMap.set id (new_state client user now) m.client_states;
      restored_sessions =
          if is_restore then JsMap.set id tt m.restored_sessions else m.restored_sessions;
    },
    client,
  )
]

abbrev or_keep {ℓ} : {A : Type ℓ} → Option A → A → A
or_keep none a = a
or_keep (some b) a = b

-- `Object.assign(state, updates)`
unfoldable pub assign : ClientState → Updates → ClientState
assign st u = record st {
  is_ready = or_keep u.is_ready st.is_ready;
  is_sending = or_keep u.is_sending st.is_sending;
  last_activity = or_keep u.last_activity st.last_activity;
  reconnect_attempts = or_keep u.reconnect_attempts st.reconnect_attempts;
}

unfoldable pub update_client_state : String → Updates → Manager → Manager
unfolding assign
update_client_state id u m = elim (JsMap.get id m.client_states) [
  | none ↦ m
  | some st ↦ record m { client_states = JsMap.set id (assign st u) m.client_states }
]

unfoldable pub remove_session : String → Bool → Manager → Manager
remove_session id preserve_socket_mappings m = record m {
  client_states = JsMap.delete id m.client_states;
  restored_sessions = JsMap.delete id m.restored_sessions;
  socket_client_map =
      if preserve_socket_mappings
      then m.socket_client_map
      else JsMap.retain (λ socket client. not (client === id)) m.socket_client_map;
}

unfoldable pub is_restored_session : String → Manager → Bool
is_restored_session id m = is_some (JsMap.get id m.restored_sessions)

unfoldable pub is_client_ready : String → Manager → Bool
is_client_ready id m = elim (JsMap.get id m.client_states) [ none ↦ false | some st ↦ st.is_ready ]

unfoldable pub get_active_session_count : Manager → ℕ
get_active_session_count m = length (filter (λ e. e.1.is_ready) m.client_states)

unfoldable pub get_total_session_count : Manager → ℕ
get_total_session_count m = length m.client_states

unfoldable pub get_sessions_for_user : String → Manager → List String
get_sessions_for_user user m = map (λ e. e.0) (filter (λ e. e.1.user_id === user) m.client_states)

unfoldable pub map_socket_to_client : String → String → Manager → Manager
map_socket_to_client socket id m = record m {
  socket_client_map = JsMap.set socket id m.socket_client_map;
}

unfoldable pub unmap_socket : String → Manager → Manager
unmap_socket socket m = record m { socket_client_map = JsMap.delete socket m.socket_client_map }

unfoldable pub get_client_id_by_socket : String → Manager → Option String
get_client_id_by_socket socket m = JsMap.get socket m.socket_client_map
