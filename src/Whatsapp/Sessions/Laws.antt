-- ===== src/Whatsapp/Sessions/Laws.antt =====
-- What the session manager keeps true.
use whataapp_otp_project.Base.{
  ℕ, ◌≡◌, ◌≢◌, inl, inr, String, Bool, false, not, Option, none, some, List, [], ◌∷◌, ◌===◌,
  if◌then◌else◌, arith, eq_iff, eq_refl, Option-cases,
}
use whataapp_otp_project.Base.JsMap
use whataapp_otp_project.Base.JsMap.{
  IsKeyed, get-set, get-delete, get-retain, set-IsKeyed, delete-IsKeyed, retain-IsKeyed,
}
use whataapp_otp_project.Whatsapp.Sessions.{
  ClientState, Updates, Manager, get_client_state, new_state, create_session, assign,
  update_client_state, remove_session, is_restored_session, is_client_ready, map_socket_to_client,
  unmap_socket, get_client_id_by_socket,
}

-- Each map holds a key once, and every restored session is a session.
pub record IsValid (m : Manager) : Type 0 where
  pub clients : IsKeyed m.client_states
  pub sockets : IsKeyed m.socket_client_map
  pub restored : IsKeyed m.restored_sessions

create_session-IsValid :
    (id user : String) (r : Bool) (client now : ℕ) (m : Manager)
    → IsValid m
    → IsValid (create_session id user r client now m).0
unfolding create_session
create_session-IsValid id user r client now m v = ground (
  arith,
  set-IsKeyed id (new_state client user now) m.client_states v.clients,
  set-IsKeyed id tt m.restored_sessions v.restored,
)

update_client_state-IsValid :
    (id : String) (u : Updates) (m : Manager) → IsValid m → IsValid (update_client_state id u m)
unfolding update_client_state
update_client_state-IsValid id u m v = elim (Option-cases (JsMap.get id m.client_states)) [
  | inl e ↦ rw (e, update_client_state) v
  | inr (st, e) ↦
      rw (e, update_client_state)
        (record {
          clients = set-IsKeyed id (assign st u) m.client_states v.clients;
          sockets = v.sockets;
          restored = v.restored;
        })
]

remove_session-IsValid :
    (id : String) (p : Bool) (m : Manager) → IsValid m → IsValid (remove_session id p m)
unfolding remove_session
remove_session-IsValid id p m v = ground (
  arith,
  delete-IsKeyed id m.client_states v.clients,
  delete-IsKeyed id m.restored_sessions v.restored,
  retain-IsKeyed (λ socket client. not (client === id)) m.socket_client_map v.sockets,
)

pub data Op : Type 0 where
  creates : String → String → Bool → ℕ → ℕ → Op
  updates : String → Updates → Op
  removes : String → Bool → Op
  maps : String → String → Op
  unmaps : String → Op

unfoldable pub step : Manager → Op → Manager
step m (creates id user r client now) = (create_session id user r client now m).0
step m (updates id u) = update_client_state id u m
step m (removes id p) = remove_session id p m
step m (maps socket id) = map_socket_to_client socket id m
step m (unmaps socket) = unmap_socket socket m

unfoldable pub run : Manager → List Op → Manager
run m [] = m
run m (o ∷ os) = run (step m o) os

pub step-IsValid : (m : Manager) (o : Op) → IsValid m → IsValid (step m o)
unfolding step map_socket_to_client unmap_socket
step-IsValid m (creates id user r client now) v = create_session-IsValid id user r client now m v
step-IsValid m (updates id u) v = update_client_state-IsValid id u m v
step-IsValid m (removes id p) v = remove_session-IsValid id p m v
step-IsValid m (maps socket id) v = record {
  clients = v.clients;
  sockets = set-IsKeyed socket id m.socket_client_map v.sockets;
  restored = v.restored;
}
step-IsValid m (unmaps socket) v = record {
  clients = v.clients;
  sockets = delete-IsKeyed socket m.socket_client_map v.sockets;
  restored = v.restored;
}

-- Whatever the calls, a client keeps one session, a socket one client, and a session is restored
-- once.
pub run-IsValid : (m : Manager) (os : List Op) → IsValid m → IsValid (run m os)
unfolding run
run-IsValid m [] v = v
run-IsValid m (o ∷ os) v = run-IsValid (step m o) os (step-IsValid m o v)

abbrev pub client_of : Option ClientState → Option ℕ
client_of none = none
client_of (some st) = some st.client

-- After a session is created, its client is the one that the call returned; a second call, for any
-- user and with any other new client, changes nothing and returns that client; and the sessions of
-- other clients are untouched.
pub create_session_once :
    (id user user' other : String) (r r' : Bool) (client client' now now' : ℕ) (m : Manager)
    → id ≢ other
    → let m' = (create_session id user r client now m).0 in
      let c = (create_session id user r client now m).1 in
      (client_of (get_client_state id m') ≡ some c)
      × (create_session id user' r' client' now' m' ≡ (m', c))
      × (get_client_state other m' ≡ get_client_state other m)
unfolding create_session
create_session_once id user user' other r r' client client' now now' m ne =
    let st = new_state client user now in
    let own = get-set id id st m.client_states in
    elim (Option-cases (JsMap.get id m.client_states)) [
      | inl e ↦ (
        ground (arith, eq_refl id, own),
        ground (arith, eq_refl id, own),
        ground (arith, eq_iff id other, get-set id other st m.client_states),
      )
      | inr (old, e) ↦ (ground arith, ground arith, ground arith)
    ]

-- Where the maps are valid, removing a session and its sockets leaves the client without a session,
-- not ready and not restored; no socket leads to it, and the sockets of the other clients stay.
pub remove_session_forgets :
    (id socket : String) (m : Manager)
    → IsValid m
    → let m' = remove_session id false m in
      (get_client_state id m' ≡ none)
      × (is_client_ready id m' ≡ false)
      × (is_restored_session id m' ≡ false)
      × (get_client_id_by_socket socket m' ≡ elim (get_client_id_by_socket socket m) [
        | none ↦ none
        | some c ↦ if c === id then none else some c
      ])
unfolding remove_session is_client_ready is_restored_session get_client_id_by_socket
remove_session_forgets id socket m v = (
  ground (arith, eq_refl id, get-delete id id m.client_states),
  ground (arith, eq_refl id, get-delete id id m.client_states),
  ground (arith, eq_refl id, get-delete id id m.restored_sessions),
  ground (arith, get-retain (λ s client. not (client === id)) socket m.socket_client_map v.sockets),
)
