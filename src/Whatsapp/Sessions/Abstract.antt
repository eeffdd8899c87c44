-- ===== src/Whatsapp/Sessions/Abstract.antt =====
-- The session manager as its clients see it: three partial functions, without an order of entries.
use whataapp_otp_project.Base.{
  ℕ, ◌≡◌, refl, subst, ◌∙◌, ap, inl, inr, String, Bool, true, false, not, Option, none, some, List,
  [], ◌∷◌, ◌===◌, if◌then◌else◌, arith, Option-cases, Bool-cases,
}
use whataapp_otp_project.Base.JsMap
use whataapp_otp_project.Base.JsMap.{IsKeyed, get-set, get-delete, get-retain}
use whataapp_otp_project.Whatsapp.Sessions.{
  ClientState, Updates, Manager, new_state, create_session, assign, update_client_state,
  remove_session, map_socket_to_client, unmap_socket,
}
use whataapp_otp_project.Whatsapp.Sessions.Laws.{
  IsValid, Op, creates, updates, removes, maps, unmaps, step, run, step-IsValid,
}

-- The session of each client, whether it was restored, and the client of each socket.
pub record View : Type 0 where
  pub sessions : String → Option ClientState
  pub restored : String → Option (Unit {0})
  pub sockets : String → Option String

abbrev pub put {ℓ} : {A : Type ℓ} → String → A → (String → Option A) → String → Option A
put k a f j = if k === j then some a else f j

abbrev pub drop_key {ℓ} : {A : Type ℓ} → String → (String → Option A) → String → Option A
drop_key k f j = if k === j then none else f j

-- A value that leads to this client is none.
abbrev pub unless : String → Option String → Option String
unless id none = none
unless id (some c) = if c === id then none else some c

abbrev pub created : Option ClientState → String → ClientState → Bool → View → View
created (some old) id st r v = v
created none id st r v = record {
  sessions = put id st v.sessions;
  restored = if r then put id tt v.restored else v.restored;
  sockets = v.sockets;
}

abbrev pub updated : Option ClientState → String → Updates → View → View
updated none id u v = v
updated (some st) id u v = record v { sessions = put id (assign st u) v.sessions }

-- What each call means.
abbrev pub replay_step : View → Op → View
replay_step v (creates id user r client now) =
    created (v.sessions id) id (new_state client user now) r v
replay_step v (updates id u) = updated (v.sessions id) id u v
replay_step v (removes id keeps) = record {
  sessions = drop_key id v.sessions;
  restored = drop_key id v.restored;
  sockets = if keeps then v.sockets else (λ s. unless id (v.sockets s));
}
replay_step v (maps socket id) = record v { sockets = put socket id v.sockets }
replay_step v (unmaps socket) = record v { sockets = drop_key socket v.sockets }

abbrev pub replay : View → List Op → View
replay v [] = v
replay v (o ∷ os) = replay (replay_step v o) os

-- Every look-up in the manager is that of the view.
pub record Shows (m : Manager) (v : View) : Type 0 where
  pub clients : (id : String) → JsMap.get id m.client_states ≡ v.sessions id
  pub marks : (id : String) → JsMap.get id m.restored_sessions ≡ v.restored id
  pub leads : (s : String) → JsMap.get s m.socket_client_map ≡ v.sockets s

put_shows {ℓ} :
    {A : Type ℓ} (k j : String) (a : A) (xs : List (String × A)) (f : String → Option A)
    → ((i : String) → JsMap.get i xs ≡ f i)
    → JsMap.get j (JsMap.set k a xs) ≡ put k a f j
put_shows k j a xs f h = get-set k j a xs ∙ ap (λ o. if k === j then some a else o) (h j)

drop_shows {ℓ} :
    {A : Type ℓ} (k j : String) (xs : List (String × A)) (f : String → Option A)
    → ((i : String) → JsMap.get i xs ≡ f i)
    → JsMap.get j (JsMap.delete k xs) ≡ drop_key k f j
drop_shows k j xs f h = get-delete k j xs ∙ ap (λ o. if k === j then none else o) (h j)

create-Shows :
    (id user : String) (r : Bool) (client now : ℕ) (m : Manager) (v : View)
    → Shows m v
    → Shows
        (create_session id user r client now m).0
        (created (JsMap.get id m.client_states) id (new_state client user now) r v)
unfolding create_session
create-Shows id user r client now m v h = elim (Option-cases (JsMap.get id m.client_states)) [
  | inr (st, e) ↦ rw (create_session, e) h
  | inl e ↦
      rw (create_session, e)
        (record {
          clients =
              λ j. put_shows id j (new_state client user now) m.client_states v.sessions h.clients;
          marks = λ j. elim (Bool-cases r) [
            | inl t ↦ rw t (put_shows id j tt m.restored_sessions v.restored h.marks)
            | inr t ↦ rw t (h.marks j)
          ];
          leads = h.leads;
        })
]

update-Shows :
    (id : String) (u : Updates) (m : Manager) (v : View)
    → Shows m v
    → Shows (update_client_state id u m) (updated (JsMap.get id m.client_states) id u v)
unfolding update_client_state
update-Shows id u m v h = elim (Option-cases (JsMap.get id m.client_states)) [
  | inl e ↦ rw (update_client_state, e) h
  | inr (st, e) ↦
      rw (update_client_state, e)
        (record {
          clients = λ j. put_shows id j (assign st u) m.client_states v.sessions h.clients;
          marks = h.marks;
          leads = h.leads;
        })
]

unless_lem :
    (id : String) (o : Option String)
    → elim o [ none ↦ none | some c ↦ if not (c === id) then some c else none ] ≡ unless id o
unless_lem id none = refl
unless_lem id (some c) = ground arith

remove-Shows :
    (id : String) (keeps : Bool) (m : Manager) (v : View)
    → IsKeyed m.socket_client_map
    → Shows m v
    → Shows (remove_session id keeps m) (replay_step v (removes id keeps))
unfolding remove_session
remove-Shows id true m v k h = record {
  clients = λ j. drop_shows id j m.client_states v.sessions h.clients;
  marks = λ j. drop_shows id j m.restored_sessions v.restored h.marks;
  leads = h.leads;
}
remove-Shows id false m v k h = record {
  clients = λ j. drop_shows id j m.client_states v.sessions h.clients;
  marks = λ j. drop_shows id j m.restored_sessions v.restored h.marks;
  leads = λ s.
      get-retain (λ socket client. not (client === id)) s m.socket_client_map k
      ∙ unless_lem id (JsMap.get s m.socket_client_map)
      ∙ ap (unless id) (h.leads s);
}

step-Shows :
    (m : Manager) (v : View) (o : Op) → IsValid m → Shows m v → Shows (step m o) (replay_step v o)
unfolding step map_socket_to_client unmap_socket
step-Shows m v (creates id user r client now) k h =
    subst
      (λ o.
        Shows (create_session id user r client now m).0
          (created o id (new_state client user now) r v))
      (h.clients id) (create-Shows id user r client now m v h)
step-Shows m v (updates id u) k h =
    subst (λ o. Shows (update_client_state id u m) (updated o id u v)) (h.clients id)
      (update-Shows id u m v h)
step-Shows m v (removes id keeps) k h = remove-Shows id keeps m v k.sockets h
step-Shows m v (maps socket id) k h = record {
  clients = h.clients;
  marks = h.marks;
  leads = λ s. put_shows socket s id m.socket_client_map v.sockets h.leads;
}
step-Shows m v (unmaps socket) k h = record {
  clients = h.clients;
  marks = h.marks;
  leads = λ s. drop_shows socket s m.socket_client_map v.sockets h.leads;
}

-- A manager whose maps are valid and that shows a view shows, after any calls, the view after them:
-- the sessions, the restored marks and the sockets behave as three partial functions.
pub run-Shows :
    (m : Manager) (v : View) (os : List Op) → IsValid m → Shows m v → Shows (run m os) (replay v os)
unfolding run
run-Shows m v [] k h = h
run-Shows m v (o ∷ os) k h =
    run-Shows (step m o) (replay_step v o) os (step-IsValid m o k) (step-Shows m v o k h)
