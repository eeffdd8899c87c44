-- ===== src/Whatsapp/Reconnection/Settled.antt =====
-- How a reconnection leaves the sessions.
use whataapp_otp_project.Base.{
  ℕ, zero, suc, ◌≡◌, refl, ◌∙◌, inl, inr, String, Bool, true, false, Option, none, some, List, [],
  ◌∷◌, ◌===◌, truthy, arith, eq_refl, Bool-cases, Option-cases, if_elim, ◌⊎◌,
}
use whataapp_otp_project.Base.JsMap
use whataapp_otp_project.Base.JsMap.{get-set, get-delete}
use whataapp_otp_project.Base.Collection.{Collection}
use whataapp_otp_project.Whatsapp.Sessions.{
  ClientState, Updates, Manager, new_state, assign, get_client_state, is_client_ready,
  create_session, update_client_state, remove_session,
}
use whataapp_otp_project.Whatsapp.Sessions.Saved.{Account, of_client}
use whataapp_otp_project.Whatsapp.Reconnection.{
  AuthEvent, ready, qr, auth_failure, timeout, wait_for_connected, SoftReply, Rebuild, is_connected,
  lost, regained, max_soft_init_attempts, World, succeed, finish_rebuild, rebuild,
  recreate_client_from_auth, rebuild_or_mark, soft_reconnect, handle_reconnection,
}

-- The sockets and the sessions of other clients are those of before.
pub record Spares (id : String) (m m' : Manager) : Type 0 where
  pub sockets : m'.socket_client_map ≡ m.socket_client_map
  pub others : (j : String) → (id === j) ≡ false → get_client_state j m' ≡ get_client_state j m

Spares-refl : (id : String) (m : Manager) → Spares id m m
Spares-refl id m = record { sockets = refl; others = λ j n. refl }

Spares-trans : (id : String) (m n o : Manager) → Spares id m n → Spares id n o → Spares id m o
Spares-trans id m n o a b = record {
  sockets = b.sockets ∙ a.sockets;
  others = λ j ne. b.others j ne ∙ a.others j ne;
}

remove-Spares : (id : String) (m : Manager) → Spares id m (remove_session id true m)
unfolding remove_session
remove-Spares id m = record {
  sockets = refl;
  others = λ j n. get-delete id j m.client_states ∙ rw n refl;
}

update-Spares : (id : String) (u : Updates) (m : Manager) → Spares id m (update_client_state id u m)
unfolding update_client_state
update-Spares id u m = elim (Option-cases (JsMap.get id m.client_states)) [
  | inl e ↦ rw (update_client_state, e) (Spares-refl id m)
  | inr (st, e) ↦
      rw (update_client_state, e)
        (record {
          sockets = refl;
          others = λ j n. get-set id j (assign st u) m.client_states ∙ rw n refl;
        })
]

create-Spares :
    (id user : String) (client now : ℕ) (m : Manager)
    → Spares id m (create_session id user true client now m).0
unfolding create_session
create-Spares id user client now m = elim (Option-cases (JsMap.get id m.client_states)) [
  | inr (st, e) ↦ rw (create_session, e) (Spares-refl id m)
  | inl e ↦
      rw (create_session, e)
        (record {
          sockets = refl;
          others = λ j n. get-set id j (new_state client user now) m.client_states ∙ rw n refl;
        })
]

removed-ready : (id : String) (m : Manager) → is_client_ready id (remove_session id true m) ≡ false
unfolding is_client_ready remove_session
removed-ready id m = ground (arith, get-delete id id m.client_states, eq_refl id)

-- A session that is there is ready as the update says.
updated-ready :
    (id : String) (u : Updates) (b : Bool) (m : Manager) (st : ClientState)
    → u.is_ready ≡ some b
    → get_client_state id m ≡ some st
    → is_client_ready id (update_client_state id u m) ≡ b
unfolding is_client_ready update_client_state assign
updated-ready id u b m st k e =
    ground (arith, get-set id id (assign st u) m.client_states, eq_refl id, k, e)

created-there :
    (id user : String) (client now : ℕ) (m : Manager)
    → (st : ClientState) × (get_client_state id (create_session id user true client now m).0
        ≡ some st)
unfolding create_session
created-there id user client now m = elim (Option-cases (JsMap.get id m.client_states)) [
  | inr (st, e) ↦ (st, rw (create_session, e) e)
  | inl e ↦ (
    new_state client user now,
    rw (create_session, e)
        (ground (arith, get-set id id (new_state client user now) m.client_states, eq_refl id)),
  )
]

-- The session is ready exactly where that is reported, and the others are spared.
pub record Settles (id : String) (m m' : Manager) (b : Bool) : Type 0 where
  pub told : is_client_ready id m' ≡ b
  pub spares : Spares id m m'

absent-ready :
    (id : String) (m : Manager) → get_client_state id m ≡ none → is_client_ready id m ≡ false
unfolding is_client_ready
absent-ready id m e = rw (is_client_ready, e) refl

module _ (c : Collection Account) where
  succeed-Settles :
      (id : String) (phone : Option String) (now : ℕ) (w : World c) (st : ClientState)
      → get_client_state id w.0 ≡ some st
      → Settles id w.0 (succeed c id phone now w).0 true
  unfolding succeed
  succeed-Settles id phone now w st e = record {
    told = updated-ready id (regained now) true w.0 st refl e;
    spares = update-Spares id (regained now) w.0;
  }

  removed-Settles : (id : String) (m : Manager) → Settles id m (remove_session id true m) false
  removed-Settles id m = record { told = removed-ready id m; spares = remove-Spares id m }

  finish_rebuild-Settles :
      (id : String) (r : Rebuild) (e : AuthEvent) (w : World c) (st : ClientState)
      → get_client_state id w.0 ≡ some st
      → Settles id w.0 (finish_rebuild c id r e w).0.0 (finish_rebuild c id r e w).1
  unfolding finish_rebuild
  finish_rebuild-Settles id r ready w st e = succeed-Settles id r.phone r.now w st e
  finish_rebuild-Settles id r qr w st e = removed-Settles id w.0
  finish_rebuild-Settles id r auth_failure w st e = removed-Settles id w.0
  finish_rebuild-Settles id r timeout w st e = removed-Settles id w.0

  after-Settles :
      (id : String) (m n o : Manager) (b : Bool)
      → Spares id m n
      → Settles id n o b
      → Settles id m o b
  after-Settles id m n o b a s = record { told = s.told; spares = Spares-trans id m n o a s.spares }

  rebuild-Settles :
      (id user : String) (r : Rebuild) (w : World c)
      → Settles id w.0 (rebuild c id user r w).0.0 (rebuild c id user r w).1
  unfolding rebuild
  rebuild-Settles id user r w =
      let m0 = remove_session id true w.0 in
      let m = (create_session id user true r.client r.now m0).0 in
      let there = created-there id user r.client r.now m0 in
      let spared =
        Spares-trans id w.0 m0 m (remove-Spares id w.0) (create-Spares id user r.client r.now m0) in
      if_elim (λ (o : World c × Bool). Settles id w.0 o.0.0 o.1) r.initialized
        (after-Settles id w.0 m _ _ spared
          (finish_rebuild-Settles id r (wait_for_connected r.events) (m, w.1) there.0 there.1))
        (after-Settles id w.0 m _ _ spared (removed-Settles id m))

  recreate-Settles :
      (id : String) (r : Rebuild) (w : World c)
      → is_client_ready id w.0 ≡ false
      → Settles id w.0
          (recreate_client_from_auth c id r w).0.0
          (recreate_client_from_auth c id r w).1
  unfolding recreate_client_from_auth
  recreate-Settles id r w h =
      let kept : Settles id w.0 w.0 false = record { told = h; spares = Spares-refl id w.0 } in
      elim (Option-cases (c.find_one (of_client id) w.1)) [
        | inl e ↦ rw (recreate_client_from_auth, e) kept
        | inr (a, e) ↦
            rw (recreate_client_from_auth, e)
              (if_elim (λ (o : World c × Bool). Settles id w.0 o.0.0 o.1) (truthy (some a.user))
                (rebuild-Settles id a.user r w) kept)
      ]

  rebuild_or_mark-Settles :
      (id : String) (r : Rebuild) (w : World c)
      → is_client_ready id w.0 ≡ false
      → Settles id w.0 (rebuild_or_mark c id r w).0.0 (rebuild_or_mark c id r w).1
  unfolding rebuild_or_mark
  rebuild_or_mark-Settles id r w h =
      let o = recreate_client_from_auth c id r w in
      if_elim (λ (v : World c). Settles id w.0 v.0 o.1) o.1 (recreate-Settles id r w h)
        (recreate-Settles id r w h)

  -- The soft attempts end in success, or leave everything as it was.
  soft-Settles :
      (n : ℕ) (id : String) (rs : List SoftReply) (w : World c)
      → ((soft_reconnect c n id rs w).1 ≡ true
          × Settles id w.0 (soft_reconnect c n id rs w).0.0 true)
        ⊎ (soft_reconnect c n id rs w ≡ (w, false))
  unfolding soft_reconnect
  soft-Settles zero id rs w = inr refl
  soft-Settles (suc n) id [] w = inr refl
  soft-Settles (suc n) id (r ∷ rs) w = elim (Option-cases (get_client_state id w.0)) [
    | inl e ↦ rw (soft_reconnect, e) (inr refl)
    | inr (st, e) ↦ elim (Bool-cases (is_connected r)) [
      | inl k ↦ rw (soft_reconnect, e, k) (inl (refl, succeed-Settles id r.phone r.now w st e))
      | inr k ↦ rw (soft_reconnect, e, k) (soft-Settles n id rs w)
    ]
  ]

  -- After a reconnection the client's session is ready exactly where the answer says so; every
  -- socket leads where it led, and the sessions of the other clients are those of before.
  pub reconnection-Settles :
      (id : String) (now : ℕ) (rs : List SoftReply) (r : Rebuild) (w : World c)
      → Settles id w.0
          (handle_reconnection c id now rs r w).0.0
          (handle_reconnection c id now rs r w).1
  unfolding handle_reconnection
  reconnection-Settles id now rs r w = elim (Option-cases (get_client_state id w.0)) [
    | inl e ↦ rw (handle_reconnection, e) (rebuild_or_mark-Settles id r w (absent-ready id w.0 e))
    | inr (st, e) ↦
        let m = update_client_state id (lost now) w.0 in
        let spared = update-Spares id (lost now) w.0 in
        let out = updated-ready id (lost now) false w.0 st refl e in
        elim (soft-Settles max_soft_init_attempts id rs (m, w.1)) [
          | inl (t, s) ↦ rw (handle_reconnection, e, t) (after-Settles id w.0 m _ true spared s)
          | inr f ↦
              rw (handle_reconnection, e, f)
                (after-Settles id w.0 m _ _ spared (rebuild_or_mark-Settles id r (m, w.1) out))
        ]
  ]
