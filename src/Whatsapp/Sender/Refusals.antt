-- ===== src/Whatsapp/Sender/Refusals.antt =====
-- When a send goes ahead, what its summary says, and what a refused send leaves alone.
use whataapp_otp_project.Base.{
  ℕ, ◌+◌, ◌<◌, ◌≡◌, refl, sym, ◌∙◌, ◌≢◌, inl, inr, String, Bool, true, false, Option, none, some,
  List, [], ◌∷◌, map, ap, length-map, if◌then◌else◌, arith, length, if_elim, find, Option-cases,
  eq_iff,
}
use whataapp_otp_project.Base.Collection.{Collection}
use whataapp_otp_project.Users.{User, EmbeddedSubscription}
use whataapp_otp_project.Users
use whataapp_otp_project.Whatsapp.Sessions.{ClientState, get_client_state}
use whataapp_otp_project.Whatsapp.Sender.Single.{
  MessageResult, StateReply, state_is, state_failed, Attempt, World, assert_whatsapp_connected,
}
use whataapp_otp_project.Whatsapp.Sender.Batch.{SendProgress}
use whataapp_otp_project.Whatsapp.Sender.Accounting.{
  successes, Tallies, send_to_recipients-Ran, send_to_recipients_with_photo-Ran,
}
use whataapp_otp_project.Whatsapp.Sender.Send.{
  SendError, already_sending, Result, ok, err, Answer, Call, lock, start_summary, lacks_content,
  content_of, check_subscription, validate_client_connection, admit, admit_state, with_content,
  with_recipients, send_resolved, send_body, set_flags, guarded, send_message,
}

-- The summary counts every result once, as the success or the failure that it is.
pub record Agrees (a : Answer) : Type 0 where
  pub total : a.summary.total ≡ length a.results
  pub completed : a.summary.completed ≡ length a.results
  pub successful : a.summary.successful ≡ successes a.results
  pub split : a.summary.successful + a.summary.failed ≡ length a.results

abbrev pub Reports : Result Answer → Type 0
Reports (err e) = Unit {0}
Reports (ok a) = Agrees a

Agrees-start :
    (n : ℕ) (p : SendProgress) (rs : List MessageResult) (photo : Bool)
    → n ≡ length rs
    → Tallies (start_summary n) p rs
    → Agrees (record { results = rs; photo_sent = photo; summary = p })
unfolding start_summary
Agrees-start n p rs photo h t = record {
  total = t.total ∙ h;
  completed = omega (arith, t.completed);
  successful = omega (arith, t.successful);
  split = omega (arith, t.split);
}

length-in_order :
    (rs : List MessageResult) (qs : List (String × Attempt))
    → map (λ r. r.recipient) rs ≡ map (λ q. q.0) qs
    → length qs ≡ length rs
length-in_order rs qs h =
    sym (length-map qs (λ q. q.0)) ∙ sym (ap length h) ∙ length-map rs (λ r. r.recipient)

module _ (c : Collection User) where
  send_resolved-Reports :
      (k : Call) (content : String) (rs : List (String × Attempt)) (w : World c)
      → k.user_id ≢ ""
      → Reports (send_resolved c k content rs w).1
  unfolding send_resolved
  send_resolved-Reports k content [] w real =
      unfold start_summary in
      record { total = refl; completed = refl; successful = refl; split = omega arith }
  send_resolved-Reports k content (r ∷ rs) w real =
      let p = start_summary (length (r ∷ rs)) in
      let photo =
        send_to_recipients_with_photo-Ran c k.options_client_id (r ∷ rs) content k.user_id p w
          real in
      let text = send_to_recipients-Ran c k.options_client_id (r ∷ rs) content k.user_id p w real in
      if_elim (λ (o : World c × Result Answer). Reports o.1) k.photo
        (Agrees-start _ _ _ true (length-in_order _ (r ∷ rs) photo.in_order) photo.tallies)
        (Agrees-start _ _ _ false (length-in_order _ (r ∷ rs) text.in_order) text.tallies)

  with_content-Reports :
      (k : Call) (o : Result String) (w : World c)
      → k.user_id ≢ ""
      → Reports (with_content c k o w).1
  unfolding with_content with_recipients
  with_content-Reports k (err e) w real = tt
  with_content-Reports k (ok content) w real = go k.recipients
    where
      go : (o : Result (List (String × Attempt))) → Reports (with_recipients c k content o w).1
      go (err e) = tt
      go (ok rs) = send_resolved-Reports k content rs w real

  -- The answer of a send agrees with itself: the summary's total and its completed messages are the
  -- results, its successes those that the results report, and its failures the others. The user's
  -- identifier is not empty.
  pub send_message-Reports :
      (k : Call) (w : World c) → k.user_id ≢ "" → Reports (send_message c k w).1
  unfolding send_message guarded send_body
  send_message-Reports k w real =
      let first = admit c k.client_id k.user_id k.state k.now w in
      let w' = set_flags c k.client_id (lock k.now) first.0 in
      let body : Reports (send_body c k w').1 =
        if_elim (λ (o : World c × Result Answer). Reports o.1) (lacks_content k.message k.photo) tt
          (with_content-Reports k (content_of k.message k.content) w' real) in
      elim (Option-cases first.1) [
        | inr (e, refused) ↦ rw (refused, send_message) tt
        | inl admitted ↦ rw (admitted, send_message) body
      ]

  -- The session of the call is ready, idle and connected, and its user has messages left.
  pub record Permits (k : Call) (w : World c) : Type 0 where
    pub state : ClientState
    pub found : get_client_state k.client_id w.manager ≡ some state
    pub ready : state.is_ready ≡ true
    pub idle : state.is_sending ≡ false
    pub connected : k.state ≡ state_is "CONNECTED"
    pub user : User
    pub is_user : find (Users.has_id k.user_id) (c.docs w.users) ≡ some user
    pub subscription : EmbeddedSubscription
    pub subscribed : user.subscription ≡ some subscription
    pub below : subscription.messages_used < subscription.message_limit

  subscribed_lem :
      (o : Option User)
      → check_subscription c o ≡ none
      → (u : User) × (sub : EmbeddedSubscription) × (o ≡ some u)
        × (u.subscription ≡ some sub)
        × (sub.messages_used < sub.message_limit)
  unfolding check_subscription
  subscribed_lem none h = ground arith
  subscribed_lem (some u) h = elim (Option-cases u.subscription) [
    | inl e ↦ ground arith
    | inr (sub, e) ↦ (u, sub, refl, e, ground arith)
  ]

  connected_lem :
      (st : ClientState) (id : String) (reply : StateReply) (now : ℕ) (w : World c)
      → (validate_client_connection c st id reply now w).1 ≡ none
      → (st.is_ready ≡ true) × (reply ≡ state_is "CONNECTED")
  unfolding validate_client_connection assert_whatsapp_connected
  connected_lem st id (state_failed m) now w h = ground arith
  connected_lem st id (state_is s) now w h =
      (ground arith, ap state_is (ground (arith, eq_iff s "CONNECTED")))

  abbrev refusal : World c × Option SendError → Option SendError
  refusal o = o.1

  passed_lem :
      (b : Bool) (o : Option SendError) (x : World c × Option SendError) (w : World c)
      → refusal
          (if b then (w, some already_sending) else elim o [ some e ↦ (w, some e) | none ↦ x ])
        ≡ none
      → (b ≡ false) × (o ≡ none) × (x.1 ≡ none)
  passed_lem true o x w h = cc
  passed_lem false none x w h = (refl, refl, h)
  passed_lem false (some e) x w h = cc

  admit_state-Permits :
      (k : Call) (o : Option ClientState) (w : World c)
      → get_client_state k.client_id w.manager ≡ o
      → (admit_state c o k.client_id k.user_id k.state k.now w).1 ≡ none
      → Permits k w
  unfolding admit_state
  admit_state-Permits k none w e h = ground arith
  admit_state-Permits k (some st) w e h =
      let users = c.find_one (Users.has_id k.user_id) w.users in
      let (idle, limit, valid) =
        passed_lem st.is_sending (check_subscription c users)
          (validate_client_connection c st k.client_id k.state k.now w) w h in
      let (u, sub, is_user, subscribed, below) = subscribed_lem users limit in
      let (ready, connected) = connected_lem st k.client_id k.state k.now w valid in
      record {
        state = st;
        found = e;
        ready = ready;
        idle = idle;
        connected = connected;
        user = u;
        is_user = sym (c.find_one_lem (Users.has_id k.user_id) w.users) ∙ is_user;
        subscription = sub;
        subscribed = subscribed;
        below = below;
      }

  -- A send that answers with results found a session that was ready, idle and connected, and a user
  -- whose subscription had messages left.
  pub send_message-Permits :
      (k : Call) (w : World c) (a : Answer) → (send_message c k w).1 ≡ ok a → Permits k w
  unfolding send_message admit
  send_message-Permits k w a h =
      let first = admit c k.client_id k.user_id k.state k.now w in
      elim (Option-cases first.1) [
        | inl admitted ↦
            admit_state-Permits k (get_client_state k.client_id w.manager) w refl admitted
        | inr (e, refused) ↦ ground (arith, refused)
      ]
