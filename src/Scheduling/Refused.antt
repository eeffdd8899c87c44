-- ===== src/Scheduling/Refused.antt =====
-- The send that the processing of a schedule asks for, and the sender that answers it.
use whataapp_otp_project.Base.{◌≡◌, refl, ap, inl, inr, Option, none, some, Bool-cases}
use whataapp_otp_project.Base.Collection.{Collection}
use whataapp_otp_project.Users.{User}
use whataapp_otp_project.Users
use whataapp_otp_project.Whatsapp.Sessions.{ClientState, get_client_state}
use whataapp_otp_project.Whatsapp.Sender.Single.{World}
use whataapp_otp_project.Whatsapp.Sender.Send.{
  SendError, err, Call, check_subscription, admit_state, admit, send_message,
}
use whataapp_otp_project.Scheduling.{refusal_without_user}

module _ (c : Collection User) where
  refused_lem :
      (k : Call) (o : Option ClientState) (w : World c)
      → c.find_one (Users.has_id k.user_id) w.users ≡ none
      → admit_state c o k.client_id k.user_id k.state k.now w ≡ (w, some (refusal_without_user o).0)
  unfolding admit_state check_subscription refusal_without_user
  refused_lem k none w gone = refl
  refused_lem k (some st) w gone = elim (Bool-cases st.is_sending) [
    | inl busy ↦ rw busy refl
    | inr idle ↦ rw (idle, gone) refl
  ]

  -- A send for a user that is not stored is refused, whatever its session, recipients and content,
  -- with the error that the processing of a schedule meets, and changes nothing.
  pub send_message-refusal_without_user :
      (k : Call) (w : World c)
      → c.find_one (Users.has_id k.user_id) w.users ≡ none
      → send_message c k w
        ≡ (w, err (refusal_without_user (get_client_state k.client_id w.manager)).0)
  unfolding send_message admit
  send_message-refusal_without_user k w gone =
      let st = get_client_state k.client_id w.manager in
      let refused = refused_lem k st w gone in
      rw (send_message, admit, refused)
        (ap (λ (o : World c × Option SendError). (o.0, err (refusal_without_user st).0)) refused)
