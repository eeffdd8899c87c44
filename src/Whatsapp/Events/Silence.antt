-- ===== src/Whatsapp/Events/Silence.antt =====
-- What a client can still do after it was logged out.
use whataapp_otp_project.Base.{
  ℕ, ◌≡◌, refl, ◌∙◌, ap, ◌⊎◌, inl, inr, String, Bool, true, false, not, List, [], ◌∷◌, arith,
}
use whataapp_otp_project.Base.Collection.{Collection}
use whataapp_otp_project.Whatsapp.Sessions.Saved.{Account}
use whataapp_otp_project.Whatsapp.Reconnection.{SoftReply, Rebuild}
use whataapp_otp_project.Whatsapp.Events.{
  ClientEvent, message, message_create, authenticated, auth_failure, error, disconnected,
  is_logout_reason, World, on_message, on_message_create, on_authenticated, on_error, log_out,
  handle_client_disconnected, handle, on_event, on_events,
}

-- Every event but a failed authentication and a disconnection.
unfoldable pub is_ordinary : ClientEvent → Bool
is_ordinary (message i begun now) = true
is_ordinary (message_create now) = true
is_ordinary (authenticated now) = true
is_ordinary (auth_failure text) = false
is_ordinary (error text now) = true
is_ordinary (disconnected reason now removed rs r) = false

unfoldable pub AllOrdinary : List ClientEvent → Type 0
AllOrdinary [] = Unit {0}
AllOrdinary (e ∷ es) = (is_ordinary e ≡ true) × AllOrdinary es

module _ (c : Collection Account) (lower : String → String) (id : String) where
  -- An ordinary event of a session that is being closed changes nothing.
  handle_closed :
      (e : ClientEvent) (w : World c lower id)
      → w.session.is_handling_logout ≡ true
      → is_ordinary e ≡ true
      → handle c lower id e w ≡ w
  unfolding handle is_ordinary on_message on_message_create on_authenticated on_error
  handle_closed (message i begun now) w h o = rw h refl
  handle_closed (message_create now) w h o = rw h refl
  handle_closed (authenticated now) w h o = rw h refl
  handle_closed (auth_failure text) w h o = ground arith
  handle_closed (error text now) w h o = ground arith
  handle_closed (disconnected reason now removed rs r) w h o = ground arith

  event_closed :
      (e : ClientEvent) (w : World c lower id)
      → w.session.is_handling_logout ≡ true
      → (w.listening ≡ false) ⊎ (is_ordinary e ≡ true)
      → on_event c lower id e w ≡ w
  unfolding on_event
  event_closed e w h (inl l) = rw l refl
  event_closed e w h (inr o) = rw (handle_closed e w h o) (ground arith)

  events_deaf :
      (es : List ClientEvent) (w : World c lower id)
      → w.session.is_handling_logout ≡ true
      → w.listening ≡ false
      → on_events c lower id es w ≡ w
  unfolding on_events
  events_deaf [] w h l = refl
  events_deaf (e ∷ es) w h l =
      ap (on_events c lower id es) (event_closed e w h (inl l)) ∙ events_deaf es w h l

  events_closed :
      (es : List ClientEvent) (w : World c lower id)
      → w.session.is_handling_logout ≡ true
      → AllOrdinary es
      → on_events c lower id es w ≡ w
  unfolding on_events AllOrdinary
  events_closed [] w h o = refl
  events_closed (e ∷ es) w h o =
      ap (on_events c lower id es) (event_closed e w h (inr o.0)) ∙ events_closed es w h o.1

  -- Once a disconnection was a logout, nothing that the client does afterwards changes the
  -- sessions, the accounts or the messages, or is told to the owner: nothing at all where the
  -- listeners could be removed, and else no message, authentication or error, in any number and
  -- order.
  pub logged_out_is_silent :
      (reason : String) (now : ℕ) (removed : Bool) (rs : List SoftReply) (r : Rebuild)
      → (es : List ClientEvent) (w : World c lower id) → is_logout_reason lower reason ≡ true
      → (removed ≡ true) ⊎ AllOrdinary es
      → let out = handle_client_disconnected c lower id reason now removed rs r w in
        on_events c lower id es out ≡ out
  unfolding handle_client_disconnected log_out
  logged_out_is_silent reason now removed rs r es w h (inl k) =
      rw (handle_client_disconnected, h) (events_deaf es _ refl (ap not k))
  logged_out_is_silent reason now removed rs r es w h (inr o) =
      rw (handle_client_disconnected, h) (events_closed es _ refl o)
