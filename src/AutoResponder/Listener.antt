-- ===== src/AutoResponder/Listener.antt =====
-- src/modules/auto-responder/auto-responder.initializer.ts: the handler that is registered for
-- incoming messages, and its figures. The analysis of a message only writes to the log.
use whataapp_otp_project.Base.{
  ℕ, ◌+◌, ◌≡◌, refl, String, Bool, Option, none, some, List, [], ◌∷◌, arith, any, if◌then◌else◌,
  ltb, length, units, trim, trim_text, has_part, Option-cases, inl, inr, ◌⊎◌,
}
use whataapp_otp_project.AutoResponder.{State, Arrival, is_blank, handle_incoming_message}
use whataapp_otp_project.AutoResponder.Figures.{stats_of}
use whataapp_otp_project.AutoResponder.Runs.{handle_counts}

pub record MessageAnalytics : Type 0 where
  pub total_messages : ℕ
  pub processed_messages : ℕ
  pub skipped_messages : ℕ
  pub auto_responses : ℕ
  pub errors : ℕ
  pub start_time : ℕ

unfoldable pub reset_analytics : ℕ → MessageAnalytics
reset_analytics now = record {
  total_messages = 0;
  processed_messages = 0;
  skipped_messages = 0;
  auto_responses = 0;
  errors = 0;
  start_time = now;
}

pub record IncomingMessage : Type 0 where
  pub body : Option String
  pub is_group_msg : Bool

abbrev pub automated_keywords : List String
automated_keywords = "delivered" ∷ "read receipt" ∷ "typing" ∷ "online" ∷ "auto-reply" ∷ []

-- The reason to leave a message alone.
unfoldable pub validate_message_for_auto_response :
    (String → String) → IncomingMessage → Option String
validate_message_for_auto_response lower m = elim m.body [
  | none ↦ some "No text content"
  | some body ↦
      if is_blank body
      then some "No text content"
      else (if m.is_group_msg
          then some "Group message"
          else (if ltb (length (trim (units body))) 2
              then some "Message too short"
              else (if any (λ k. has_part (units k) (units (lower body))) automated_keywords
                  then some "Automated message detected"
                  else none)))
]

-- `message.body.trim()`
abbrev pub text_of : Option String → String
text_of none = ""
text_of (some body) = trim_text body

module _ (lower : String → String) (fold : ℕ → ℕ) where
  unfoldable pub process_message :
      IncomingMessage → Arrival → MessageAnalytics → State → MessageAnalytics × State
  process_message m a g s =
      let g1 = record g { total_messages = g.total_messages + 1 } in
      elim (validate_message_for_auto_response lower m) [
        | some reason ↦ (record g1 { skipped_messages = g1.skipped_messages + 1 }, s)
        | none ↦
            let (s1, responded) =
              handle_incoming_message lower fold (record a { message = text_of m.body }) s in
            (
              record g1 {
                processed_messages = g1.processed_messages + 1;
                auto_responses = if responded then g1.auto_responses + 1 else g1.auto_responses;
              },
              s1,
            )
      ]

  -- The handler counts each message once, as processed or as skipped; the answers that it counts are
  -- those that the service counts as sent for the account; a skipped message leaves the service as it is.
  pub process_counts :
      (m : IncomingMessage) (a : Arrival) (g : MessageAnalytics) (s : State)
      → ((process_message m a g s).0.total_messages ≡ g.total_messages + 1)
        × ((process_message m a g s).0.processed_messages
              + (process_message m a g s).0.skipped_messages
            ≡ g.processed_messages + g.skipped_messages + 1)
        × ((process_message m a g s).0.auto_responses + (stats_of a.account_id s).responses_sent
            ≡ g.auto_responses + (stats_of a.account_id (process_message m a g s).1).responses_sent)
        × ((validate_message_for_auto_response lower m ≡ none) ⊎ ((process_message m a g s).1 ≡ s))
  unfolding process_message
  process_counts m a g s = elim (Option-cases (validate_message_for_auto_response lower m)) [
    | inl e ↦
        let arrival = record a { message = text_of m.body } in
        let c = handle_counts lower fold arrival s in
        rw (process_message, e) (refl, omega arith, ground (arith, c.1), inl refl)
    | inr (r, e) ↦ rw (process_message, e) (refl, omega arith, refl, inr refl)
  ]
