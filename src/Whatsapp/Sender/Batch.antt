-- ===== src/Whatsapp/Sender/Batch.antt =====
-- The loops over the recipients: `sendToRecipients` and `sendToRecipientsWithPhoto`, whose batches
-- hold one recipient each. The pauses between batches take time and change nothing else.
use whataapp_otp_project.Base.{
  ℕ, ◌+◌, String, Bool, true, false, Option, none, some, List, [], ◌∷◌, if◌then◌else◌, truthy,
}
use whataapp_otp_project.Base.Collection.{Collection}
use whataapp_otp_project.Users.{User}
use whataapp_otp_project.Whatsapp.Sessions.{Updates, update_client_state}
use whataapp_otp_project.Whatsapp.Sender.Single.{
  Status, sent, failed, likely_sent, skipped, MessageResult, Attempt, World, failure, or_unknown,
  uniq_content, assert_if_known, send_single_message, send_single_file_message,
}

pub record SendProgress : Type 0 where
  pub total : ℕ
  pub completed : ℕ
  pub successful : ℕ
  pub failed : ℕ
  pub current_batch : ℕ

abbrev pub is_success : Status → Bool
is_success sent = true
is_success likely_sent = true
is_success failed = false
is_success skipped = false

unfoldable pub tally : MessageResult → SendProgress → SendProgress
tally r p =
    if is_success r.status
    then record p { successful = p.successful + 1; completed = p.completed + 1 }
    else record p { failed = p.failed + 1; completed = p.completed + 1 }

abbrev pub active_at : ℕ → Updates
active_at now = record {
  is_ready = none;
  is_sending = none;
  last_activity = some now;
  reconnect_attempts = none;
}

module _ (c : Collection User) where
  -- How one recipient is served, once the connection is checked.
  abbrev pub Sending : Type 0
  Sending = String → Attempt → World c → World c × MessageResult

  -- One promise of the batch; `allSettled` turns an exception into a failed result.
  unfoldable pub process :
      Sending → Option String → String → Attempt → World c → World c × MessageResult
  process send id recipient a w =
      let (w1, thrown) = assert_if_known c id a.state_before a.checked_at w in
      elim thrown [
        | some m ↦ (w1, failure recipient (or_unknown (some m)))
        | none ↦ send recipient a w1
      ]

  unfoldable pub touch : Option String → ℕ → World c → World c
  touch none now w = w
  touch (some id) now w =
      if truthy (some id)
      then record w { manager = update_client_state id (active_at now) w.manager }
      else w

  unfoldable pub send_loop :
      Sending
      → Option String
      → ℕ
      → List (String × Attempt)
      → SendProgress
      → World c
      → World c × SendProgress × List MessageResult
  send_loop send id i [] p w = (w, p, [])
  send_loop send id i ((recipient, a) ∷ rest) p w =
      let (w1, r) = process send id recipient a w in
      let (w2, p2, rs) =
        send_loop send id (i + 1) rest (tally r (record p { current_batch = i + 1 }))
          (touch id a.done_at w1) in
      (w2, p2, r ∷ rs)

  unfoldable pub send_to_recipients :
      Option String
      → List (String × Attempt)
      → String
      → String
      → SendProgress
      → World c
      → World c × SendProgress × List MessageResult
  send_to_recipients id recipients content user p w =
      send_loop (λ r a w'. send_single_message c id r content user a w') id 0 recipients p w

  unfoldable pub send_to_recipients_with_photo :
      Option String
      → List (String × Attempt)
      → String
      → String
      → SendProgress
      → World c
      → World c × SendProgress × List MessageResult
  send_to_recipients_with_photo id recipients caption user p w =
      send_loop (λ r a w'. send_single_file_message c id r (uniq_content r caption) user a w') id 0
        recipients p w
