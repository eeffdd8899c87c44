-- ===== src/Whatsapp/Sender/Accounting.antt =====
-- What a loop over the recipients reports and counts.
use native.Mathlib.Nat.{add-zero, zero-add}
use whataapp_otp_project.Base.{
  ℕ, ◌+◌, ◌≡◌, refl, subst, ◌≢◌, String, Option, none, some, List, [], ◌∷◌, map, if◌then◌else◌,
  arith, length, count, if_elim, truthy,
}
use mathlib.Core.Path.{ap₂}
use whataapp_otp_project.Base.Collection.{Collection}
use whataapp_otp_project.Users.{User}
use whataapp_otp_project.Whatsapp.Sender.Single.{
  MessageResult, Attempt, World, failure, or_unknown, uniq_content, assert_if_known,
}
use whataapp_otp_project.Whatsapp.Sender.Batch.{
  SendProgress, is_success, tally, active_at, Sending, process, touch, send_loop,
  send_to_recipients, send_to_recipients_with_photo,
}
use whataapp_otp_project.Whatsapp.Sender.Usage.{
  sending-update_client_state, Adds, Adds-nothing, Adds-trans, assert_if_known-Adds, Serves,
  after-Serves, send_single_message-Serves, send_single_file_message-Serves,
}

-- The results that report a success.
abbrev pub successes : List MessageResult → ℕ
successes rs = count (λ r. is_success r.status) rs

-- The summary agrees with the results.
pub record Tallies (p p' : SendProgress) (rs : List MessageResult) : Type 0 where
  pub total : p'.total ≡ p.total
  pub completed : p'.completed ≡ p.completed + length rs
  pub successful : p'.successful ≡ p.successful + successes rs
  pub split : p'.successful + p'.failed ≡ p.successful + p.failed + length rs

module _ (c : Collection User) where
  -- A loop served its recipients: one result for each, in their order, summed up in the progress,
  -- with the user's count raised by the successes.
  pub record Ran (user : String) (recipients : List String) (p : SendProgress) (w : World c)
      (w' : World c) (p' : SendProgress) (rs : List MessageResult) : Type 0 where
    pub in_order : map (λ r. r.recipient) rs ≡ recipients
    pub tallies : Tallies p p' rs
    pub adds : Adds c user (successes rs) w w'

  abbrev pub Runs :
      String
      → List String
      → SendProgress
      → World c
      → World c × SendProgress × List MessageResult
      → Type 0
  Runs user recipients p w o = Ran user recipients p w o.0 o.1 o.2

  -- A way of sending that serves each recipient.
  abbrev pub IsServing : String → Sending c → Type 0
  IsServing user send = (r : String) (a : Attempt) (w : World c) → Serves c user r w (send r a w)

  process_checked :
      (send : Sending c) (user recipient : String) (a : Attempt) (w : World c)
      (thrown : Option String)
      → IsServing user send
      → Serves c user recipient w (elim thrown [
        | some m ↦ (w, failure recipient (or_unknown (some m)))
        | none ↦ send recipient a w
      ])
  process_checked send user recipient a w (some m) serving = record {
    adds = Adds-nothing c user w;
    to = refl;
  }
  process_checked send user recipient a w none serving = serving recipient a w

  process-Serves :
      (send : Sending c) (id : Option String) (user recipient : String) (a : Attempt) (w : World c)
      → IsServing user send
      → Serves c user recipient w (process c send id recipient a w)
  unfolding process
  process-Serves send id user recipient a w serving =
      let checked = assert_if_known c id a.state_before a.checked_at w in
      after-Serves c user recipient w checked.0 _
        (assert_if_known-Adds c user id a.state_before a.checked_at w)
        (process_checked send user recipient a checked.0 checked.1 serving)

  touch-Adds :
      (user : String) (id : Option String) (now : ℕ) (w : World c)
      → Adds c user 0 w (touch c id now w)
  unfolding touch
  touch-Adds user none now w = Adds-nothing c user w
  touch-Adds user (some id) now w =
      if_elim (Adds c user 0 w) (truthy (some id))
        (record {
          counted = λ n h. rw add-zero h;
          locks = λ j. sending-update_client_state j id (active_at now) w.manager refl;
        })
        (Adds-nothing c user w)

  tally-Tallies :
      (r : MessageResult) (p p2 : SendProgress) (i : ℕ) (rs : List MessageResult)
      → Tallies (tally r (record p { current_batch = i })) p2 rs
      → Tallies p p2 (r ∷ rs)
  unfolding tally
  tally-Tallies r p p2 i rs t = ground (arith, t.total, t.completed, t.successful, t.split)

  pub send_loop-Ran :
      (send : Sending c) (id : Option String) (user : String) (i : ℕ)
      (recipients : List (String × Attempt)) (p : SendProgress) (w : World c)
      → IsServing user send
      → Runs user (map (λ q. q.0) recipients) p w (send_loop c send id i recipients p w)
  unfolding send_loop
  send_loop-Ran send id user i [] p w serving = record {
    in_order = refl;
    tallies = record {
      total = refl;
      completed = omega arith;
      successful = omega arith;
      split = omega arith;
    };
    adds = Adds-nothing c user w;
  }
  send_loop-Ran send id user i ((recipient, a) ∷ rest) p w serving =
      let o = process c send id recipient a w in
      let s = process-Serves send id user recipient a w serving in
      let w2 = touch c id a.done_at o.0 in
      let p2 = tally o.1 (record p { current_batch = i + 1 }) in
      let ran = send_loop-Ran send id user (i + 1) rest p2 w2 serving in
      let o2 = send_loop c send id (i + 1) rest p2 w2 in
      let k = (if is_success o.1.status then 1 else 0) in
      record {
        in_order = ap₂ ◌∷◌ s.to ran.in_order;
        tallies = tally-Tallies o.1 p o2.1 (i + 1) o2.2 ran.tallies;
        adds = Adds-trans c user k (successes o2.2) w o.0 o2.0 s.adds (
            subst (λ l. Adds c user l o.0 o2.0) (zero-add (successes o2.2))
              (Adds-trans c user 0 (successes o2.2) o.0 w2 o2.0 (touch-Adds user id a.done_at o.0)
                ran.adds));
      }

  -- Sending a text: one result for each recipient, in their order, none lost or repeated; the
  -- progress completes them all and tells successes from failures as the results do; the user's
  -- count rises by exactly the successes, and no session's sending flag is touched. The user's
  -- identifier is not empty.
  pub send_to_recipients-Ran :
      (id : Option String) (recipients : List (String × Attempt)) (content user : String)
      (p : SendProgress) (w : World c)
      → user ≢ ""
      → Runs user
          (map (λ q. q.0) recipients)
          p
          w
          (send_to_recipients c id recipients content user p w)
  unfolding send_to_recipients
  send_to_recipients-Ran id recipients content user p w real =
      send_loop-Ran _ id user 0 recipients p w
        (λ r a w'. send_single_message-Serves c id r content user a w' real)

  -- Sending a file: one result for each recipient, in their order; the progress completes them all
  -- and tells successes from failures as the results do; the user's count rises by exactly the
  -- successes, and no session's sending flag is touched. The user's identifier is not empty.
  pub send_to_recipients_with_photo-Ran :
      (id : Option String) (recipients : List (String × Attempt)) (caption user : String)
      (p : SendProgress) (w : World c)
      → user ≢ ""
      → Runs user
          (map (λ q. q.0) recipients)
          p
          w
          (send_to_recipients_with_photo c id recipients caption user p w)
  unfolding send_to_recipients_with_photo
  send_to_recipients_with_photo-Ran id recipients caption user p w real =
      send_loop-Ran _ id user 0 recipients p w
        (λ r a w'. send_single_file_message-Serves c id r (uniq_content r caption) user a w' real)
