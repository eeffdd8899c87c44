-- ===== src/Whatsapp/Sender/Send.antt =====
-- `sendMessage` and `sendMessageExcel`: the checks before a send, the flag that keeps a second send
-- out, and the send itself. What the recipients and the content resolve to comes with the call, as
-- the services that resolve them answer. The sentence that sums the answer up in words is left out.
use Prim.Native.Char.{code}
use whataapp_otp_project.Base.{
  is_space, ℕ, ◌+◌, ◌-◌, String, Bool, true, false, not, ◌&&◌, ◌||◌, Option, none, some, List, [],
  ◌∷◌, ◌++◌, if◌then◌else◌, leb, truthy, length,
}
use whataapp_otp_project.Base.Collection.{Collection}
use whataapp_otp_project.Users.{User, EmbeddedSubscription}
use whataapp_otp_project.Users
use whataapp_otp_project.Whatsapp.Sessions.{
  ClientState, Updates, update_client_state, get_client_state,
}
use whataapp_otp_project.Whatsapp.Sender.Single.{
  skipped, MessageResult, StateReply, Attempt, World, failure, assert_whatsapp_connected,
}
use whataapp_otp_project.Whatsapp.Sender.Batch.{
  SendProgress, is_success, send_to_recipients, send_to_recipients_with_photo,
}

pub data SendError : Type 0 where
  session_not_found : SendError
  already_sending : SendError
  no_subscription : SendError
  limit_exceeded : SendError
  not_ready : SendError
  not_connected : String → SendError
  nothing_to_send : SendError
  -- An exception of the services that resolve the content and the recipients.
  unresolved : String → SendError

pub data Result {ℓ} (A : Type ℓ) : Type ℓ where
  ok : A → Result A
  err : SendError → Result A

-- The HTTP status of each error; the services' own exceptions keep theirs.
abbrev pub http_status : SendError → Option ℕ
http_status session_not_found = some 404
http_status already_sending = some 429
http_status no_subscription = some 403
http_status limit_exceeded = some 403
http_status not_ready = some 503
http_status (not_connected m) = some 503
http_status nothing_to_send = some 400
http_status (unresolved m) = none

pub record Answer : Type 0 where
  pub results : List MessageResult
  pub photo_sent : Bool
  pub summary : SendProgress

-- `message.trim() === ''`
unfoldable pub is_blank : String → Bool
is_blank String.[] = true
is_blank (String.◌∷◌ c s) = is_space (code c) && is_blank s

-- `!photo && (!message || message.trim() === '')`
abbrev pub lacks_content : Option String → Bool → Bool
lacks_content message photo =
    not photo && elim message [ none ↦ true | some m ↦ not (truthy (some m)) || is_blank m ]

pub record Call : Type 0 where
  pub client_id : String
  -- `client.options.authStrategy.clientId`, which the library keeps.
  pub options_client_id : Option String
  pub message : Option String
  pub photo : Bool
  pub user_id : String
  pub state : StateReply
  pub content : Result String
  pub recipients : Result (List (String × Attempt))
  pub now : ℕ

abbrev pub lock : ℕ → Updates
lock now = record {
  is_ready = none;
  is_sending = some true;
  last_activity = some now;
  reconnect_attempts = none;
}

abbrev pub unlock : Updates
unlock = record {
  is_ready = none;
  is_sending = some false;
  last_activity = none;
  reconnect_attempts = none;
}

unfoldable pub start_summary : ℕ → SendProgress
start_summary n = record { total = n; completed = 0; successful = 0; failed = 0; current_batch = 0 }

-- `message ? await resolveContent(...) : ''`
abbrev pub content_of : Option String → Result String → Result String
content_of message content = if truthy message then content else ok ""

module _ (c : Collection User) where
  -- The limit, read once before the send.
  unfoldable pub check_subscription : Option User → Option SendError
  check_subscription none = some no_subscription
  check_subscription (some u) = elim u.subscription [
    | none ↦ some no_subscription
    | some sub ↦ if leb sub.message_limit sub.messages_used then some limit_exceeded else none
  ]

  unfoldable pub validate_client_connection :
      ClientState → String → StateReply → ℕ → World c → World c × Option SendError
  validate_client_connection st id reply now w =
      if st.is_ready
      then (let (w1, thrown) = assert_whatsapp_connected c id true reply now w in
          (w1, elim thrown [ none ↦ none | some m ↦ some (not_connected m) ]))
      else (w, some not_ready)

  -- The guards, in the order of the code; `none` lets the send begin.
  -- The guards once the session is looked up.
  unfoldable pub admit_state :
      Option ClientState → String → String → StateReply → ℕ → World c → World c × Option SendError
  unfolding check_subscription validate_client_connection
  admit_state none id user reply now w = (w, some session_not_found)
  admit_state (some st) id user reply now w =
      if st.is_sending
      then (w, some already_sending)
      else elim (check_subscription (c.find_one (Users.has_id user) w.users)) [
        | some e ↦ (w, some e)
        | none ↦ validate_client_connection st id reply now w
      ]

  unfoldable pub admit : String → String → StateReply → ℕ → World c → World c × Option SendError
  unfolding admit_state
  admit id user reply now w = admit_state (get_client_state id w.manager) id user reply now w

  -- The `try` block of `sendMessage`, on the resolved recipients and content.
  unfoldable pub send_resolved :
      Call → String → List (String × Attempt) → World c → World c × Result Answer
  send_resolved k content [] w =
      (w, ok (record { results = []; photo_sent = false; summary = start_summary 0 }))
  send_resolved k content (r ∷ rs) w =
      let p = start_summary (length (r ∷ rs)) in
      if k.photo
      then (let (w1, p1, results) =
            send_to_recipients_with_photo c k.options_client_id (r ∷ rs) content k.user_id p w in
          (w1, ok (record { results = results; photo_sent = true; summary = p1 })))
      else (let (w1, p1, results) =
            send_to_recipients c k.options_client_id (r ∷ rs) content k.user_id p w in
          (w1, ok (record { results = results; photo_sent = false; summary = p1 })))

  unfoldable pub with_recipients :
      Call → String → Result (List (String × Attempt)) → World c → World c × Result Answer
  with_recipients k content (err e) w = (w, err e)
  with_recipients k content (ok rs) w = send_resolved k content rs w

  unfoldable pub with_content : Call → Result String → World c → World c × Result Answer
  with_content k (err e) w = (w, err e)
  with_content k (ok content) w = with_recipients k content k.recipients w

  unfoldable pub send_body : Call → World c → World c × Result Answer
  send_body k w =
      if lacks_content k.message k.photo
      then (w, err nothing_to_send)
      else with_content k (content_of k.message k.content) w

  abbrev pub set_flags : String → Updates → World c → World c
  set_flags id u w = record w { manager = update_client_state id u w.manager }

  -- The `finally` block frees the session whatever the `try` block came to.
  unfoldable pub guarded :
      String → ℕ → (World c → World c × Result Answer) → World c → World c × Result Answer
  guarded id now body w =
      let (w1, o) = body (set_flags id (lock now) w) in (set_flags id unlock w1, o)

  unfoldable pub send_message : Call → World c → World c × Result Answer
  send_message k w =
      let (w1, refused) = admit k.client_id k.user_id k.state k.now w in
      elim refused [ some e ↦ (w1, err e) | none ↦ guarded k.client_id k.now (send_body k) w1 ]

  -- One row of the table: what its number and its message resolve to.
  pub record Row : Type 0 where
    pub number : String
    pub recipients : Result (List (String × Attempt))
    pub content : Result String

  abbrev pub skipped_result : String → MessageResult
  skipped_result number = record {
    recipient = number;
    status = skipped;
    error = some "No valid recipient found";
    warning = none;
    message_id = none;
  }

  -- The message of an exception, for a row that could not be resolved.
  abbrev pub error_text : SendError → String
  error_text (unresolved m) = m
  error_text _ = "Unknown error"

  unfoldable pub send_row : Option String → String → Row → World c → World c × List MessageResult
  send_row id user row w = elim row.recipients [
    | err e ↦ (w, failure row.number (error_text e) ∷ [])
    | ok [] ↦ (w, skipped_result row.number ∷ [])
    | ok (r ∷ rs) ↦ elim row.content [
      | err e ↦ (w, failure row.number (error_text e) ∷ [])
      | ok content ↦
          let (w1, p1, results) =
            send_to_recipients c id (r ∷ rs) content user (start_summary 1) w in
          (w1, results)
    ]
  ]

  -- `results[0]?.status` is a success.
  abbrev pub first_success : List MessageResult → Bool
  first_success [] = false
  first_success (r ∷ rs) = is_success r.status

  unfoldable pub send_rows :
      Option String
      → String
      → List Row
      → SendProgress
      → World c
      → World c × SendProgress × List MessageResult
  send_rows id user [] p w = (w, p, [])
  send_rows id user (row ∷ rows) p w =
      let (w1, rs) = send_row id user row w in
      let p1 = record p {
        completed = p.completed + 1;
        successful = if first_success rs then p.successful + 1 else p.successful;
      } in
      let (w2, p2, rest) = send_rows id user rows p1 w1 in (w2, p2, rs ++ rest)

  unfoldable pub excel_body : Option String → String → List Row → World c → World c × Result Answer
  excel_body id user rows w =
      let (w1, p, results) = send_rows id user rows (start_summary (length rows)) w in
      (
        w1,
        ok (record {
          results = results;
          photo_sent = false;
          summary = record p { failed = p.completed - p.successful };
        }),
      )

  unfoldable pub send_message_excel :
      String
      → Option String
      → String
      → StateReply
      → ℕ
      → List Row
      → World c
      → World c × Result Answer
  send_message_excel id options_id user reply now rows w =
      let (w1, refused) = admit id user reply now w in
      elim refused [
        | some e ↦ (w1, err e)
        | none ↦ guarded id now (excel_body options_id user rows) w1
      ]
