-- ===== src/AutoResponder.antt =====
-- src/modules/auto-responder/auto-responder.service.ts: the answers to incoming messages by the
-- rules of the account, with the figures and the history kept of them. One message is handled at a
-- time; its arrival holds what the accounts, the rules and the sender answer, and the clock. The log
-- is left out.
pub mod Score
pub mod Best
pub mod Figures
pub mod Listener
pub mod Runs
mod Tests
use whataapp_otp_project.Base.{
  ℕ, zero, suc, ◌+◌, ◌-◌, ◌*◌, ◌/◌, String, Bool, true, false, not, ◌&&◌, ◌||◌, Option, none, some,
  List, [], ◌∷◌, ◌++◌, ◌===◌, if◌then◌else◌, ltb, leb, ◌==◌, length, filter, is_some, truthy, units,
  trim, starts_with, take,
}
use Prim.Native.String
use whataapp_otp_project.Base.JsMap
use whataapp_otp_project.Rules.{Rule}
use whataapp_otp_project.Whatsapp.Sessions.{Manager, is_client_ready}
use whataapp_otp_project.Whatsapp.Sender.Single.{Status, MessageResult}
use whataapp_otp_project.Whatsapp.Sender.Batch.{is_success}
use whataapp_otp_project.AutoResponder.Score.{find_best_matching_rule}

pub record AutoResponseStats : Type 0 where
  pub total_messages_received : ℕ
  pub rules_matched : ℕ
  pub responses_sent : ℕ
  pub responses_failed_to_send : ℕ
  pub skipped_old_messages : ℕ
  pub last_response_at : Option ℕ
  pub average_response_time : ℕ

-- `${Date.now()}_${sender}`, where the message has none.
pub data MessageId : Type 0 where
  given : String → MessageId
  made : ℕ → String → MessageId

pub record MatchedRule : Type 0 where
  pub keywords : List String
  pub response : List ℕ

pub record ResponseAttempt : Type 0 where
  pub message_id : MessageId
  pub sender : String
  pub message : List ℕ
  pub matched_rule : Option MatchedRule
  pub response_time : ℕ
  pub success : Bool
  pub error : Option String
  pub timestamp : ℕ

pub record State : Type 0 where
  pub response_history : List (String × List ResponseAttempt)
  pub recent_responses : List (String × ℕ)
  pub stats : List (String × AutoResponseStats)

pub record Account : Type 0 where
  pub client_id : Option String
  pub user : String

-- What `accountsService.findById` answers, or the message of its exception.
pub data Lookup : Type 0 where
  looked_up : Option Account → Lookup
  lookup_failed : String → Lookup

-- The results that `whatsAppService.sendMessage` returns, or the message of its exception.
pub data Sending : Type 0 where
  returned : Option (List MessageResult) → Sending
  threw : String → Sending

pub record SendReply : Type 0 where
  pub success : Bool
  pub error : Option String
  pub message_id : Option String

pub record Arrival : Type 0 where
  pub message : String
  pub sender : String
  pub account_id : String
  pub account : Lookup
  pub manager : Manager
  -- None where they could not be read.
  pub rules : Option (List Rule)
  pub sending : Sending
  pub started : ℕ
  pub now : ℕ

unfoldable pub new_service : State
new_service = record { response_history = []; recent_responses = []; stats = [] }

abbrev pub zero_stats : AutoResponseStats
zero_stats = record {
  total_messages_received = 0;
  rules_matched = 0;
  responses_sent = 0;
  responses_failed_to_send = 0;
  skipped_old_messages = 0;
  last_response_at = none;
  average_response_time = 0;
}

unfoldable pub initialize_stats : String → State → State
initialize_stats id s = record s { stats = JsMap.set id zero_stats s.stats }

abbrev pub ensure_stats : String → State → State
ensure_stats id s = elim (JsMap.get id s.stats) [ none ↦ initialize_stats id s | some x ↦ s ]

-- An assignment to fields of the account's figures, which the map shares.
unfoldable pub update_stats : String → (AutoResponseStats → AutoResponseStats) → State → State
update_stats id f s = elim (JsMap.get id s.stats) [
  | none ↦ s
  | some x ↦ record s { stats = JsMap.set id (f x) s.stats }
]

abbrev pub count_received : AutoResponseStats → AutoResponseStats
count_received x = record x { total_messages_received = x.total_messages_received + 1 }

abbrev pub count_matched : AutoResponseStats → AutoResponseStats
count_matched x = record x { rules_matched = x.rules_matched + 1 }

abbrev pub count_failed : AutoResponseStats → AutoResponseStats
count_failed x = record x { responses_failed_to_send = x.responses_failed_to_send + 1 }

abbrev pub count_sent : ℕ → ℕ → AutoResponseStats → AutoResponseStats
count_sent now average x = record x {
  responses_sent = x.responses_sent + 1;
  last_response_at = some now;
  average_response_time = average;
}

-- `xs || []`
abbrev pub or_empty {ℓ} : {A : Type ℓ} → Option (List A) → List A
or_empty none = []
or_empty (some xs) = xs

abbrev pub history_of : String → State → List ResponseAttempt
history_of id s = or_empty (JsMap.get id s.response_history)

abbrev pub shift {ℓ} : {A : Type ℓ} → List A → List A
shift [] = []
shift (x ∷ xs) = xs

unfoldable pub max_response_history : ℕ
max_response_history = 100

unfoldable pub record_response : String → ResponseAttempt → State → State
record_response id r s =
    let h = history_of id s ++ r ∷ [] in
    record s {
      response_history =
          JsMap.set id (if ltb max_response_history (length h) then shift h else h)
            s.response_history;
    }

abbrev pub total_time : List ResponseAttempt → ℕ
total_time [] = 0
total_time (r ∷ rs) = r.response_time + total_time rs

-- `Math.round(a / b)`
abbrev pub rounded : ℕ → ℕ → ℕ
rounded a b = (2 * a + b) / (2 * b)

unfoldable pub calculate_average_response_time : String → ℕ → State → ℕ
calculate_average_response_time id time s =
    let good = filter (λ (r : ResponseAttempt). r.success) (history_of id s) in
    if length good == 0 then time else rounded (total_time good + time) (length good + 1)

unfoldable pub send_auto_response : Sending → SendReply
send_auto_response (threw m) = record { success = false; error = some m; message_id = none }
send_auto_response (returned (some (r ∷ rs))) =
    if is_success r.status
    then record { success = true; error = none; message_id = r.message_id }
    else record {
      success = false;
      error = if truthy r.error then r.error else some "Unknown send error";
      message_id = none;
    }
send_auto_response (returned (some [])) = record {
  success = false;
  error = some "Unknown send error";
  message_id = none;
}
send_auto_response (returned none) = record {
  success = false;
  error = some "Unknown send error";
  message_id = none;
}

abbrev pub made_id : Arrival → MessageId
made_id a = made a.now a.sender

-- `a || b` on an identifier that may be undefined.
abbrev pub or_made : Option String → Arrival → MessageId
or_made none a = made_id a
or_made (some i) a = if truthy (some i) then given i else made_id a

abbrev pub attempt : Arrival → MessageId → Option Rule → Bool → Option String → ResponseAttempt
attempt a i r success error = record {
  message_id = i;
  sender = a.sender;
  message = take 100 (units a.message);
  matched_rule = elim r [
    | none ↦ none
    | some r ↦ some (record { keywords = r.keywords; response = take 50 (units r.response) })
  ];
  response_time = a.now - a.started;
  success = success;
  error = error;
  timestamp = a.now;
}

-- `${accountId}:${sender}`
abbrev pub sender_key : String → String → String
sender_key id sender = String.◌++◌ id (String.◌++◌ ":" sender)

-- What follows the send, by its reply.
unfoldable pub settle : Arrival → Rule → SendReply → State → State × Bool
settle a r reply s =
    if reply.success
    then (let average = calculate_average_response_time a.account_id (a.now - a.started) s in
        let s1 = update_stats a.account_id (count_sent a.now average) s in
        let s2 = record s1 {
          recent_responses = JsMap.set (sender_key a.account_id a.sender) a.now s1.recent_responses;
        } in
        (
          record_response a.account_id (attempt a (or_made reply.message_id a) (some r) true none)
              s2,
          true,
        ))
    else (
      record_response a.account_id (attempt a (made_id a) (some r) false reply.error)
          (update_stats a.account_id count_failed s),
      false,
    )

unfoldable pub answer : Arrival → Option Rule → State → State × Bool
answer a none s = (
  record_response a.account_id (attempt a (made_id a) none false (some "No matching rule")) s,
  false,
)
answer a (some r) s =
    settle a r (send_auto_response a.sending) (update_stats a.account_id count_matched s)

abbrev pub is_blank : String → Bool
is_blank message = length (trim (units message)) == 0

module _ (lower : String → String) (fold : ℕ → ℕ) where
  unfoldable pub with_client : Arrival → Option String → State → State × Bool
  with_client a none s = (s, false)
  with_client a (some id) s =
      if truthy (some id) && is_client_ready id a.manager
      then answer a (find_best_matching_rule lower fold a.message a.rules) s
      else (s, false)

  unfoldable pub with_account : Arrival → Lookup → State → State × Bool
  with_account a (lookup_failed m) s = (
    record_response a.account_id (attempt a (made_id a) none false (some m))
        (update_stats a.account_id count_failed s),
    false,
  )
  with_account a (looked_up none) s = (s, false)
  with_account a (looked_up (some x)) s = with_client a x.client_id s

  -- The test against answering one sender too often stands in a comment of the source.
  unfoldable pub handle_incoming_message : Arrival → State → State × Bool
  handle_incoming_message a s =
      let s1 = update_stats a.account_id count_received (ensure_stats a.account_id s) in
      if is_blank a.message then (s1, false) else with_account a a.account s1

-- The entries of `recentResponses` older than a day go.
unfoldable pub cleanup_old_responses : ℕ → State → State
cleanup_old_responses now s = record s {
  recent_responses = JsMap.retain (λ k t. leb (now - 24 * 60 * 60 * 1000) t) s.recent_responses;
}

unfoldable pub reset_account_stats : String → State → State
reset_account_stats id s = record s {
  stats = JsMap.delete id s.stats;
  response_history = JsMap.delete id s.response_history;
  recent_responses =
      JsMap.retain (λ k t. not (starts_with (units (String.◌++◌ id ":")) (units k)))
        s.recent_responses;
}
