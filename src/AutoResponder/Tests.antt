-- ===== src/AutoResponder/Tests.antt =====
-- Concrete messages to the auto-responder, and the lemmas on them.
use whataapp_otp_project.Base.{
  ℕ, ◌+◌, ◌≡◌, refl, String, true, false, none, some, [], ◌∷◌, ◌===◌, if◌then◌else◌, units, trim,
  same_units, has_part,
}
use whataapp_otp_project.Base.JsMap
use whataapp_otp_project.Base.Collection.{in_memory}
use whataapp_otp_project.Rules.{Rule, find_all_rules, find_matching_rule}
use whataapp_otp_project.Whatsapp.Sessions.{Manager, is_client_ready}
use whataapp_otp_project.Whatsapp.Sender.Single.{sent, MessageResult}
use whataapp_otp_project.AutoResponder.{
  looked_up, returned, Arrival, new_service, send_auto_response, settle, answer, with_client,
  with_account, handle_incoming_message,
}
use whataapp_otp_project.AutoResponder.Score.{
  ends_word, word_from, few_differences, fuzzy_match, keyword_score, score_of, best_from,
  calculate_rule_match_score, find_best_matching_rule,
}
use whataapp_otp_project.AutoResponder.Best.{
  Best, scored, find_best_matching_rule-Best, matched_is_scored,
}
use whataapp_otp_project.AutoResponder.Figures.{stats_of}
use whataapp_otp_project.AutoResponder.Runs.{
  IsValid, message, begin, next, handle_counts, Reach-IsValid,
}
use whataapp_otp_project.AutoResponder.Listener.{IncomingMessage}

abbrev same : String → String
same s = s

abbrev keep : ℕ → ℕ
keep c = c

abbrev greeting : Rule
greeting = record { id = "r1"; keywords = "hello" ∷ []; response = "Welcome"; account = "a1" }

abbrev pricing : Rule
pricing = record {
  id = "r2";
  keywords = "price" ∷ "cost" ∷ [];
  response = "See our list";
  account = "a1";
}

abbrev ready : Manager
ready = record {
  client_states =
      (
        "c1",
        record {
          client = 1;
          user_id = "u1";
          is_ready = true;
          is_sending = false;
          last_activity = 0;
          reconnect_attempts = 0;
        },
      )
      ∷ [];
  socket_client_map = [];
  restored_sessions = [];
}

abbrev delivered : MessageResult
delivered = record {
  recipient = "100";
  status = sent;
  error = none;
  warning = none;
  message_id = some "m1";
}

abbrev question : Arrival
question = record {
  message = "price please";
  sender = "100";
  account_id = "a1";
  account = looked_up (some (record { client_id = some "c1"; user = "u1" }));
  manager = ready;
  rules = some (greeting ∷ pricing ∷ []);
  sending = returned (some (delivered ∷ []));
  started = 1000;
  now = 1250;
}

scores :
    (calculate_rule_match_score same keep (units "price please") pricing ≡ 50)
    × (calculate_rule_match_score same keep (units "price") pricing ≡ 100)
    × (calculate_rule_match_score same keep (units "pricey costs") pricing ≡ 50)
    × (calculate_rule_match_score same keep (units "helo") greeting ≡ 10)
unfolding score_of keyword_score fuzzy_match few_differences word_from ends_word units trim
    same_units has_part
scores = (refl, refl, refl, refl)

find_best_matching_rule-Best_example :
    Best
      (scored same keep "price please")
      (greeting ∷ pricing ∷ [])
      (find_best_matching_rule same keep "price please" (some (greeting ∷ pricing ∷ [])))
find_best_matching_rule-Best_example =
    find_best_matching_rule-Best same keep "price please" (greeting ∷ pricing ∷ [])

plainly_matched :
    find_matching_rule (in_memory Rule) same "price please" "a1" (greeting ∷ pricing ∷ [])
    ≡ some pricing
unfolding find_matching_rule find_all_rules units trim same_units has_part
plainly_matched = refl

matched_is_scored_example :
    (q : Rule) × (find_best_matching_rule same keep "price please"
        (some (find_all_rules (in_memory Rule) "a1" (greeting ∷ pricing ∷ [])))
      ≡ some q)
matched_is_scored_example =
    matched_is_scored same keep (in_memory Rule) "price please" "a1" (greeting ∷ pricing ∷ [])
      pricing plainly_matched

handle_counts_example :
    ((stats_of "a1"
        (handle_incoming_message same keep question new_service).0).total_messages_received
      ≡ (stats_of "a1" new_service).total_messages_received + 1)
    × ((stats_of "a1" (handle_incoming_message same keep question new_service).0).responses_sent
        ≡ (stats_of "a1" new_service).responses_sent
          + (if (handle_incoming_message same keep question new_service).1 then 1 else 0))
    × ((j : String)
        → ("a1" === j) ≡ false
        → stats_of j (handle_incoming_message same keep question new_service).0
          ≡ stats_of j new_service)
handle_counts_example = handle_counts same keep question new_service

Reach-IsValid_example : IsValid (handle_incoming_message same keep question new_service).0
Reach-IsValid_example =
    Reach-IsValid same keep (handle_incoming_message same keep question new_service).0 (
      next new_service (handle_incoming_message same keep question new_service).0 begin
        (message question new_service))

abbrev typed : IncomingMessage
typed = record { body = some " price please "; is_group_msg = false }

answered_once : (handle_incoming_message same keep question new_service).1 ≡ true
unfolding handle_incoming_message with_account with_client is_client_ready JsMap.get answer settle
    send_auto_response find_best_matching_rule best_from score_of keyword_score fuzzy_match
    few_differences word_from ends_word units trim same_units has_part
answered_once = refl
