-- ===== src/Rules/Tests.antt =====
-- Concrete rules, requests and messages, and the lemmas on them.
use whataapp_otp_project.Base.{◌≡◌, refl, String, none, some, [], ◌∷◌}
use whataapp_otp_project.Base.Collection.{Collection, in_memory}
use whataapp_otp_project.Rules.{
  Rule, CreateRuleDto, UpdateRuleDto, normal, says, mentions, new_rules, insert_many, create,
  update_rule, find_matching_rule,
}
use whataapp_otp_project.Rules.Disjoint.{IsDisjoint}
use whataapp_otp_project.Rules.Matching.{Answers, find_matching_rule-Answers}
use whataapp_otp_project.Rules.Steps.{creates, updates, here, after, Reach-IsDisjoint}

abbrev rules : Collection Rule
rules = in_memory Rule

abbrev greeting : Rule
greeting = record {
  id = "r1";
  keywords = "hello" ∷ "hi" ∷ [];
  response = "Welcome";
  account = "a1";
}

abbrev pricing : Rule
pricing = record { id = "r2"; keywords = "price" ∷ []; response = "See our list"; account = "a1" }

abbrev price_list : CreateRuleDto
price_list = record { id = "r2"; keywords = "price" ∷ []; response = "See our list" }

abbrev hello_again : CreateRuleDto
hello_again = record { id = "r3"; keywords = "hi" ∷ []; response = "Hi" }

abbrev cost : UpdateRuleDto
cost = record { keywords = some ("cost" ∷ []); response = none }

abbrev plain : String → String
plain s = s

find_matching_rule-Answers_example :
    Answers
      (says plain (normal plain "what is the price"))
      (mentions plain (normal plain "what is the price"))
      (greeting ∷ pricing ∷ [])
      (find_matching_rule rules plain "what is the price" "a1" (greeting ∷ pricing ∷ []))
find_matching_rule-Answers_example =
    find_matching_rule-Answers rules plain "what is the price" "a1" (greeting ∷ pricing ∷ [])

-- The request that is taken and the one that is left out.
hello_again_dropped :
    rules.docs (create rules (hello_again ∷ price_list ∷ []) "a1" (greeting ∷ [])).0
    ≡ greeting ∷ pricing ∷ []
unfolding create new_rules insert_many
hello_again_dropped = refl

-- Two requests of one call that share a keyword are both taken.
batch_not_compared :
    rules.docs (create rules (price_list ∷ record price_list { id = "r4" } ∷ []) "a1" []).0
    ≡ pricing ∷ record pricing { id = "r4" } ∷ []
unfolding create new_rules insert_many
batch_not_compared = refl

Reach-IsDisjoint_example :
    IsDisjoint
      (update_rule rules "r2" cost "a1" (create rules (price_list ∷ []) "a1" (greeting ∷ [])).0).0
Reach-IsDisjoint_example =
    Reach-IsDisjoint rules (greeting ∷ [])
      (update_rule rules "r2" cost "a1" (create rules (price_list ∷ []) "a1" (greeting ∷ [])).0).0
      (after (greeting ∷ []) (create rules (price_list ∷ []) "a1" (greeting ∷ [])).0
        (update_rule rules "r2" cost "a1" (create rules (price_list ∷ []) "a1" (greeting ∷ [])).0).0
        (after (greeting ∷ []) (greeting ∷ [])
          (create rules (price_list ∷ []) "a1" (greeting ∷ [])).0 (here (greeting ∷ []))
          (creates price_list "a1" (greeting ∷ []) (refl, tt)))
        (updates "r2" cost "a1" (create rules (price_list ∷ []) "a1" (greeting ∷ [])).0))
      (tt, tt)
