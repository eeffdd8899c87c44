-- ===== src/Rules/Matching.antt =====
-- Which rule answers a message.
use whataapp_otp_project.Base.{
  ◌≡◌, subst, inl, inr, String, Bool, false, Option, none, some, List, find, filter, Option-cases,
  All, Earliest, find-Earliest, find-none-All,
}
use whataapp_otp_project.Base.Collection.{Collection}
use whataapp_otp_project.Rules.{
  Rule, of_account, normal, says, mentions, find_all_rules, find_matching_rule,
}

-- The answer that the rules of an account owe to a message: the first rule with a keyword that is
-- the message; else the first with a keyword that stands in it; else none.
pub data Answers (exact mention : Rule → Bool) (rs : List Rule) : Option Rule → Type 0 where
  by_exact : (r : Rule) → Earliest exact rs r → Answers exact mention rs (some r)
  by_mention :
      (r : Rule)
      → All (λ x. exact x ≡ false) rs
      → Earliest mention rs r
      → Answers exact mention rs (some r)
  silent :
      All (λ x. exact x ≡ false) rs
      → All (λ x. mention x ≡ false) rs
      → Answers exact mention rs none

module _ (c : Collection Rule) (lower : String → String) where
  two_searches :
      (exact mention : Rule → Bool) (rs : List Rule)
      → Answers exact mention rs (elim (find exact rs) [ some r ↦ some r | none ↦ find mention rs ])
  two_searches exact mention rs = elim (Option-cases (find exact rs)) [
    | inr (r, e) ↦ rw e (by_exact r (find-Earliest exact rs r e))
    | inl e ↦ elim (Option-cases (find mention rs)) [
      | inr (r, f) ↦
          rw (e, f) (by_mention r (find-none-All exact rs e) (find-Earliest mention rs r f))
      | inl f ↦ rw (e, f) (silent (find-none-All exact rs e) (find-none-All mention rs f))
    ]
  ]

  -- A message is answered by the first rule of the account with a keyword that is the message, up
  -- to case and surrounding space; else by the first with a keyword that stands in it; else by
  -- none.
  pub find_matching_rule-Answers :
      (message account : String) (s : c.Store)
      → Answers
          (says lower (normal lower message))
          (mentions lower (normal lower message))
          (filter (of_account account) (c.docs s))
          (find_matching_rule c lower message account s)
  unfolding find_matching_rule find_all_rules
  find_matching_rule-Answers message account s =
      subst
        (λ rs.
          Answers (says lower (normal lower message)) (mentions lower (normal lower message)) rs
            (find_matching_rule c lower message account s))
        (c.find_all_lem (of_account account) s)
        (two_searches (says lower (normal lower message)) (mentions lower (normal lower message))
          (find_all_rules c account s))
