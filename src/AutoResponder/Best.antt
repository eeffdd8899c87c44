-- ===== src/AutoResponder/Best.antt =====
-- The rule that `findBestMatchingRule` picks.
use whataapp_otp_project.Base.{
  ℕ, ◌≤◌, ◌<◌, ◌≡◌, refl, sym, ap, subst, ◌⊎◌, inl, inr, String, true, Option, none, some, List, [],
  ◌∷◌, ◌++◌, arith, ltb, any, if◌then◌else◌, Bool-cases, All, All-imp, has_part, same_units,
}
use whataapp_otp_project.Base.Collection.{Collection}
use whataapp_otp_project.Rules.{
  Rule, of_account, normal, says, mentions, find_all_rules, find_matching_rule,
}
use whataapp_otp_project.Rules.Matching.{
  Answers, by_exact, by_mention, silent, find_matching_rule-Answers,
}
use whataapp_otp_project.AutoResponder.Score.{
  keyword_score, score_of, calculate_rule_match_score, best_from, find_best_matching_rule,
}

-- The best of some rules: the first of those whose score is the greatest, which is not 0; and none
-- where every score is 0.
pub data Best (score : Rule → ℕ) (rs : List Rule) : Option Rule → Type 0 where
  champion :
      (r : Rule) (before after : List Rule)
      → rs ≡ before ++ r ∷ after
      → 0 < score r
      → All (λ x. score x < score r) before
      → All (λ x. score x ≤ score r) after
      → Best score rs (some r)
  no_match : All (λ x. score x ≡ 0) rs → Best score rs none

-- The loop found a rule whose score is above the best so far.
record Beaten (score : Rule → ℕ) (n : ℕ) (rs : List Rule) (o : Option Rule) : Type 0 where
  rule : Rule
  before : List Rule
  after : List Rule
  split : rs ≡ before ++ rule ∷ after
  above : n < score rule
  lower : All (λ x. score x < score rule) before
  upper : All (λ x. score x ≤ score rule) after
  result : o ≡ some rule

All-at :
    (P : Rule → Type 0) (before : List Rule) (r : Rule) (after : List Rule)
    → All P (before ++ r ∷ after)
    → P r
All-at P [] r after a = a.0
All-at P (x ∷ before) r after a = All-at P before r after a.1

module _ (score : Rule → ℕ) where
  best_from-Beaten :
      (best : Option Rule) (n : ℕ) (rs : List Rule)
      → ((best_from score best n rs ≡ (if ltb 0 n then best else none)) × All (λ x. score x ≤ n) rs)
        ⊎ Beaten score n rs (best_from score best n rs)
  unfolding best_from
  best_from-Beaten best n [] = inl (refl, tt)
  best_from-Beaten best n (r ∷ rs) = elim (Bool-cases (ltb n (score r))) [
    | inl e ↦ rw e (elim (best_from-Beaten (some r) (score r) rs) [
      | inl (kept, small) ↦ inr (record {
        rule = r;
        before = [];
        after = rs;
        split = refl;
        above = ground arith;
        lower = tt;
        upper = small;
        result = ground (arith, kept);
      })
      | inr b ↦ inr (record {
        rule = b.rule;
        before = r ∷ b.before;
        after = b.after;
        split = ap (λ l. r ∷ l) b.split;
        above = ground arith;
        lower = (b.above, b.lower);
        upper = b.upper;
        result = b.result;
      })
    ])
    | inr e ↦ rw e (elim (best_from-Beaten best n rs) [
      | inl (kept, small) ↦ inl (kept, (ground arith, small))
      | inr b ↦ inr (record {
        rule = b.rule;
        before = r ∷ b.before;
        after = b.after;
        split = ap (λ l. r ∷ l) b.split;
        above = b.above;
        lower = (ground arith, b.lower);
        upper = b.upper;
        result = b.result;
      })
    ])
  ]

  best_from-Best : (rs : List Rule) → Best score rs (best_from score none 0 rs)
  best_from-Best rs = elim (best_from-Beaten none 0 rs) [
    | inl (kept, small) ↦
        subst (Best score rs) (sym kept)
          (no_match (All-imp (λ x. score x ≤ 0) (λ x. score x ≡ 0) rs (λ x h. omega arith) small))
    | inr b ↦
        subst (Best score rs) (sym b.result)
          (champion b.rule b.before b.after b.split b.above b.lower b.upper)
  ]

module _ (lower : String → String) (fold : ℕ → ℕ) where
  abbrev pub scored : String → Rule → ℕ
  scored message = calculate_rule_match_score lower fold (normal lower message)

  -- Among the rules that could be read, the first of those with the greatest score answers; where
  -- every score is 0, none does.
  pub find_best_matching_rule-Best :
      (message : String) (rs : List Rule)
      → Best (scored message) rs (find_best_matching_rule lower fold message (some rs))
  unfolding find_best_matching_rule
  find_best_matching_rule-Best message rs = best_from-Best (scored message) rs

  mention_scores :
      (m : List ℕ) (ks : List String)
      → any (λ k. has_part (normal lower k) m) ks ≡ true
      → 0 < score_of lower fold m ks
  unfolding score_of keyword_score
  mention_scores m [] h = absurd cc
  mention_scores m (k ∷ ks) h = ground (arith, mention_scores m ks)

  exact_scores :
      (m : List ℕ) (ks : List String)
      → any (λ k. same_units m (normal lower k)) ks ≡ true
      → 0 < score_of lower fold m ks
  unfolding score_of keyword_score
  exact_scores m [] h = absurd cc
  exact_scores m (k ∷ ks) h = ground (arith, exact_scores m ks)

  -- A rule with a positive score rules out that none is picked.
  picks_one :
      (message : String) (before after : List Rule) (r : Rule) (o : Option Rule)
      → 0 < scored message r
      → Best (scored message) (before ++ r ∷ after) o
      → (q : Rule) × (o ≡ some q)
  picks_one message before after r _ p (champion q b a e pos lo hi) = (q, refl)
  picks_one message before after r _ p (no_match zeros) =
      absurd (omega (arith, All-at (λ x. scored message x ≡ 0) before r after zeros))

  answer_scores :
      (message : String) (rs : List Rule) (o best : Option Rule) (r : Rule)
      → Answers (says lower (normal lower message)) (mentions lower (normal lower message)) rs o
      → o ≡ some r
      → Best (scored message) rs best
      → (q : Rule) × (best ≡ some q)
  answer_scores message rs _ best r (by_exact x e) h b =
      picks_one message e.before e.after x best
        (exact_scores (normal lower message) x.keywords e.hit)
        (subst (λ l. Best (scored message) l best) e.split b)
  answer_scores message rs _ best r (by_mention x a e) h b =
      picks_one message e.before e.after x best
        (mention_scores (normal lower message) x.keywords e.hit)
        (subst (λ l. Best (scored message) l best) e.split b)
  answer_scores message rs _ best r (silent a m) h b = absurd cc

  -- Where the plain matching of the rules' service finds a rule of the account for a message, the
  -- scored matching of the auto-responder finds one as well.
  pub matched_is_scored :
      (c : Collection Rule) (message account : String) (s : c.Store) (r : Rule)
      → find_matching_rule c lower message account s ≡ some r
      → (q : Rule) × (find_best_matching_rule lower fold message (some (find_all_rules c account s))
          ≡ some q)
  unfolding find_all_rules
  matched_is_scored c message account s r h =
      answer_scores message (find_all_rules c account s)
        (find_matching_rule c lower message account s)
        (find_best_matching_rule lower fold message (some (find_all_rules c account s))) r
        (subst
          (λ l.
            Answers (says lower (normal lower message)) (mentions lower (normal lower message)) l
              (find_matching_rule c lower message account s))
          (sym (c.find_all_lem (of_account account) s))
          (find_matching_rule-Answers c lower message account s))
        h (find_best_matching_rule-Best message (find_all_rules c account s))
