-- ===== src/AutoResponder/Runs.antt =====
-- Runs of the auto-responder: messages, the hourly clean-up and resets, in any order.
use whataapp_otp_project.Base.{
  ℕ, ◌+◌, ◌≤◌, ◌≡◌, refl, sym, ap, ◌∙◌, subst, inl, inr, String, Bool, false, Option, arith,
  if◌then◌else◌, ◌===◌, eq_iff, Bool-cases, length,
}
use whataapp_otp_project.Base.JsMap
use whataapp_otp_project.Base.JsMap.{get-delete}
use whataapp_otp_project.AutoResponder.{
  AutoResponseStats, State, Arrival, new_service, count_received, or_empty, handle_incoming_message,
  cleanup_old_responses, reset_account_stats,
}
use whataapp_otp_project.AutoResponder.Figures.{
  or_zero, stats_of, Move, quiet, broken, refused, served, IsShort, handle-Handled, counted-others,
  counted-IsShort,
}

-- No more answers were sent than rules matched, nor sent and failed than messages received.
abbrev pub IsBalanced : AutoResponseStats → Type 0
IsBalanced x =
    (x.responses_sent ≤ x.rules_matched)
    × (x.rules_matched ≤ x.total_messages_received)
    × (x.responses_sent + x.responses_failed_to_send ≤ x.total_messages_received)

abbrev pub IsValid : State → Type 0
IsValid s = IsShort s × ((id : String) → IsBalanced (stats_of id s))

Move-IsBalanced :
    (x y : AutoResponseStats) (b : Bool) → IsBalanced x → Move (count_received x) y b → IsBalanced y
Move-IsBalanced x _ _ h quiet = (omega (arith, h.0), omega (arith, h.1), omega (arith, h.2))
Move-IsBalanced x _ _ h broken = (omega (arith, h.0), omega (arith, h.1), omega (arith, h.2))
Move-IsBalanced x _ _ h refused = (omega (arith, h.0), omega (arith, h.1), omega (arith, h.2))
Move-IsBalanced x _ _ h (served t m) = (omega (arith, h.0), omega (arith, h.1), omega (arith, h.2))

Move-sent :
    (x y : AutoResponseStats) (b : Bool)
    → Move (count_received x) y b
    → (y.total_messages_received ≡ x.total_messages_received + 1)
      × (y.responses_sent ≡ x.responses_sent + (if b then 1 else 0))
Move-sent x _ _ quiet = (refl, omega arith)
Move-sent x _ _ broken = (refl, omega arith)
Move-sent x _ _ refused = (refl, omega arith)
Move-sent x _ _ (served t m) = (refl, omega arith)

module _ (lower : String → String) (fold : ℕ → ℕ) where
  -- A message adds one to the messages of its account, one to the answers sent exactly when it is
  -- reported as answered, and leaves the figures of the other accounts alone.
  pub handle_counts :
      (a : Arrival) (s : State)
      → ((stats_of a.account_id (handle_incoming_message lower fold a s).0).total_messages_received
          ≡ (stats_of a.account_id s).total_messages_received + 1)
        × ((stats_of a.account_id (handle_incoming_message lower fold a s).0).responses_sent
            ≡ (stats_of a.account_id s).responses_sent
              + (if (handle_incoming_message lower fold a s).1 then 1 else 0))
        × ((j : String)
            → (a.account_id === j) ≡ false
            → stats_of j (handle_incoming_message lower fold a s).0 ≡ stats_of j s)
  handle_counts a s =
      let r = handle-Handled lower fold a s in
      let m =
        Move-sent (stats_of a.account_id s) r.figures (handle_incoming_message lower fold a s).1
          r.move in
      (
        ap (λ x. x.total_messages_received) (ap or_zero r.found) ∙ m.0,
        ap (λ x. x.responses_sent) (ap or_zero r.found) ∙ m.1,
        λ j n. ap or_zero (r.others j n ∙ counted-others a.account_id j s n),
      )

  pub data Step : State → State → Type 0 where
    message : (a : Arrival) (s : State) → Step s (handle_incoming_message lower fold a s).0
    cleanup : (now : ℕ) (s : State) → Step s (cleanup_old_responses now s)
    reset : (id : String) (s : State) → Step s (reset_account_stats id s)

  pub data Reach : State → Type 0 where
    begin : Reach new_service
    next : (s t : State) → Reach s → Step s t → Reach t

  message-IsValid :
      (a : Arrival) (s : State) → IsValid s → IsValid (handle_incoming_message lower fold a s).0
  message-IsValid a s v =
      let r = handle-Handled lower fold a s in
      (
        r.short (counted-IsShort a.account_id s v.0),
        λ j. elim (Bool-cases (a.account_id === j)) [
          | inl e ↦
              subst (λ i. IsBalanced (stats_of i (handle_incoming_message lower fold a s).0))
                ((eq_iff a.account_id j).0 e)
                (subst IsBalanced (sym (ap or_zero r.found))
                  (Move-IsBalanced (stats_of a.account_id s) r.figures _ (v.1 a.account_id) r.move))
          | inr e ↦
              subst IsBalanced (sym (ap or_zero (r.others j e ∙ counted-others a.account_id j s e)))
                (v.1 j)
        ],
      )

  reset-IsValid : (id : String) (s : State) → IsValid s → IsValid (reset_account_stats id s)
  unfolding reset_account_stats
  reset-IsValid id s v = (
    λ j.
        subst (λ (h : Option _). length (or_empty h) ≤ 100)
          (sym (get-delete id j s.response_history))
          (elim (Bool-cases (id === j)) [ inl e ↦ rw e (omega arith) | inr e ↦ rw e (v.0 j) ]),
    λ j.
        subst (λ h. IsBalanced (or_zero h)) (sym (get-delete id j s.stats))
          (elim (Bool-cases (id === j)) [
            | inl e ↦ rw e (omega arith, omega arith, omega arith)
            | inr e ↦ rw e (v.1 j)
          ]),
  )

  -- Whatever messages come and whenever the clean-up and resets run, each account's history holds
  -- 100 attempts at most, its answers sent are no more than its rules matched, those no more than
  -- its messages, and its answers sent and failed together no more than its messages.
  pub Reach-IsValid : (s : State) → Reach s → IsValid s
  unfolding new_service cleanup_old_responses JsMap.get
  Reach-IsValid _ begin = (λ j. omega arith, λ j. (omega arith, omega arith, omega arith))
  Reach-IsValid _ (next s _ r (message a _)) = message-IsValid a s (Reach-IsValid s r)
  Reach-IsValid _ (next s _ r (cleanup now _)) = Reach-IsValid s r
  Reach-IsValid _ (next s _ r (reset id _)) = reset-IsValid id s (Reach-IsValid s r)
