-- ===== src/Whatsapp/Incoming/Reasons.antt =====
-- Which messages are handed over, and what the statistics count.
use whataapp_otp_project.Base.{
  ◌+◌, ◌≡◌, refl, ap, ◌≢◌, ◌↔◌, String, Bool, true, false, none, some, List, [], ◌∷◌, ◌++◌,
  if◌then◌else◌, arith, length, length-append, ◌==◌, Bool-cases, Option-cases, inl, inr,
}
use whataapp_otp_project.Base.JsMap
use whataapp_otp_project.Whatsapp.Incoming.{
  ProcessedMessage, State, Lookup, found, lookup_failed, Incoming, ends_with, message_time,
  is_old_message, clean_message, call_handlers, deliver, find_account, filter_message,
  handle_incoming_message,
}

-- What makes the service hand a message over, for an account.
pub record Wanted (i : Incoming) (s : State) (account : String) : Type 0 where
  pub unseen : JsMap.get i.message.id s.processed_message_ids ≡ none
  pub no_broadcast : ends_with "@broadcast" i.message.from ≡ false
  pub not_own : i.message.from_me ≡ false
  pub recent :
      is_old_message
        (message_time i.message)
        i.current_time
        (JsMap.get i.client_id s.session_start_times)
      ≡ false
  pub known_account : i.account ≡ found (some account)
  pub heard : (length s.message_handlers == 0) ≡ false

abbrev Log : Type 0
Log = List (ProcessedMessage × String)

append_one_ne : (xs : Log) (x : ProcessedMessage × String) → xs ≢ xs ++ x ∷ []
append_one_ne xs x h =
    let longer : length xs ≡ length (xs ++ x ∷ []) = ap length h in
    absurd (omega (arith, longer, length-append xs (x ∷ [])))

append_one_last : (xs : Log) (x y : ProcessedMessage × String) → xs ++ x ∷ [] ≡ xs ++ y ∷ [] → x ≡ y
append_one_last [] x y h = cc
append_one_last (z ∷ xs) x y h = append_one_last xs x y cc

-- The log of one call: nothing new, or the message for the account that was found.
abbrev pub AddsToLog : Incoming → State → State → String → Type 0
AddsToLog i s s' account = s'.handed ≡ s.handed ++ (clean_message i, account) ∷ []

deliver-log :
    (i : Incoming) (a account : String) (s : State)
    → AddsToLog i s (deliver i a s) account
      ↔ ((a ≡ account) × ((length s.message_handlers == 0) ≡ false))
unfolding deliver call_handlers
deliver-log i a account s = elim (Bool-cases (length s.message_handlers == 0)) [
  | inl e ↦
      rw (e, deliver)
        ((λ h. absurd (append_one_ne s.handed (clean_message i, account) h)), (λ h. absurd cc))
  | inr e ↦
      rw (e, deliver)
        (
          (λ h. (
            ap (λ p. p.1)
                (append_one_last s.handed (clean_message i, a) (clean_message i, account) h),
            refl,
          )),
          (λ h. ap (λ b. s.handed ++ (clean_message i, b) ∷ []) h.0),
        )
]

find_account-log :
    (i : Incoming) (l : Lookup) (account : String) (s : State)
    → AddsToLog i s (find_account i l s) account
      ↔ ((l ≡ found (some account)) × ((length s.message_handlers == 0) ≡ false))
unfolding find_account
find_account-log i lookup_failed account s =
    ((λ h. absurd (append_one_ne s.handed (clean_message i, account) h)), (λ h. absurd cc))
find_account-log i (found none) account s =
    ((λ h. absurd (append_one_ne s.handed (clean_message i, account) h)), (λ h. absurd cc))
find_account-log i (found (some a)) account s = (
  (λ h. let (e, heard) = (deliver-log i a account s).0 h in (ap (λ b. found (some b)) e, heard)),
  (λ h. (deliver-log i a account s).1 (cc, h.1)),
)

-- What fails after every filter that stops holds exactly if none stops and it holds at the end.
after_filters {ℓ} :
    (P : State → Type ℓ) (b1 b2 b3 : Bool) (x1 x2 x3 y : State)
    → (P x1 → ⊥)
    → (P x2 → ⊥)
    → (P x3 → ⊥)
    → P (if b1 then x1 else if b2 then x2 else if b3 then x3 else y)
      ↔ ((b1 ≡ false) × (b2 ≡ false) × (b3 ≡ false) × P y)
after_filters P true b2 b3 x1 x2 x3 y n1 n2 n3 = ((λ h. absurd (n1 h)), (λ h. absurd cc))
after_filters P false true b3 x1 x2 x3 y n1 n2 n3 = ((λ h. absurd (n2 h)), (λ h. absurd cc))
after_filters P false false true x1 x2 x3 y n1 n2 n3 = ((λ h. absurd (n3 h)), (λ h. absurd cc))
after_filters P false false false x1 x2 x3 y n1 n2 n3 = ((λ h. (refl, refl, refl, h)), (λ h. h.3))

-- The conditions that the filters and the account leave.
abbrev Passes : Incoming → String → State → Type 0
Passes i account s =
    (ends_with "@broadcast" i.message.from ≡ false)
    × (i.message.from_me ≡ false)
    × (is_old_message (message_time i.message) i.current_time
          (JsMap.get i.client_id s.session_start_times)
        ≡ false)
    × AddsToLog i s (find_account i i.account s) account

filter_message-log :
    (i : Incoming) (account : String) (s : State)
    → AddsToLog i s (filter_message i s) account ↔ Passes i account s
unfolding filter_message
filter_message-log i account s =
    let same = append_one_ne s.handed (clean_message i, account) in
    after_filters (λ s'. AddsToLog i s s' account) _ _ _ _ _ _ _ same same same

-- A message is handed over for an account, and nothing else with it, exactly if its identifier is
-- not remembered, it is neither a broadcast nor the account's own nor old, the account is found,
-- and some handler is registered.
pub handle_incoming_message_iff :
    (i : Incoming) (account : String) (s : State)
    → AddsToLog i s (handle_incoming_message i s) account ↔ Wanted i s account
unfolding handle_incoming_message
handle_incoming_message_iff i account s =
    let stats = s.message_stats in
    let s2 = record s {
      message_stats = record stats { total_processed = stats.total_processed + 1 };
      processed_message_ids = JsMap.set i.message.id tt s.processed_message_ids;
    } in
    let filtered = filter_message-log i account s2 in
    let looked_up = find_account-log i i.account account s2 in
    elim (Option-cases (JsMap.get i.message.id s.processed_message_ids)) [
      | inr (u, e) ↦
          rw (e, handle_incoming_message)
            (
              (λ h. absurd (append_one_ne s.handed (clean_message i, account) h)),
              (λ (w : Wanted i s account). let seen = w.unseen in absurd cc),
            )
      | inl e ↦
          rw (e, handle_incoming_message)
            (
              (λ h.
                  let (broadcast, own, old, log) = filtered.0 h in
                  let (account_lem, heard) = looked_up.0 log in
                  record {
                    unseen = e;
                    no_broadcast = broadcast;
                    not_own = own;
                    recent = old;
                    known_account = account_lem;
                    heard = heard;
                  }),
              (λ (w : Wanted i s account).
                  filtered.1
                    (w.no_broadcast, w.not_own, w.recent, looked_up.1 (w.known_account, w.heard))),
            )
    ]
