-- ===== src/Whatsapp/Incoming/Once.antt =====
-- A message is handed to the handlers at most once.
use whataapp_otp_project.Base.{
  ℕ, ◌+◌, ◌≤◌, ◌≡◌, refl, ap, String, none, some, List, [], ◌∷◌, ◌===◌, if◌then◌else◌, arith,
  eq_iff, count, count-append, is_some, if_elim, length, ◌==◌, Option-cases, inl, inr,
}
use whataapp_otp_project.Base.JsMap
use whataapp_otp_project.Base.JsMap.{get-set}
use whataapp_otp_project.Whatsapp.Incoming.{
  ProcessedMessage, Handler, State, Lookup, found, lookup_failed, Incoming, ends_with, message_time,
  is_old_message, clean_message, register_message_handler, mark_session_start, call_handlers,
  deliver, find_account, filter_message, handle_incoming_message, clear_unread_message,
  reset_client_stats,
}

-- What happens to the service between two clean-ups.
pub data Op : Type 0 where
  receives : Incoming → Op
  registers : Handler → Op
  starts : String → ℕ → Op
  clears : String → Op
  resets : String → Op

abbrev pub step : State → Op → State
step s (receives i) = handle_incoming_message i s
step s (registers h) = register_message_handler h s
step s (starts id now) = mark_session_start id now s
step s (clears id) = clear_unread_message id s
step s (resets id) = reset_client_stats id s

abbrev pub run : State → List Op → State
run s [] = s
run s (o ∷ os) = run (step s o) os

-- How often a message was handed to the handlers.
abbrev pub times_handed : String → State → ℕ
times_handed id s = count (λ (e : ProcessedMessage × String). e.0.id === id) s.handed

abbrev pub known : String → State → ℕ
known id s = if is_some (JsMap.get id s.processed_message_ids) then 1 else 0

-- Only a message whose identifier is remembered was handed over, and once.
abbrev pub IsSound : State → Type 0
IsSound s = (id : String) → times_handed id s ≤ known id s

-- Handling `id` hands at most that message over, once, and remembers what was remembered.
record Hands (id : String) (s s' : State) : Type 0 where
  memory : s'.processed_message_ids ≡ s.processed_message_ids
  once : (j : String) → times_handed j s' ≤ times_handed j s + (if id === j then 1 else 0)

abbrev Hands_nothing :
    (id : String) (s s' : State)
    → s'.processed_message_ids ≡ s.processed_message_ids
    → s'.handed ≡ s.handed
    → Hands id s s'
Hands_nothing id s s' m h = record { memory = m; once = λ j. rw h (omega arith) }

deliver-Hands :
    (i : Incoming) (account : String) (s : State) → Hands i.message.id s (deliver i account s)
unfolding deliver call_handlers clean_message
deliver-Hands i account s =
    if_elim (Hands i.message.id s) (length s.message_handlers == 0)
      (Hands_nothing i.message.id s _ refl refl)
      (record {
        memory = refl;
        once = λ j. omega (
          arith,
          count-append (λ (e : ProcessedMessage × String). e.0.id === j) s.handed
              ((clean_message i, account) ∷ []),
        );
      })

find_account-Hands :
    (i : Incoming) (l : Lookup) (s : State) → Hands i.message.id s (find_account i l s)
unfolding find_account
find_account-Hands i lookup_failed s = Hands_nothing i.message.id s _ refl refl
find_account-Hands i (found none) s = Hands_nothing i.message.id s _ refl refl
find_account-Hands i (found (some account)) s = deliver-Hands i account s

filter_message-Hands : (i : Incoming) (s : State) → Hands i.message.id s (filter_message i s)
unfolding filter_message
filter_message-Hands i s =
    if_elim (Hands i.message.id s) (ends_with "@broadcast" i.message.from)
      (Hands_nothing i.message.id s _ refl refl)
      (if_elim (Hands i.message.id s) i.message.from_me (Hands_nothing i.message.id s _ refl refl) (
        if_elim (Hands i.message.id s)
          (is_old_message (message_time i.message) i.current_time
            (JsMap.get i.client_id s.session_start_times))
          (Hands_nothing i.message.id s _ refl refl) (find_account-Hands i i.account s)))

handle_incoming_message-IsSound :
    (i : Incoming) (s : State) → IsSound s → IsSound (handle_incoming_message i s)
unfolding handle_incoming_message
handle_incoming_message-IsSound i s sound id =
    let stats = s.message_stats in
    let s1 = record s {
      message_stats = record stats { total_processed = stats.total_processed + 1 };
    } in
    let ids = JsMap.set i.message.id tt s.processed_message_ids in
    let s2 = record s1 { processed_message_ids = ids } in
    let hands = filter_message-Hands i s2 in
    let kept : known id (filter_message i s2) ≡ known id s2 =
      ap (λ m. if is_some (JsMap.get id m) then 1 else 0) hands.memory in
    elim (Option-cases (JsMap.get i.message.id s.processed_message_ids)) [
      | inr (u, e) ↦ rw (e, handle_incoming_message) (sound id)
      | inl e ↦
          rw (e, handle_incoming_message)
            (ground (
              arith,
              eq_iff i.message.id id,
              get-set i.message.id id tt s.processed_message_ids,
              sound id,
              hands.once id,
              kept,
              e,
            ))
    ]

step-IsSound : (s : State) (o : Op) → IsSound s → IsSound (step s o)
step-IsSound s (receives i) sound = handle_incoming_message-IsSound i s sound
step-IsSound s (registers h) sound = unfold register_message_handler in sound
step-IsSound s (starts id now) sound = unfold mark_session_start in sound
step-IsSound s (clears id) sound = unfold clear_unread_message in sound
step-IsSound s (resets id) sound = unfold reset_client_stats in sound

-- A service that has handed over only messages that it remembers, each at most once, goes on to do
-- so until the next clean-up, whatever comes in and however often.
pub run-IsSound : (s : State) (os : List Op) → IsSound s → IsSound (run s os)
run-IsSound s [] sound = sound
run-IsSound s (o ∷ os) sound = run-IsSound (step s o) os (step-IsSound s o sound)
