-- ===== src/Whatsapp/Incoming/Upkeep.antt =====
-- What the clean-up and the reset of a client keep and forget.
use whataapp_otp_project.Base.{
  ℕ, zero, suc, ◌+◌, ◌-◌, ◌≡◌, refl, String, not, Option, none, some, List, [], ◌∷◌, ◌===◌,
  if◌then◌else◌, arith, eq_refl, drop, length, ltb, Bool-cases, inl, inr,
}
use whataapp_otp_project.Base.JsMap
use whataapp_otp_project.Base.JsMap.{IsKeyed, get-delete, get-retain}
use whataapp_otp_project.Whatsapp.Incoming.{
  Unread, State, delete_first, max_size, one_day, cleanup_old_message_ids, reset_client_stats,
}

-- A key that is not there is not missed.
delete_missing :
    (k : String) (m : List (String × Unit {0})) → JsMap.get k m ≡ none → JsMap.delete k m ≡ m
unfolding JsMap.get JsMap.delete
delete_missing k [] h = refl
delete_missing k ((j, w) ∷ m) h = ground (arith, delete_missing k m)

delete_head :
    (k : String) (u : Unit {0}) (m : List (String × Unit {0}))
    → JsMap.get k m ≡ none
    → JsMap.delete k ((k, u) ∷ m) ≡ m
unfolding JsMap.delete
delete_head k u m h = ground (arith, eq_refl k, delete_missing k m h)

delete_first-drop :
    (n : ℕ) (m : List (String × Unit {0})) → IsKeyed m → delete_first n m m ≡ drop n m
unfolding delete_first
delete_first-drop zero m u = refl
delete_first-drop (suc n) [] u = refl
delete_first-drop (suc n) ((k, w) ∷ m) u = rw (delete_head k w m u.0) (delete_first-drop n m u.1)

kept_ids :
    (m : List (String × Unit {0}))
    → IsKeyed m
    → (if ltb max_size (length m) then delete_first (length m - max_size) m m else m)
      ≡ drop (length m - max_size) m
kept_ids m u = elim (Bool-cases (ltb max_size (length m))) [
  | inl e ↦ rw e (delete_first-drop (length m - max_size) m u)
  | inr e ↦ let small : length m - max_size ≡ 0 = ground arith in rw (e, small) refl
]

-- The unread messages that a clean-up keeps: those of the last day.
abbrev pub recent : ℕ → Option Unread → Option Unread
recent now none = none
recent now (some u) = if ltb (u.timestamp + one_day) now then none else some u

-- Where each key stands once, a clean-up keeps exactly the last ten thousand identifiers, in their
-- order, and exactly the unread messages of the last day.
pub cleanup_keeps_recent :
    (now : ℕ) (id : String) (s : State)
    → IsKeyed s.processed_message_ids
    → IsKeyed s.unread_messages
    → ((cleanup_old_message_ids now s).processed_message_ids
        ≡ drop (length s.processed_message_ids - max_size) s.processed_message_ids)
      × (JsMap.get id (cleanup_old_message_ids now s).unread_messages
          ≡ recent now (JsMap.get id s.unread_messages))
unfolding cleanup_old_message_ids
cleanup_keeps_recent now id s ids unread = (
  kept_ids s.processed_message_ids ids,
  ground (
    arith,
    get-retain (λ m u. not (ltb (u.timestamp + one_day) now)) id s.unread_messages unread,
  ),
)

-- An unread message, unless it is the client's.
abbrev pub of_others : String → Option Unread → Option Unread
of_others id none = none
of_others id (some u) = if u.client_id === id then none else some u

-- Where each key of the unread messages stands once, a reset forgets the client's start and its
-- unread messages, and no other client's.
pub reset_forgets :
    (id j m : String) (s : State)
    → IsKeyed s.unread_messages
    → (JsMap.get j (reset_client_stats id s).session_start_times
        ≡ (if id === j then none else JsMap.get j s.session_start_times))
      × (JsMap.get m (reset_client_stats id s).unread_messages
          ≡ of_others id (JsMap.get m s.unread_messages))
unfolding reset_client_stats
reset_forgets id j m s unread = (
  get-delete id j s.session_start_times,
  ground (arith, get-retain (λ m u. not (u.client_id === id)) m s.unread_messages unread),
)
