-- ===== src/Whatsapp/Ack.antt =====
-- src/modules/whatsapp/services/message-sender.service.ts, `waitForDeliveryAck`: waiting until
-- WhatsApp confirms a message. What arrives meanwhile is a list of events, in their order.
use whataapp_otp_project.Base.{
  ℕ, ◌≤◌, ◌≡◌, refl, sym, subst, ap, ◌∙◌, inl, inr, ◌≢◌, Option-cases, String, Bool, true, false,
  Option, none, some, List, [], ◌∷◌, ◌===◌, if◌then◌else◌, arith, eq_iff, leb, truthy, any,
}
use mathlib.Core.List.{Memᴰ}

-- `ACK_ERROR` is -1; the other codes are 0 (pending), 1 (server), 2 (device) and 3 (read).
pub data Ack : Type 0 where
  ack_error : Ack
  level : ℕ → Ack

-- The handler of `message_ack`, the poll of the message's own field, and the time-out, which reads
-- that field a last time.
pub data Event : Type 0 where
  message_ack : Option String → Ack → Event
  poll : Option Ack → Event
  timeout : Option Ack → Event

pub data AckResult : Type 0 where
  delivered : Bool → AckResult
  rejected : String → AckResult
  waiting : AckResult

-- What an acknowledgement decides: at least `ACK_DELIVERED_MIN` = 1, or `ACK_ERROR`.
abbrev pub verdict : Ack → Option Bool
verdict ack_error = some false
verdict (level n) = if leb 1 n then some true else none

abbrev pub verdict_of : Option Ack → Option Bool
verdict_of none = none
verdict_of (some a) = verdict a

abbrev pub same_id : Option String → String → Bool
same_id none id = false
same_id (some i) id = i === id

unfoldable pub on_event : String → Event → Option Bool
on_event id (message_ack i a) = if same_id i id then verdict a else none
on_event id (poll a) = verdict_of a
on_event id (timeout a) = elim (verdict_of a) [ none ↦ some false | some b ↦ some b ]

unfoldable pub wait_events : String → List Event → AckResult
wait_events id [] = waiting
wait_events id (e ∷ es) =
    let rest = wait_events id es in elim (on_event id e) [ none ↦ rest | some b ↦ delivered b ]

-- `finish` clears `timer`; called before `timer` is declared, it throws, and the promise rejects.
abbrev pub timer_error : String
timer_error = "Cannot access 'timer' before initialization"

unfoldable pub wait_for_delivery_ack : Option String → Option Ack → List Event → AckResult
unfolding wait_events
wait_for_delivery_ack none initial es = delivered false
wait_for_delivery_ack (some id) initial es =
    if truthy (some id)
    then elim (verdict_of initial) [ none ↦ wait_events id es | some b ↦ rejected timer_error ]
    else delivered false

-- What confirms a message: an event of `message_ack` with its identifier, or its own field at a poll
-- or at the time-out, that says that the server, the device or the reader has it.
pub data Confirms (id : String) : Event → Type 0 where
  by_message_ack : (n : ℕ) → 1 ≤ n → Confirms id (message_ack (some id) (level n))
  by_poll : (n : ℕ) → 1 ≤ n → Confirms id (poll (some (level n)))
  by_timeout : (n : ℕ) → 1 ≤ n → Confirms id (timeout (some (level n)))

abbrev pub is_timeout : Event → Bool
is_timeout (timeout a) = true
is_timeout _ = false

verdict_lem : (a : Ack) → verdict a ≡ some true → (n : ℕ) × (a ≡ level n) × (1 ≤ n)
verdict_lem ack_error h = cc
verdict_lem (level n) h = (n, refl, ground arith)

verdict_of_lem :
    (a : Option Ack) → verdict_of a ≡ some true → (n : ℕ) × (a ≡ some (level n)) × (1 ≤ n)
verdict_of_lem none h = cc
verdict_of_lem (some a) h = let (n, e, le) = verdict_lem a h in (n, ap some e, le)

on_event-Confirms : (id : String) (e : Event) → on_event id e ≡ some true → Confirms id e
unfolding on_event
on_event-Confirms id (message_ack none a) h = cc
on_event-Confirms id (message_ack (some i) a) h =
    let same : i ≡ id = (eq_iff i id).0 (ground arith) in
    let (n, e, le) = verdict_lem a (ground arith) in
    subst (λ j. Confirms id (message_ack (some j) a)) (sym same)
      (subst (λ b. Confirms id (message_ack (some id) b)) (sym e) (by_message_ack n le))
on_event-Confirms id (poll a) h =
    let (n, e, le) = verdict_of_lem a h in subst (λ b. Confirms id (poll b)) (sym e) (by_poll n le)
on_event-Confirms id (timeout a) h =
    let (n, e, le) = verdict_of_lem a (ground arith) in
    subst (λ b. Confirms id (timeout b)) (sym e) (by_timeout n le)

wait_events-Confirms :
    (id : String) (es : List Event)
    → wait_events id es ≡ delivered true
    → (e : Event) × Memᴰ e es × Confirms id e
unfolding wait_events
wait_events-Confirms id [] h = cc
wait_events-Confirms id (e ∷ es) h = elim (Option-cases (on_event id e)) [
  | inl undecided ↦ let (x, m, k) = wait_events-Confirms id es (ground arith) in (x, Memᴰ.tail m, k)
  | inr (b, decided) ↦
      let yes : b ≡ true = ground arith in
      (e, Memᴰ.head refl, on_event-Confirms id e (decided ∙ ap some yes))
]

wait_events_settles :
    (id : String) (es : List Event) → any is_timeout es ≡ true → wait_events id es ≢ waiting
unfolding wait_events on_event
wait_events_settles id [] h = cc
wait_events_settles id (timeout a ∷ es) h = ground arith
wait_events_settles id (poll a ∷ es) h = ground (arith, wait_events_settles id es)
wait_events_settles id (message_ack i a ∷ es) h = ground (arith, wait_events_settles id es)

-- The wait reports a delivery only if an event confirmed that message.
pub delivered-Confirms :
    (id : Option String) (initial : Option Ack) (es : List Event)
    → wait_for_delivery_ack id initial es ≡ delivered true
    → (i : String) × (id ≡ some i) × ((e : Event) × Memᴰ e es × Confirms i e)
unfolding wait_for_delivery_ack
delivered-Confirms none initial es h = cc
delivered-Confirms (some id) initial es h = (id, refl, wait_events-Confirms id es (ground arith))

-- Once the time-out is among the events, the wait for the acknowledgement has settled.
pub wait_settles :
    (id : Option String) (initial : Option Ack) (es : List Event)
    → any is_timeout es ≡ true
    → wait_for_delivery_ack id initial es ≢ waiting
unfolding wait_for_delivery_ack
wait_settles none initial es h = cc
wait_settles (some id) initial es h = ground (arith, wait_events_settles id es h)

pub early_ack_rejects :
    (id : String) (n : ℕ) (es : List Event)
    → id ≢ ""
    → 1 ≤ n
    → wait_for_delivery_ack (some id) (some (level n)) es ≡ rejected timer_error
unfolding wait_for_delivery_ack
early_ack_rejects id n es named high = ground (arith, eq_iff id "")
