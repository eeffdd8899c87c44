-- ===== src/AutoResponder/Figures.antt =====
-- What one message does to the figures and the histories of the auto-responder.
use whataapp_otp_project.Base.{
  ℕ, ◌≤◌, ◌≡◌, refl, sym, ap, ◌∙◌, subst, inl, inr, String, Bool, true, false, Option, none, some,
  List, [], ◌∷◌, ◌++◌, arith, ltb, if◌then◌else◌, ◌===◌, eq_refl, Option-cases, length,
  length-append, if_elim, ◌-◌, ◌&&◌, truthy,
}
use whataapp_otp_project.Base.JsMap
use whataapp_otp_project.Base.JsMap.{get-set, get-delete}
use whataapp_otp_project.Rules.{Rule}
use whataapp_otp_project.Whatsapp.Sessions.{is_client_ready}
use whataapp_otp_project.AutoResponder.Score.{find_best_matching_rule}
use whataapp_otp_project.AutoResponder.{
  AutoResponseStats, ResponseAttempt, State, Lookup, looked_up, lookup_failed, SendReply, Arrival,
  zero_stats, initialize_stats, ensure_stats, update_stats, count_received, count_matched,
  count_failed, count_sent, history_of, or_empty, shift, max_response_history, record_response,
  send_auto_response, settle, answer, with_client, with_account, handle_incoming_message,
  calculate_average_response_time, sender_key, is_blank,
}

-- The figures that an entry of the map stands for, none for zeros.
abbrev pub or_zero : Option AutoResponseStats → AutoResponseStats
or_zero none = zero_stats
or_zero (some x) = x

abbrev pub stats_of : String → State → AutoResponseStats
stats_of id s = or_zero (JsMap.get id s.stats)

-- What a message that was counted does to its account's figures, and whether it was answered.
pub data Move (x : AutoResponseStats) : AutoResponseStats → Bool → Type 0 where
  quiet : Move x x false
  broken : Move x (count_failed x) false
  refused : Move x (count_failed (count_matched x)) false
  served : (now average : ℕ) → Move x (count_sent now average (count_matched x)) true

abbrev pub IsShort : State → Type 0
IsShort s = (id : String) → length (history_of id s) ≤ 100

-- What a state and an answer are, seen from the state before.
pub record Handled (id : String) (s : State) (x : AutoResponseStats) (o : State × Bool)
    : Type 0 where
  pub figures : AutoResponseStats
  pub found : JsMap.get id o.0.stats ≡ some figures
  pub move : Move x figures o.1
  pub others : (j : String) → (id === j) ≡ false → JsMap.get j o.0.stats ≡ JsMap.get j s.stats
  pub short : IsShort s → IsShort o.0

shift-length :
    (h : List ResponseAttempt)
    → length h ≤ 101
    → length (if ltb max_response_history (length h) then shift h else h) ≤ 100
unfolding max_response_history
shift-length [] b = omega arith
shift-length (r ∷ h) b = ground arith

history-record_response :
    (id j : String) (r : ResponseAttempt) (s : State)
    → history_of j (record_response id r s) ≡ (
        if id === j
        then (if ltb max_response_history (length (history_of id s ++ r ∷ []))
            then shift (history_of id s ++ r ∷ [])
            else history_of id s ++ r ∷ [])
        else history_of j s)
unfolding record_response
history-record_response id j r s =
    let h = history_of id s ++ r ∷ [] in
    let kept = if ltb max_response_history (length h) then shift h else h in
    ap or_empty (get-set id j kept s.response_history) ∙ ground arith

record_response-IsShort :
    (id : String) (r : ResponseAttempt) (s : State) → IsShort s → IsShort (record_response id r s)
record_response-IsShort id r s short j =
    subst (λ l. length l ≤ 100) (sym (history-record_response id j r s))
      (if_elim (λ l. length l ≤ 100) (id === j)
        (shift-length (history_of id s ++ r ∷ [])
          (omega (arith, length-append (history_of id s) (r ∷ []), short id)))
        (short j))

update_stats-found :
    (id : String) (f : AutoResponseStats → AutoResponseStats) (s : State) (x : AutoResponseStats)
    → JsMap.get id s.stats ≡ some x
    → JsMap.get id (update_stats id f s).stats ≡ some (f x)
unfolding update_stats
update_stats-found id f s x h =
    rw (update_stats, h) (ground (arith, get-set id id (f x) s.stats, eq_refl id))

update_stats-others :
    (id j : String) (f : AutoResponseStats → AutoResponseStats) (s : State)
    → (id === j) ≡ false
    → JsMap.get j (update_stats id f s).stats ≡ JsMap.get j s.stats
unfolding update_stats
update_stats-others id j f s n = elim (Option-cases (JsMap.get id s.stats)) [
  | inl e ↦ rw (update_stats, e) refl
  | inr (x, e) ↦ rw (update_stats, e) (ground (arith, get-set id j (f x) s.stats))
]

update_stats-history :
    (id : String) (f : AutoResponseStats → AutoResponseStats) (s : State)
    → (update_stats id f s).response_history ≡ s.response_history
unfolding update_stats
update_stats-history id f s = elim (Option-cases (JsMap.get id s.stats)) [
  | inl e ↦ rw (update_stats, e) refl
  | inr (x, e) ↦ rw (update_stats, e) refl
]

-- A change of the figures, before what keeps the others and the histories.
update_stats-IsShort :
    (id : String) (f : AutoResponseStats → AutoResponseStats) (s : State)
    → IsShort s
    → IsShort (update_stats id f s)
update_stats-IsShort id f s short j = rw (update_stats-history id f s) (short j)

module _ (id : String) (s : State) (x : AutoResponseStats) (h : JsMap.get id s.stats ≡ some x) where
  untouched : Handled id s x (s, false)
  untouched = record { figures = x; found = h; move = quiet; others = λ j n. refl; short = λ b. b }

  recorded : (r : ResponseAttempt) → Handled id s x (record_response id r s, false)
  unfolding record_response
  recorded r = record {
    figures = x;
    found = h;
    move = quiet;
    others = λ j n. refl;
    short = record_response-IsShort id r s;
  }

  failed_lookup :
      (r : ResponseAttempt)
      → Handled id s x (record_response id r (update_stats id count_failed s), false)
  unfolding record_response
  failed_lookup r = record {
    figures = count_failed x;
    found = update_stats-found id count_failed s x h;
    move = broken;
    others = λ j n. update_stats-others id j count_failed s n;
    short = λ b.
        record_response-IsShort id r (update_stats id count_failed s)
          (update_stats-IsShort id count_failed s b);
  }

settle-Handled :
    (a : Arrival) (r : Rule) (reply : SendReply) (s : State) (x : AutoResponseStats)
    → JsMap.get a.account_id s.stats ≡ some x
    → Handled a.account_id s x (settle a r reply (update_stats a.account_id count_matched s))
unfolding settle record_response
settle-Handled a r reply s x h =
    let id = a.account_id in
    let s1 = update_stats id count_matched s in
    let average = calculate_average_response_time id (a.now - a.started) s1 in
    let s2 = update_stats id (count_sent a.now average) s1 in
    let h1 = update_stats-found id count_matched s x h in
    if_elim (Handled id s x) reply.success
      (record {
        figures = count_sent a.now average (count_matched x);
        found = update_stats-found id (count_sent a.now average) s1 (count_matched x) h1;
        move = served a.now average;
        others = λ j n.
            update_stats-others id j (count_sent a.now average) s1 n
            ∙ update_stats-others id j count_matched s n;
        short = λ b.
            record_response-IsShort id _
              (record s2 {
                recent_responses = JsMap.set (sender_key id a.sender) a.now s2.recent_responses;
              })
              (update_stats-IsShort id (count_sent a.now average) s1
                (update_stats-IsShort id count_matched s b));
      })
      (record {
        figures = count_failed (count_matched x);
        found = update_stats-found id count_failed s1 (count_matched x) h1;
        move = refused;
        others = λ j n.
            update_stats-others id j count_failed s1 n ∙ update_stats-others id j count_matched s n;
        short = λ b.
            record_response-IsShort id _ (update_stats id count_failed s1)
              (update_stats-IsShort id count_failed s1 (update_stats-IsShort id count_matched s b));
      })

answer-Handled :
    (a : Arrival) (o : Option Rule) (s : State) (x : AutoResponseStats)
    → JsMap.get a.account_id s.stats ≡ some x
    → Handled a.account_id s x (answer a o s)
unfolding answer
answer-Handled a none s x h = recorded a.account_id s x h _
answer-Handled a (some r) s x h = settle-Handled a r (send_auto_response a.sending) s x h

-- Where the figures begin for a message: at 0 for an account that has none.
counted-found :
    (id : String) (s : State)
    → JsMap.get id (update_stats id count_received (ensure_stats id s)).stats
      ≡ some (count_received (stats_of id s))
unfolding initialize_stats
counted-found id s = elim (Option-cases (JsMap.get id s.stats)) [
  | inl e ↦
      rw (ensure_stats, e)
        (update_stats-found id count_received (initialize_stats id s) zero_stats
          (ground (arith, get-set id id zero_stats s.stats, eq_refl id)))
  | inr (x, e) ↦ rw (ensure_stats, e) (update_stats-found id count_received s x e)
]

pub counted-others :
    (id j : String) (s : State)
    → (id === j) ≡ false
    → JsMap.get j (update_stats id count_received (ensure_stats id s)).stats ≡ JsMap.get j s.stats
unfolding initialize_stats
counted-others id j s n = elim (Option-cases (JsMap.get id s.stats)) [
  | inl e ↦
      rw (ensure_stats, e)
        (update_stats-others id j count_received (initialize_stats id s) n
          ∙ ground (arith, get-set id j zero_stats s.stats))
  | inr (x, e) ↦ rw (ensure_stats, e) (update_stats-others id j count_received s n)
]

pub counted-IsShort :
    (id : String) (s : State)
    → IsShort s
    → IsShort (update_stats id count_received (ensure_stats id s))
unfolding initialize_stats
counted-IsShort id s b = elim (Option-cases (JsMap.get id s.stats)) [
  | inl e ↦ rw (ensure_stats, e) (update_stats-IsShort id count_received (initialize_stats id s) b)
  | inr (x, e) ↦ rw (ensure_stats, e) (update_stats-IsShort id count_received s b)
]

module _ (lower : String → String) (fold : ℕ → ℕ) where
  with_client-Handled :
      (a : Arrival) (id : Option String) (s : State) (x : AutoResponseStats)
      → JsMap.get a.account_id s.stats ≡ some x
      → Handled a.account_id s x (with_client lower fold a id s)
  unfolding with_client
  with_client-Handled a none s x h = untouched a.account_id s x h
  with_client-Handled a (some id) s x h =
      if_elim (Handled a.account_id s x) (truthy (some id) && is_client_ready id a.manager)
        (answer-Handled a (find_best_matching_rule lower fold a.message a.rules) s x h)
        (untouched a.account_id s x h)

  with_account-Handled :
      (a : Arrival) (l : Lookup) (s : State) (x : AutoResponseStats)
      → JsMap.get a.account_id s.stats ≡ some x
      → Handled a.account_id s x (with_account lower fold a l s)
  unfolding with_account
  with_account-Handled a (lookup_failed m) s x h = failed_lookup a.account_id s x h _
  with_account-Handled a (looked_up none) s x h = untouched a.account_id s x h
  with_account-Handled a (looked_up (some y)) s x h = with_client-Handled a y.client_id s x h

  pub handle-Handled :
      (a : Arrival) (s : State)
      → Handled a.account_id
          (update_stats a.account_id count_received (ensure_stats a.account_id s))
          (count_received (stats_of a.account_id s))
          (handle_incoming_message lower fold a s)
  unfolding handle_incoming_message
  handle-Handled a s =
      let id = a.account_id in
      let s1 = update_stats id count_received (ensure_stats id s) in
      let x = count_received (stats_of id s) in
      if_elim (Handled id s1 x) (is_blank a.message) (untouched id s1 x (counted-found id s))
        (with_account-Handled a a.account s1 x (counted-found id s))
