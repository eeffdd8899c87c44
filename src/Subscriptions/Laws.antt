-- ===== src/Subscriptions/Laws.antt =====
-- What an approved request gives its user.
use whataapp_otp_project.Base.{
  ℕ, ◌+◌, ◌*◌, ◌≤◌, ◌<◌, ◌≡◌, refl, sym, subst, ◌∙◌, ◌≢◌, ◌⊎◌, inl, inr, String, true, none, some,
  List, arith, eq_iff, eq_refl, find, find_passes,
}
use whataapp_otp_project.Base.Collection.{
  modify_first, find-modify_first, find-append_last, any-find,
}
use whataapp_otp_project.Users.{User, active, EmbeddedSubscription, day_ms}
use whataapp_otp_project.Users
use whataapp_otp_project.Guards.{message_limit_guard}
use whataapp_otp_project.Guards
use whataapp_otp_project.Guards.Laws.{message_limit_guard_iff}
use whataapp_otp_project.Subscriptions.{
  SubscriptionStatus, pending, approved, rejected, Subscription, UserSubscription, ok,
  already_approved, applied, has_id, has_user, is_plan, new_request, renew_request, granted,
  subscribe, Tables, State, create, approve, grant,
}

status_cases : (t : SubscriptionStatus) → (t ≡ approved) ⊎ (t ≢ approved)
status_cases approved = inl refl
status_cases pending = inr cc
status_cases rejected = inr cc

module _ (t : Tables) where
  -- The documents of the requests and of the users.
  abbrev pub asked : State t → List UserSubscription
  asked s = t.requests.docs s.requests

  abbrev pub people : State t → List User
  people s = t.users.docs s.users

  module _ (id : String) (now : ℕ) (s : State t) (r : UserSubscription)
      (found : find (has_id id) (asked s) ≡ some r) (open_request : r.status ≢ approved) where
    pub approve_open : approve t id now s ≡ (grant t r now s, ok applied)
    unfolding approve
    approve_open = ground (arith, t.requests.find_one_lem (has_id id) s.requests)

    approve_marks :
        find (has_id id) (asked (approve t id now s).0)
        ≡ some (record r { status = approved; approved_at = some now })
    unfolding grant
    approve_marks =
        let same : r.id ≡ id = (eq_iff r.id id).0 (find_passes (has_id id) (asked s) found) in
        let mark : UserSubscription → UserSubscription =
          λ x. record x { status = approved; approved_at = some now } in
        rw (approve_open, t.requests.update_one_lem (has_id r.id) mark s.requests)
          (subst (λ i. find (has_id id) (modify_first (has_id i) mark (asked s)) ≡ some (mark r))
            (sym same)
            (find-modify_first (has_id id) mark (asked s) r found
              (find_passes (has_id id) (asked s) found)))

    -- Approving a request that is not approved marks it approved, with the time, and puts the plan
    -- that it names into force for its user: the limit starts from zero messages used.
    pub approve_grants :
        (u : User)
        → find (Users.has_id r.user) (people s) ≡ some u
        → let s' = (approve t id now s).0 in
          (find (Users.has_id r.user) (people s') ≡ some (subscribe (granted r now) u))
          × (find (has_id id) (asked s')
              ≡ some (record r { status = approved; approved_at = some now }))
    unfolding grant
    approve_grants u user = (
      rw
          (
            approve_open,
            t.users.update_one_lem (Users.has_id r.user) (subscribe (granted r now)) s.users,
          )
          (find-modify_first (Users.has_id r.user) (subscribe (granted r now)) (people s) u user
            (find_passes (Users.has_id r.user) (people s) user)),
      approve_marks,
    )

    -- Approving once more, at any later time, a request that was open and has been approved changes
    -- nothing: the messages counted since the first approval stay counted.
    pub approve_twice :
        (later : ℕ)
        → let s' = (approve t id now s).0 in approve t id later s' ≡ (s', ok already_approved)
    unfolding approve
    approve_twice later =
        let s' = (approve t id now s).0 in
        let again : t.requests.find_one (has_id id) s'.requests
            ≡ some (record r { status = approved; approved_at = some now }) =
          t.requests.find_one_lem (has_id id) s'.requests ∙ approve_marks in
        rw (again, approve)

    -- From the approval of an open request of a known user until the days of the plan are over, the
    -- message limit guard lets the user's requests through right after the approval, if the plan
    -- grants any message.
    pub approved_may_send :
        (u : User) (later : ℕ)
        → find (Users.has_id r.user) (people s) ≡ some u
        → later ≤ now + r.duration_in_days * day_ms
        → 0 < r.message_limit
        → message_limit_guard t.users r.user later (approve t id now s).0.users ≡ Guards.ok true
    unfolding granted
    approved_may_send u later user in_time some_messages =
        (message_limit_guard_iff t.users r.user later (approve t id now s).0.users).1 (
          subscribe (granted r now) u,
          granted r now,
          (approve_grants u user).0,
          refl,
          record { in_time = in_time; is_active = refl; below = some_messages },
        )

  create_adds :
      (plan user id : String) (s : State t) (p : Subscription)
      → find (is_plan plan) (t.plans.docs s.plans) ≡ some p
      → find (has_user user) (asked s) ≡ none
      → find (has_id id) (asked s) ≡ none
      → (find (has_id id) (asked (create t plan user id s).0) ≡ some (new_request p user id))
        × (people (create t plan user id s).0 ≡ people s)
  unfolding create new_request
  create_adds plan user id s p is_p none_yet fresh =
      let r = new_request p user id in
      let found : t.plans.find_one (is_plan plan) s.plans ≡ some p =
        t.plans.find_one_lem (is_plan plan) s.plans ∙ is_p in
      let added =
        t.requests.upsert_lem (has_user user) (renew_request p user) (new_request p user id)
          s.requests in
      (
        rw (found, create)
            (rw added (
              rw (any-find (has_user user) (asked s), none_yet)
                (find-append_last (has_id id) (asked s) r fresh (eq_refl id)))),
        rw (found, create) refl,
      )

  -- A known user without a request asks for a plan that exists, under a new identifier, and the
  -- request is approved: the user then has the limits of the plan, for its days from the approval
  -- on, with no message used.
  pub request_in_force :
      (plan user id : String) (now : ℕ) (s : State t) (p : Subscription) (u : User)
      → find (is_plan plan) (t.plans.docs s.plans) ≡ some p
      → find (Users.has_id user) (people s) ≡ some u
      → find (has_user user) (asked s) ≡ none
      → find (has_id id) (asked s) ≡ none
      → let s' = (approve t id now (create t plan user id s).0).0 in
        find (Users.has_id user) (people s')
        ≡ some (
            subscribe
              (record {
                name = p.name;
                message_limit = p.message_limit;
                duration_in_days = p.duration_in_days;
                features = p.features;
                is_custom = p.is_custom;
                start_date = now;
                end_date = now + p.duration_in_days * day_ms;
                messages_used = 0;
                status = active;
              })
              u)
  unfolding create new_request granted
  request_in_force plan user id now s p u is_p is_u none_yet fresh =
      let r = new_request p user id in
      let s1 = (create t plan user id s).0 in
      let (asked1, people1) = create_adds plan user id s p is_p none_yet fresh in
      (approve_grants id now s1 r asked1 (λ e. cc) u (rw people1 is_u)).0
