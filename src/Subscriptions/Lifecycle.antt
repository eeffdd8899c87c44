-- ===== src/Subscriptions/Lifecycle.antt =====
-- The states of a request under the decisions of the administrators.
use whataapp_otp_project.Base.{
  ℕ, ◌≡◌, refl, sym, ◌∙◌, ◌⊎◌, inl, inr, String, false, some, List, [], ◌∷◌, ◌===◌, arith, eq_iff,
  find, find_passes, Bool-cases, Option-cases,
}
use whataapp_otp_project.Base.Collection.{find-modify_other}
use whataapp_otp_project.Subscriptions.{
  approved, rejected, UserSubscription, has_id, Tables, State, approve, disapprove, grant,
}
use whataapp_otp_project.Subscriptions.Laws.{asked}

pub data Decision : Type 0 where
  approves : String → ℕ → Decision
  disapproves : String → Decision

module _ (t : Tables) where
  pub decide : State t → Decision → State t
  decide s (approves id now) = (approve t id now s).0
  decide s (disapproves id) = (disapprove t id s).0

  pub decide_all : State t → List Decision → State t
  decide_all s [] = s
  decide_all s (d ∷ ds) = decide_all (decide s d) ds

  -- A change to the request that another identifier finds.
  update_other :
      (j id : String) (f : UserSubscription → UserSubscription) (s : State t)
      (x r : UserSubscription)
      → ((y : UserSubscription) → (f y).id ≡ y.id)
      → (j === id) ≡ false
      → find (has_id j) (asked t s) ≡ some x
      → find (has_id id) (asked t s) ≡ some r
      → find (has_id id) (t.requests.docs (t.requests.update_one (has_id x.id) f s.requests))
        ≡ some r
  update_other j id f s x r keeps ne at_j at_id =
      rw (t.requests.update_one_lem (has_id x.id) f s.requests) (
        find-modify_other (has_id x.id) (has_id id) f (asked t s) r (λ y. rw (keeps y) refl) at_id
          (ground (
            arith,
            find_passes (has_id j) (asked t s) at_j,
            find_passes (has_id id) (asked t s) at_id,
            eq_iff x.id j,
            eq_iff r.id id,
            eq_iff r.id x.id,
            eq_iff j id,
          )))

  module _ (id : String) (s : State t) (r : UserSubscription)
      (found : find (has_id id) (asked t s) ≡ some r) (final : r.status ≡ approved) where
    -- The request that another call finds is this one, or has another identifier.
    which :
        (j : String) (x : UserSubscription)
        → t.requests.find_one (has_id j) s.requests ≡ some x
        → (x.status ≡ approved) ⊎ ((j === id) ≡ false)
    which j x e = elim (Bool-cases (j === id)) [
      | inl same ↦
          let one : some x ≡ some r =
            sym e
            ∙ t.requests.find_one_lem (has_id j) s.requests
            ∙ rw ((eq_iff j id).0 same) found in
          inl (ground arith)
      | inr differs ↦ inr differs
    ]

    kept_by :
        (j : String) (f : UserSubscription → UserSubscription) (x : UserSubscription)
        → ((y : UserSubscription) → (f y).id ≡ y.id)
        → (j === id) ≡ false
        → t.requests.find_one (has_id j) s.requests ≡ some x
        → find (has_id id) (t.requests.docs (t.requests.update_one (has_id x.id) f s.requests))
          ≡ some r
    kept_by j f x keeps ne e =
        update_other j id f s x r keeps ne (sym (t.requests.find_one_lem (has_id j) s.requests) ∙ e)
          found

    approve_keeps :
        (j : String) (now : ℕ) → find (has_id id) (asked t (approve t j now s).0) ≡ some r
    unfolding approve grant
    approve_keeps j now = elim (Option-cases (t.requests.find_one (has_id j) s.requests)) [
      | inl e ↦ rw (e, approve) found
      | inr (x, e) ↦
          let mark : UserSubscription → UserSubscription =
            λ y. record y { status = approved; approved_at = some now } in
          elim (which j x e) [
            | inl done ↦ rw (e, approve, done) found
            | inr ne ↦ ground (arith, kept_by j mark x (λ y. refl) ne e)
          ]
    ]

    disapprove_keeps : (j : String) → find (has_id id) (asked t (disapprove t j s).0) ≡ some r
    unfolding disapprove
    disapprove_keeps j = elim (Option-cases (t.requests.find_one (has_id j) s.requests)) [
      | inl e ↦ rw (e, disapprove) found
      | inr (x, e) ↦ elim (which j x e) [
        | inl done ↦ rw (e, disapprove, done) found
        | inr ne ↦
            ground (arith, kept_by j (λ y. record y { status = rejected }) x (λ y. refl) ne e)
      ]
    ]

  -- An approved request stays as it is, whatever is approved and disapproved afterwards, in
  -- whatever order.
  pub approved_is_final :
      (id : String) (r : UserSubscription) (ds : List Decision) (s : State t)
      → find (has_id id) (asked t s) ≡ some r
      → r.status ≡ approved
      → find (has_id id) (asked t (decide_all s ds)) ≡ some r
  unfolding decide_all decide
  approved_is_final id r [] s found final = found
  approved_is_final id r (approves j now ∷ ds) s found final =
      approved_is_final id r ds _ (approve_keeps id s r found final j now) final
  approved_is_final id r (disapproves j ∷ ds) s found final =
      approved_is_final id r ds _ (disapprove_keeps id s r found final j) final
