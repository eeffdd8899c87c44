-- ===== src/Auth/Active.antt =====
-- Which API key is active after the key of an account is asked for.
use whataapp_otp_project.Base.{
  ◌≤◌, ◌≡◌, refl, sym, subst, inl, inr, String, true, false, not, ◌&&◌, Option, none, some, List,
  [], ◌∷◌, map, ◌===◌, if◌then◌else◌, filter, All, All-imp, arith, Bool-cases,
}
use mathlib.Core.List.{Memᴰ}
use whataapp_otp_project.Base.Pairwise.{Pairwise, filter-Pairwise}
use whataapp_otp_project.Base.Collection.{Collection}
use whataapp_otp_project.Guards.{ApiKey}
use whataapp_otp_project.Auth.Keys.{
  active_of, deactivate, sort_by_age, is_among, keep_oldest, get_active_api_key_for_account,
}
use whataapp_otp_project.Auth.Removal.{map-All}
use whataapp_otp_project.Auth.Sorting.{
  Apart, NotAfter, IsIdentified, is_among-sort, among_filter, Memᴰ-sort, Memᴰ-filter, Memᴰ-map,
  All-sort, All-filter, sort-IsIdentified, sort-IsSorted, not_among,
}

-- Every active key of the account is the key of this identifier.
abbrev pub OnlyActive : String → String → String → List ApiKey → Type 0
OnlyActive user account id ks =
    All (λ k. (active_of user account k && not (id === k.id)) ≡ false) ks

-- The answer on the active key of an account: none if the account has no active key, and nothing
-- changes then; else an oldest of the active keys, which stays as it is, and the only one that is
-- still active.
pub data Primary (user account : String) (before after : List ApiKey) : Option String → Type 0 where
  no_key :
      All (λ k. active_of user account k ≡ false) before
      → after ≡ before
      → Primary user account before after none
  primary :
      (k : ApiKey)
      → Memᴰ k before
      → active_of user account k ≡ true
      → All (λ j. active_of user account j ≡ true → k.created_at ≤ j.created_at) before
      → Memᴰ k after
      → OnlyActive user account k.id after
      → Primary user account before after (some k.key)

-- A key that is among the first and the rest, when the rest are deactivated.
one_left :
    (user account : String) (k : ApiKey) (ks : List ApiKey) (i : ApiKey)
    → (active_of user account i && not (is_among (k ∷ ks) i)) ≡ false
    → (active_of user account (if is_among ks i then deactivate i else i)
        && not (k.id === (if is_among ks i then deactivate i else i).id))
      ≡ false
one_left user account k ks i h = elim (Bool-cases (is_among ks i)) [
  | inl e ↦ rw e (ground arith)
  | inr e ↦ rw e (ground (arith, h, e))
]

module _ (kc : Collection ApiKey) where
  -- The first of the sorted keys is an active one of the store, and no other is older.
  record Heads (user account : String) (k : ApiKey) (ks : List ApiKey) (s : kc.Store) : Type 0 where
    member : Memᴰ k (kc.docs s)
    active : active_of user account k ≡ true
    oldest : All (λ j. active_of user account j ≡ true → k.created_at ≤ j.created_at) (kc.docs s)
    others : All (Apart k) ks

  sorted-Heads :
      (user account : String) (k : ApiKey) (ks : List ApiKey) (s : kc.Store)
      → IsIdentified (kc.docs s)
      → sort_by_age (filter (active_of user account) (kc.docs s)) ≡ k ∷ ks
      → Heads user account k ks s
  sorted-Heads user account k ks s d e =
      let p = active_of user account in
      let active = filter p (kc.docs s) in
      let (m, h) =
        Memᴰ-filter p k (kc.docs s)
          (Memᴰ-sort k active (subst (λ l. Memᴰ k l) (sym e) (Memᴰ.head refl))) in
      let sorted : Pairwise NotAfter (k ∷ ks) =
        subst (Pairwise NotAfter) e (sort-IsSorted active) in
      let apart : IsIdentified (k ∷ ks) =
        subst IsIdentified e (sort-IsIdentified active (filter-Pairwise Apart p (kc.docs s) d)) in
      record {
        member = m;
        active = h;
        oldest = All-filter (NotAfter k) p (kc.docs s) (
            All-sort (NotAfter k) active
              (subst (All (NotAfter k)) (sym e) (omega arith, sorted.0)));
        others = apart.0;
      }

  keep_oldest-Primary :
      (user account : String) (ks : List ApiKey) (s : kc.Store)
      → All (λ k. (active_of user account k && not (is_among ks k)) ≡ false) (kc.docs s)
      → ((k : ApiKey) (js : List ApiKey) → ks ≡ k ∷ js → Heads user account k js s)
      → Primary user account (kc.docs s) (kc.docs (keep_oldest kc ks s).0) (keep_oldest kc ks s).1
  unfolding keep_oldest
  keep_oldest-Primary user account [] s a h =
      no_key
        (All-imp _ (λ k. active_of user account k ≡ false) (kc.docs s) (λ k h. ground (arith, h)) a)
        refl
  keep_oldest-Primary user account (k ∷ []) s a h =
      let first = h k [] refl in
      primary k first.member first.active first.oldest first.member (
        All-imp _ (λ j. (active_of user account j && not (k.id === j.id)) ≡ false) (kc.docs s)
          (λ j h. ground (arith, h)) a)
  keep_oldest-Primary user account (k ∷ j ∷ ks) s a h =
      let first = h k (j ∷ ks) refl in
      let f : ApiKey → ApiKey = λ i. if is_among (j ∷ ks) i then deactivate i else i in
      let kept : f k ≡ k = rw (not_among k (j ∷ ks) first.others) refl in
      let update = kc.update_many_lem (is_among (j ∷ ks)) deactivate s in
      primary k first.member first.active first.oldest
        (rw update
          (subst (λ x. Memᴰ x (map f (kc.docs s))) kept (Memᴰ-map f k (kc.docs s) first.member)))
        (rw update (
          map-All (λ i. (active_of user account i && not (k.id === i.id)) ≡ false) f (kc.docs s)
            (All-imp (λ i. (active_of user account i && not (is_among (k ∷ j ∷ ks) i)) ≡ false)
              (λ i. (active_of user account (f i) && not (k.id === (f i).id)) ≡ false) (kc.docs s)
              (λ i h. one_left user account k (j ∷ ks) i h) a)))

  -- Where no two keys have one identifier, asking for the active key of an account answers the key
  -- of an oldest of the active keys of the user for it. That one stays as it is, and no other is
  -- active afterwards; where none is active there is no answer, and nothing changes.
  pub get_active-Primary :
      (user account : String) (s : kc.Store)
      → IsIdentified (kc.docs s)
      → Primary user account
          (kc.docs s)
          (kc.docs (get_active_api_key_for_account kc user account s).0)
          (get_active_api_key_for_account kc user account s).1
  unfolding get_active_api_key_for_account
  get_active-Primary user account s d =
      let p = active_of user account in
      let active = filter p (kc.docs s) in
      let all =
        All-imp (λ k. (p k && not (is_among active k)) ≡ false)
          (λ k. (p k && not (is_among (sort_by_age active) k)) ≡ false) (kc.docs s)
          (λ k h. rw (is_among-sort k active) h) (among_filter p (kc.docs s)) in
      rw (get_active_api_key_for_account, kc.find_all_lem p s)
        (keep_oldest-Primary user account (sort_by_age active) s all
          (λ k js e. sorted-Heads user account k js s d e))
