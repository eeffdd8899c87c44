-- ===== src/Rules/Disjoint.antt =====
-- What is stored when rules are made, changed and deleted: rules of one account share no keyword.
use whataapp_otp_project.Base.{
  ◌≡◌, refl, sym, inl, inr, String, true, false, not, ◌&&◌, some, List, [], ◌∷◌, any, find, ◌===◌,
  if◌then◌else◌, arith, eq_iff, Bool-cases, All, All-imp, find_passes,
}
use whataapp_otp_project.Base.Pairwise.{Pairwise, All-find}
use whataapp_otp_project.Rules.{Rule, of_account, has_id, is_of, conflicts}

-- Rules with other identifiers, and no keyword of one account in common.
abbrev pub Apart : Rule → Rule → Type 0
Apart r x = ((r.id === x.id) ≡ false) × (conflicts r.keywords r.account x ≡ false)

abbrev pub IsDisjoint : List Rule → Type 0
IsDisjoint rs = Pairwise Apart rs

shares_nothing : (xs : List String) → any (λ k. any (λ j. j === k) []) xs ≡ false
shares_nothing [] = refl
shares_nothing (x ∷ xs) = shares_nothing xs

shares_cons :
    (y : String) (ys xs : List String)
    → any (λ k. any (λ j. j === k) (y ∷ ys)) xs
      ≡ (if any (λ j. j === y) xs then true else any (λ k. any (λ j. j === k) ys) xs)
shares_cons y ys [] = refl
shares_cons y ys (x ∷ xs) = ground (arith, eq_iff x y, eq_iff y x, shares_cons y ys xs)

-- Having a keyword in common is symmetric.
shares_sym :
    (xs ys : List String)
    → any (λ k. any (λ j. j === k) xs) ys ≡ any (λ k. any (λ j. j === k) ys) xs
shares_sym xs [] = sym (shares_nothing xs)
shares_sym xs (y ∷ ys) = ground (arith, shares_cons y ys xs, shares_sym xs ys)

pub Apart-sym : (r x : Rule) → Apart r x → Apart x r
Apart-sym r x a = ground (
  arith,
  eq_iff r.id x.id,
  eq_iff x.id r.id,
  eq_iff r.account x.account,
  eq_iff x.account r.account,
  shares_sym r.keywords x.keywords,
)

-- A rule with this identifier belongs to this account.
abbrev pub Belongs : String → String → Rule → Type 0
Belongs id account x = (has_id id x && not (of_account account x)) ≡ false

pub found-Belongs :
    (id account : String) (rs : List Rule) (r : Rule)
    → IsDisjoint rs
    → find (is_of id account) rs ≡ some r
    → All (Belongs id account) rs
found-Belongs id account [] r d h = tt
found-Belongs id account (x ∷ rs) r d h = elim (Bool-cases (is_of id account x)) [
  | inl e ↦ (
    ground arith,
    All-imp (Apart x) (Belongs id account) rs
        (λ y a. ground (arith, eq_iff x.id id, eq_iff y.id id, eq_iff x.id y.id)) d.0,
  )
  | inr e ↦
      let later : find (is_of id account) rs ≡ some r = ground arith in
      let hit = find_passes (is_of id account) rs later in
      let apart = All-find (Apart x) (is_of id account) rs r d.0 later in
      (
        ground (arith, eq_iff x.id id, eq_iff r.id id, eq_iff x.id r.id),
        found-Belongs id account rs r d.1 later,
      )
]

-- The other rules of the account have none of these keywords.
abbrev pub Free : List String → String → String → Rule → Type 0
Free ks account id x = (conflicts ks account x && not (has_id id x)) ≡ false
