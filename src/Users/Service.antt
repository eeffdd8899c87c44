-- ===== src/Users/Service.antt =====
-- src/modules/users/users.service.ts. The hash of a password is a function of a library. An
-- identifier that cannot be cast reads as one that is not stored.
use whataapp_otp_project.Base.{
  ℕ, String, Bool, false, not, ◌&&◌, ◌||◌, Option, none, some, ◌===◌, if◌then◌else◌, is_some,
  or_keep, truthy,
}
use whataapp_otp_project.Base.Collection.{Collection}
use whataapp_otp_project.Users.{User, get_free_plan, has_id}

-- The identifier is the one that the database gives to the new user.
pub record CreateUserDto : Type 0 where
  pub id : String
  pub email : String
  pub username : String
  pub password : String

pub record UpdateUserDto : Type 0 where
  pub email : Option String
  pub username : Option String
  pub password : Option String
  pub user_role : Option String

pub data UserError : Type 0 where
  username_exists : UserError
  email_exists : UserError
  user_not_found : UserError

pub data Result {ℓ} (A : Type ℓ) : Type ℓ where
  ok : A → Result A
  err : UserError → Result A

abbrev pub same_name : String → User → Bool
same_name n u = u.username === n

abbrev pub same_email : String → User → Bool
same_email e u = u.email === e

-- `{ $or: [{ username }, { email }] }`
abbrev pub is_taken : String → String → User → Bool
is_taken name email u = same_name name u || same_email email u

-- The same on a change, where a field that is not given is no user's.
abbrev pub given_and {ℓ} : {A : Type ℓ} → Option A → (A → Bool) → Bool
given_and none p = false
given_and (some a) p = p a

abbrev pub is_duplicate : UpdateUserDto → String → User → Bool
is_duplicate dto id u =
    (given_and dto.username (λ n. same_name n u) || given_and dto.email (λ e. same_email e u))
    && not (has_id id u)

-- Which of the two is reported.
abbrev pub conflict : Option String → User → UserError
conflict name u = if given_and name (λ n. same_name n u) then username_exists else email_exists

module _ (hash : String → String) where
  unfoldable pub new_user : CreateUserDto → ℕ → User
  new_user dto now = record {
    id = dto.id;
    email = dto.email;
    username = dto.username;
    password = hash dto.password;
    user_role = "user";
    subscription = some (get_free_plan now);
  }

  -- `if (dto.password)`
  abbrev pub new_password : Option String → String → String
  new_password none old = old
  new_password (some p) old = if truthy (some p) then hash p else p

  unfoldable pub apply_update : UpdateUserDto → User → User
  apply_update dto u = record u {
    email = or_keep u.email dto.email;
    username = or_keep u.username dto.username;
    password = new_password dto.password u.password;
    user_role = or_keep u.user_role dto.user_role;
  }

module _ (c : Collection User) where
  unfoldable pub create_user :
      (String → String) → CreateUserDto → ℕ → c.Store → c.Store × Result User
  create_user hash dto now s = elim (c.find_one (is_taken dto.username dto.email) s) [
    | some u ↦ (s, err (conflict (some dto.username) u))
    | none ↦ (c.create (new_user hash dto now) s, ok (new_user hash dto now))
  ]

  unfoldable pub find_user_by_id : String → c.Store → Result User
  find_user_by_id id s = elim (c.find_one (has_id id) s) [
    | none ↦ err user_not_found
    | some u ↦ ok u
  ]

  unfoldable pub find_user_by_email : String → c.Store → Option User
  find_user_by_email email s = c.find_one (same_email email) s

  unfoldable pub update_user :
      (String → String) → String → UpdateUserDto → c.Store → c.Store × Result User
  update_user hash id dto s = elim (c.find_one (has_id id) s) [
    | none ↦ (s, err user_not_found)
    | some u ↦ elim (c.find_one (is_duplicate dto id) s) [
      | some v ↦ (s, err (conflict dto.username v))
      | none ↦ (c.update_one (has_id id) (apply_update hash dto) s, ok (apply_update hash dto u))
    ]
  ]

  unfoldable pub delete_user : String → c.Store → c.Store × Result (Unit {0})
  delete_user id s =
      if is_some (c.find_one (has_id id) s)
      then (c.delete_one (has_id id) s, ok tt)
      else (s, err user_not_found)
