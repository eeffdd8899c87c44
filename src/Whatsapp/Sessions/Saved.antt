-- ===== src/Whatsapp/Sessions/Saved.antt =====
-- src/modules/whatsapp/services/session-manager.service.ts: what is saved about a session in its
-- account, the document of src/modules/accounts/schema/account.schema.ts. The schema's default gives
-- every account its session data.
use whataapp_otp_project.Base.{
  ℕ, ◌≡◌, refl, ◌∙◌, ap, String, Bool, true, false, Option, none, some, ◌===◌, find, find_passes,
}
use whataapp_otp_project.Base.Collection.{Collection, find-modify_first}
use whataapp_otp_project.Whatsapp.Sessions.{Manager, ClientState, get_client_state}

pub record SessionData : Type 0 where
  pub is_authenticated : Bool
  pub last_connected : ℕ
  pub auth_state : String
  pub session_valid : Bool

pub record Account : Type 0 where
  pub name : String
  pub phone_number : String
  pub user : String
  pub client_id : Option String
  pub status : String
  pub session_data : SessionData

abbrev is_client : String → Option String → Bool
is_client id none = false
is_client id (some i) = i === id

abbrev pub of_client : String → Account → Bool
of_client id a = is_client id a.client_id

unfoldable pub saved : String → ℕ → Account → Account
saved phone now a = record a {
  session_data = record {
    is_authenticated = true;
    last_connected = now;
    auth_state = "authenticated";
    session_valid = true;
  };
  status = "ready";
  phone_number = phone;
}

unfoldable pub disconnected : Account → Account
disconnected a = record a {
  session_data = record (a.session_data) {
    is_authenticated = false;
    auth_state = "disconnected";
    session_valid = false;
  };
  status = "disconnected";
}

module _ (c : Collection Account) where
  -- `phone` is the number of the client's own information, if it is there; reading it may throw.
  unfoldable pub save_phone : Option ClientState → Option String → String → ℕ → c.Store → c.Store
  save_phone none phone id now s = c.update_one (of_client id) (saved "Unknown" now) s
  save_phone (some st) none id now s = s
  save_phone (some st) (some phone) id now s = c.update_one (of_client id) (saved phone now) s

  unfoldable pub save_session_state : String → Option String → ℕ → Manager → c.Store → c.Store
  save_session_state id phone now m s = save_phone (get_client_state id m) phone id now s

  unfoldable pub load_session_state : String → c.Store → Option SessionData
  load_session_state id s = elim (c.find_one (of_client id) s) [
    | none ↦ none
    | some a ↦ some a.session_data
  ]

  unfoldable pub mark_session_as_disconnected : String → c.Store → c.Store
  mark_session_as_disconnected id s = c.update_one (of_client id) disconnected s

  written :
      (id : String) (f : Account → Account) (s : c.Store) (a : Account)
      → ((x : Account) → (f x).client_id ≡ x.client_id)
      → find (of_client id) (c.docs s) ≡ some a
      → find (of_client id) (c.docs (c.update_one (of_client id) f s)) ≡ some (f a)
  written id f s a keeps found =
      ap (find (of_client id)) (c.update_one_lem (of_client id) f s)
      ∙ find-modify_first (of_client id) f (c.docs s) a found
          (ap (is_client id) (keeps a) ∙ find_passes (of_client id) (c.docs s) found)

  loads :
      (id : String) (s : c.Store) (a : Account)
      → find (of_client id) (c.docs s) ≡ some a
      → load_session_state id s ≡ some a.session_data
  unfolding load_session_state
  loads id s a found = rw (c.find_one_lem (of_client id) s, load_session_state, found) refl

  -- What is saved of a connected client's session, for a client that has an account, is loaded
  -- again, and once the session is marked as disconnected it is loaded as no longer valid, with the
  -- time at which it was last connected.
  pub save-load :
      (id phone : String) (now : ℕ) (m : Manager) (st : ClientState) (s : c.Store) (a : Account)
      → get_client_state id m ≡ some st
      → find (of_client id) (c.docs s) ≡ some a
      → let s1 = save_session_state id (some phone) now m s in
        (load_session_state id s1
          ≡ some (record {
            is_authenticated = true;
            last_connected = now;
            auth_state = "authenticated";
            session_valid = true;
          }))
        × (load_session_state id (mark_session_as_disconnected id s1)
            ≡ some (record {
              is_authenticated = false;
              last_connected = now;
              auth_state = "disconnected";
              session_valid = false;
            }))
  unfolding save_session_state save_phone mark_session_as_disconnected saved disconnected
  save-load id phone now m st s a running found =
      let s1 = c.update_one (of_client id) (saved phone now) s in
      let first = written id (saved phone now) s a (λ x. refl) found in
      rw (running, save_session_state)
        (
          loads id s1 (saved phone now a) first,
          loads id (c.update_one (of_client id) disconnected s1) (disconnected (saved phone now a))
              (written id disconnected s1 (saved phone now a) (λ x. refl) first),
        )
