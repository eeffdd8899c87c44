-- ===== src/Whatsapp/Accounts/Deletion.antt =====
-- What a deleted account leaves behind.
use whataapp_otp_project.Base.{◌≡◌, String, false, ◌&&◌, List, ◌===◌, All}
use whataapp_otp_project.Base.Pairwise.{Pairwise}
use whataapp_otp_project.Users as UserModel
use whataapp_otp_project.Accounts.{Account, has_id}
use whataapp_otp_project.Contacts
use whataapp_otp_project.Rules
use whataapp_otp_project.Auth.{Jwt}
use whataapp_otp_project.Auth.Keys.{account_token, of_account}
use whataapp_otp_project.Whatsapp.Accounts.{of_group, of_template, Collections, World}

-- No two accounts have one identifier.
abbrev pub IsIdentified : List Account → Type 0
IsIdentified xs = Pairwise (λ a b. (a.id === b.id) ≡ false) xs

module _ (jwt : Jwt) (cs : Collections) where
  -- Nothing that is stored names the account: no document of it, no token of the user and no
  -- active key.
  pub record Gone (user id : String) (w : World jwt cs) : Type 0 where
    pub account : All (λ a. has_id id a ≡ false) (cs.accounts.docs w.accounts)
    pub contacts : All (λ k. Contacts.of_account id k ≡ false) (cs.contacts.docs w.contacts)
    pub groups : All (λ g. of_group id g ≡ false) (cs.groups.docs w.groups)
    pub rules : All (λ r. Rules.of_account id r ≡ false) (cs.rules.docs w.rules)
    pub templates : All (λ t. of_template id t ≡ false) (cs.templates.docs w.templates)
    pub tokens : All (λ t. account_token user id t ≡ false) (cs.tokens.docs w.tokens)
    pub keys : All (λ k. (of_account id k && k.is_active) ≡ false) (cs.keys.docs w.keys)
