-- ===== src/Users/Tests.antt =====
-- Concrete users, and the lemmas on them.
use whataapp_otp_project.Base.{◌≡◌, refl, String, none, some, [], ◌∷◌}
use whataapp_otp_project.Base.Collection.{Collection, in_memory}
use whataapp_otp_project.Users.{User}
use whataapp_otp_project.Users.Service.{
  CreateUserDto, UpdateUserDto, err, username_exists, create_user,
}

abbrev users : Collection User
users = in_memory User

abbrev plain : String → String
plain s = s

abbrev ann : User
ann = record {
  id = "u1";
  email = "ann@x";
  username = "ann";
  password = "p";
  user_role = "user";
  subscription = none;
}

abbrev bob : CreateUserDto
bob = record { id = "u2"; email = "bob@x"; username = "bob"; password = "q" }

abbrev renamed : UpdateUserDto
renamed = record { email = none; username = some "rob"; password = none; user_role = none }

taken_name :
    (create_user users plain (record bob { username = "ann" }) 0 (ann ∷ [])).1 ≡ err username_exists
unfolding create_user
taken_name = refl
