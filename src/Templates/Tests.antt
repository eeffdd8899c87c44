-- ===== src/Templates/Tests.antt =====
-- Concrete templates, and the lemmas on them.
use whataapp_otp_project.Base.{ℕ, ◌≡◌, refl, List, [], ◌∷◌, units, trim, same_units}
use whataapp_otp_project.Templates.{Values, value_of}
use whataapp_otp_project.Templates.Text.{
  until_close, scan, fill, render, names_in, extract_variables,
}

abbrev hello : List ℕ
hello = units "Hello {{ name }}, {{{x}} {{}}!"

abbrev ann : Values
ann = (units "name", units "Ann") ∷ []

rendered : render (λ n. value_of n ann) hello ≡ units "Hello Ann, {{{x}} {{}}!"
unfolding render fill scan until_close value_of units trim same_units
rendered = refl

variables_found : extract_variables hello ≡ units "name" ∷ units "{x" ∷ []
unfolding extract_variables names_in scan until_close units trim same_units
variables_found = refl
