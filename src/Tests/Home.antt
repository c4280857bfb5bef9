-- ===== src/Tests/Home.antt =====
-- Runs of the credential keys.
use sshw.Base.{
  true, codes, ◌≡◌, refl, is_empty, trim, trim_matches, trim_start_matches, trim_end_matches,
  is_whitespace, any, is_control, starts_with, strip_prefix,
}
use sshw.Errors.{ok}
use sshw.Home.{login, validate_server_name}
use sshw.Home.Keys.{new_account_credential_key, account_credential_key_matches}
use sshw.Home.Keys.Ownership.{
  SameOwner, account_credential_key_matches-new, account_credential_key_matches-SameOwner,
}
use sshw.Tests.Data.{web, deploy, shifted, shifted-IsBase64, namespace}

made :
    account_credential_key_matches shifted namespace login web deploy
      (new_account_credential_key shifted namespace login web deploy (codes "1:2:3"))
    ≡ true
made =
    account_credential_key_matches-new shifted shifted-IsBase64 namespace login web deploy
      (codes "1:2:3")

account_credential_key_matches-SameOwner_example :
    SameOwner shifted namespace namespace login login web deploy web deploy
account_credential_key_matches-SameOwner_example =
    account_credential_key_matches-SameOwner shifted namespace namespace login login web deploy web
      deploy (new_account_credential_key shifted namespace login web deploy (codes "1:2:3")) made
      made

valid_name : validate_server_name web ≡ ok tt
unfolding validate_server_name is_empty trim trim_matches trim_start_matches trim_end_matches
    is_whitespace any is_control starts_with strip_prefix
valid_name = refl
