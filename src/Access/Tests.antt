-- ===== src/Access/Tests.antt =====
-- Two principals behind the token gate.
use quantlineage.Prelude.{String, true, false, ◌==◌, none, some, ◌≡◌, refl, sym, ◌⊎◌, if◌then◌else◌}
use quantlineage.Prelude.Call.{ok, ok_inj}
use quantlineage.Access.{
  after_mark, before_mark, is_public_path, env_flag, is_shared_deployment, Python, Environ,
}
use quantlineage.Access.Gate.{Scope, forwarded, middleware, passes_freely}
use quantlineage.Access.Admission.{Proves, admitted_are_proved}
use quantlineage.Access.Bearer.{
  after_word, first_word, extract_bearer, token_matches, principal_among, principal_for_bearer,
  api_token, split_commas, pair_of, add_pair, mapped_pairs, configured_principals,
}
use quantlineage.Prelude.Text.{starts_with, is_in, is_space, rstrip, lstrip, strip}

abbrev python : Python
python = record {
  lower = λ s. if s == "Bearer" then "bearer" else s;
  upper = λ s. s;
  is_digits = λ s. false;
  compare_digest = λ a b. ok (a == b);
  compares = λ a b r e. ok_inj (sym e);
}

abbrev environ : Environ
environ name =
    if name == "QUANTLINEAGE_SHARED_DEPLOYMENT"
    then some " 1 "
    else if name == "QUANTLINEAGE_API_TOKENS"
    then some "alice:s3cret, bob:hunter2"
    else if name == "QUANTLINEAGE_API_TOKEN"
    then some "hunter2"
    else none

abbrev asked : Scope
asked = record {
  kind = "http";
  method = "GET";
  path = "/portfolios";
  authorization = some "Bearer  hunter2 ";
  principal = none;
}

abbrev let_in : Scope
let_in = record asked { principal = some "bob" }

bob_passes : middleware python environ asked ≡ ok (forwarded let_in)
unfolding middleware passes_freely is_shared_deployment env_flag is_public_path
    configured_principals mapped_pairs add_pair pair_of split_commas before_mark after_mark
    api_token principal_for_bearer principal_among token_matches extract_bearer first_word
    after_word strip lstrip rstrip is_space is_in starts_with
bob_passes = refl

admitted_are_proved_example :
    ((passes_freely python environ asked ≡ true) × (let_in ≡ asked))
    ⊎ ((p : String) × (let_in ≡ record asked { principal = some p })
        × Proves python environ asked.authorization p)
admitted_are_proved_example = admitted_are_proved python environ asked let_in bob_passes
