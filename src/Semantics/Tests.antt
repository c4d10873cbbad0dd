-- ===== src/Semantics/Tests.antt =====
-- The theorems about src/ddsleuth/semantics.py at the sample experiment.
use ddsleuth.Prelude.{[], refl, true, ◌↔◌, ◌≡◌}
use ddsleuth.Samples.{scenario_with}
use ddsleuth.Semantics.{is_permitted}
use ddsleuth.Semantics.Permissions.{IsGranted, is_permitted_iff}
use ddsleuth.Semantics.Glob.{fnmatchcase}

is_permitted_iff_example :
    (is_permitted (scenario_with []) "bob" "create_datareader" "SecretTopic" ≡ true)
    ↔ IsGranted (scenario_with []) "bob" "create_datareader" "SecretTopic"
is_permitted_iff_example =
    is_permitted_iff (scenario_with []) "bob" "create_datareader" "SecretTopic"

permitted_by_wildcard :
    is_permitted (scenario_with []) "bob" "create_datareader" "SecretTopic" ≡ true
unfolding is_permitted fnmatchcase
permitted_by_wildcard = refl
