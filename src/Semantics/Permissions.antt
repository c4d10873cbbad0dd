-- ===== src/Semantics/Permissions.antt =====
-- What src/ddsleuth/semantics.py permits: an operation on a resource that one of the declared
-- expressions of the actor matches.
use ddsleuth.Semantics.Glob.Matching.{Matches, matches_iff}
use ddsleuth.Json.{lookup}
use ddsleuth.Model.{ParticipantSpec, Scenario}
use ddsleuth.Prelude.{List, Occurs, Option, String, any, any_iff, none, refl, some, true, ◌↔◌, ◌≡◌}
use ddsleuth.Semantics.{is_permitted, normalize_operation, or_empty, permits}
use ddsleuth.Semantics.Glob.{codes, fnmatchcase, pieces}

-- The participant, the permission and the expression that permit an operation on a resource.
pub record IsGranted (scenario : Scenario) (actor operation resource : String) : Type 0 where
  pub participant : ParticipantSpec
  pub permission : String
  pub resources : List String
  pub declared : lookup actor scenario.participants ≡ some participant
  pub normalized : normalize_operation operation ≡ some permission
  pub listed : lookup permission participant.permissions ≡ some resources
  pub expression : Occurs (λ expression. Matches (pieces expression) (codes resource)) resources

fnmatchcase_iff :
    (name expression : String)
    → (fnmatchcase name expression ≡ true) ↔ Matches (pieces expression) (codes name)
unfolding fnmatchcase
fnmatchcase_iff name expression = matches_iff (pieces expression) (codes name)

-- An operation is permitted exactly when the actor is a declared participant, the operation is a
-- known one, and some expression that the participant has for the normalized operation matches the
-- whole resource name, with `*`, `?` and classes read as `fnmatchcase` reads them.
pub is_permitted_iff :
    (scenario : Scenario) (actor operation resource : String)
    → (is_permitted scenario actor operation resource ≡ true)
      ↔ IsGranted scenario actor operation resource
unfolding is_permitted
is_permitted_iff scenario actor operation resource = (
  granted (lookup actor scenario.participants) (normalize_operation operation) refl refl,
  λ g.
      rw (g.declared, g.normalized, g.listed)
        ((any_iff _ (fnmatchcase_iff resource) g.resources).1 g.expression),
)
  where
    listed :
        (participant : ParticipantSpec) (permission : String) (o : Option (List String))
        → lookup actor scenario.participants ≡ some participant
        → normalize_operation operation ≡ some permission
        → lookup permission participant.permissions ≡ o
        → any (fnmatchcase resource) (or_empty o) ≡ true
        → IsGranted scenario actor operation resource
    listed participant permission none p q e h = cc
    listed participant permission (some resources) p q e h = record {
      participant = participant;
      permission = permission;
      resources = resources;
      declared = p;
      normalized = q;
      listed = e;
      expression = (any_iff _ (fnmatchcase_iff resource) resources).0 h;
    }

    granted :
        (p : Option ParticipantSpec) (q : Option String)
        → lookup actor scenario.participants ≡ p
        → normalize_operation operation ≡ q
        → permits p q resource ≡ true
        → IsGranted scenario actor operation resource
    granted none q e e' h = cc
    granted (some participant) none e e' h = cc
    granted (some participant) (some permission) e e' h =
        listed participant permission (lookup permission participant.permissions) e e' refl h
