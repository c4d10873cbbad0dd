-- ===== src/Oracles/PolicyConsistency/Decisions.antt =====
-- The access decisions that src/ddsleuth/oracles/policy_consistency.py considers.
use ddsleuth.Json.{JsonValue, get, str}
use ddsleuth.Model.{AssertionSpec, EvidenceEvent, Scenario}
use ddsleuth.Model.EventKind.{access_control_decision, value}
use ddsleuth.Oracles.Base.{Selects}
use ddsleuth.Oracles.PolicyConsistency.{decided, excludes_operation, or_itself}
use ddsleuth.Prelude.{
  subst, Option, String, ap, arith, eq_iff, eq_refl, false, if◌then◌else◌, none, not-false,
  passed_of_some, refl, some, ◌≡◌,
}
use ddsleuth.Semantics.{is_permitted, normalize_operation}

-- The assertion asks about every operation, or about the one that it names, under any of its names.
abbrev pub SelectsOperation : JsonValue → String → Type 0
SelectsOperation (str selected) normalized =
    normalized ≡ or_itself selected (normalize_operation selected)
SelectsOperation _ normalized = Unit

-- An access decision that the assertion asks about.
pub record IsDecision (assertion : AssertionSpec) (event : EvidenceEvent) : Type 0 where
  pub operation : String
  pub resource : String
  pub normalized : String
  pub of_kind : event.kind ≡ value access_control_decision
  pub actor : Selects (get assertion.parameters "actor") event.actor
  pub of_operation : get event.attributes "operation" ≡ str operation
  pub on_resource : get event.attributes "resource" ≡ str resource
  pub known : normalize_operation operation ≡ some normalized
  pub selected : SelectsOperation (get assertion.parameters "operation") normalized

-- The decision allowed what the declared policy does not permit.
pub record IsOvergrant (scenario : Scenario) (assertion : AssertionSpec) (event : EvidenceEvent)
    : Type 0 where
  pub of : IsDecision assertion event
  pub allowed : event.outcome ≡ "allowed"
  pub not_permitted : is_permitted scenario event.actor of.operation of.resource ≡ false

SelectsOperation_of_not-excludes :
    (selected : JsonValue) (normalized : String)
    → excludes_operation selected normalized ≡ false
    → SelectsOperation selected normalized
SelectsOperation_of_not-excludes (str s) normalized h =
    (eq_iff normalized (or_itself s (normalize_operation s))).0 (not-false _ h)
SelectsOperation_of_not-excludes _ normalized h = tt

not-excludes_of_SelectsOperation :
    (selected : JsonValue) (normalized : String)
    → SelectsOperation selected normalized
    → excludes_operation selected normalized ≡ false
not-excludes_of_SelectsOperation (str s) normalized h = rw h (rw eq_refl)
not-excludes_of_SelectsOperation _ normalized h = refl

-- What `decided` found, by the cases that it goes through.
pub record Decided (assertion : AssertionSpec) (op res : JsonValue) (found : String × String)
    : Type 0 where
  pub normalized : String
  pub of_operation : op ≡ str found.0
  pub on_resource : res ≡ str found.1
  pub known : normalize_operation found.0 ≡ some normalized
  pub selected : SelectsOperation (get assertion.parameters "operation") normalized

module _ (assertion : AssertionSpec) where
  Decided-known :
      (operation resource : String) (o : Option String) (found : String × String)
      → normalize_operation operation ≡ o
      → (elim o [
        | none ↦ none
        | some normalized ↦
            if excludes_operation (get assertion.parameters "operation") normalized
            then none
            else some (operation, resource)
      ])
        ≡ some found
      → Decided assertion (str operation) (str resource) found
  Decided-known operation resource none found e h = cc
  Decided-known operation resource (some n) found e h =
      let (kept, same) =
        passed_of_some (excludes_operation (get assertion.parameters "operation") n)
          (operation, resource) found h in
      record {
        normalized = n;
        of_operation = ap (λ (p : String × String). str p.0) same;
        on_resource = ap (λ (p : String × String). str p.1) same;
        known = subst (λ p. normalize_operation p.0 ≡ some n) same e;
        selected = SelectsOperation_of_not-excludes _ n kept;
      }

  pub decided_sound :
      (op res : JsonValue) (found : String × String)
      → decided assertion op res ≡ some found
      → Decided assertion op res found
  decided_sound (str operation) (str resource) found h =
      Decided-known operation resource (normalize_operation operation) found refl h
  decided_sound _ _ found h = ground arith

  pub decided_complete :
      (operation resource normalized : String)
      → normalize_operation operation ≡ some normalized
      → SelectsOperation (get assertion.parameters "operation") normalized
      → decided assertion (str operation) (str resource) ≡ some (operation, resource)
  decided_complete operation resource normalized known selected =
      rw (known, decided)
        (rw
          (not-excludes_of_SelectsOperation (get assertion.parameters "operation") normalized
            selected)
          refl)
