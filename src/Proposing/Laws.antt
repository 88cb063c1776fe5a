-- ===== src/Proposing/Laws.antt =====
-- What the direct way to change a governance model can do.
use openfederation_pds.Base.{
  ◌≡◌, refl, inl, inr, Bool-cases, Option-cases, Bool, true, false, not, ◌||◌, Option, none, some,
  String, str_eq,
}
use openfederation_pds.Json.{Json, obj, get, truthy}
use openfederation_pds.Settings.{check_governance_settings}
use openfederation_pds.Enforcement.{GovernanceResult, write}
use openfederation_pds.Enforcement.Laws.{GovernsByVote, settings_protected}
use openfederation_pds.Index.{Repo, World}
use openfederation_pds.Timelock.Merge.{community_settings_record}
use openfederation_pds.Authority.{RequestAuthority}
use openfederation_pds.Proposing.Model.{set_model_allowed, set_model_on, set_governance_model}

module _ {Request : Type 0} (registered : Option (RequestAuthority Request)) (request : Request)
    (repo : Repo) (did : String) where
  denied_leaves :
      (settings model c : Json) (o : Option GovernanceResult) (w : World)
      → ((r : GovernanceResult) → o ≡ some r → r.allowed ≡ false)
      → (set_model_allowed registered request repo did settings model c o w).1 ≡ w
  unfolding set_model_allowed
  denied_leaves settings model c none w denied = refl
  denied_leaves (obj fs) model c (some r) w denied = rw (denied r refl) refl
  denied_leaves settings model c (some r) w denied = refl

  on_leaves :
      (settings model c : Json) (w : World)
      → GovernsByVote (get "governanceModel" settings)
      → (set_model_on registered request repo did model c (some settings) w).1 ≡ w
  unfolding set_model_on
  on_leaves settings model c w g =
      denied_leaves settings model c _ w (λ r e. settings_protected settings did write _ r g e)

-- In a community whose settings name a model other than `benevolent-dictator`, a request to set the
-- governance model changes neither the store nor the audit log: whatever the request asks for, whatever
-- permission it has, and whatever context and whatever way of writing the registered module gives it.
pub model_protected :
    {Request : Type 0} (registered : Option (RequestAuthority Request)) (request : Request)
    (repo : Repo) (did : String) (permitted : Bool) (settings model c : Json) (w : World)
    → community_settings_record w.rows did ≡ some settings
    → GovernsByVote (get "governanceModel" settings)
    → (set_governance_model registered request repo did permitted model c w).1 ≡ w
unfolding set_governance_model
model_protected registered request repo did permitted settings model c w found g =
    elim (Bool-cases (str_eq did "" || not (truthy model))) [
      | inl e ↦ rw e refl
      | inr e ↦ elim (Bool-cases permitted) [
        | inr e2 ↦ rw e (rw e2 refl)
        | inl e2 ↦ elim (Option-cases (check_governance_settings model c true).problem) [
          | inr (problem, e3) ↦ rw e (rw e2 (rw e3 refl))
          | inl e3 ↦ rw e (
              rw e2 (
                rw e3 (
                  rw found (
                    on_leaves registered request repo did settings model
                      (check_governance_settings model c true).config w g))))
        ]
      ]
    ]
