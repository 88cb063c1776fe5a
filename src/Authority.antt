-- ===== src/Authority.antt =====
-- The authority that a module may attribute to a request, src/governance/request-authority.ts. The
-- registered authority is an argument, since it is code of a module; `none` is the empty registry.
use openfederation_pds.Base.{Option, none, some, String}
use openfederation_pds.Index.{Act}

pub record RequestContext : Type 0 where
  pub source : String
  pub community_did : String
  pub credential_id : String
  pub name : String

-- `contextFor` may throw (`none`) or answer null; `runMutation` wraps the write.
pub record RequestAuthority (Request : Type 0) : Type 0 where
  pub name : String
  pub context_for : Request → Option (Option RequestContext)
  pub run_mutation : Request → Act (Unit {0}) → Act (Unit {0})

module _ {Request : Type 0} where
  -- The registry: an authority that is registered takes the place of any other.
  unfoldable pub register_authority :
      RequestAuthority Request
      → Option (RequestAuthority Request)
      → Option (RequestAuthority Request)
  register_authority next registered = some next

  unfoldable pub clear_authority :
      Option (RequestAuthority Request) → Option (RequestAuthority Request)
  clear_authority registered = none

  unfoldable pub registered_authority_name : Option (RequestAuthority Request) → Option String
  registered_authority_name none = none
  registered_authority_name (some a) = some a.name

  -- An extraction that throws gives no context.
  unfoldable pub resolve_governance_context :
      Option (RequestAuthority Request) → Request → Option RequestContext
  resolve_governance_context none request = none
  resolve_governance_context (some a) request = elim (a.context_for request) [
    | none ↦ none
    | some context ↦ context
  ]

  unfoldable pub run_governed_mutation :
      Option (RequestAuthority Request) → Request → Act (Unit {0}) → Act (Unit {0})
  run_governed_mutation none request mutate = mutate
  run_governed_mutation (some a) request mutate = a.run_mutation request mutate
