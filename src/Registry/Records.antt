-- ===== src/Registry/Records.antt =====
-- The data of client/transfer/src/router/registry-client.ts, and RelayEndpoint of types.ts.
use c_stateless_relay_tran.Base.{
  ℕ, Bool, true, false, not, String, Option, none, some, List, [], ◌∷◌, Result, ok, err, error,
}
use c_stateless_relay_tran.Base.StringMap.{StringMap}
use c_stateless_relay_tran.Base.Text.{codes}

pub data Role : Type 0 where
  primary replica : Role

pub record RelayTargetRecord : Type 0 where
  pub role : Role
  pub relay_id : String
  pub relay_base_url : String

pub data RelayResolveStatus : Type 0 where
  ready expired unavailable : RelayResolveStatus

abbrev pub Headers : Type 0
Headers = StringMap String

pub record RelayRegistryRecord : Type 0 where
  pub targets : List RelayTargetRecord
  pub headers : Option Headers
  pub resolve_status : Option RelayResolveStatus

-- A fallback: Pick<RelayEndpoint, 'url' | 'headers'>.
pub record Target : Type 0 where
  pub url : String
  pub headers : Option Headers

pub record RelayEndpoint : Type 0 where
  pub url : String
  pub headers : Option Headers
  pub fallbacks : Option (List Target)

abbrev pub RelayRegistryMap : Type 0
RelayRegistryMap = StringMap RelayRegistryRecord

abbrev pub RelayEndpointMap : Type 0
RelayEndpointMap = StringMap RelayEndpoint

abbrev pub is_primary : Role → Bool
is_primary primary = true
is_primary replica = false

-- targets.find((target) => target.role === 'primary')
unfoldable pub find_primary : List RelayTargetRecord → Option RelayTargetRecord
find_primary [] = none
find_primary (target ∷ targets) = elim target.role [
  | primary ↦ some target
  | replica ↦ find_primary targets
]

unfoldable pub primary_target : RelayRegistryRecord → Result RelayTargetRecord
primary_target rec = elim (find_primary rec.targets) [
  | none ↦ err (error "registry record missing primary target")
  | some target ↦ ok target
]

abbrev pub is_empty : List ℕ → Bool
is_empty [] = true
is_empty (c ∷ s) = false

unfoldable pub is_resolvable_registry_record : RelayRegistryRecord → Bool
is_resolvable_registry_record rec = elim (find_primary rec.targets) [
  | none ↦ false
  | some target ↦ not (is_empty (codes target.relay_base_url))
]
