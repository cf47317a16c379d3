-- ===== src/Tests/Routing.antt =====
-- The routing of downloads on a small registry answer.
use c_stateless_relay_tran.Base.{refl, none, some, [], ◌∷◌, ok}
use c_stateless_relay_tran.Base.StringSet.{unique}
use c_stateless_relay_tran.Registry.Records.{
  RelayRegistryRecord, RelayRegistryMap, primary, ready, expired,
}
use c_stateless_relay_tran.Registry.Router.{registry_resolve_many}
use c_stateless_relay_tran.Registry.Router.Resolution.{Routed, resolve_many-Routed}

abbrev held_by_a : RelayRegistryRecord
held_by_a = record {
  targets = record { role = primary; relay_id = "a"; relay_base_url = "https://a" } ∷ [];
  headers = none;
  resolve_status = some ready;
}

abbrev gone : RelayRegistryRecord
gone = record { targets = []; headers = none; resolve_status = some expired }

abbrev answer : RelayRegistryMap
answer = ("t", held_by_a) ∷ ("u", gone) ∷ []

resolve_many-Routed_example :
    Routed none answer
      (unique ("t" ∷ "t" ∷ []))
      []
      (registry_resolve_many none (λ _. ok answer) ("t" ∷ "t" ∷ []))
resolve_many-Routed_example = resolve_many-Routed none (λ _. ok answer) ("t" ∷ "t" ∷ []) answer refl
