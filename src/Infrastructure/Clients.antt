-- ===== src/Infrastructure/Clients.antt =====
-- actuator.go: createKubeClients and findManagementURL. `load` is gdcclient.Get, which makes a client for an address.
pub mod Complete
use gardener_extension_provi.Common.{
  String, concat, Option, none, some, List, [], ◌∷◌, ◌==◌, is_empty, insert, if◌then◌else◌,
}
use gardener_extension_provi.Failure.{errorf, wrap, panic, Result, ok, err}
use gardener_extension_provi.Apis.{
  Zone, InfrastructureConfig, ZoneEndpoints, OrgConfig, CloudProfileConfig,
}
use gardener_extension_provi.Infrastructure.{KubeClient, Zonal}
use gardener_extension_provi.Secret.{ServiceAccount, OrgClusterConfig}

unfoldable pub find_management_url : String → List (Option ZoneEndpoints) → Result String
find_management_url name [] =
    err (errorf (concat ("could not find zone " ∷ name ∷ " in cloud profile" ∷ [])))
find_management_url name (none ∷ zones) = err (panic "nil ZoneEndpoints")
find_management_url name (some zone ∷ zones) =
    if zone.name == name then ok zone.management_api else find_management_url name zones

infixl 5 ◌>>=◌
abbrev pub ◌>>=◌ {ℓ κ} : {A : Type ℓ} {B : Type κ} → Result A → (A → Result B) → Result B
ok a >>= f = f a
err e >>= f = err e

abbrev pub wrapped : {A : Type 0} → String → Result A → Result A
wrapped text (ok a) = ok a
wrapped text (err e) = err (wrap text e)

abbrev pub org_config : Option OrgConfig → Result OrgConfig
org_config none = err (panic "nil OrgConfig")
org_config (some o) = ok o

module _ {W : Type 0} (load : OrgClusterConfig → ServiceAccount → Result (KubeClient W))
    (account : ServiceAccount) where
  -- the loop over the zones; `clients` is the map built so far
  unfoldable pub zone_clients : OrgConfig → List Zone → Zonal W → Result (Zonal W)
  unfolding find_management_url
  zone_clients org [] clients = ok clients
  zone_clients org (zone ∷ zones) clients = do
    url ← find_management_url zone.name org.zones
    c ←
        wrapped (concat ("could not create kubeclient for zone " ∷ zone.name ∷ ": " ∷ []))
          (load (record { org_cluster_url = url; ca_data = org.ca_data }) account)
    zone_clients org zones (insert zone.name c clients)

  abbrev pub clients_of_zones : OrgConfig → List Zone → Result (Zonal W)
  clients_of_zones org zones =
      if is_empty zones
      then err (errorf "could not get zones from infrastructure config")
      else zone_clients org zones []

  abbrev pub clients_of_org : OrgConfig → InfrastructureConfig → Result (KubeClient W × Zonal W)
  clients_of_org org config =
      if org.global_management_api == ""
      then err (errorf "could not get global management API from cloud profile")
      else do
        global ← wrapped "could not create kubeclient: " (
            load (record { org_cluster_url = org.global_management_api; ca_data = org.ca_data })
              account)
        clients ← clients_of_zones org config.networks.zones
        ok (global, clients)

  unfoldable pub create_kube_clients :
      CloudProfileConfig → InfrastructureConfig → Result (KubeClient W × Zonal W)
  unfolding zone_clients
  create_kube_clients profile config = do
    org ← org_config profile.org_config
    clients_of_org org config
