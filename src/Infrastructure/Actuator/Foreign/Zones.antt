-- ===== src/Infrastructure/Actuator/Foreign/Zones.antt =====
-- What the egress calls of a zone leave alone: whatever is at the global API.
use gardener_extension_provi.Common.{String, ◌≡◌, refl, Option, none, some, List, [], ◌∷◌, lookup}
use gardener_extension_provi.Action.{Exec, done, ◌>>=◌}
use gardener_extension_provi.Action.Ensures.{
  returns, Keeps, Keeps-bind, Keeps-pure, Keeps-call, keeps_rules,
}
use gardener_extension_provi.Apis.{Zone}
use gardener_extension_provi.Secret.{ServiceAccount}
use gardener_extension_provi.Kube.{Subnet, Gateway, ObjectClient, do_get, do_delete}
use gardener_extension_provi.Infrastructure.{Infrastructure, KubeClient, Zonal}
use gardener_extension_provi.Infrastructure.Ready.{
  wait_for_zonal_subnet_ready, wait_for_cloud_nat_gateway_ready,
}
use gardener_extension_provi.Infrastructure.Egress.{
  client_of, create_egress_with, delete_egress_with, create_zone_egress, create_egress_zones,
  delete_zone_egress, delete_egress_zones,
}

module _ {W : Type 0} (P : W → Type 0) where
  -- The calls of a zone's client keep `P`: what is at the global API is out of their reach.
  pub record LeavesGlobal (k : KubeClient W) : Type 0 where
    pub update_subnet :
        (s : Subnet) (f : Subnet → Subnet) → Keeps P (k.subnets.create_or_update s f)
    pub update_gateway :
        (g : Gateway) (f : Gateway → Gateway) → Keeps P (k.gateways.create_or_update g f)
    pub delete_gateway : (ns n : String) (w : W) → P w → P (k.gateways.delete ns n w).1
    pub delete_subnet : (ns n : String) (w : W) → P w → P (k.subnets.delete ns n w).1

  Keeps-get : {A : Type 0} (c : ObjectClient W A) (ns n : String) → Keeps P (do_get c ns n)
  unfolding do_get
  Keeps-get c ns n = Keeps-call _ (λ w p. p)

  Keeps-wait_zonal :
      (n ns : String) (c : ObjectClient W Subnet) → Keeps P (wait_for_zonal_subnet_ready n ns c)
  unfolding wait_for_zonal_subnet_ready
  Keeps-wait_zonal n ns c = search (keeps_rules, Keeps-get)

  Keeps-wait_gateway :
      (n ns : String) (c : ObjectClient W Gateway)
      → Keeps P (wait_for_cloud_nat_gateway_ready n ns c)
  unfolding wait_for_cloud_nat_gateway_ready
  Keeps-wait_gateway n ns c = search (keeps_rules, Keeps-get)

  module _ (clients : Zonal W) (infra : Infrastructure) (account : ServiceAccount)
      (apart : (zone : String) (k : KubeClient W)
        → lookup zone clients ≡ some k
        → LeavesGlobal k) where
    -- with a client that was found
    Keeps-with_client :
        {A : Type 0} (zone : String) (f : KubeClient W → Exec W A) (o : Option (KubeClient W))
        → lookup zone clients ≡ o
        → ((k : KubeClient W) → LeavesGlobal k → Keeps P (f k))
        → Keeps P (done (client_of zone o) >>= f)
    unfolding ◌>>=◌
    Keeps-with_client zone f none e h = returns tt
    Keeps-with_client zone f (some k) e h = h k (apart zone k e)

    Keeps-create_with :
        (zone : String) (k : KubeClient W)
        → LeavesGlobal k
        → Keeps P (create_egress_with clients infra account zone k)
    unfolding create_egress_with
    Keeps-create_with zone k l =
        search
          (keeps_rules, Keeps-wait_zonal, Keeps-wait_gateway, l.update_subnet, l.update_gateway)
          depth 12

    Keeps-delete_with :
        (zone : String) (k : KubeClient W)
        → LeavesGlobal k
        → Keeps P (delete_egress_with clients infra account zone k)
    unfolding delete_egress_with do_delete
    Keeps-delete_with zone k l = search (keeps_rules, l.delete_gateway, l.delete_subnet) depth 8

    pub Keeps-create_zones :
        (zs : List Zone) (m : List (String × String))
        → Keeps P (create_egress_zones clients infra account zs m)
    unfolding create_egress_zones create_zone_egress
    Keeps-create_zones [] m = Keeps-pure m
    Keeps-create_zones (z ∷ zs) m =
        Keeps-bind _ _
          (Keeps-with_client z.name (create_egress_with clients infra account z.name) _ refl
            (Keeps-create_with z.name))
          λ cidr. Keeps-create_zones zs _

    pub Keeps-delete_zones :
        (zs : List Zone) → Keeps P (delete_egress_zones clients infra account zs)
    unfolding delete_egress_zones delete_zone_egress
    Keeps-delete_zones [] = Keeps-pure tt
    Keeps-delete_zones (z ∷ zs) =
        Keeps-bind _ _
          (Keeps-with_client z.name (delete_egress_with clients infra account z.name) _ refl
            (Keeps-delete_with z.name))
          λ u. Keeps-delete_zones zs
