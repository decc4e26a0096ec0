-- ===== src/Kube.antt =====
-- The Kubernetes clients that the controllers call (controller-runtime, not part of the repository): an interface
-- over a world `W`, with the documented behaviour of `Delete` as laws. The objects are those of the GDC APIs.
use gardener_extension_provi.Common.{ℕ, String, ◌≡◌, Bool, Option, List}
use gardener_extension_provi.Failure.{Result, ok}
use gardener_extension_provi.Apis.{SubnetReference}
use gardener_extension_provi.Action.{Exec, call, run, attempt}
use gardener_extension_provi.Action.Laws.{run-call, run-attempt}

pub record Condition : Type 0 where
  pub status : String
  pub message : String

-- `ipv4_request.cidr` and `prefix_length` are pointers
pub record SubnetRequest : Type 0 where
  pub cidr : Option String
  pub prefix_length : Option ℕ

pub record SubnetSpec : Type 0 where
  pub type : String
  pub zone : Option String
  pub propagation_strategy : String
  pub ipv4_request : Option SubnetRequest
  pub parent_reference : Option SubnetReference
  -- NetworkSpec.EnableGateway; `none` where NetworkSpec is nil
  pub enable_gateway : Option Bool

-- A Subnet of ipam.global or of ipam. `ready` is what meta.FindStatusCondition finds for "Ready".
pub record Subnet : Type 0 where
  pub name : String
  pub namespace : String
  pub labels : List (String × String)
  pub spec : SubnetSpec
  pub ready : Option Condition
  pub allocation_cidr : Option String

pub record Gateway : Type 0 where
  pub name : String
  pub namespace : String
  pub match_labels : List (String × String)
  pub subnet_refs : List String
  pub ready : Option Condition

-- A client for one kind of object at one API server. An object is named by namespace and name.
pub record ObjectClient (W Obj : Type 0) : Type 0 where
  pub get : String → String → W → Result Obj
  pub create : Obj → W → Result (Unit {0}) × W
  -- client.MergeFrom(base), then the changed object; the server's object comes back
  pub patch : Obj → Obj → W → Result Obj × W
  pub delete : String → String → W → Result (Unit {0}) × W
  -- controllerutil.CreateOrUpdate with the mutation that it applies
  pub create_or_update : Obj → (Obj → Obj) → Exec W Obj

module _ {W Obj : Type 0} (c : ObjectClient W Obj) where
  unfoldable pub do_get : String → String → Exec W Obj
  unfolding call
  do_get namespace name = call (λ w. (c.get namespace name w, w))

  unfoldable pub do_create : Obj → Exec W (Unit {0})
  unfolding call
  do_create obj = call (c.create obj)

  unfoldable pub do_patch : Obj → Obj → Exec W Obj
  unfolding call
  do_patch base obj = call (c.patch base obj)

  unfoldable pub do_delete : String → String → Exec W (Unit {0})
  unfolding call
  do_delete namespace name = call (c.delete namespace name)

  pub run-get :
      (namespace name : String) (w : W)
      → run (do_get namespace name) w ≡ (c.get namespace name w, w)
  unfolding do_get
  run-get namespace name w = run-call (λ w. (c.get namespace name w, w)) w

  pub run-delete :
      (namespace name : String) (w : W)
      → run (do_delete namespace name) w ≡ c.delete namespace name w
  unfolding do_delete
  run-delete namespace name w = run-call (c.delete namespace name) w

  -- the Get whose error the code looks at
  pub run-attempt_get :
      (namespace name : String) (w : W)
      → run (attempt (do_get namespace name)) w ≡ (ok (c.get namespace name w), w)
  run-attempt_get namespace name w = rw run-attempt (rw run-get)
