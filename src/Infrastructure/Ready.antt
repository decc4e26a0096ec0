-- ===== src/Infrastructure/Ready.antt =====
-- actuator.go: the waits for a subnet or a gateway to become ready. Each is one read; what is not ready yet comes
-- back as a RequeueAfterError.
pub mod ReadOnly
use text.Mathlib.Text.{find?}
use gardener_extension_provi.Common.{
  quoted, ℕ, String, concat, Option, none, some, List, [], ◌∷◌, Bool, true, false, ◌==◌,
  if◌then◌else◌,
}
use gardener_extension_provi.Failure.{Error, wrap, errorf, requeue_after, Result, ok, err}
use gardener_extension_provi.Action.{done, Exec, ◌>>=◌, or_wrap}
use gardener_extension_provi.Kube.{Condition, Subnet, Gateway, ObjectClient, do_get}

abbrev pub subnet_allocation_failure : String
subnet_allocation_failure = "failed to allocate dynamic IPv4 CIDR"

-- in seconds
abbrev pub default_subnet_creation_time : ℕ
default_subnet_creation_time = 5

abbrev pub default_cloud_nat_gateway_creation_time : ℕ
default_cloud_nat_gateway_creation_time = 5

-- strings.Contains
abbrev pub contains : String → String → Bool
contains s t = elim (find? s t) [ none ↦ false | some n ↦ true ]

abbrev pub is_ready : Option Condition → Bool
is_ready none = false
is_ready (some c) = c.status == "True"

abbrev pub condition_message : Option Condition → String
condition_message none = ""
condition_message (some c) = c.message

abbrev pub object_ref : String → String → String
object_ref namespace name = concat ("'" ∷ namespace ∷ "/" ∷ name ∷ "'" ∷ [])

abbrev pub allocation_failed : Subnet → Error
allocation_failed s = errorf (
    concat (
      "the specified CIDR range of subnet "
      ∷ object_ref s.namespace s.name
      ∷ " is already being used: "
      ∷ condition_message s.ready
      ∷ []))

abbrev pub not_ready : String → String → String → String → Error
not_ready kind namespace name message =
    errorf (concat (kind ∷ " " ∷ object_ref namespace name ∷ " not ready: " ∷ message ∷ []))

-- the part of the waits for a subnet that follows the read
unfoldable pub subnet_answer : String → Subnet → Result Subnet
subnet_answer kind s =
    if is_ready s.ready
    then ok s
    else if contains (condition_message s.ready) subnet_allocation_failure
    then err (allocation_failed s)
    else err (
        requeue_after (not_ready kind s.namespace s.name (condition_message s.ready))
          default_subnet_creation_time)

unfoldable pub gateway_answer : Gateway → Result Gateway
gateway_answer g =
    if is_ready g.ready
    then ok g
    else err (
        requeue_after (not_ready "CloudNATGateway" g.namespace g.name (condition_message g.ready))
          default_cloud_nat_gateway_creation_time)

module _ {W : Type 0} where
  unfoldable pub wait_for_zonal_subnet_ready :
      String → String → ObjectClient W Subnet → Exec W Subnet
  unfolding do_get or_wrap ◌>>=◌ subnet_answer
  wait_for_zonal_subnet_ready name namespace c = do
    s ←
        or_wrap (wrap (concat ("unable to get Subnet " ∷ object_ref namespace name ∷ ": " ∷ [])))
          (do_get c namespace name)
    done (subnet_answer "zonal subnet" s)

  unfoldable pub wait_for_global_subnet_ready :
      String → String → ObjectClient W Subnet → Exec W Subnet
  unfolding do_get or_wrap ◌>>=◌ subnet_answer
  wait_for_global_subnet_ready name namespace c = do
    s ←
        or_wrap (wrap (concat ("unable to get Subnet " ∷ quoted name ∷ ": " ∷ [])))
          (do_get c namespace name)
    done (subnet_answer "global subnet" s)

  unfoldable pub wait_for_cloud_nat_gateway_ready :
      String → String → ObjectClient W Gateway → Exec W Gateway
  unfolding do_get or_wrap ◌>>=◌ gateway_answer
  wait_for_cloud_nat_gateway_ready name namespace c = do
    g ←
        or_wrap
          (wrap (concat ("unable to get CloudNATGateway " ∷ object_ref namespace name ∷ ": " ∷ [])))
          (do_get c namespace name)
    done (gateway_answer g)
