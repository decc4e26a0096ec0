-- ===== src/Webhook/ShootService.antt =====
-- pkg/webhook/shootservice/mutator.go: the annotations of the load balancer services of shoots.
use Prim.Native.String.{String}
use gardener_extension_provi.Common.{
  concat, quoted, Bool, true, false, not, ◌||◌, ◌==◌, any, Option, none, some, List, lookup, insert,
  if◌then◌else◌,
}
use gardener_extension_provi.Failure.{Error, errorf, Result, ok, err}
use gardener_extension_provi.Webhook.Texts.{split, join, trim_start, trim_end, trim_space}

-- corev1.Service, as far as the webhook reads it
pub record Service : Type 0 where
  pub name : String
  pub namespace : String
  pub is_deleted : Bool
  pub type : String
  pub annotations : List (String × String)

abbrev pub lb_type_annotation_key : String
lb_type_annotation_key = "networking.gke.io/load-balancer-type"

abbrev pub internal_lb_subnet_annotation_key : String
internal_lb_subnet_annotation_key = "networking.gke.io/load-balancer-subnet"

abbrev pub external_lb_ip_addresses_annotation_key : String
external_lb_ip_addresses_annotation_key = "networking.gke.io/load-balancer-ip-addresses"

abbrev pub internal_lb_allow_projects_annotation_key : String
internal_lb_allow_projects_annotation_key = "networking.gke.io/load-balancer-allow-projects"

abbrev pub about : Service → List String → Error
about svc rest =
    errorf (
      concat (List.◌∷◌ "service " (List.◌∷◌ svc.namespace (List.◌∷◌ "/" (List.◌∷◌ svc.name rest)))))

abbrev of_annotation : String → String → List String
of_annotation key text = List.◌∷◌ ": annotation " (List.◌∷◌ (quoted key) (List.◌∷◌ text List.[]))

-- what the loop over the projects holds: the names it keeps, and whether there was a "*"
abbrev pub Kept : Type 0
Kept = List String × Bool

abbrev has : List String → String → Bool
has names name = any (λ n. n == name) names

abbrev keep : String → Kept → Kept
keep name (names, wildcard) =
    if has names name then (names, wildcard) else (List.◌∷◌ name names, wildcard)

-- `is_dns_label` is validation.IsDNS1035Label of Kubernetes with no error, `is_ip` net.ParseIP with a result
module _ (is_dns_label is_ip : String → Bool) (svc : Service) where
  -- the loop over the projects; the names that are there already are `seen`
  unfoldable pub cleaned_projects : List String → List String → Result Kept
  cleaned_projects seen List.[] = ok (List.[], false)
  cleaned_projects seen (List.◌∷◌ p projects) =
      let trimmed = trim_space p in
      let later = cleaned_projects seen projects in
      let after = cleaned_projects (List.◌∷◌ trimmed seen) projects in
      if trimmed == ""
      then err (
          about svc (
            of_annotation internal_lb_allow_projects_annotation_key " contains empty project name"))
      else if trimmed == "*"
      then elim later [ err e ↦ err e | ok (names, wildcard) ↦ ok (names, true) ]
      else if has seen trimmed
      then later
      else if is_dns_label trimmed
      then elim after [
        | err e ↦ err e
        | ok (names, wildcard) ↦ ok (List.◌∷◌ trimmed names, wildcard)
      ]
      else err (
          about svc (
            of_annotation internal_lb_allow_projects_annotation_key
              " contains invalid project name"))

  -- what the annotation becomes
  abbrev of_kept : Result Kept → Result Service
  of_kept (err e) = err e
  of_kept (ok (names, wildcard)) = ok record svc {
    annotations =
        insert internal_lb_allow_projects_annotation_key (if wildcard then "*" else join names)
          svc.annotations;
  }

  -- the branch for a service that allows projects; setting an annotation to what it is changes nothing
  unfoldable pub allow_projects : Option String → Result Service
  unfolding cleaned_projects split join trim_start trim_end
  allow_projects none = ok svc
  allow_projects (some val) =
      if val == ""
      then err (
          about svc
            (of_annotation internal_lb_allow_projects_annotation_key " value cannot be empty"))
      else of_kept (cleaned_projects List.[] (split val))

  abbrev is_there : Option String → Bool
  is_there none = false
  is_there (some val) = true

  abbrev is_address : Option String → Bool
  is_address none = false
  is_address (some val) = is_ip val

  abbrev lb_error : String → String → String → Error
  lb_error kind text key = errorf (
      concat (
        List.◌∷◌ kind (
          List.◌∷◌ " LB service " (
            List.◌∷◌ svc.namespace
              (List.◌∷◌ "/" (List.◌∷◌ svc.name (List.◌∷◌ text (List.◌∷◌ (quoted key) List.[]))))))))

  -- the switch over the type; `allowed` is the service that the projects leave
  unfoldable pub check_type : String → Service → Result Service
  check_type type allowed =
      let internal = lookup internal_lb_subnet_annotation_key svc.annotations in
      let external = lookup external_lb_ip_addresses_annotation_key svc.annotations in
      let projects = lookup internal_lb_allow_projects_annotation_key svc.annotations in
      if type == "external" || type == ""
      then if is_there projects
        then err (
            lb_error "external" " must not have a load-balancer-allow-projects annotation "
              internal_lb_allow_projects_annotation_key)
        else if is_there internal
        then err (
            lb_error "external" " must not have an internal subnet annotation "
              internal_lb_subnet_annotation_key)
        else if is_address external
        then err (
            lb_error "external" ": value must be a subnet name, not an IP address: annotation "
              external_lb_ip_addresses_annotation_key)
        else ok allowed
      else if type == "internal"
      then if is_there external
        then err (
            lb_error "internal" ": must not have an external IP annotation "
              external_lb_ip_addresses_annotation_key)
        else if is_address internal
        then err (
            lb_error "internal" ": value must be a subnet name, not an IP address: annotation "
              internal_lb_subnet_annotation_key)
        else ok allowed
      else err (
          about svc (
            List.◌∷◌ ": unsupported LBType " (
              List.◌∷◌ (quoted type)
                (List.◌∷◌ ". Supported values are \"internal\" or \"external\"" List.[]))))

  abbrev lb_type : Option String → String
  lb_type none = ""
  lb_type (some type) = type

  abbrev checked : Result Service → Result Service
  checked (err e) = err e
  checked (ok allowed) =
      check_type (lb_type (lookup lb_type_annotation_key svc.annotations)) allowed

  unfoldable pub validate_service : Result Service
  unfolding allow_projects check_type
  validate_service =
      checked (allow_projects (lookup internal_lb_allow_projects_annotation_key svc.annotations))

  -- Mutate, of a service; what is deleted, or balances no load, is left alone
  unfoldable pub mutate_service : Result Service
  unfolding validate_service
  mutate_service =
      if svc.is_deleted
      then ok svc
      else if not (svc.type == "LoadBalancer")
      then ok svc
      else validate_service
