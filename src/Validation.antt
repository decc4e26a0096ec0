-- ===== src/Validation.antt =====
-- pkg/apis/gdc/validation: errors of k8s.io/apimachinery's field package, kept as the calls that make them, and the
-- CIDR checks of Gardener's cidr package as an interface.
pub mod Accepted
pub mod InfrastructureUpdate
pub mod InfrastructureConfig
pub mod CloudProfile
pub mod Workers
use gardener_extension_provi.Common.{
  ℕ, String, ◌≡◌, Bool, true, false, Option, none, some, List, [], ◌∷◌, ◌++◌, if◌then◌else◌,
}

-- one step of a field.Path
pub data PathStep : Type 0 where
  child : String → PathStep
  index : ℕ → PathStep
  key : String → PathStep

abbrev pub FieldPath : Type 0
FieldPath = List PathStep

abbrev pub child_of : FieldPath → String → FieldPath
child_of path name = path ++ child name ∷ []

abbrev pub index_of : FieldPath → ℕ → FieldPath
index_of path n = path ++ index n ∷ []

abbrev pub key_of : FieldPath → String → FieldPath
key_of path name = path ++ key name ∷ []

-- field.Required, Invalid, NotSupported, Duplicate, InternalError and Forbidden with their arguments; a value that is no text is
-- left out
pub data FieldError : Type 0 where
  required : FieldPath → String → FieldError
  invalid : FieldPath → String → String → FieldError
  not_supported : FieldPath → String → List String → FieldError
  duplicate : FieldPath → String → FieldError
  internal_error : FieldPath → String → FieldError
  forbidden_field : FieldPath → String → FieldError

abbrev pub ErrorList : Type 0
ErrorList = List FieldError

-- `if cond { allErrs = append(allErrs, e) }`
abbrev pub fails_if : Bool → FieldError → ErrorList
fails_if true e = e ∷ []
fails_if false e = []

-- cidr.CIDR and the checks on it: a CIDR is made of a text and the path that its errors name.
pub record CidrChecks : Type 0 where
  pub parse : String → FieldPath → ErrorList
  pub is_canonical : FieldPath → String → ErrorList
  -- outer.ValidateSubset(inner), with the two texts and the inner one's path
  pub subset : String → String → FieldPath → ErrorList
  -- c.ValidateNotOverlap(d)
  pub not_overlap : String → String → ErrorList
