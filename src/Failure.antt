-- ===== src/Failure.antt =====
-- Go errors as values. An error is kept as the call that made it, so that what `errors.As` finds in it can be read off;
-- the texts are those of the source.
use gardener_extension_provi.Common.{ℕ, String, Option, none, some, Bool, true, false}

-- The reasons that the code tells apart by `apierrors.IsNotFound` and its like.
pub data Reason : Type 0 where
  not_found forbidden already_exists other : Reason

pub record ApiError : Type 0 where
  pub reason : Reason
  pub message : String

pub data Error : Type 0 where
  -- an error of the API server
  api : ApiError → Error
  -- fmt.Errorf with no error inside
  errorf : String → Error
  -- fmt.Errorf with %w: the cause can be unwrapped
  wrap : String → Error → Error
  -- fmt.Errorf with %v, or err.Error() put into a text: the cause cannot be unwrapped
  flat : String → Error → Error
  -- two texts joined by ", "
  joined : Error → Error → Error
  -- &reconciler.RequeueAfterError{Cause, RequeueAfter}, in seconds
  requeue_after : Error → ℕ → Error
  -- a nil pointer that the code dereferences
  panic : String → Error

pub data Result {ℓ} (A : Type ℓ) : Type ℓ where
  ok : A → Result A
  err : Error → Result A

-- apierrors.IsNotFound, IsForbidden and IsAlreadyExists, which look through %w
unfoldable pub is_not_found : Error → Bool
is_not_found (api e) = elim e.reason [ not_found ↦ true | _ ↦ false ]
is_not_found (wrap s e) = is_not_found e
is_not_found _ = false

unfoldable pub is_forbidden : Error → Bool
is_forbidden (api e) = elim e.reason [ forbidden ↦ true | _ ↦ false ]
is_forbidden (wrap s e) = is_forbidden e
is_forbidden _ = false

unfoldable pub is_already_exists : Error → Bool
is_already_exists (api e) = elim e.reason [ already_exists ↦ true | _ ↦ false ]
is_already_exists (wrap s e) = is_already_exists e
is_already_exists _ = false

-- errors.As(err, &RequeueAfterError): the delay that the controller honours
unfoldable pub requeue_delay : Error → Option ℕ
requeue_delay (requeue_after e n) = some n
requeue_delay (wrap s e) = requeue_delay e
requeue_delay _ = none
