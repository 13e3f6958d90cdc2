-- ===== src/Delivery/Route/Effects.antt =====
-- Effects of a delivery, in a log with the newest first, and actions that log and may raise.
use agent_it.Base.{String, Bool, List, ◌∷◌, if◌then◌else◌}
use agent_it.Delivery.{FileCategory, Mechanism, Entry}

-- `deliveries.status` as `route_and_deliver` writes it.
pub data Status : Type 0 where
  delivered partial failed : Status

-- The argument `finding_resolution` of `update_delivery`.
pub data Resolution : Type 0 where
  unchanged not_delivered : Resolution

-- The awaited calls: on the store (`claim_delivery_lock`, `create_delivery`, `update_delivery`,
-- `release_delivery_lock`), of a delivery mechanism with the files that it is
-- given, and `_maybe_schedule_verification`.
pub data Step : Type 0 where
  claim : String → Step
  create : Step
  deliver : FileCategory → Mechanism → List Entry → Step
  update : Status → Resolution → Step
  schedule : Step
  release : String → Step

-- `DeliveryInProgressError`, and an exception of a call.
pub data Reason : Type 0 where
  in_progress : Reason
  call_failed : Step → Reason

pub data Result (A : Type 0) : Type 0 where
  ok : A → Result A
  raised : Reason → Result A

abbrev pub Trace : Type 0
Trace = List Step

abbrev pub Exec : Type 0 → Type 0
Exec A = Trace → Result A × Trace

-- A call is logged when it is made; it may raise.
abbrev pub perform : Bool → Step → Exec Unit
perform fails s t = (if fails then raised (call_failed s) else ok tt, s ∷ t)

module _ {A : Type 0} where
  abbrev pub pure : A → Exec A
  pure a t = (ok a, t)

  abbrev pub raise : Reason → Exec A
  raise e t = (raised e, t)

  abbrev pub settle : Result A → Exec A
  settle r t = (r, t)

module _ {A B : Type 0} where
  abbrev pub continue : Result A → (A → Exec B) → Exec B
  continue (ok a) f t = f a t
  continue (raised e) f t = (raised e, t)

  infixl 5 ◌>>=◌ ◌>>◌
  abbrev pub ◌>>=◌ : Exec A → (A → Exec B) → Exec B
  ◌>>=◌ m f t = let (r, t') = m t in continue r f t'

  abbrev pub ◌>>◌ : Exec A → Exec B → Exec B
  m >> n = m >>= λ _. n
