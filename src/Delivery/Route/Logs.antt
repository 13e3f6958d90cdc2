-- ===== src/Delivery/Route/Logs.antt =====
-- Actions that log only steps with a given property.
use agent_it.Base.{◌≡◌, refl, Bool, true, false, if◌then◌else◌, All}
use agent_it.Delivery.Route.{
  Step, Reason, Result, ok, raised, Trace, Exec, perform, pure, raise, settle, continue, ◌>>=◌,
}

-- Whatever `m` logs satisfies `Q`, whether it returns or raises.
pub record Logs {A : Type 0} (Q : Step → Type 0) (m : Exec A) : Type 0 where
  pub at : (t : Trace) → All Q t → All Q (m t).1

module _ {A : Type 0} {Q : Step → Type 0} where
  pub Logs-pure : (a : A) → Logs Q (pure a)
  Logs-pure a = record { at = λ t h. h }

  pub Logs-raise : (e : Reason) → Logs Q (raise {A = A} e)
  Logs-raise e = record { at = λ t h. h }

  pub Logs-settle : (r : Result A) → Logs Q (settle r)
  Logs-settle r = record { at = λ t h. h }

  pub Logs-if :
      (b : Bool) (m n : Exec A)
      → (b ≡ true → Logs Q m)
      → (b ≡ false → Logs Q n)
      → Logs Q (if b then m else n)
  Logs-if true m n hm hn = hm refl
  Logs-if false m n hm hn = hn refl

pub Logs-perform : {Q : Step → Type 0} (b : Bool) (s : Step) → Q s → Logs Q (perform b s)
Logs-perform b s q = record { at = λ t h. (q, h) }

module _ {A B : Type 0} {Q : Step → Type 0} where
  Logs-continue : (r : Result A) (f : A → Exec B) → ((a : A) → Logs Q (f a)) → Logs Q (continue r f)
  Logs-continue (ok a) f h = h a
  Logs-continue (raised e) f h = Logs-raise e

  pub Logs-bind :
      (m : Exec A) (f : A → Exec B) → Logs Q m → ((a : A) → Logs Q (f a)) → Logs Q (m >>= f)
  Logs-bind m f hm hf = record {
    at = λ t h. let (r, t') = m t in (Logs-continue r f hf).at t' (hm.at t h);
  }
