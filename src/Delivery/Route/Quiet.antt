-- ===== src/Delivery/Route/Quiet.antt =====
-- Actions that leave the delivery lock alone.
use agent_it.Base.{Bool, true, false, ◌≡◌, refl, ◌∙◌, keep_if, if◌then◌else◌}
use agent_it.Delivery.Route.{
  Step, claim, release, Reason, Result, ok, raised, Trace, Exec, perform, pure, raise, settle,
  ◌>>=◌, continue,
}

abbrev pub is_lock_step : Step → Bool
is_lock_step (claim k) = true
is_lock_step (release k) = true
is_lock_step _ = false

-- The claims and releases of a log, the newest first.
abbrev pub lock_steps : Trace → Trace
lock_steps t = keep_if is_lock_step t

-- `m` makes no claim and no release, whether it returns or raises.
pub record Quiet {A : Type 0} (m : Exec A) : Type 0 where
  pub at : (t : Trace) → lock_steps (m t).1 ≡ lock_steps t

module _ {A : Type 0} where
  pub Quiet-pure : (a : A) → Quiet (pure a)
  Quiet-pure a = record { at = λ t. refl }

  pub Quiet-raise : (e : Reason) → Quiet (raise {A = A} e)
  Quiet-raise e = record { at = λ t. refl }

  pub Quiet-settle : (r : Result A) → Quiet (settle r)
  Quiet-settle r = record { at = λ t. refl }

  pub Quiet-if : (b : Bool) (m n : Exec A) → Quiet m → Quiet n → Quiet (if b then m else n)
  Quiet-if true m n hm hn = hm
  Quiet-if false m n hm hn = hn

pub Quiet-perform : (b : Bool) (s : Step) → is_lock_step s ≡ false → Quiet (perform b s)
Quiet-perform b s h = record { at = λ t. rw h }

module _ {A B : Type 0} where
  pub Quiet-continue :
      (r : Result A) (f : A → Exec B) → ((a : A) → Quiet (f a)) → Quiet (continue r f)
  Quiet-continue (ok a) f h = h a
  Quiet-continue (raised e) f h = Quiet-raise e

  pub Quiet-bind :
      (m : Exec A) (f : A → Exec B) → Quiet m → ((a : A) → Quiet (f a)) → Quiet (m >>= f)
  Quiet-bind m f hm hf = record {
    at = λ t. let (r, t') = m t in (Quiet-continue r f hf).at t' ∙ hm.at t;
  }

pub ruleset quiet_rules =
    (Quiet-pure, Quiet-settle, Quiet-raise, Quiet-if, Quiet-perform, Quiet-bind)
