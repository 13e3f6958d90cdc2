-- ===== src/Examples/Limits.antt =====
-- Requests of one client in src/agentit/portal/rate_limit.py, and failures of
-- src/agentit/interfaces/breakers.py.
use agent_it.Base.{ℕ, String, true, List, [], ◌∷◌, string_eq, inl, inr, arith, subst, sym, ap}
use agent_it.Limits.Window.{Settings, State, check_rate_limit}
use agent_it.Limits.Timely.{IsTimely, IsBucket, bound, check_rate_limit-IsTimely}
use agent_it.Limits.Breaker.{Report, failure, success}

abbrev env : Settings
env = record { enabled = true; webhook_limit = 2; default_limit = 3 }

-- Three hits, one of them old at 100 seconds, and a counter that is about to purge.
abbrev busy : State
busy = record { hits = ("10.0.0.1:webhook", 10 ∷ 70 ∷ 90 ∷ []) ∷ []; calls_since_purge = 999 }

abbrev quiet : State
quiet = record { hits = ("10.0.0.1:webhook", 70 ∷ 90 ∷ []) ∷ []; calls_since_purge = 999 }

two_hits : IsBucket 3 95 (70 ∷ 90 ∷ [])
two_hits = (((omega arith, tt), (tt, tt)), (omega arith, (omega arith, tt)), omega arith)

quiet-IsTimely : IsTimely (bound env) 95 quiet
quiet-IsTimely = record {
  bucket = λ k ts m. elim m [
    | inl e ↦ subst (IsBucket 3 95) (sym (ap (λ (kb : String × List ℕ). kb.1) e)) two_hits
    | inr n ↦ absurd n
  ];
}

check_rate_limit-IsTimely_example :
    IsTimely (bound env) 100 (check_rate_limit env "10.0.0.2" "/fleet" 100 quiet).1
check_rate_limit-IsTimely_example =
    check_rate_limit-IsTimely env "10.0.0.2" "/fleet" 95 100 quiet (omega arith) quiet-IsTimely

abbrev history : List Report
history = failure 30 ∷ failure 20 ∷ failure 10 ∷ success ∷ failure 5 ∷ []
