-- ===== src/Slo/Verdict.antt =====
-- The first poll that is not quiet decides the watch.
use Prim.Native.Nat.{zero, suc}
use agent_it.Base.{
  ℕ, ◌+◌, ◌≤◌, ◌<◌, String, Bool, true, false, Option, none, some, List, [], ◌∷◌, ◌≡◌, ◌⊎◌, inl,
  inr, refl, sym, ap, arith, Bool-cases, subst, ◌==◌, ==→eq, map, keep_if, any,
}
use agent_it.Slo.{
  Slo, Reading, value, missing, failing, World, Updates, is_breached, poll_slo, poll_slos, Result,
  healthy, breached, raised, with_metric, of_poll, of_listed, watch, verify_slos, verify_max_polls,
}

abbrev pub breach_of : Slo → Reading → Bool
breach_of s (value v) = is_breached s.metric_name v s.target_value
breach_of s missing = false
breach_of s failing = false

abbrev pub is_breach : (String → Reading) → Slo → Bool
is_breach reading s = breach_of s (reading s.metric_name)

abbrev pub failing_of : Reading → Bool
failing_of (value v) = false
failing_of missing = false
failing_of failing = true

abbrev pub is_failing : (String → Reading) → Slo → Bool
is_failing reading s = failing_of (reading s.metric_name)

-- No call of the poll raises.
pub record IsRead (w : World) (i : ℕ) (slos : List Slo) : Type 0 where
  pub listed : w.listed i ≡ some slos
  pub none_fails : any (is_failing (w.collect_slo i)) slos ≡ false

-- The breached rows of a poll.
abbrev pub breaches : World → ℕ → List Slo → List Slo
breaches w i slos = keep_if (is_breach (w.collect_slo i)) slos

-- The rows of a poll are read, and none of them is breached.
abbrev pub IsQuiet : World → ℕ → Type 0
IsQuiet w i = (slos : List Slo) × IsRead w i slos × (breaches w i slos ≡ [])

abbrev pub metrics_of : List Slo → List String
metrics_of slos = map (λ (s : Slo). s.metric_name) slos

-- A poll that raises.
abbrev pub IsFailing : World → ℕ → Type 0
IsFailing w i =
    (w.listed i ≡ none)
    ⊎ ((slos : List Slo) × (w.listed i ≡ some slos)
        × (any (is_failing (w.collect_slo i)) slos ≡ true))

-- The polls from `i` and before `j` are quiet.
abbrev pub AreQuiet : World → ℕ → ℕ → Type 0
AreQuiet w i j = (k : ℕ) → i ≤ k → k < j → IsQuiet w k

-- What the watch of the polls from `i` and before `n` comes to.
pub data IsVerdict (w : World) (i n : ℕ) : Result → Type 0 where
  all_quiet : AreQuiet w i n → IsVerdict w i n healthy
  at_breach :
      (j : ℕ) (slos : List Slo) (s : Slo) (rest : List Slo)
      → j < n
      → AreQuiet w i j
      → IsRead w j slos
      → breaches w j slos ≡ s ∷ rest
      → IsVerdict w i n (breached (metrics_of (s ∷ rest)))
  at_failure : (j : ℕ) → j < n → AreQuiet w i j → IsFailing w j → IsVerdict w i n raised

-- What one poll gives.
IsPolled : (String → Reading) → List Slo → Option (List String) → Type 0
IsPolled reading slos none = any (is_failing reading) slos ≡ true
IsPolled reading slos (some metrics) =
    (any (is_failing reading) slos ≡ false)
    × (metrics ≡ metrics_of (keep_if (is_breach reading) slos))

after_one :
    (reading : String → Reading) (s : Slo) (slos : List Slo) (b : Bool) (o : Option (List String))
    → is_failing reading s ≡ false
    → is_breach reading s ≡ b
    → IsPolled reading slos o
    → IsPolled reading (s ∷ slos) (with_metric b s.metric_name o)
unfolding IsPolled
after_one reading s slos b none f e h = rw f h
after_one reading s slos true (some metrics) f e (h, same) =
    (rw f h, rw e (ap (λ (l : List String). s.metric_name ∷ l) same))
after_one reading s slos false (some metrics) f e (h, same) = (rw f h, rw e same)

poll_slo-IsPolled :
    (reading : String → Reading) (s : Slo) (slos : List Slo) (r : Reading) (updates : Updates)
    → reading s.metric_name ≡ r
    → ((u : Updates) → IsPolled reading slos (poll_slos reading slos u).0)
    → IsPolled reading (s ∷ slos) (poll_slo r s (poll_slos reading slos) updates).0
unfolding IsPolled
poll_slo-IsPolled reading s slos failing updates e rec = rw (ap failing_of e) refl
poll_slo-IsPolled reading s slos missing updates e rec =
    as_before (poll_slos reading slos updates).0 (
      after_one reading s slos false (poll_slos reading slos updates).0 (ap failing_of e)
        (ap (breach_of s) e) (rec updates))
  where
    as_before :
        (o : Option (List String))
        → IsPolled reading (s ∷ slos) (with_metric false s.metric_name o)
        → IsPolled reading (s ∷ slos) o
    as_before none h = h
    as_before (some metrics) h = h
poll_slo-IsPolled reading s slos (value v) updates e rec =
    let b = is_breached s.metric_name v s.target_value in
    after_one reading s slos b (poll_slos reading slos ((s.id, v, b) ∷ updates)).0 (ap failing_of e)
      (ap (breach_of s) e) (rec ((s.id, v, b) ∷ updates))

poll_slos-IsPolled :
    (reading : String → Reading) (slos : List Slo) (updates : Updates)
    → IsPolled reading slos (poll_slos reading slos updates).0
unfolding poll_slos IsPolled
poll_slos-IsPolled reading [] updates = (refl, refl)
poll_slos-IsPolled reading (s ∷ slos) updates =
    poll_slo-IsPolled reading s slos (reading s.metric_name) updates refl
      (λ u. poll_slos-IsPolled reading slos u)

no_poll : (w : World) (i n : ℕ) → n ≤ i → AreQuiet w i n
no_poll w i n le k lo hi = absurd (omega (arith, le, lo, hi))

-- One more quiet poll in front.
also_quiet : (w : World) (i j : ℕ) → IsQuiet w i → AreQuiet w (i + 1) j → AreQuiet w i j
also_quiet w i j q h k lo hi = elim (Bool-cases (k == i)) [
  | inl e ↦ subst (IsQuiet w) (sym (==→eq k i e)) q
  | inr e ↦ h k (ground (arith, lo, e)) hi
]

after_quiet :
    (w : World) (i n : ℕ) (r : Result) → IsQuiet w i → IsVerdict w (i + 1) n r → IsVerdict w i n r
after_quiet w i n _ q (all_quiet h) = all_quiet (also_quiet w i n q h)
after_quiet w i n _ q (at_breach j slos s rest lt h read e) =
    at_breach j slos s rest lt (also_quiet w i j q h) read e
after_quiet w i n _ q (at_failure j lt h f) = at_failure j lt (also_quiet w i j q h) f

-- By what the poll `i` gives.
of_poll-IsVerdict :
    (w : World) (i n : ℕ) (slos : List Slo) (p : Option (List String) × Updates)
    (next : Updates → Result × Updates)
    → i < n
    → w.listed i ≡ some slos
    → IsPolled (w.collect_slo i) slos p.0
    → ((u : Updates) → IsVerdict w (i + 1) n (next u).0)
    → IsVerdict w i n (of_poll p next).0
unfolding IsPolled
of_poll-IsVerdict w i n slos (none, u) next lt e h rec =
    at_failure i lt (no_poll w i i (omega arith)) (inr (slos, e, h))
of_poll-IsVerdict w i n slos (some metrics, u) next lt e (h, same) rec =
    rw same (by_breaches (breaches w i slos) refl)
  where
    read : IsRead w i slos
    read = record { listed = e; none_fails = h }

    by_breaches :
        (found : List Slo)
        → breaches w i slos ≡ found
        → IsVerdict w i n (of_poll (some (metrics_of found), u) next).0
    by_breaches [] k = after_quiet w i n (next u).0 (slos, read, k) (rec u)
    by_breaches (s ∷ found) k = at_breach i slos s found lt (no_poll w i i (omega arith)) read k

watch-IsVerdict :
    (w : World) (left i n : ℕ) (updates : Updates)
    → i + left ≡ n
    → IsVerdict w i n (watch w left i updates).0
unfolding watch
watch-IsVerdict w zero i n updates e = all_quiet (no_poll w i n (omega (arith, e)))
watch-IsVerdict w (suc left) i n updates e =
    of_list (w.listed i) refl (λ u. watch-IsVerdict w left (i + 1) n u (omega (arith, e)))
  where
    of_list :
        (l : Option (List Slo))
        → w.listed i ≡ l
        → ((u : Updates) → IsVerdict w (i + 1) n (watch w left (i + 1) u).0)
        → IsVerdict w i n (of_listed (w.collect_slo i) l (watch w left (i + 1)) updates).0
    of_list none k rec = at_failure i (omega (arith, e)) (no_poll w i i (omega arith)) (inl k)
    of_list (some slos) k rec =
        of_poll-IsVerdict w i n slos (poll_slos (w.collect_slo i) slos updates)
          (watch w left (i + 1)) (omega (arith, e)) k
          (poll_slos-IsPolled (w.collect_slo i) slos updates) rec

-- The watch reports the first of its twelve polls that is not quiet: a failure if a call raises
-- there, and otherwise the metrics of all rows that are breached in it, in their order. It reports
-- that the application is healthy where all twelve polls are quiet.
pub verify_slos-IsVerdict : (w : World) → IsVerdict w 0 verify_max_polls (verify_slos w).0
unfolding verify_slos
verify_slos-IsVerdict w = watch-IsVerdict w verify_max_polls 0 verify_max_polls [] refl
