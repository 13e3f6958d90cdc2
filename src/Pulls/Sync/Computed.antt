-- ===== src/Pulls/Sync/Computed.antt =====
-- What `compute_outcome` finds.
use agent_it.Base.{
  String, Bool, true, false, Option, none, some, List, [], ◌≡◌, refl, if◌then◌else◌, str_eq, eq_iff,
}
use agent_it.Store.Feedback.{Commit}
use agent_it.Pulls.{PrRecord}
use agent_it.Pulls.Outcomes.{
  Github, Found, PrStatus, compute_outcome, merge_outcome, close_outcome, of_status, of_comments,
  of_merged,
}

-- The outcome that GitHub's answers give for a merged or for a closed pull request.
pub data IsFound (g : Github) (r : PrRecord) : Found → Type 0 where
  of_merge :
      (commits : List Commit)
      → r.state ≡ "merged"
      → g.get_extra_commits r.pr_url ≡ some commits
      → IsFound g r (merge_outcome commits)
  of_close :
      (s : PrStatus) (texts : List String)
      → r.state ≡ "closed"
      → g.get_status r.pr_url ≡ some s
      → g.get_comments r.pr_url ≡ some texts
      → IsFound g r (close_outcome s texts)

-- A result of the computation is one of the two.
unfoldable pub IsComputed : Github → PrRecord → Option (Option Found) → Type 0
IsComputed g r none = Unit
IsComputed g r (some none) = Unit
IsComputed g r (some (some f)) = IsFound g r f

pub compute_outcome-IsComputed :
    (g : Github) (r : PrRecord) → IsComputed g r (compute_outcome g r).0
unfolding compute_outcome IsComputed
compute_outcome-IsComputed g r = by_state (str_eq r.state "merged") refl
  where
    by_merge :
        (o : Option (List Commit))
        → r.state ≡ "merged"
        → g.get_extra_commits r.pr_url ≡ o
        → IsComputed g r (of_merged r.pr_url o).0
    by_merge none e k = tt
    by_merge (some commits) e k = of_merge commits e k

    by_comments :
        (s : PrStatus) (o : Option (List String))
        → r.state ≡ "closed"
        → g.get_status r.pr_url ≡ some s
        → g.get_comments r.pr_url ≡ o
        → IsComputed g r (of_comments r.pr_url s o).0
    by_comments s none e k l = tt
    by_comments s (some texts) e k l = of_close s texts e k l

    by_status :
        (o : Option PrStatus)
        → r.state ≡ "closed"
        → g.get_status r.pr_url ≡ o
        → IsComputed g r (of_status g r.pr_url o).0
    by_status none e k = tt
    by_status (some s) e k = by_comments s (g.get_comments r.pr_url) e k refl

    by_close :
        (b : Bool)
        → str_eq r.state "closed" ≡ b
        → IsComputed g r
            (if b then of_status g r.pr_url (g.get_status r.pr_url) else (some none, [])).0
    by_close true e = by_status (g.get_status r.pr_url) ((eq_iff r.state _).0 e) refl
    by_close false e = tt

    by_state :
        (b : Bool)
        → str_eq r.state "merged" ≡ b
        → IsComputed g r
            (if b
              then of_merged r.pr_url (g.get_extra_commits r.pr_url)
              else if str_eq r.state "closed"
              then of_status g r.pr_url (g.get_status r.pr_url)
              else (some none, [])).0
    by_state true e = by_merge (g.get_extra_commits r.pr_url) ((eq_iff r.state _).0 e) refl
    by_state false e = by_close (str_eq r.state "closed") refl
