-- ===== src/Store/Webhooks.antt =====
-- The table `processed_webhooks` of portal/store/deliveries.py. Times are whole seconds.
use agent_it.Base.{
  ℕ, ◌+◌, String, Bool, true, false, ◌&&◌, not, Option, none, some, List, [], ◌∷◌, ◌≡◌, ◌≢◌, refl,
  subst, sym, ltb, if◌then◌else◌, lookup, insert, remove, lookup-insert, lookup-remove, string_eq,
  All, Bool-cases, inl, inr,
}

pub record Webhook : Type 0 where
  pub processed_at : ℕ
  pub completed : Bool

abbrev pub Webhooks : Type 0
Webhooks = List (String × Webhook)

abbrev pub stale_after_seconds : ℕ
stale_after_seconds = 900

abbrev in_flight : ℕ → Webhook
in_flight now = record { processed_at = now; completed = false }

claim_row : Option Webhook → String → ℕ → Webhooks → Bool × Webhooks
claim_row none id now rows = (true, insert id (in_flight now) rows)
claim_row (some w) id now rows =
    if not w.completed && ltb (w.processed_at + stale_after_seconds) now
    then (true, insert id (in_flight now) rows)
    else (false, rows)

unfoldable pub claim_webhook : String → ℕ → Webhooks → Bool × Webhooks
unfolding claim_row
claim_webhook id now rows = claim_row (lookup id rows) id now rows

complete_row : Option Webhook → String → ℕ → Webhooks → Webhooks
complete_row none id now rows = rows
complete_row (some w) id now rows = insert id (record { processed_at = now; completed = true }) rows

-- `UPDATE … SET completed = TRUE, processed_at = now`
unfoldable pub complete_webhook_claim : String → ℕ → Webhooks → Webhooks
unfolding complete_row
complete_webhook_claim id now rows = complete_row (lookup id rows) id now rows

unfoldable pub release_webhook_claim : String → Webhooks → Webhooks
release_webhook_claim id rows = remove id rows

pub data Call : Type 0 where
  claim complete : String → ℕ → Call
  release : String → Call

unfoldable pub call : Call → Webhooks → Webhooks
unfolding claim_webhook complete_webhook_claim release_webhook_claim
call (claim id now) rows = (claim_webhook id now rows).1
call (complete id now) rows = complete_webhook_claim id now rows
call (release id) rows = release_webhook_claim id rows

unfoldable pub run : List Call → Webhooks → Webhooks
unfolding call
run [] rows = rows
run (c ∷ calls) rows = run calls (call c rows)

-- The webhook was processed to its end.
pub record IsDone (id : String) (rows : Webhooks) : Type 0 where
  pub row : Webhook
  pub stored : lookup id rows ≡ some row
  pub completed : row.completed ≡ true

abbrev pub Keeps : String → Call → Type 0
Keeps id (release i) = i ≢ id
Keeps id _ = Unit

module _ (id : String) where
  claim-refused :
      (now : ℕ) (rows : Webhooks) → IsDone id rows → claim_webhook id now rows ≡ (false, rows)
  unfolding claim_webhook claim_row
  claim-refused now rows d = rw (d.stored, d.completed) refl

  IsDone-insert :
      (other : String) (w : Webhook) (rows : Webhooks)
      → string_eq.beq other id ≡ false
      → IsDone id rows
      → IsDone id (insert other w rows)
  IsDone-insert other w rows e d = record {
    row = d.row;
    stored = rw (lookup-insert other id w rows, e) d.stored;
    completed = d.completed;
  }

  claim_other-IsDone :
      (other : String) (now : ℕ) (rows : Webhooks) (o : Option Webhook)
      → string_eq.beq other id ≡ false
      → IsDone id rows
      → IsDone id (claim_row o other now rows).1
  unfolding claim_row
  claim_other-IsDone other now rows none e d = IsDone-insert other (in_flight now) rows e d
  claim_other-IsDone other now rows (some w) e d =
      elim (Bool-cases (not w.completed && ltb (w.processed_at + stale_after_seconds) now)) [
        | inl taken ↦ rw taken (IsDone-insert other (in_flight now) rows e d)
        | inr refused ↦ rw refused d
      ]

  complete-IsDone :
      (other : String) (now : ℕ) (rows : Webhooks) (o : Option Webhook)
      → IsDone id rows
      → IsDone id (complete_row o other now rows)
  unfolding complete_row
  complete-IsDone other now rows none d = d
  complete-IsDone other now rows (some w) d = elim (Bool-cases (string_eq.beq other id)) [
    | inl same ↦ record {
      row = record { processed_at = now; completed = true };
      stored =
          rw (lookup-insert other id (record { processed_at = now; completed = true }) rows, same)
            refl;
      completed = refl;
    }
    | inr differ ↦
        IsDone-insert other (record { processed_at = now; completed = true }) rows differ d
  ]

  call-IsDone : (c : Call) (rows : Webhooks) → IsDone id rows → Keeps id c → IsDone id (call c rows)
  unfolding call claim_webhook complete_webhook_claim release_webhook_claim
  call-IsDone (claim other now) rows d h = elim (Bool-cases (string_eq.beq other id)) [
    | inl same ↦
        subst (λ (i : String). IsDone id (claim_webhook i now rows).1)
          (sym ((string_eq.beq_iff other id).0 same)) (rw (claim-refused now rows d) d)
    | inr differ ↦ claim_other-IsDone other now rows (lookup other rows) differ d
  ]
  call-IsDone (complete other now) rows d h = complete-IsDone other now rows (lookup other rows) d
  call-IsDone (release other) rows d h = elim (Bool-cases (string_eq.beq other id)) [
    | inl same ↦ absurd (h ((string_eq.beq_iff other id).0 same))
    | inr differ ↦ record {
      row = d.row;
      stored = rw (lookup-remove other id rows, differ) d.stored;
      completed = d.completed;
    }
  ]

  -- A webhook that was processed to its end stays so, and each further claim of it is refused,
  -- through any calls that do not release it, at any time.
  pub run-IsDone :
      (now : ℕ) (calls : List Call) (rows : Webhooks)
      → IsDone id rows
      → All (Keeps id) calls
      → IsDone id (run calls rows)
        × (claim_webhook id now (run calls rows) ≡ (false, run calls rows))
  unfolding run
  run-IsDone now [] rows d h = (d, claim-refused now rows d)
  run-IsDone now (c ∷ calls) rows d (k, keeps) =
      run-IsDone now calls (call c rows) (call-IsDone c rows d k) keeps
