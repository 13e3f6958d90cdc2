-- ===== src/Store/Skills/Listing/Entries.antt =====
-- The entries that the listing of the skills that cool down groups, and those that it lists.
use agent_it.Base.{
  ℕ, String, Bool, true, false, not, Option, none, some, [], ◌∷◌, ◌≡◌, inl, inr, refl, sym, ap, ◌∙◌,
  ltb, if◌then◌else◌, lookup, insert, get_or, string_eq, eq_refl, is_empty_text, In, All, IsDict,
  insert-IsDict, Bool-cases,
}
use agent_it.Store.Skills.{
  Outcome, Outcomes, is_after, most_common, CooldownInfo, cooldown_of, skill_reject_reason_prefix,
}
use agent_it.Store.Skills.Listing.{
  Pair, pair_of_texts, Times, Counter, Grouped, key_of, group_under, group_one, grouped_rejects,
  with_info, info_of, cooled,
}
use agent_it.Store.Skills.Listing.Times.{covers}

module _ (app : String) (times : Times) where
  group_one-IsDict : (g : Grouped) (r : Outcome) → IsDict g → IsDict (group_one app times g r)
  unfolding group_one group_under
  group_one-IsDict g r h = elim (Bool-cases (is_after (lookup (key_of app r) times) r.created_at)) [
    | inl e ↦ rw e (elim (Bool-cases (is_empty_text (skill_reject_reason_prefix r.reason))) [
      | inl blank ↦ rw blank h
      | inr named ↦ rw named (insert-IsDict (key_of app r) _ g h)
    ])
    | inr e ↦ rw e h
  ]

  pub grouped_rejects-IsDict :
      (g : Grouped) (rows : Outcomes) → IsDict g → IsDict (grouped_rejects app times g rows)
  unfolding grouped_rejects
  grouped_rejects-IsDict g [] h = h
  grouped_rejects-IsDict g (r ∷ rows) h =
      grouped_rejects-IsDict (group_one app times g r) rows (group_one-IsDict g r h)

-- `info` tells of its own pair.
pub info_of-pair :
    (threshold : ℕ) (a s : String) (c : Counter) (info : CooldownInfo)
    → info_of threshold (a, s) c ≡ some info
    → (a ≡ info.app_name) × (s ≡ info.skill_name)
info_of-pair threshold a s c info h = of_top (most_common c) h
  where
    of_top :
        (top : Option (String × ℕ))
        → cooldown_of a s threshold top ≡ some info
        → (a ≡ info.app_name) × (s ≡ info.skill_name)
    of_top none e = absurd (cc)
    of_top (some (p, n)) e = elim (Bool-cases (ltb n threshold)) [
      | inl low ↦ absurd (cc (sym (rw low at e)))
      | inr high ↦
          let same : record { skill_name = s; app_name = a; reason_prefix = p; count = n } ≡ info =
            ap (get_or info) (rw high at e) in
          (ap (λ (i : CooldownInfo). i.app_name) same, ap (λ (i : CooldownInfo). i.skill_name) same)
    ]

-- A predicate of the entries stays with a key that is set.
All-insert :
    (P : Pair × Counter → Type 0) (k : Pair) (c : Counter) (g : Grouped)
    → P (k, c)
    → All P g
    → All P (insert k c g)
unfolding insert
All-insert P k c [] h hs = (h, tt)
All-insert P k c ((j, d) ∷ g) h hs = elim (Bool-cases (pair_of_texts.beq j k)) [
  | inl same ↦ rw same (h, hs.1)
  | inr other ↦ rw other (hs.0, All-insert P k c g h hs.1)
]

abbrev pub IsCovered : String → Pair × Counter → Type 0
IsCovered app e = covers app e.0.0 ≡ true

key_of-IsCovered : (app : String) (r : Outcome) → covers app (key_of app r).0 ≡ true
key_of-IsCovered app r = elim (Bool-cases (is_empty_text app)) [
  | inl every ↦ rw every refl
  | inr one ↦ rw one (eq_refl app)
]

pub grouped_rejects-IsCovered :
    (app : String) (times : Times) (g : Grouped) (rows : Outcomes)
    → All (IsCovered app) g
    → All (IsCovered app) (grouped_rejects app times g rows)
unfolding grouped_rejects group_one group_under
grouped_rejects-IsCovered app times g [] h = h
grouped_rejects-IsCovered app times g (r ∷ rows) h =
    grouped_rejects-IsCovered app times (group_one app times g r) rows (
      one (is_after (lookup (key_of app r) times) r.created_at)
        (is_empty_text (skill_reject_reason_prefix r.reason)))
  where
    one :
        (late blank : Bool)
        → All (IsCovered app) (
            if not late
            then g
            else if blank
            then g
            else group_under (key_of app r) (skill_reject_reason_prefix r.reason) g)
    one false blank = h
    one true true = h
    one true false = All-insert (IsCovered app) (key_of app r) _ g (key_of-IsCovered app r) h

-- What is listed stands for an entry of the dictionary, and the other way round.
pub In-of_cooled :
    (threshold : ℕ) (info : CooldownInfo) (g : Grouped) (Goal : Type 0)
    → In info (cooled threshold g)
    → ((k : Pair) (c : Counter) → In (k, c) g → info_of threshold k c ≡ some info → Goal)
    → Goal
unfolding cooled
In-of_cooled threshold info [] Goal m found = absurd m
In-of_cooled threshold info ((k, c) ∷ g) Goal m found =
    here (info_of threshold k c) refl m
      (λ n. In-of_cooled threshold info g Goal n (λ j d i. found j d (inr i)))
  where
    here :
        (o : Option CooldownInfo)
        → info_of threshold k c ≡ o
        → In info (with_info o (cooled threshold g))
        → (In info (cooled threshold g) → Goal)
        → Goal
    here none e n behind = behind n
    here (some i) e (inl same) behind = found k c (inl refl) (e ∙ ap some (sym same))
    here (some i) e (inr n) behind = behind n

pub In-cooled :
    (threshold : ℕ) (info : CooldownInfo) (k : Pair) (c : Counter) (g : Grouped)
    → In (k, c) g
    → info_of threshold k c ≡ some info
    → In info (cooled threshold g)
unfolding cooled
In-cooled threshold info k c [] m e = absurd m
In-cooled threshold info k c ((j, d) ∷ g) (inl same) e =
    let told : info_of threshold j d ≡ some info =
      ap (λ (x : Pair × Counter). info_of threshold x.0 x.1) (sym same) ∙ e in
    rw told (inl refl)
In-cooled threshold info k c ((j, d) ∷ g) (inr m) e =
    behind (info_of threshold j d) (In-cooled threshold info k c g m e)
  where
    behind :
        (o : Option CooldownInfo)
        → In info (cooled threshold g)
        → In info (with_info o (cooled threshold g))
    behind none n = n
    behind (some i) n = inr n
