-- ===== src/Quality/Tiers.antt =====
-- `filter_files_to_open_findings`: every file of a batch becomes a fix, a companion or a refusal.
use agent_it.Base.{
  ◌+◌, String, Bool, false, Option, none, some, List, [], ◌∷◌, ◌≡◌, ◌≢◌, refl, ap, arith, In, All,
  length, if◌then◌else◌, ◌⊎◌, inl, inr, get_or, lookup, string_eq,
}
use agent_it.Registry.{FindingKey}
use agent_it.Delivery.{Tools, Entry, FileCategory, narrative_report, secret_blocked, classify_file}
use agent_it.Quality.{
  Tier, fix, companion, dropped, tier_of, tier_of_match, tier_of_layer, companion_layer, keep_tier,
  filter_files_to_open_findings, finding_categories_of, is_explicitly_refused_companion,
  display_from, eligible_layer,
}
use agent_it.Quality.Match.{file_matches_finding_categories}
use agent_it.Quality.Match.Laws.{IsTied, file_matches_finding_categories-IsTied}

-- A fix comes from a file of the batch that is soundly tied to an open finding.
pub record IsFix (fs : List FindingKey) (f g : Entry) : Type 0 where
  category : String
  tied : IsTied f (finding_categories_of fs) category
  marked :
      g
      ≡ record f { finding_cluster = some (get_or category (lookup category (display_from [] fs))) }

-- A companion comes from a file that no contract refuses, in the layer of its own category.
pub record IsCompanion (tools : Tools) (fs : List FindingKey) (f g : Entry) : Type 0 where
  not_refused : is_explicitly_refused_companion f (finding_categories_of fs) ≡ false
  deliverable :
      (classify_file tools f ≢ narrative_report) × (classify_file tools f ≢ secret_blocked)
  marked : g ≡ record f { companion_layer = some (classify_file tools f) }

abbrev pub IsVetted : Tools → List FindingKey → List Entry → Entry → Type 0
IsVetted tools fs files g = (f : Entry) × In f files × (IsFix fs f g ⊎ IsCompanion tools fs f g)

-- What a tier promises of the file that it comes from.
abbrev TierSound : Tools → List FindingKey → Entry → Tier → Type 0
TierSound tools fs f (fix g) = IsFix fs f g
TierSound tools fs f (companion g) = IsCompanion tools fs f g
TierSound tools fs f (dropped why) = Unit

eligible_layer-some :
    (c layer : FileCategory)
    → eligible_layer c ≡ some layer
    → (layer ≡ c) × (c ≢ narrative_report) × (c ≢ secret_blocked)
eligible_layer-some narrative_report layer h = cc
eligible_layer-some secret_blocked layer h = cc
eligible_layer-some c layer h = ground arith

companion_layer-some :
    (tools : Tools) (fs : List FindingKey) (f : Entry) (layer : FileCategory)
    → companion_layer tools f (finding_categories_of fs) ≡ some layer
    → IsCompanion tools fs f (record f { companion_layer = some layer })
unfolding companion_layer
companion_layer-some tools fs f layer h =
    let r = if_none (is_explicitly_refused_companion f (finding_categories_of fs)) _ h in
    let e = eligible_layer-some (classify_file tools f) layer r.1 in
    record {
      not_refused = r.0;
      deliverable = (e.1, e.2);
      marked = ap (λ (l : FileCategory). record f { companion_layer = some l }) e.0;
    }
  where
    if_none :
        (b : Bool) (o : Option FileCategory)
        → (if b then none else o) ≡ some layer
        → (b ≡ false) × (o ≡ some layer)
    if_none b o e = ground arith

tier_of-TierSound :
    (tools : Tools) (fs : List FindingKey) (f : Entry) → TierSound tools fs f (tier_of tools fs f)
unfolding tier_of
tier_of-TierSound tools fs f =
    by_match (file_matches_finding_categories f (finding_categories_of fs)) refl
  where
    by_layer :
        (o : Option FileCategory)
        → companion_layer tools f (finding_categories_of fs) ≡ o
        → TierSound tools fs f (tier_of_layer (display_from [] fs) f o)
    by_layer none e = tt
    by_layer (some layer) e = companion_layer-some tools fs f layer e

    by_match :
        (o : Option String)
        → file_matches_finding_categories f (finding_categories_of fs) ≡ o
        → TierSound tools fs f (tier_of_match tools fs f o)
    by_match none e = by_layer (companion_layer tools f (finding_categories_of fs)) refl
    by_match (some c) e = record {
      category = c;
      tied = file_matches_finding_categories-IsTied f (finding_categories_of fs) c e;
      marked = refl;
    }

module _ (tools : Tools) (fs : List FindingKey) where
  -- A longer batch vets what a shorter one does.
  IsVetted-cons :
      (f g : Entry) (files : List Entry)
      → IsVetted tools fs files g
      → IsVetted tools fs (f ∷ files) g
  IsVetted-cons f g files (h, m, v) = (h, inr m, v)

  All-IsVetted-cons :
      (f : Entry) (files gs : List Entry)
      → All (IsVetted tools fs files) gs
      → All (IsVetted tools fs (f ∷ files)) gs
  All-IsVetted-cons f files [] h = tt
  All-IsVetted-cons f files (g ∷ gs) h =
      (IsVetted-cons f g files h.0, All-IsVetted-cons f files gs h.1)

  keep_tier-IsVetted :
      (t : Tier) (f : Entry) (files gs : List Entry) (reasons : List String)
      → TierSound tools fs f t
      → All (IsVetted tools fs (f ∷ files)) gs
      → All (IsVetted tools fs (f ∷ files)) (keep_tier t (gs, reasons)).0
  keep_tier-IsVetted (fix g) f files gs reasons s h = ((f, inl refl, inl s), h)
  keep_tier-IsVetted (companion g) f files gs reasons s h = ((f, inl refl, inr s), h)
  keep_tier-IsVetted (dropped why) f files gs reasons s h = h

  length-keep_tier :
      (t : Tier) (gs : List Entry) (reasons : List String)
      → length (keep_tier t (gs, reasons)).0 + length (keep_tier t (gs, reasons)).1
        ≡ length gs + length reasons + 1
  length-keep_tier (fix g) gs reasons = omega arith
  length-keep_tier (companion g) gs reasons = omega arith
  length-keep_tier (dropped why) gs reasons = omega arith

  -- Every file that the filter keeps is vetted: it is a fix that comes from a file of the batch with a
  -- sound tie to an open finding, or a companion that comes from a file which no contract refuses
  -- and which is neither narrative nor secret. Every other file is dropped with a reason of its own.
  pub filter_files_to_open_findings-IsVetted :
      (files : List Entry)
      → All (IsVetted tools fs files) (filter_files_to_open_findings tools fs files).0
        × (length (filter_files_to_open_findings tools fs files).0
              + length (filter_files_to_open_findings tools fs files).1
            ≡ length files)
  unfolding filter_files_to_open_findings
  filter_files_to_open_findings-IsVetted [] = (tt, omega arith)
  filter_files_to_open_findings-IsVetted (f ∷ files) =
      let (gs, reasons) = filter_files_to_open_findings tools fs files in
      let ih = filter_files_to_open_findings-IsVetted files in
      (
        keep_tier-IsVetted (tier_of tools fs f) f files gs reasons (tier_of-TierSound tools fs f)
            (All-IsVetted-cons f files gs ih.0),
        omega (arith, length-keep_tier (tier_of tools fs f) gs reasons, ih.1),
      )
