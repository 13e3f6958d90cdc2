-- ===== src/Quality/Match.antt =====
-- `file_matches_finding_categories` of portal/quality_prs.py: the open finding that a generated file
-- is tied to. The theorems stand in Match/Laws.
pub mod Laws
use Prim.Native.String as Text
use agent_it.Base.{
  ℕ, zero, suc, ◌≤◌, String, Char, code, Bool, true, false, ◌&&◌, ◌||◌, not, Option, none, some,
  List, [], ◌∷◌, ◌++◌, map, any, keep_if, first_that, first_some, is_empty, is_empty_text, is_blank,
  is_some, str_eq, contains, ltb, leb, ◌==◌, if◌then◌else◌, lookup, insert, get_or, ◌++ₛ◌, join,
}
use agent_it.Registry
use agent_it.Registry.{
  normalize, FindingKey, contract_for, allows_auto_pr, remediable_findings, clears_via_source,
}
use agent_it.Registry.Contract.{SolutionContract}
use agent_it.Registry.Table.{fix_registry}
use agent_it.Delivery.{
  Tools, Entry, text_of, FileCategory, cluster_config, cicd_shared_namespace, narrative_report,
  secret_blocked, classify_file, unaddressed, one_text, texts, Addressed,
}

unfoldable pub categories_overlap : String → String → Bool
categories_overlap a b =
    let na = normalize a in
    let nb = normalize b in
    not (is_empty_text na || is_empty_text nb) && (str_eq na nb || contains nb na || contains na nb)

-- The parts that `re.split(r"[/_.-]+", s)` has between separators. Empty parts, which a caller drops
-- with all short ones, are more here: one for each two separators that meet.
is_separator : Char → Bool
is_separator c = let n = code c in n == 47 || n == 95 || n == 46 || n == 45

abbrev cons_char : Char → List String → List String
cons_char c [] = Text.◌∷◌ c "" ∷ []
cons_char c (p ∷ ps) = Text.◌∷◌ c p ∷ ps

split_parts : String → List String
unfolding is_separator
split_parts Text.[] = "" ∷ []
split_parts (Text.◌∷◌ c s) =
    if is_separator c then "" ∷ split_parts s else cons_char c (split_parts s)

-- `p or q` on texts
abbrev pub or_else : Option String → String → String
or_else p q = let s = text_of p in if is_empty_text s then q else s

-- the signal of one key, if it is a text that is not blank
abbrev signal : Option String → List String
signal o = if is_blank (text_of o) then [] else text_of o ∷ []

abbrev addressed_signals : Addressed → List String
addressed_signals unaddressed = []
addressed_signals (one_text s) = if is_blank s then [] else s ∷ []
addressed_signals (texts []) = []
addressed_signals (texts (s ∷ _)) = s ∷ []

path_signals : String → List String
unfolding split_parts
path_signals path =
    if is_empty_text path
    then []
    else path ∷ keep_if (λ (p : String). leb 3 (Text.count p)) (split_parts path)

pub file_signals : Entry → List String
unfolding path_signals
file_signals file =
    addressed_signals file.finding_addressed
    ++ (signal file.skill_name
        ++ (signal file.category
            ++ (signal file.domain
                ++ (path_signals (or_else file.path (text_of file.target_path))
                    ++ signal file.description))))

-- `normalize_category(str(file.get("skill_name") or ""))`
abbrev pub skill_of : Entry → String
skill_of file = normalize (text_of file.skill_name)

abbrev pub refuses : SolutionContract → String → Bool
refuses c skill = any (λ (s : String). str_eq skill (normalize s)) c.refuse_companions

abbrev pub is_contracted : String → Bool
is_contracted cat = is_some (contract_for cat)

-- The registered clearing skill of `cat` is `skill`.
abbrev pub clears : String → String → Bool
clears skill cat = elim (contract_for cat) [
  | none ↦ false
  | some c ↦ str_eq skill (normalize c.skill_name)
]

-- `skill` is on the refuse list of `cat`.
abbrev pub refused_by : String → String → Bool
refused_by skill cat = elim (contract_for cat) [ none ↦ false | some c ↦ refuses c skill ]

-- A signal that names the clearing skill of a contract and none of its refused companions.
bridges_by : SolutionContract → String → String → Bool
bridges_by c cat signal =
    let needle = normalize c.skill_name in
    (categories_overlap signal needle || categories_overlap signal cat)
    && not (any (λ (r : String). categories_overlap signal (normalize r)) c.refuse_companions)
    && (contains (normalize signal) needle || categories_overlap signal needle)

pub bridges : List String → String → Bool
unfolding bridges_by
bridges signals cat = elim (contract_for cat) [
  | none ↦ false
  | some c ↦ any (bridges_by c cat) signals
]

-- The fuzzy match of a finding without a contract.
fuzzy_match : Entry → List String → Option String
fuzzy_match file match_cats =
    first_some
      (λ (signal : String). first_that (λ (cat : String). categories_overlap signal cat) match_cats)
      (file_signals file)

mapped_match : Entry → String → Bool
mapped_match file cat = elim (Registry.lookup cat) [
  | none ↦ false
  | some m ↦
      categories_overlap m.1 (skill_of file)
      || categories_overlap m.1 (text_of file.path)
      || categories_overlap m.0 (text_of file.category)
]

registry_match : String → List String → Option String
registry_match skill match_cats =
    first_some
      (λ ((key, (domain, skill_name)) : String × (String × String)).
        if categories_overlap skill skill_name || categories_overlap skill key
        then first_that
            (λ (cat : String). categories_overlap cat key || categories_overlap cat domain)
            match_cats
        else none)
      fix_registry

-- `a` if it is there, and else `b`
abbrev pub or_match : Option String → Option String → Option String
or_match (some c) o = some c
or_match none o = o

pub legacy_match : Entry → List String → Option String
unfolding fuzzy_match mapped_match registry_match
legacy_match file match_cats = or_match (fuzzy_match file match_cats) (
    or_match (first_that (mapped_match file) match_cats)
      (if is_empty_text (skill_of file) then none else registry_match (skill_of file) match_cats))

-- A set is a list, in the order in which the interpreter runs through it.
unfoldable pub file_matches_finding_categories : Entry → List String → Option String
unfolding legacy_match bridges file_signals
file_matches_finding_categories file finding_categories =
    let skill = skill_of file in
    let contracted = keep_if is_contracted finding_categories in
    let uncontracted = keep_if (λ (c : String). not (is_contracted c)) finding_categories in
    let has_skill = not (is_empty_text skill) in
    or_match (first_that (clears skill) contracted) (
      if has_skill && any (refused_by skill) contracted
      then none
      else if not (is_empty contracted) && is_empty uncontracted
      then (if has_skill then none else first_that (bridges (file_signals file)) contracted)
      else legacy_match file (if is_empty contracted then finding_categories else uncontracted))
