-- ===== src/Pulls/Reasons.antt =====
-- `parse_reject_reason` of src/agentit/capability_scout.py: why a pull request was closed.
use Prim.Native.String.{len}
use Prim.Native.Nat.{zero, suc}
use Prim.Native.Char.{Char, code}
use text.Mathlib.Text.{starts_with}
use agent_it.Base.{
  ℕ, String, Bool, ◌&&◌, ◌||◌, Option, none, some, List, [], ◌∷◌, any, leb, ◌==◌, contains, lower,
  strip, join, first_some, if◌then◌else◌, ◌++ₛ◌,
}

abbrev reject_reason_prefix : String
reject_reason_prefix = "agentit:reject-reason:"

abbrev duplicate_reason_phrases : List String
duplicate_reason_phrases =
    "duplicates existing" ∷ "this duplicates" ∷ "already exists" ∷ "already has a"
    ∷ "already persists" ∷ "closing for the same reason as" ∷ "same underlying proposal"
    ∷ "redundant with" ∷ "capability already exists" ∷ []

abbrev wontfix_reason_phrases : List String
wontfix_reason_phrases = "won't fix" ∷ "wont fix" ∷ "not planned" ∷ "declining this" ∷ []

abbrev theater_reason_phrases : List String
theater_reason_phrases =
    "theater stub" ∷ "refuse theater" ∷ "catalog dump" ∷ "not helpful" ∷ "clear-evidence"
    ∷ "clear evidence" ∷ []

abbrev wrong_layer_reason_phrases : List String
wrong_layer_reason_phrases = "wrong layer" ∷ "wrong-layer" ∷ "wrong layer companion" ∷ []

unfoldable pub infer_reject_reason_from_text : String → String
infer_reject_reason_from_text text =
    let says = λ (phrases : List String). any (contains (lower text)) phrases in
    if says duplicate_reason_phrases
    then "duplicate"
    else if says theater_reason_phrases
    then "theater"
    else if says wrong_layer_reason_phrases
    then "wrong-layer"
    else if says wontfix_reason_phrases
    then "wontfix"
    else ""

-- where `str.splitlines` cuts
abbrev is_break : Char → Bool
is_break c =
    let n = code c in
    (leb 10 n && leb n 13) || (leb 28 n && leb n 30) || n == 133 || n == 8232 || n == 8233

abbrev onto_first : Char → List String → List String
onto_first c [] = String.◌∷◌ c String.[] ∷ []
onto_first c (line ∷ rest) = String.◌∷◌ c line ∷ rest

-- `text.splitlines()`, with an empty line more inside `\r\n` and at the end
splitlines : String → List String
splitlines String.[] = String.[] ∷ []
splitlines (String.◌∷◌ c s) =
    let rest = splitlines s in if is_break c then String.[] ∷ rest else onto_first c rest

-- `s[n:]`
abbrev pub drop_text : ℕ → String → String
drop_text zero s = s
drop_text (suc n) String.[] = String.[]
drop_text (suc n) (String.◌∷◌ c s) = drop_text n s

-- The reason behind the prefix, where the text has it.
abbrev given_reason : String → Option String
given_reason text =
    if starts_with (lower text) reject_reason_prefix
    then some (strip (drop_text (len reject_reason_prefix) text))
    else none

abbrev given_in_lines : String → Option String
given_in_lines text = first_some (λ (line : String). given_reason (strip line)) (splitlines text)

abbrev or_inferred : Option String → Option String → Option String → String → String
or_inferred (some reason) body comments text = reason
or_inferred none (some reason) comments text = reason
or_inferred none none (some reason) text = reason
or_inferred none none none text = infer_reject_reason_from_text text

unfoldable pub parse_reject_reason : List String → String → List String → String
unfolding splitlines infer_reject_reason_from_text
parse_reject_reason labels body comments =
    let comments_text = join "\n" comments in
    or_inferred (first_some given_reason labels) (given_in_lines body)
      (given_in_lines comments_text) (body ++ₛ "\n" ++ₛ comments_text)
