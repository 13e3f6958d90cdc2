-- ===== src/Base/Texts.antt =====
-- Texts are native strings. Case mapping and blanks follow Python's `str.lower` and `str.strip`
-- (`lower` on ASCII letters; all other characters stay).
use Prim.Native.Nat.{ℕ, zero, suc, ◌+◌, ◌/◌, ◌%◌, ◌<◌}
use Prim.Native.Char.{Char, char, code, IsScalar}
use Prim.Native.String.append
use mathlib.Core.Path.{◌≡◌}
use Prim.Native.String.{String, find, len, char_at, ◌++◌ as append}
use mathlib.Core.Bool.{Bool, true, false, ◌&&◌, ◌||◌}
use mathlib.Core.List.{List, [], ◌∷◌}
use native.Mathlib.Omega.{arith}
use native.Mathlib.Decide.{dec_lt}
use agent_it.Base.Tests.{ltb, leb, ◌==◌, if◌then◌else◌}

pub IsScalar-small : (n : ℕ) → n < 55296 → IsScalar n
IsScalar-small n h = ground arith

-- `A` to `Z` become `a` to `z`.
abbrev pub lower_below : (c : Char) → 64 < code c → Dec (code c < 91) → Char
lower_below c above (yes below) = char (code c + 32) (IsScalar-small (code c + 32) (omega arith))
lower_below c above (no _) = c

abbrev pub lower_at : (c : Char) → Dec (64 < code c) → Char
lower_at c (yes above) = lower_below c above (dec_lt (code c) 91)
lower_at c (no _) = c

unfoldable pub lower_char : Char → Char
unfolding dec_lt
lower_char c = lower_at c (dec_lt 64 (code c))

-- `s.lower()`
unfoldable pub lower : String → String
unfolding lower_char
lower String.[] = String.[]
lower (String.◌∷◌ c s) = String.◌∷◌ (lower_char c) (lower s)

-- `s.replace(a, b)` for single characters
unfoldable pub replace_char : Char → Char → String → String
replace_char a b String.[] = String.[]
replace_char a b (String.◌∷◌ c s) =
    String.◌∷◌ (if code c == code a then b else c) (replace_char a b s)

-- what `str.strip` removes
unfoldable pub is_space : Char → Bool
is_space c =
    let n = code c in
    (leb 9 n && leb n 13)
    || (leb 28 n && leb n 32)
    || (n == 133)
    || (n == 160)
    || (n == 5760)
    || (leb 8192 n && leb n 8202)
    || (n == 8232)
    || (n == 8233)
    || (n == 8239)
    || (n == 8287)
    || (n == 12288)

-- `not s`
abbrev pub is_empty_text : String → Bool
is_empty_text String.[] = true
is_empty_text (String.◌∷◌ c s) = false

-- `not s.strip()`
unfoldable pub is_blank : String → Bool
unfolding is_space
is_blank String.[] = true
is_blank (String.◌∷◌ c s) = is_space c && is_blank s

-- `s[:n]`
unfoldable pub prefix : ℕ → String → String
prefix zero s = ""
prefix (suc n) String.[] = ""
prefix (suc n) (String.◌∷◌ c s) = String.◌∷◌ c (prefix n s)

unfoldable pub trim_left : String → String
unfolding is_space
trim_left String.[] = String.[]
trim_left (String.◌∷◌ c s) = if is_space c then trim_left s else String.◌∷◌ c s

unfoldable pub trim_right : String → String
unfolding is_space
trim_right String.[] = String.[]
trim_right (String.◌∷◌ c s) =
    let rest = trim_right s in
    if is_space c && is_empty_text rest then String.[] else String.◌∷◌ c rest

-- `s.strip()`
unfoldable pub strip : String → String
unfolding trim_left trim_right
strip s = trim_right (trim_left s)

-- `s.split(sep, 1)[0]`
unfoldable pub before : String → String → String
unfolding prefix
before sep s = prefix (find s sep) s

-- `t in s`
unfoldable pub contains : String → String → Bool
contains s t = ltb (find s t) (suc (len s))

infixr 65 ◌++ₛ◌
abbrev pub ◌++ₛ◌ : String → String → String
s ++ₛ t = append s t

pub append-not-empty : (s t : String) → is_empty_text s ≡ false → is_empty_text (s ++ₛ t) ≡ false
append-not-empty String.[] t h = cc
append-not-empty (String.◌∷◌ c s) t h = rw append.cons

-- `sep.join(parts)`
unfoldable pub join : String → List String → String
join sep [] = ""
join sep (s ∷ []) = s
join sep (s ∷ t ∷ rest) = s ++ₛ sep ++ₛ join sep (t ∷ rest)

-- `str(n)`, by fuel for the digits
show_from : ℕ → ℕ → String → String
show_from zero n tail = tail
show_from (suc fuel) n tail =
    let digit = char_at "0123456789" (n % 10) in
    let more = show_from fuel (n / 10) (String.◌∷◌ digit tail) in
    if ltb n 10 then String.◌∷◌ digit tail else more

unfoldable pub show : ℕ → String
unfolding show_from
show n = show_from (suc n) n ""

-- a letter of the class `[a-z0-9-]`
unfoldable pub is_slug_char : Char → Bool
is_slug_char c = let n = code c in (leb 97 n && leb n 122) || (leb 48 n && leb n 57) || n == 45

-- `re.sub(r"[^a-z0-9-]+", "-", s)`; the flag says that the character before was replaced
unfoldable pub slug_from : Bool → String → String
unfolding is_slug_char
slug_from replaced String.[] = String.[]
slug_from replaced (String.◌∷◌ c s) =
    let kept = String.◌∷◌ c (slug_from false s) in
    let begun = String.◌∷◌ "-" (slug_from true s) in
    let inside = slug_from true s in
    if is_slug_char c then kept else if replaced then inside else begun

abbrev pub is_dash : Char → Bool
is_dash c = code c == 45

-- `s.strip("-")`
unfoldable pub strip_left : String → String
strip_left String.[] = String.[]
strip_left (String.◌∷◌ c s) = if is_dash c then strip_left s else String.◌∷◌ c s

unfoldable pub strip_right : String → String
strip_right String.[] = String.[]
strip_right (String.◌∷◌ c s) =
    let rest = strip_right s in
    if is_dash c && is_empty_text rest then String.[] else String.◌∷◌ c rest

-- `re.sub(r"[^a-z0-9-]+", "-", s.lower()).strip("-")`
unfoldable pub slug : String → String
unfolding lower slug_from strip_left strip_right
slug s = strip_right (strip_left (slug_from false (lower s)))
