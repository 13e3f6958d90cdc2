-- ===== src/Registry/Category.antt =====
-- `_normalize` of remediation/registry.py, which is `normalize_category` of portal/quality_prs.py.
use agent_it.Base.{
  ◌≤◌, ◌<◌, String, Char, code, ◌≡◌, refl, ◌⊎◌, inl, inr, arith, lower_char, lower_at, lower_below,
  lower, replace_char, ◌==◌, if◌then◌else◌, ◌≢◌, Bool, true, false, Bool-cases, ==→eq,
}
use mathlib.Core.Path.{ap₂}
use native.Mathlib.Decide.{dec_lt}

unfoldable pub normalize : String → String
unfolding lower replace_char
normalize category = replace_char "-" "_" (replace_char " " "_" (lower category))

-- A character that `normalize` leaves as it is.
record IsNormal (c : Char) : Type 0 where
  not_upper : (code c ≤ 64) ⊎ (91 ≤ code c)
  not_blank : code c ≢ 32
  not_dash : code c ≢ 45

-- One character of `replace_char`.
swap : Char → Char → Char → Char
swap a b c = if code c == code a then b else c

code-if : (t : Bool) (x y : Char) → code (if t then x else y) ≡ (if t then code x else code y)
code-if true x y = refl
code-if false x y = refl

code-swap : (a b c : Char) → code (swap a b c) ≡ (if code c == code a then code b else code c)
unfolding swap
code-swap a b c = code-if (code c == code a) b c

swap-eq : (a b c : Char) → code c ≢ code a → swap a b c ≡ c
unfolding swap
swap-eq a b c h = elim (Bool-cases (code c == code a)) [
  | inl e ↦ absurd (h (==→eq _ _ e))
  | inr e ↦ rw e
]

abbrev normal_char : Char → Char
normal_char c = swap "-" "_" (swap " " "_" (lower_char c))

lower_below_range :
    (c : Char) (above : 64 < code c) (d : Dec (code c < 91)) → 91 ≤ code (lower_below c above d)
lower_below_range c above (yes below) = omega arith
lower_below_range c above (no over) = omega arith

lower_at_range :
    (c : Char) (d : Dec (64 < code c)) → (code (lower_at c d) ≤ 64) ⊎ (91 ≤ code (lower_at c d))
lower_at_range c (yes above) = inr (lower_below_range c above (dec_lt (code c) 91))
lower_at_range c (no under) = inl (omega arith)

lower_char_range : (c : Char) → (code (lower_char c) ≤ 64) ⊎ (91 ≤ code (lower_char c))
unfolding lower_char
lower_char_range c = lower_at_range c (dec_lt 64 (code c))

lower_below-eq :
    (c : Char) (above : 64 < code c) (d : Dec (code c < 91))
    → 91 ≤ code c
    → lower_below c above d ≡ c
lower_below-eq c above (yes below) h = absurd (omega arith)
lower_below-eq c above (no over) h = refl

lower_at-eq : (c : Char) (d : Dec (64 < code c)) → (code c ≤ 64) ⊎ (91 ≤ code c) → lower_at c d ≡ c
lower_at-eq c (yes above) h = lower_below-eq c above (dec_lt (code c) 91) (omega arith)
lower_at-eq c (no under) h = refl

IsNormal-normal_char : (c : Char) → IsNormal (normal_char c)
IsNormal-normal_char c = ground (
  arith,
  lower_char_range c,
  code-swap " " "_" (lower_char c),
  code-swap "-" "_" (swap " " "_" (lower_char c)),
)

lower_char-eq : (c : Char) → (code c ≤ 64) ⊎ (91 ≤ code c) → lower_char c ≡ c
unfolding lower_char
lower_char-eq c h = lower_at-eq c (dec_lt 64 (code c)) h

normal_char-eq : (c : Char) → IsNormal c → normal_char c ≡ c
normal_char-eq c n =
    rw (lower_char-eq c n.not_upper)
      (rw (swap-eq " " "_" c n.not_blank) (swap-eq "-" "_" c n.not_dash))

normalize-cons :
    (c : Char) (s : String) → normalize (String.◌∷◌ c s) ≡ String.◌∷◌ (normal_char c) (normalize s)
unfolding normalize swap
normalize-cons c s = refl

-- A normalized category is its own key.
pub normalize_idem : (s : String) → normalize (normalize s) ≡ normalize s
normalize_idem String.[] = unfold normalize in refl
normalize_idem (String.◌∷◌ c s) = rw normalize-cons (
    rw normalize-cons
      (ap₂ String.◌∷◌ (normal_char-eq (normal_char c) (IsNormal-normal_char c)) (normalize_idem s)))
