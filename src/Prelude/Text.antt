-- ===== src/Prelude/Text.antt =====
-- The functions of Go's `strings` and `strconv` that the program calls, on native texts.
use Prim.Native.Nat.{ℕ, zero, suc, ◌-◌, ◌/◌, ◌%◌}
use Prim.Native.Char.{Char, code}
use Prim.Native.String
use Prim.Native.String.{String}
use mathlib.Core.Bool.{Bool, true, false, ◌&&◌, ◌||◌}
use mathlib.Core.Path.{◌≡◌, refl}
use mathlib.Core.List.{List}
use cnsbench.Prelude.Tests.{◌==◌, nat_eq, string_eq, ltb, leb, if◌then◌else◌}
use cnsbench.Prelude.Int.{ℤ, pos, negsuc}

infixr 65 ◌⧺◌
abbrev pub ◌⧺◌ : String → String → String
s ⧺ t = String.◌++◌ s t

-- strings.HasPrefix(s, p)
unfoldable pub has_prefix : String → String → Bool
has_prefix String.[] s = true
has_prefix (String.◌∷◌ d p) String.[] = false
has_prefix (String.◌∷◌ d p) (String.◌∷◌ c s) = code c == code d && has_prefix p s

-- strings.Contains(s, sub)
unfoldable pub contains_text : String → String → Bool
unfolding has_prefix
contains_text String.[] sub = has_prefix sub String.[]
contains_text (String.◌∷◌ c s) sub = has_prefix sub (String.◌∷◌ c s) || contains_text s sub

-- The scan of `replace_all`, which drops `skip` characters of a match that it has replaced.
replace_from : ℕ → String → String → String → String
replace_from skip old new String.[] = String.[]
replace_from (suc skip) old new (String.◌∷◌ c s) = replace_from skip old new s
replace_from zero old new (String.◌∷◌ c s) = elim (has_prefix old (String.◌∷◌ c s)) [
  | true ↦ new ⧺ replace_from (String.count old - 1) old new s
  | false ↦ String.◌∷◌ c (replace_from zero old new s)
]

-- strings.ReplaceAll(s, old, new), for a text `old` that is not empty.
unfoldable pub replace_all : String → String → String → String
unfolding replace_from has_prefix
replace_all s old new = replace_from 0 old new s

upper_char : Char → Char
upper_char c =
    if leb b'a' (code c) && leb (code c) b'z'
    then String.char_at "ABCDEFGHIJKLMNOPQRSTUVWXYZ" (code c - b'a')
    else c

-- strings.ToUpper(s), for the letters of ASCII.
unfoldable pub to_upper : String → String
unfolding upper_char
to_upper String.[] = String.[]
to_upper (String.◌∷◌ c s) = String.◌∷◌ (upper_char c) (to_upper s)

-- The digits of `n` before `acc`; a number has at most `n + 1` digits, so fuel `n + 1` is enough.
digits_before : ℕ → ℕ → String → String
digits_before zero n acc = acc
digits_before (suc fuel) n acc =
    let acc' = String.◌∷◌ (String.char_at "0123456789" (n % 10)) acc in
    let rest = digits_before fuel (n / 10) acc' in if n / 10 == 0 then acc' else rest

-- strconv.Itoa(n)
unfoldable pub itoa : ℤ → String
unfolding digits_before
itoa (pos n) = digits_before (suc n) n ""
itoa (negsuc n) = "-" ⧺ digits_before (suc (suc n)) (suc n) ""

split_from : ℕ → ℕ → String → String → List String
split_from n sep part String.[] = List.◌∷◌ part List.[]
split_from n sep part (String.◌∷◌ c s) = elim (code c == sep && ltb 1 n) [
  | true ↦ List.◌∷◌ part (split_from (n - 1) sep "" s)
  | false ↦ split_from n sep (part ⧺ String.◌∷◌ c "") s
]

-- strings.SplitN(s, sep, n), for a separator of one character and n > 0.
unfoldable pub split_n : String → ℕ → ℕ → List String
unfolding split_from
split_n s sep n = split_from n sep "" s

-- strconv.ParseBool(s), with an error read as false.
unfoldable pub parse_bool : String → Bool
parse_bool s = s == "1" || s == "t" || s == "T" || s == "TRUE" || s == "true" || s == "True"

itoa_test : itoa (negsuc 41) ≡ "-42"
unfolding itoa
itoa_test = refl

replace_test : replace_all "{{A}}-{{A}}{" "{{A}}" "xy" ≡ "xy-xy{"
unfolding replace_all
replace_test = refl

split_test :
    split_n "cnsbench.default.a.b" b'.' 3
    ≡ List.◌∷◌ "cnsbench" (List.◌∷◌ "default" (List.◌∷◌ "a.b" List.[]))
unfolding split_n
split_test = refl
