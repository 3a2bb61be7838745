-- ===== src/ObjectTiming/Pods/Quotes.antt =====
-- pkg/objecttiming/pvcpod.go: the name of the volume is read from between the quotes of a message.
use Prim.Native.Char.{Char, code}
use Prim.Native.String
use text.Mathlib.TextLemmas.{nil-append, cons-append}
use cnsbench.Prelude.{
  String, Bool, true, false, none, some, ◌⧺◌, ◌==◌, nat_eq, ◌≡◌, refl, ap, ◌∙◌, ◌&&◌, not, arith,
}
use cnsbench.ObjectTiming.Pods.{before_quote, quoted}

-- A text without a quote.
unfoldable pub is_plain : String → Bool
is_plain String.[] = true
is_plain (String.◌∷◌ c s) = not (code c == b'"') && is_plain s

and-true : (a b : Bool) → (not a && b) ≡ true → (a ≡ false) × (b ≡ true)
and-true a b h = ground arith

is_plain-cons :
    (c : Char) (s : String)
    → is_plain (String.◌∷◌ c s) ≡ true
    → ((code c == b'"') ≡ false) × (is_plain s ≡ true)
unfolding is_plain
is_plain-cons c s h = and-true (code c == b'"') (is_plain s) h

before_quote-cons :
    (c : Char) (s t : String)
    → (code c == b'"') ≡ false
    → before_quote s ≡ some t
    → before_quote (String.◌∷◌ c s) ≡ some (String.◌∷◌ c t)
unfolding before_quote
before_quote-cons c s t h e = rw (before_quote, h, e) refl

before_quote-start : (rest : String) → before_quote ("\"" ⧺ rest) ≡ some ""
unfolding before_quote
before_quote-start rest = ap before_quote (cons-append (String.char_at "\"" 0) "" rest)

before_quote-append :
    (name rest : String) → is_plain name ≡ true → before_quote (name ⧺ ("\"" ⧺ rest)) ≡ some name
before_quote-append String.[] rest h =
    ap before_quote (nil-append ("\"" ⧺ rest)) ∙ before_quote-start rest
before_quote-append (String.◌∷◌ c s) rest h =
    let (other, plain) = is_plain-cons c s h in
    ap before_quote (cons-append c s ("\"" ⧺ rest))
    ∙ before_quote-cons c _ s other (before_quote-append s rest plain)

quoted-start :
    (name rest : String) → is_plain name ≡ true → quoted ("\"" ⧺ (name ⧺ ("\"" ⧺ rest))) ≡ name
unfolding quoted
quoted-start name rest h =
    ap quoted (cons-append (String.char_at "\"" 0) "" (name ⧺ ("\"" ⧺ rest)))
    ∙ ap (λ t. elim (before_quote t) as (λ _. String) [ none ↦ "" | some u ↦ u ])
        (nil-append (name ⧺ ("\"" ⧺ rest)))
    ∙ ap (λ o. elim o as (λ _. String) [ none ↦ "" | some u ↦ u ]) (before_quote-append name rest h)

quoted-cons :
    (c : Char) (s : String) → (code c == b'"') ≡ false → quoted (String.◌∷◌ c s) ≡ quoted s
unfolding quoted
quoted-cons c s h = rw (quoted, h) refl

-- From a message in which a name without quotes stands between two quotes, after a text
-- without quotes, the name is read, whatever follows.
pub quoted-append :
    (front name rest : String)
    → is_plain front ≡ true
    → is_plain name ≡ true
    → quoted (front ⧺ ("\"" ⧺ (name ⧺ ("\"" ⧺ rest)))) ≡ name
quoted-append String.[] name rest h k =
    ap quoted (nil-append ("\"" ⧺ (name ⧺ ("\"" ⧺ rest)))) ∙ quoted-start name rest k
quoted-append (String.◌∷◌ c s) name rest h k =
    let (other, plain) = is_plain-cons c s h in
    ap quoted (cons-append c s _) ∙ quoted-cons c _ other ∙ quoted-append s name rest plain k
