-- ===== src/Tracing/Calls/Paths.antt =====
-- util/analysis/csi-tracing/grpc.go: the path of a call is taken apart into its service and its name.
use Prim.Native.Char.{code}
use Prim.Native.String
use text.Mathlib.TextLemmas.{nil-append, cons-append}
use cnsbench.Prelude.{
  ℕ, suc, String, Bool, true, false, none, some, ◌⧺◌, ◌==◌, nat_eq, ◌≡◌, refl, ap, ◌∙◌, ◌&&◌, not,
  arith,
}
use cnsbench.Exec.{ok}
use cnsbench.Tracing.Calls.{drop_text, split_last, parse_rpc_path}

-- A text without a slash.
unfoldable pub has_no_slash : String → Bool
has_no_slash String.[] = true
has_no_slash (String.◌∷◌ c s) = not (code c == b'/') && has_no_slash s

and-true : (a b : Bool) → (not a && b) ≡ true → (a ≡ false) × (b ≡ true)
and-true a b h = ground arith

split_last-none : (s : String) → has_no_slash s ≡ true → split_last s ≡ none
unfolding split_last has_no_slash
split_last-none String.[] h = refl
split_last-none (String.◌∷◌ c s) h =
    let (other, plain) = and-true (code c == b'/') (has_no_slash s) h in
    rw (split_last, split_last-none s plain, other) refl

split_last-slash : (s : String) → has_no_slash s ≡ true → split_last ("/" ⧺ s) ≡ some ("", s)
unfolding split_last
split_last-slash s h =
    ap split_last (cons-append (String.char_at "/" 0) "" s)
    ∙ rw (nil-append s, split_last-none s h) refl

pub split_last-append :
    (front back : String)
    → has_no_slash back ≡ true
    → split_last (front ⧺ ("/" ⧺ back)) ≡ some (front, back)
unfolding split_last
split_last-append String.[] back h =
    ap split_last (nil-append ("/" ⧺ back)) ∙ split_last-slash back h
split_last-append (String.◌∷◌ c s) back h =
    ap split_last (cons-append c s ("/" ⧺ back)) ∙ rw (split_last, split_last-append s back h) refl

characters : String → ℕ
characters String.[] = 0
characters (String.◌∷◌ c s) = suc (characters s)

drop_text-append : (front rest : String) → drop_text (characters front) (front ⧺ rest) ≡ some rest
unfolding drop_text characters
drop_text-append String.[] rest = ap some (nil-append rest)
drop_text-append (String.◌∷◌ c s) rest =
    ap (drop_text (suc (characters s))) (cons-append c s rest) ∙ drop_text-append s rest

drop_text-prefix : (rest : String) → drop_text 8 ("/csi.v1." ⧺ rest) ≡ some rest
unfolding characters
drop_text-prefix rest = drop_text-append "/csi.v1." rest

pub parse_rpc_path-append :
    (service rpc : String)
    → has_no_slash rpc ≡ true
    → parse_rpc_path ("/csi.v1." ⧺ (service ⧺ ("/" ⧺ rpc))) ≡ ok (service, rpc)
unfolding parse_rpc_path
parse_rpc_path-append service rpc h =
    rw (drop_text-prefix (service ⧺ ("/" ⧺ rpc)), split_last-append service rpc h) refl
