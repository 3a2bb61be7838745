-- ===== src/ObjectTiming/Parse/Identity.antt =====
-- pkg/objecttiming: what an action is known by, and that the later writes to its record leave it.
use cnsbench.Prelude.{
  ℕ, zero, suc, ◌+◌, ◌++◌, String, Bool, true, false, Option, none, some, List, [], ◌∷◌, get, put,
  get_elem?, erase_at, set, count_if, ◌==◌, string_eq, ◌≡◌, refl, ap, arith, if◌then◌else◌,
}
use mathlib.Core.Option.{some-injective}
use cnsbench.ObjectTiming.Types.{Value, text, flag, labels, Dict, AuditLog}
use cnsbench.ObjectTiming.Parse.{Parsing, with_labels, with_volume, unfinished}
use cnsbench.ObjectTiming.Parse.Sound.{put-other}

-- The values with which an action begins.
abbrev pub identity : Dict → List (Option Value)
identity rec =
    get "action" rec
    ∷ get "name" rec
    ∷ get "resource" rec
    ∷ get "namespace" rec
    ∷ get "startTime" rec
    ∷ []

-- The number of the records, of ongoing actions and of results, whose identity passes a test.
abbrev pub among : (List (Option Value) → Bool) → Parsing → ℕ
among p st =
    count_if (λ rec. p (identity rec)) st.ongoing + count_if (λ rec. p (identity rec)) st.results

-- A key that is no part of the identity.
abbrev IsOutside : String → Type 0
IsOutside key =
    ((key == "action") ≡ false)
    × ((key == "name") ≡ false)
    × ((key == "resource") ≡ false)
    × ((key == "namespace") ≡ false)
    × ((key == "startTime") ≡ false)

pub identity-put :
    (key : String) (v : Value) (rec : Dict)
    → IsOutside key
    → identity (put key v rec) ≡ identity rec
identity-put key v rec (action, name, resource, namespace, start) =
    rw
      (
        put-other key "action" v rec action,
        put-other key "name" v rec name,
        put-other key "resource" v rec resource,
        put-other key "namespace" v rec namespace,
        put-other key "startTime" v rec start,
      )
      refl

pub identity-labels : (log : AuditLog) (rec : Dict) → identity (with_labels log rec) ≡ identity rec
identity-labels log rec = go log.response_object.labels
  where
    go :
        (ls : Option (List (String × String)))
        → identity (elim ls [ none ↦ rec | some l ↦ put "labels" (labels l) rec ]) ≡ identity rec
    go none = refl
    go (some l) = identity-put "labels" (labels l) rec (refl, refl, refl, refl, refl)

pub identity-volume : (log : AuditLog) (rec : Dict) → identity (with_volume log rec) ≡ identity rec
identity-volume log rec = go (log.object_ref.resource == "persistentvolumeclaims")
  where
    volume : Value
    volume = text log.response_object.spec.volume_name

    go : (b : Bool) → identity (if b then put "pvName" volume rec else rec) ≡ identity rec
    go true = identity-put "pvName" volume rec (refl, refl, refl, refl, refl)
    go false = refl

pub identity-unfinished : (rec : Dict) → identity (unfinished rec) ≡ identity rec
identity-unfinished rec = identity-put "unfinished" (flag true) rec (refl, refl, refl, refl, refl)

module _ (q : Dict → Bool) where
  pub count_if-append : (xs ys : List Dict) → count_if q (xs ++ ys) ≡ count_if q xs + count_if q ys
  count_if-append [] ys = ground arith
  count_if-append (x ∷ xs) ys = ground (arith, count_if-append xs ys)

  -- A record that is erased, and counted again elsewhere.
  pub count_if-erase_at :
      (xs : List Dict) (i : ℕ) (x y : Dict)
      → get_elem? xs i ≡ some x
      → q y ≡ q x
      → count_if q (erase_at xs i) + count_if q (y ∷ []) ≡ count_if q xs
  count_if-erase_at [] i x y e same = cc
  count_if-erase_at (z ∷ xs) zero x y e same = ground (arith, ap q (some-injective z x e), same)
  count_if-erase_at (z ∷ xs) (suc i) x y e same = ground (arith, count_if-erase_at xs i x y e same)

  pub count_if-set :
      (xs : List Dict) (i : ℕ) (x y : Dict)
      → get_elem? xs i ≡ some x
      → q y ≡ q x
      → count_if q (set xs i y) ≡ count_if q xs
  count_if-set [] i x y e same = cc
  count_if-set (z ∷ xs) zero x y e same = ground (arith, ap q (some-injective z x e), same)
  count_if-set (z ∷ xs) (suc i) x y e same = ground (arith, count_if-set xs i x y e same)
