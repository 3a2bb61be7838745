-- ===== src/Controllers/Actions/Oldest.antt =====
-- Which object DeleteObj deletes.
use cnsbench.Prelude.{
  ℕ, ◌≤◌, List, [], ◌∷◌, All, ◌≡◌, refl, ◌∙◌, arith, leb, Bool-cases, inl, inr, ◌⊎◌,
}
use cnsbench.Exec.{returned, lift, ◌>>=◌}
use cnsbench.Api.{unix, Delete}
use cnsbench.Kube.{Unstructured}
use cnsbench.Env.{Env, Reconciler, deleted, request, call}
use cnsbench.Controllers.Actions.{older, oldest, delete_first, delete_obj}

abbrev pub age : Unstructured → ℕ
age a = unix a.creation_timestamp

abbrev pub In : Unstructured → List Unstructured → Type 0
In x [] = ⊥
In x (a ∷ xs) = (x ≡ a) ⊎ In x xs

older-first : (a b : Unstructured) → (age (older a b) ≤ age a) × (age (older a b) ≤ age b)
unfolding older
older-first a b = ground arith

weaken :
    (m n : ℕ) (items : List Unstructured)
    → m ≤ n
    → All (λ x. n ≤ age x) items
    → All (λ x. m ≤ age x) items
weaken m n [] h all = tt
weaken m n (x ∷ items) h all = (omega (arith, all.0), weaken m n items h all.1)

oldest-least :
    (a : Unstructured) (items : List Unstructured)
    → All (λ x. age (oldest a items) ≤ age x) (a ∷ items)
unfolding oldest
oldest-least a [] = ground arith
oldest-least a (b ∷ items) =
    let (first, rest) = oldest-least (older a b) items in
    let (left, right) = older-first a b in (omega arith, (omega arith, rest))

either-older : (a b : Unstructured) → (older a b ≡ a) ⊎ (older a b ≡ b)
unfolding older
either-older a b = elim (Bool-cases (leb (age a) (age b))) [
  | inl first ↦ inl (rw (first, older) refl)
  | inr second ↦ inr (rw (second, older) refl)
]

oldest-In : (a : Unstructured) (items : List Unstructured) → In (oldest a items) (a ∷ items)
unfolding oldest
oldest-In a [] = inl refl
oldest-In a (b ∷ items) = elim (oldest-In (older a b) items) [
  | inl same ↦ elim (either-older a b) [ inl e ↦ inl (same ∙ e) | inr e ↦ inr (inl (same ∙ e)) ]
  | inr later ↦ inr (inr later)
]

-- If the selector is valid and the list request answers with at least one object, then DeleteObj
-- makes one request, the deletion of an object of that list that is as old as every object of it.
pub delete_obj-oldest :
    (env : Env) (d : Delete) (s : Reconciler env.World) (sel : env.Selector) (a : Unstructured)
    (items : List Unstructured) (w : env.World)
    → env.as_selector d.selector ≡ returned sel
    → env.list_unstructured d.api_version d.kind sel s.world ≡ (returned (a ∷ items), w)
    → (item : Unstructured) × ((delete_obj env d s).1.calls ≡ deleted item.name ∷ s.calls)
      × In item (a ∷ items)
      × All (λ x. age item ≤ age x) (a ∷ items)
unfolding delete_obj delete_first lift request call ◌>>=◌
delete_obj-oldest env d s sel a items w hs hl =
    (oldest a items, simp (hs, hl), oldest-In a items, oldest-least a items)
