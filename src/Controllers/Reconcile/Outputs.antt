-- ===== src/Controllers/Reconcile/Outputs.antt =====
-- What addDefaultOutputs does to the outputs of a benchmark.
use cnsbench.Prelude.{
  String, Bool, true, false, List, [], ◌∷◌, ◌++◌, All, ◌≡◌, refl, sym, ap, ◌∙◌, arith, beq_refl,
  string_eq, append_assoc, append-nil, Bool-cases, inl, inr, ◌||◌,
}
use mathlib.Core.Bool.{false≢true}
use cnsbench.Api.{Benchmark, Output}
use cnsbench.Controllers.Reconcile.{
  has_output, default_output, add_outputs, add_default_outputs, default_endpoints,
}

abbrev pub HasOutput : List Output → String × String → Type 0
HasOutput outputs e = has_output e.0 outputs ≡ true

has_output-append :
    (name : String) (xs ys : List Output)
    → has_output name (xs ++ ys) ≡ (has_output name xs || has_output name ys)
has_output-append name [] ys = refl
has_output-append name (x ∷ xs) ys = ground (arith, has_output-append name xs ys)

has_default : (name endpoint : String) → has_output name (default_output name endpoint ∷ []) ≡ true
has_default name endpoint = ground (arith, beq_refl name)

or_true : (a b : Bool) → b ≡ true → (a || b) ≡ true
or_true a b h = ground arith

-- One round of the loop, by the test.
found_round :
    (name endpoint : String) (es : List (String × String)) (outputs : List Output) (changed : Bool)
    → has_output name outputs ≡ true
    → add_outputs ((name, endpoint) ∷ es) outputs changed ≡ add_outputs es outputs changed
unfolding add_outputs
found_round name endpoint es outputs changed h = rw (h, add_outputs) refl

missing_round :
    (name endpoint : String) (es : List (String × String)) (outputs : List Output) (changed : Bool)
    → has_output name outputs ≡ false
    → add_outputs ((name, endpoint) ∷ es) outputs changed
      ≡ add_outputs es (outputs ++ default_output name endpoint ∷ []) true
unfolding add_outputs
missing_round name endpoint es outputs changed h = rw (h, add_outputs) refl

-- The outputs that the loop adds stand behind those that were there.
added :
    (es : List (String × String)) (outputs : List Output) (changed : Bool)
    → (new : List Output) × ((add_outputs es outputs changed).0 ≡ outputs ++ new)
unfolding add_outputs
added [] outputs changed = ([], sym (append-nil outputs))
added ((name, endpoint) ∷ es) outputs changed = elim (Bool-cases (has_output name outputs)) [
  | inl found ↦
      let (new, eq) = added es outputs changed in
      (new, ap (λ r. r.0) (found_round name endpoint es outputs changed found) ∙ eq)
  | inr missing ↦
      let o = default_output name endpoint in
      let (new, eq) = added es (outputs ++ o ∷ []) true in
      (
        o ∷ new,
        ap (λ r. r.0) (missing_round name endpoint es outputs changed missing)
            ∙ eq
            ∙ append_assoc outputs (o ∷ []) new,
      )
]

kept :
    (name : String) (es : List (String × String)) (outputs : List Output) (changed : Bool)
    → has_output name outputs ≡ true
    → has_output name (add_outputs es outputs changed).0 ≡ true
kept name es outputs changed h =
    let (new, eq) = added es outputs changed in
    ap (has_output name) eq ∙ has_output-append name outputs new ∙ ground arith

added-HasOutput :
    (es : List (String × String)) (outputs : List Output) (changed : Bool)
    → All (HasOutput (add_outputs es outputs changed).0) es
unfolding add_outputs
added-HasOutput [] outputs changed = tt
added-HasOutput ((name, endpoint) ∷ es) outputs changed =
    elim (Bool-cases (has_output name outputs)) [
      | inl found ↦
          ground
            (arith, found, kept name es outputs changed found, added-HasOutput es outputs changed)
      | inr missing ↦
          let outputs' = outputs ++ default_output name endpoint ∷ [] in
          let here : has_output name outputs' ≡ true =
            has_output-append name outputs _ ∙ or_true _ _ (has_default name endpoint) in
          ground (arith, missing, kept name es outputs' true here, added-HasOutput es outputs' true)
    ]

nothing_to_add :
    (es : List (String × String)) (outputs : List Output) (changed : Bool)
    → All (HasOutput outputs) es
    → add_outputs es outputs changed ≡ (outputs, changed)
unfolding add_outputs
nothing_to_add [] outputs changed h = refl
nothing_to_add ((name, endpoint) ∷ es) outputs changed h =
    ground (arith, h.0, nothing_to_add es outputs changed h.1)

flag_stays :
    (es : List (String × String)) (outputs : List Output) → (add_outputs es outputs true).1 ≡ true
flag_stays [] outputs = unfold add_outputs in refl
flag_stays ((name, endpoint) ∷ es) outputs = elim (Bool-cases (has_output name outputs)) [
  | inl found ↦
      ap (λ r. r.1) (found_round name endpoint es outputs true found) ∙ flag_stays es outputs
  | inr missing ↦
      ap (λ r. r.1) (missing_round name endpoint es outputs true missing) ∙ flag_stays es _
]

-- The flag stays false only where every endpoint had its output.
unchanged :
    (es : List (String × String)) (outputs : List Output)
    → (add_outputs es outputs false).1 ≡ false
    → add_outputs es outputs false ≡ (outputs, false)
unchanged [] outputs h = unfold add_outputs in refl
unchanged ((name, endpoint) ∷ es) outputs h = elim (Bool-cases (has_output name outputs)) [
  | inl found ↦
      let round = found_round name endpoint es outputs false found in
      round ∙ unchanged es outputs (ap (λ r. r.1) (sym round) ∙ h)
  | inr missing ↦ absurd (
      false≢true (
        sym h
        ∙ ap (λ r. r.1) (missing_round name endpoint es outputs false missing)
        ∙ flag_stays es (outputs ++ default_output name endpoint ∷ [])))
]

abbrev with_outputs : Benchmark → List Output × Bool → Benchmark × Bool
with_outputs b r = (record b { spec = record (b.spec) { outputs = r.0 } }, r.1)

-- After addDefaultOutputs every default endpoint has an output, the outputs of the user stand
-- unchanged in front of the new ones, and a second run changes nothing and says so.
pub add_default_outputs-settles :
    (b : Benchmark)
    → All (HasOutput (add_default_outputs b).0.spec.outputs) default_endpoints
      × ((new : List Output) × ((add_default_outputs b).0.spec.outputs ≡ b.spec.outputs ++ new))
      × (add_default_outputs (add_default_outputs b).0 ≡ ((add_default_outputs b).0, false))
unfolding add_default_outputs
add_default_outputs-settles b =
    let after = (add_outputs default_endpoints b.spec.outputs false).0 in
    let found = added-HasOutput default_endpoints b.spec.outputs false in
    (
      found,
      added default_endpoints b.spec.outputs false,
      ap (with_outputs b) (nothing_to_add default_endpoints after false found),
    )

-- If addDefaultOutputs says that nothing changed then the benchmark is what it was.
pub add_default_outputs-unchanged :
    (b : Benchmark) → (add_default_outputs b).1 ≡ false → (add_default_outputs b).0 ≡ b
unfolding add_default_outputs
add_default_outputs-unchanged b h =
    ap (λ r. (with_outputs b r).0) (unchanged default_endpoints b.spec.outputs h)
