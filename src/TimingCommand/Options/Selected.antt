-- ===== src/TimingCommand/Options/Selected.antt =====
-- util/analysis/objecttiming/main.go: which flags a list of resources sets.
use Prim.Native.Nat.{bit_or}
use cnsbench.Prelude.{
  ℕ, String, Bool, true, false, List, [], ◌∷◌, All, any, Bool-cases, inl, inr, eq_iff, ◌==◌, ◌||◌,
  ◌&&◌, arith, nat_eq, string_eq, ◌≡◌, refl, sym, ap, ◌∙◌, subst, if◌then◌else◌,
}
use cnsbench.ObjectTiming.Parse.{has_flag, parse_create, parse_scale, parse_pvc_pod}
use cnsbench.TimingCommand.Options.{
  Selection, is_scalable, select_resource, select_resources, flags_of,
}

-- The resources whose creation is measured.
abbrev pub is_creatable : String → Bool
is_creatable r = r == "pod" || r == "pvc" || r == "pv"

-- The two flags as a number.
abbrev flags_with : Bool → Bool → ℕ
flags_with true true = 3
flags_with true false = 1
flags_with false true = 2
flags_with false false = 0

abbrev chosen : Bool → Bool → Bool → Bool → Selection
chosen create scale pod pvc = record { flags = flags_with create scale; pod = pod; pvc = pvc }

-- What one resource adds.
abbrev Adds : String → Type 0
Adds r =
    (c d p q : Bool)
    → select_resource r (chosen c d p q)
      ≡ chosen (c || is_creatable r) (d || is_scalable r) (p || r == "pod") (q || r == "pvc")

or_create : (c d : Bool) → bit_or (flags_with c d) 1 ≡ flags_with (c || true) (d || false)
or_create true true = refl
or_create true false = refl
or_create false true = refl
or_create false false = refl

or_scale : (c d : Bool) → bit_or (flags_with c d) 2 ≡ flags_with (c || false) (d || true)
or_scale true true = refl
or_scale true false = refl
or_scale false true = refl
or_scale false false = refl

or_false : (b : Bool) → (b || false) ≡ b
or_false b = ground arith

none_added : (c d : Bool) → flags_with c d ≡ flags_with (c || false) (d || false)
none_added c d = rw (or_false c, or_false d) refl

or_true : (b : Bool) → (b || true) ≡ true
or_true b = ground arith

abbrev selection : ℕ → Bool → Bool → Selection
selection n p q = record { flags = n; pod = p; pvc = q }

same_choice :
    {m n : ℕ} {p p' q q' : Bool} → m ≡ n → p ≡ p' → q ≡ q' → selection m p q ≡ selection n p' q'
same_choice e f g = cc

-- The resources that the loop knows.
abbrev named : List String
named = "pod" ∷ "pvc" ∷ "pv" ∷ "deployment" ∷ "job" ∷ "replicaset" ∷ "statefulset" ∷ []

named-Adds : All Adds named
unfolding select_resource
named-Adds = (
  (λ c d p q. same_choice (or_create c d) (sym (or_true p)) (sym (or_false q))),
  (
    (λ c d p q. same_choice (or_create c d) (sym (or_false p)) (sym (or_true q))),
    (
      (λ c d p q. same_choice (or_create c d) (sym (or_false p)) (sym (or_false q))),
      (
        (λ c d p q. same_choice (or_scale c d) (sym (or_false p)) (sym (or_false q))),
        (
          (λ c d p q. same_choice (or_scale c d) (sym (or_false p)) (sym (or_false q))),
          (
            (λ c d p q. same_choice (or_scale c d) (sym (or_false p)) (sym (or_false q))),
            ((λ c d p q. same_choice (or_scale c d) (sym (or_false p)) (sym (or_false q))), tt),
          ),
        ),
      ),
    ),
  ),
)

-- A resource is one of those that are named, or none of them.
named_or :
    (P : String → Type 0) (r : String) (names : List String)
    → All P names
    → (All (λ s. (r == s) ≡ false) names → P r)
    → P r
named_or P r [] ps other = other tt
named_or P r (s ∷ names) (p, ps) other = elim (Bool-cases (r == s)) [
  | inl same ↦ subst P (sym ((eq_iff r s).0 same)) p
  | inr differs ↦ named_or P r names ps (λ more. other (differs, more))
]

select_resource-Adds : (r : String) → Adds r
unfolding select_resource
select_resource-Adds r =
    named_or Adds r named named-Adds
      λ (pod, (pvc, (pv, (deployment, (job, (replicaset, (statefulset, _))))))) c d p q.
        rw (pod, pvc, pv, deployment, job, replicaset, statefulset)
          (same_choice (none_added c d) (sym (or_false p)) (sym (or_false q)))

or_assoc : (a b c : Bool) → ((a || b) || c) ≡ (a || (b || c))
or_assoc a b c = ground arith

same_chosen :
    {c c' d d' p p' q q' : Bool}
    → c ≡ c'
    → d ≡ d'
    → p ≡ p'
    → q ≡ q'
    → chosen c d p q ≡ chosen c' d' p' q'
same_chosen e f g h = cc

select_resources-eq :
    (rs : List String) (c d p q : Bool)
    → select_resources rs (chosen c d p q)
      ≡ chosen
          (c || any is_creatable rs)
          (d || any is_scalable rs)
          (p || any (λ r. r == "pod") rs)
          (q || any (λ r. r == "pvc") rs)
unfolding select_resources
select_resources-eq [] c d p q =
    same_chosen (sym (or_false c)) (sym (or_false d)) (sym (or_false p)) (sym (or_false q))
select_resources-eq (r ∷ rs) c d p q =
    ap (select_resources rs) (select_resource-Adds r c d p q)
    ∙ select_resources-eq rs (c || is_creatable r) (d || is_scalable r) (p || r == "pod")
        (q || r == "pvc")
    ∙ same_chosen (or_assoc c (is_creatable r) _) (or_assoc d (is_scalable r) _)
        (or_assoc p (r == "pod") _) (or_assoc q (r == "pvc") _)

-- The flags of a selection, with the one for pods and claims if both are there.
abbrev flags_with_both : Bool → Bool → Bool → ℕ
flags_with_both c d b = if b then bit_or (flags_with c d) parse_pvc_pod else flags_with c d

flags_with-has :
    (c d b : Bool)
    → (has_flag (flags_with_both c d b) parse_create ≡ c)
      × (has_flag (flags_with_both c d b) parse_scale ≡ d)
      × (has_flag (flags_with_both c d b) parse_pvc_pod ≡ b)
flags_with-has true true true = (refl, refl, refl)
flags_with-has true true false = (refl, refl, refl)
flags_with-has true false true = (refl, refl, refl)
flags_with-has true false false = (refl, refl, refl)
flags_with-has false true true = (refl, refl, refl)
flags_with-has false true false = (refl, refl, refl)
flags_with-has false false true = (refl, refl, refl)
flags_with-has false false false = (refl, refl, refl)

-- Of the flags for a list of resources the one for creations is set exactly if pod, pvc or pv
-- is listed, the one for scalings exactly if deployment, job, replicaset or statefulset is,
-- and the one for pods and claims exactly if both pod and pvc are.
pub flags_of-has :
    (rs : List String)
    → (has_flag (flags_of rs) parse_create ≡ any is_creatable rs)
      × (has_flag (flags_of rs) parse_scale ≡ any is_scalable rs)
      × (has_flag (flags_of rs) parse_pvc_pod
          ≡ (any (λ r. r == "pod") rs && any (λ r. r == "pvc") rs))
unfolding flags_of
flags_of-has rs =
    let flags : flags_of rs
        ≡ flags_with_both (any is_creatable rs) (any is_scalable rs)
            (any (λ r. r == "pod") rs && any (λ r. r == "pvc") rs) =
      ap (λ s. if s.pod && s.pvc then bit_or s.flags parse_pvc_pod else s.flags)
        (select_resources-eq rs false false false false) in
    let (c, d, b) =
      flags_with-has (any is_creatable rs) (any is_scalable rs)
        (any (λ r. r == "pod") rs && any (λ r. r == "pvc") rs) in
    (
      ap (λ n. has_flag n parse_create) flags ∙ c,
      ap (λ n. has_flag n parse_scale) flags ∙ d,
      ap (λ n. has_flag n parse_pvc_pod) flags ∙ b,
    )
