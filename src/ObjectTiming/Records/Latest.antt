-- ===== src/ObjectTiming/Records/Latest.antt =====
-- pkg/objecttiming/helpers.go: the record that the search of findLog picks.
use cnsbench.Prelude.{
  ℕ, zero, suc, ◌<◌, String, Bool, true, false, none, some, List, length, get_elem?, ◌≡◌, refl, sym,
  ap, ◌∙◌, ◌↔◌, ◌⊎◌, inl, inr, subst, arith, Bool-cases, Option-cases, if◌then◌else◌,
}
use cnsbench.ObjectTiming.Types.{Dict}
use cnsbench.ObjectTiming.Records.{is_record_of, is_open, search_from, find_log}

-- Among the records below `n`, `i` is the last one that matches, and it has no end time.
pub record IsLatestBelow (n : ℕ) (matches : Dict → Bool) (records : List Dict) (i : ℕ)
    : Type 0 where
  pub below : i < n
  pub found :
      (rec : Dict) × (get_elem? records i ≡ some rec) × (matches rec ≡ true) × (is_open rec ≡ true)
  pub last :
      (j : ℕ) → i < j → j < n → (rec : Dict) → get_elem? records j ≡ some rec → matches rec ≡ false

abbrev pub IsLatest : (Dict → Bool) → List Dict → ℕ → Type 0
IsLatest matches records = IsLatestBelow (length records) matches records

below-cases : (j n : ℕ) → j < suc n → (j < n) ⊎ (j ≡ n)
below-cases j n h = ground arith

module _ (matches : Dict → Bool) (records : List Dict) where
  grow :
      (n i : ℕ)
      → IsLatestBelow n matches records i
      → ((rec : Dict) → get_elem? records n ≡ some rec → matches rec ≡ false)
      → IsLatestBelow (suc n) matches records i
  grow n i h other = record {
    below = omega (arith, h.below);
    found = h.found;
    last = λ j above below rec e. elim (below-cases j n below) [
      | inl b ↦ h.last j above b rec e
      | inr same ↦ other rec (ap (get_elem? records) (sym same) ∙ e)
    ];
  }

  shrink :
      (n i : ℕ)
      → IsLatestBelow (suc n) matches records i
      → i < n
      → IsLatestBelow n matches records i
  shrink n i h b = record {
    below = b;
    found = h.found;
    last = λ j above below rec e. h.last j above (omega (arith, below)) rec e;
  }

  search_from-skip :
      (n : ℕ)
      → ((rec : Dict) → get_elem? records n ≡ some rec → matches rec ≡ false)
      → search_from matches records (suc n) ≡ search_from matches records n
  unfolding search_from
  search_from-skip n other = elim (Option-cases (get_elem? records n)) [
    | inl e ↦ rw (search_from, e) refl
    | inr (rec, e) ↦ rw (search_from, e, other rec e) refl
  ]

  matches-cases :
      (n : ℕ)
      → ((rec : Dict) → get_elem? records n ≡ some rec → matches rec ≡ false)
        ⊎ ((rec : Dict) × (get_elem? records n ≡ some rec) × (matches rec ≡ true))
  matches-cases n = elim (Option-cases (get_elem? records n)) [
    | inl e ↦ inl (λ rec h. cc)
    | inr (r, e) ↦ elim (Bool-cases (matches r)) [
      | inl hit ↦ inr (r, e, hit)
      | inr miss ↦ inl (λ rec h. ap matches (cc) ∙ miss)
    ]
  ]

  -- A matching record ends the search.
  pub search_from-stop :
      (n : ℕ) (rec : Dict)
      → get_elem? records n ≡ some rec
      → matches rec ≡ true
      → search_from matches records (suc n) ≡ (if is_open rec then some n else none)
  unfolding search_from
  search_from-stop n rec e hit = rw (search_from, e, hit) refl

  if_open-inv : (b : Bool) (n i : ℕ) → (if b then some n else none) ≡ some i → (b ≡ true) × (n ≡ i)
  if_open-inv b n i h = ground arith

  search_from-IsLatest :
      (n i : ℕ) → search_from matches records n ≡ some i → IsLatestBelow n matches records i
  unfolding search_from
  search_from-IsLatest zero i h = cc
  search_from-IsLatest (suc n) i h = elim (matches-cases n) [
    | inl other ↦ grow n i (search_from-IsLatest n i (sym (search_from-skip n other) ∙ h)) other
    | inr (rec, e, hit) ↦
        let (opened, same) =
          if_open-inv (is_open rec) n i (sym (search_from-stop n rec e hit) ∙ h) in
        subst (IsLatestBelow (suc n) matches records) same (record {
          below = omega arith;
          found = (rec, e, hit, opened);
          last = λ j above below. absurd (omega (arith, above, below));
        })
  ]

  IsLatest-search_from :
      (n i : ℕ) → IsLatestBelow n matches records i → search_from matches records n ≡ some i
  IsLatest-search_from zero i h = absurd (omega (arith, h.below))
  IsLatest-search_from (suc n) i h = elim (below-cases i n h.below) [
    | inl b ↦
        search_from-skip n (h.last n b (omega arith)) ∙ IsLatest-search_from n i (shrink n i h b)
    | inr same ↦
        let (rec, e, hit, opened) = h.found in
        search_from-stop n rec (ap (get_elem? records) (sym same) ∙ e) hit
        ∙ ap (λ b. if b then some n else none) opened
        ∙ ap some (sym same)
  ]

-- findLog returns an index exactly if the record there is of the action on the object and has
-- no end time, and no later record is of the action on the object.
pub find_log_iff :
    (action name resource namespace : String) (all : List Dict) (i : ℕ)
    → (find_log action name resource namespace all ≡ some i)
      ↔ IsLatest (is_record_of action name resource namespace) all i
unfolding find_log
find_log_iff action name resource namespace all i =
    let matches = is_record_of action name resource namespace in
    (
      search_from-IsLatest matches all (length all) i,
      IsLatest-search_from matches all (length all) i,
    )
