-- ===== src/Utils/Laws.antt =====
-- What `remove` does to a slice that holds the text at most once.
use cnsbench.Prelude.{
  ℕ, zero, suc, ◌-◌, ◌≤◌, String, ◌≡◌, refl, ap, ◌∙◌, Bool, true, false, Option, none, some, List,
  [], ◌∷◌, ◌++◌, length, take, drop, get_elem?, count_if, ◌==◌, string_eq, if◌then◌else◌, arith,
  beq_refl, eq_iff, not, Bool-cases, Option-cases, inl, inr,
}
use cnsbench.Utils.{contains, Slice, cut, remove_round, remove_loop, remove}

-- The list with every occurrence of `s` left out.
unfoldable pub without : String → List String → List String
without s [] = []
without s (v ∷ list) = if v == s then without s list else v ∷ without s list

module _ (s : String) where
  without_absent : (list : List String) → contains list s ≡ false → without s list ≡ list
  unfolding without contains
  without_absent [] h = refl
  without_absent (v ∷ list) h = ground (arith, without_absent list)

  pub contains-without : (list : List String) → contains (without s list) s ≡ false
  unfolding without contains
  contains-without [] = refl
  contains-without (v ∷ list) = ground (arith, contains-without list)

  absent_of_count : (list : List String) → count_if (λ v. v == s) list ≡ 0 → contains list s ≡ false
  unfolding contains
  absent_of_count [] h = refl
  absent_of_count (v ∷ list) h = ground (arith, absent_of_count list)

  abbrev spared : Option String → Bool
  spared (some v) = not (v == s)
  spared none = true

  -- Behind a place none of whose followers is `s`, neither it nor the next place holds `s`.
  spared_next :
      (i : ℕ) (list : List String)
      → contains (drop i list) s ≡ false
      → (spared (get_elem? list i) ≡ true) × (contains (drop (suc i) list) s ≡ false)
  unfolding contains
  spared_next zero [] h = (refl, refl)
  spared_next (suc i) [] h = (refl, refl)
  spared_next zero (v ∷ list) h = ground arith
  spared_next (suc i) (v ∷ list) h = spared_next i list h

  -- Rounds over places of the array that do not hold `s` change nothing.
  idle_rounds :
      (k i : ℕ) (list : Slice)
      → contains (drop i list.array) s ≡ false
      → remove_loop s k i list ≡ some (take list.len list.array)
  unfolding remove_loop remove_round
  idle_rounds zero i list h = refl
  idle_rounds (suc k) i list h =
      ground (arith, spared_next i list.array h, idle_rounds k (suc i) list)

abbrev cons_array : String → Slice → Slice
cons_array v list = record { array = v ∷ list.array; len = suc list.len }

abbrev on_some {ℓ κ} : {A : Type ℓ} {B : Type κ} → (A → B) → Option A → Option B
on_some f none = none
on_some f (some a) = some (f a)

sub_one : (n : ℕ) → suc n - 1 ≡ n
sub_one n = omega arith

cut-cons :
    (v : String) (i : ℕ) (array : List String) (len : ℕ)
    → cut (suc i) (record { array = v ∷ array; len = suc len })
      ≡ on_some (cons_array v) (cut i (record { array = array; len = len }))
unfolding cut
cut-cons v i array zero = ground arith
cut-cons v i array (suc len) = rw (sub_one (suc len), sub_one len) (ground arith)

remove_round-cons :
    (s v : String) (i : ℕ) (list : Slice)
    → remove_round s (suc i) (cons_array v list) ≡ on_some (cons_array v) (remove_round s i list)
unfolding remove_round
remove_round-cons s v i list = ground (arith, cut-cons v i list.array list.len)

remove_loop-cons :
    (s v : String) (k i : ℕ) (list : Slice)
    → remove_loop s k (suc i) (cons_array v list)
      ≡ on_some (λ rest. v ∷ rest) (remove_loop s k i list)
unfolding remove_loop
remove_loop-cons s v zero i list = refl
remove_loop-cons s v (suc k) i list = elim (Option-cases (remove_round s i list)) [
  | inl stop ↦ ground (arith, stop, remove_round-cons s v i list)
  | inr (list', go) ↦
      ground (arith, go, remove_round-cons s v i list, remove_loop-cons s v k (suc i) list')
]

take_all : (list : List String) → take (length list) list ≡ list
take_all [] = refl
take_all (v ∷ list) = rw (take_all list)

take-append : (xs ys : List String) → take (length xs) (xs ++ ys) ≡ xs
take-append [] ys = refl
take-append (v ∷ xs) ys = rw (take-append xs ys)

contains-drop :
    (s : String) (n : ℕ) (list : List String)
    → contains list s ≡ false
    → contains (drop n list) s ≡ false
unfolding contains
contains-drop s zero list h = h
contains-drop s (suc n) [] h = refl
contains-drop s (suc n) (v ∷ list) h = contains-drop s n list (ground arith)

contains-append :
    (s : String) (xs ys : List String)
    → contains xs s ≡ false
    → contains ys s ≡ false
    → contains (xs ++ ys) s ≡ false
unfolding contains
contains-append s [] ys hx hy = hy
contains-append s (v ∷ xs) ys hx hy = ground (arith, contains-append s xs ys)

-- The last place of the array keeps its text when the element before `post` is cut out.
stale_end :
    (s : String) (post : List String)
    → contains post s ≡ false
    → contains (drop 1 (post ++ drop (length post) (s ∷ post))) s ≡ false
unfolding contains
stale_end s [] h = refl
stale_end s (v ∷ post) h =
    contains-append s post (drop (length post) (v ∷ post)) (ground arith)
      (contains-drop s (length post) (v ∷ post) h)

abbrev after_cut : String → List String → Slice
after_cut s post = record { array = post ++ drop (length post) (s ∷ post); len = length post }

cut_head :
    (s : String) (post : List String)
    → remove_round s 0 (record { array = s ∷ post; len = suc (length post) })
      ≡ some (after_cut s post)
unfolding remove_round
cut_head s post = rw (sub_one (length post), take_all post) (ground (arith, beq_refl s))

loop_step :
    (s : String) (k i : ℕ) (list list' : Slice)
    → remove_round s i list ≡ some list'
    → remove_loop s (suc k) i list ≡ remove_loop s k (suc i) list'
unfolding remove_loop
loop_step s k i list list' h = ground arith

remove_head :
    (s : String) (post : List String) → contains post s ≡ false → remove (s ∷ post) s ≡ some post
remove_head s post h =
    unfold remove in
    (loop_step s (length post) 0 (record { array = s ∷ post; len = suc (length post) })
        (after_cut s post) (cut_head s post)
      ∙ idle_rounds s (length post) 1 (after_cut s post) (stale_end s post h)
      ∙ ap some (take-append post (drop (length post) (s ∷ post))))

remove_tail :
    (s v : String) (list : List String)
    → (v == s) ≡ false
    → remove (v ∷ list) s ≡ on_some (λ rest. v ∷ rest) (remove list s)
unfolding remove
remove_tail s v list h =
    ground
      (arith, remove_loop-cons s v (length list) 0 (record { array = list; len = length list }))

-- If the text stands at most once in the slice, `remove` does not panic and gives the slice without it.
pub remove-without :
    (list : List String) (s : String)
    → count_if (λ v. v == s) list ≤ 1
    → remove list s ≡ some (without s list)
unfolding without
remove-without [] s h = unfold remove in refl
remove-without (v ∷ list) s h = elim (Bool-cases (v == s)) [
  | inl same ↦
      ground (arith, eq_iff v s, remove_head s list, absent_of_count s list, without_absent s list)
  | inr other ↦ ground (arith, remove_tail s v list, remove-without list s)
]
