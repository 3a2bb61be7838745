-- ===== src/ObjectTiming/Parse/Moves.antt =====
-- pkg/objecttiming/parselogs.go: what one line of the log does to the records of the actions.
use cnsbench.Prelude.{
  ℕ, ◌+◌, ◌≤◌, Bool, Option, put, count_if, none, some, List, [], ◌∷◌, ◌++◌, append_assoc,
  append-nil, get_elem?, erase_at, length, length-append, length-erase_at, All, All-append,
  All-get_elem?, All-erase_at, ◌≡◌, refl, sym, ap, ◌∙◌, arith, string_eq,
}
use cnsbench.Exec.{Outcome}
use cnsbench.Exec.Results.{Yields, yields, faults, Yields->>=, Yields-then}
use cnsbench.ObjectTiming.Types.{Value, time, Dict, AuditLog, Decoders, or_panic}
use cnsbench.ObjectTiming.Parse.{Parsing, set_end_time, end_action, end_if_found, begin_action}
use cnsbench.ObjectTiming.Parse.Identity.{
  identity, among, identity-put, identity-labels, count_if-append, count_if-erase_at,
}
use cnsbench.ObjectTiming.Parse.Sound.{
  IsRunning, IsFinished, IsSound, IsFinished-end, IsFinished-labels,
}

abbrev pub size : Parsing → ℕ
size st = length st.ongoing + length st.results

-- The new results follow the old ones; for every test on what an action is known by, no fewer
-- records pass it than before; and at most `n` were begun.
pub record Moves (n : ℕ) (old new : Parsing) : Type 0 where
  pub sound : IsSound old → IsSound new
  pub kept : (more : List Dict) × (new.results ≡ old.results ++ more)
  pub none_lost : (p : List (Option Value) → Bool) → among p old ≤ among p new
  pub begun : size new ≤ n + size old

pub Moves-stay : (n : ℕ) (st : Parsing) → Moves n st st
Moves-stay n st = record {
  sound = λ h. h;
  kept = ([], sym (append-nil st.results));
  none_lost = λ p. omega arith;
  begun = omega arith;
}

pub Moves-then : (m n : ℕ) {a b c : Parsing} → Moves m a b → Moves n b c → Moves (m + n) a c
Moves-then m n {a} f g = record {
  sound = λ h. g.sound (f.sound h);
  kept = (
    f.kept.0 ++ g.kept.0,
    g.kept.1 ∙ ap (λ rs. rs ++ g.kept.0) f.kept.1 ∙ append_assoc a.results f.kept.0 g.kept.0,
  );
  none_lost = λ p. omega (arith, f.none_lost p, g.none_lost p);
  begun = omega (arith, f.begun, g.begun);
}

-- A record that is ended, and a change of a record that has been.
abbrev Ends : Dict → Dict → Type 0
Ends rec rec' = (IsRunning rec → IsFinished rec') × (identity rec' ≡ identity rec)

abbrev pub Keeps : (Dict → Dict) → Type 0
Keeps change =
    (rec : Dict)
    → (IsFinished rec → IsFinished (change rec)) × (identity (change rec) ≡ identity rec)

Moves-end :
    (st : Parsing) (i : ℕ) (rec rec' : Dict)
    → get_elem? st.ongoing i ≡ some rec
    → Ends rec rec'
    → Moves 0 st (record st { ongoing = erase_at st.ongoing i; results = st.results ++ rec' ∷ [] })
Moves-end st i rec rec' e (finish, same) = record {
  sound = λ h. (
    All-erase_at IsRunning st.ongoing i h.0,
    All-append IsFinished st.results (rec' ∷ []) h.1
        (finish (All-get_elem? IsRunning st.ongoing i h.0 e), tt),
  );
  kept = (rec' ∷ [], refl);
  none_lost = λ p.
      let q : Dict → Bool = λ r. p (identity r) in
      omega (
        arith,
        count_if-append q st.results (rec' ∷ []),
        count_if-erase_at q st.ongoing i rec rec' e (ap p same),
      );
  begun = omega (arith, length-append st.results (rec' ∷ []), length-erase_at st.ongoing i e);
}

pub Moves-begin :
    (st : Parsing) (rec : Dict)
    → IsRunning rec
    → Moves 1 st (record st { ongoing = st.ongoing ++ rec ∷ [] })
Moves-begin st rec running = record {
  sound = λ h. (All-append IsRunning st.ongoing (rec ∷ []) h.0 (running, tt), h.1);
  kept = ([], sym (append-nil st.results));
  none_lost = λ p. omega (arith, count_if-append (λ r. p (identity r)) st.ongoing (rec ∷ []));
  begun = omega (arith, length-append st.ongoing (rec ∷ []));
}

pub Moves-change :
    (st : Parsing) (all : List Dict)
    → (All IsRunning st.ongoing → All IsRunning all)
    → length all ≡ length st.ongoing
    → ((p : List (Option Value) → Bool)
        → count_if (λ rec. p (identity rec)) all ≡ count_if (λ rec. p (identity rec)) st.ongoing)
    → Moves 0 st (record st { ongoing = all })
Moves-change st all keeps same as_many = record {
  sound = λ h. (keeps h.0, h.1);
  kept = ([], sym (append-nil st.results));
  none_lost = λ p. omega (arith, as_many p);
  begun = omega (arith, same);
}

-- What a part of the body of the loop does, if it takes up the line.
pub data Taking (n : ℕ) (old : Parsing) : Option Parsing → Type 0 where
  not_taken : Taking n old none
  taken : {new : Parsing} → Moves n old new → Taking n old (some new)

pub Yields-or_panic {ℓ} : {A : Type ℓ} (o : Option A) → Yields (λ a. o ≡ some a) (or_panic o)
Yields-or_panic none = faults
Yields-or_panic (some a) = yields refl

module _ (dec : Decoders) (log : AuditLog) where
  set_end_time-Ends : (rec : Dict) → Yields (Ends rec) (set_end_time dec log rec)
  unfolding set_end_time
  set_end_time-Ends rec = Yields-then _ _ λ t. yields (
    λ h. IsFinished-labels log _ (IsFinished-end t rec h.0),
    identity-labels log (put "endTime" (time t) rec)
        ∙ identity-put "endTime" (time t) rec (refl, refl, refl, refl, refl),
  )

  pub end_action-Moves :
      (i : ℕ) (change : Dict → Dict) (st : Parsing)
      → Keeps change
      → Yields (Moves 0 st) (end_action dec log i change st)
  unfolding end_action
  end_action-Moves i change st keeps =
      Yields->>= (or_panic (get_elem? st.ongoing i)) _ (Yields-or_panic _) λ rec e.
        Yields->>= (set_end_time dec log rec) _ (set_end_time-Ends rec) λ rec' (finish, same).
          let (keep, known) = keeps rec' in
          yields (Moves-end st i rec (change rec') e (λ h. keep (finish h), known ∙ same))

  pub end_if_found-Moves :
      (change : Dict → Dict) (st : Parsing) (found : Option ℕ)
      → Keeps change
      → Yields (Taking 1 st) (end_if_found dec log change st found)
  unfolding end_if_found
  end_if_found-Moves change st none keeps = yields not_taken
  end_if_found-Moves change st (some i) keeps =
      Yields->>= (end_action dec log i change st) _ (end_action-Moves i change st keeps)
        λ st' m. yields (taken (Moves-then 0 1 m (Moves-stay 1 st')))

  pub begin_action-Moves :
      (st : Parsing) (made : Outcome Dict)
      → Yields IsRunning made
      → Yields (Taking 1 st) (begin_action dec st made)
  begin_action-Moves st made h =
      Yields->>= made _ h λ rec running. yields (taken (Moves-begin st rec running))
