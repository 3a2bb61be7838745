-- ===== src/ObjectTiming/Parse/Lines.antt =====
-- pkg/objecttiming/parselogs.go: what the lines of a log do to the records of the actions.
use cnsbench.Prelude.{
  ℕ, suc, String, Bool, true, false, Option, none, some, List, [], ◌∷◌, get_elem?, length,
  length-set, All, All-get_elem?, All-set, count_if, put, ◌≡◌, refl, ap, ◌∙◌, subst, arith, ◌==◌,
  string_eq,
}
use cnsbench.Exec.{Outcome, ok, err, fault, of_try}
use cnsbench.Exec.Results.{
  Yields, yields, errs, faults, Yields->>=, Yields-then, Yields-if, Yields-if-true, Yields-ok,
}
use cnsbench.ObjectTiming.Types.{Value, Dict, time, AuditLog, Decoders, or_panic}
use cnsbench.ObjectTiming.Records.{get_generic_start, get_identification}
use cnsbench.ObjectTiming.Create.{is_create_start, get_create_start, is_create_end}
use cnsbench.ObjectTiming.Scale.{get_scale_start, get_scale_end_index, is_scale_start, is_scale_end}
use cnsbench.ObjectTiming.Pods.{
  change_at, set_attach_time, set_container_time, is_attach_volume_event,
  is_container_creating_status,
}
use cnsbench.ObjectTiming.Parse.{
  Parsing, with_volume, unfinished, end_action, create_action, force_end, scale_action,
  with_ongoing, pod_action, save_action, parse_log, parse_lines, Taken, or_else, when_flag,
}
use cnsbench.ObjectTiming.Parse.Sound.{
  IsRunning, IsRunning-put, IsRunning-initialize_record, IsFinished-volume, IsFinished-unfinished,
  start_label-IsFree, end_label-IsFree,
}
use cnsbench.ObjectTiming.Parse.Identity.{
  identity, identity-put, identity-volume, identity-unfinished, count_if-set,
}
use cnsbench.ObjectTiming.Parse.Plural.{is_create_start-plural, is_scale_start-plural}
use cnsbench.ObjectTiming.Parse.Moves.{
  Moves, Moves-stay, Moves-then, Moves-change, Taking, taken, not_taken, Yields-or_panic,
  end_action-Moves, end_if_found-Moves, begin_action-Moves,
}

-- Records that are changed without being begun or ended, and without changing what they are
-- known by.
abbrev Changes : List Dict → List Dict → Type 0
Changes ongoing all =
    (All IsRunning ongoing → All IsRunning all)
    × (length all ≡ length ongoing)
    × ((p : List (Option Value) → Bool)
        → count_if (λ rec. p (identity rec)) all ≡ count_if (λ rec. p (identity rec)) ongoing)

change_at-Changes :
    (ongoing : List Dict) (found : Option ℕ) (f : Dict → Outcome Dict)
    → ((rec : Dict)
        → Yields
            (λ rec'. (IsRunning rec → IsRunning rec') × (identity rec' ≡ identity rec))
            (f rec))
    → Yields (Changes ongoing) (change_at ongoing found f)
change_at-Changes ongoing none f keeps = yields (λ h. h, refl, λ p. refl)
change_at-Changes ongoing (some i) f keeps =
    Yields->>= (or_panic (get_elem? ongoing i)) _ (Yields-or_panic _) λ rec e.
      Yields->>= (f rec) _ (keeps rec) λ rec' (keep, same). yields (
        λ h. All-set IsRunning ongoing i rec' h (keep (All-get_elem? IsRunning ongoing i h e)),
        length-set ongoing i rec',
        λ p. count_if-set (λ r. p (identity r)) ongoing i rec rec' e (ap p same),
      )

module _ (dec : Decoders) (log : AuditLog) where
  start-IsRunning :
      (action : String)
      → (log.object_ref.resource == "pod") ≡ false
      → Yields IsRunning (get_generic_start dec log action)
  unfolding get_generic_start get_identification
  start-IsRunning action plural =
      Yields-then _ _ λ t. yields (IsRunning-initialize_record action _ _ _ t plural)

  scale_start-IsRunning :
      (st : Parsing)
      → (log.object_ref.resource == "pod") ≡ false
      → Yields IsRunning (get_scale_start dec log st.store)
  unfolding get_scale_start
  scale_start-IsRunning st plural =
      Yields->>= (get_generic_start dec log "scale") _ (start-IsRunning "scale" plural)
        λ rec running. yields (
          IsRunning-put _ _ _ (end_label-IsFree _)
            (IsRunning-put _ _ _ (start_label-IsFree _) running))

  pub create_start-IsRunning :
      is_create_start log ≡ true → Yields IsRunning (get_create_start dec log)
  unfolding get_create_start
  create_start-IsRunning h = start-IsRunning "create" (is_create_start-plural log h)

  create_action-Taking : (st : Parsing) → Yields (Taking 1 st) (create_action dec log st)
  unfolding create_action
  create_action-Taking st =
      Yields-if-true (is_create_start log) _ _
        (λ h. begin_action-Moves dec log st _ (create_start-IsRunning h))
        (Yields-then (is_create_end dec log st.ongoing) _ λ found.
          end_if_found-Moves dec log (with_volume log) st found
            (λ rec. (IsFinished-volume log rec, identity-volume log rec)))

  force_end-Moves : (st : Parsing) → Yields (Moves 0 st) (force_end dec log st)
  unfolding force_end
  force_end-Moves st = go (get_scale_end_index log st.ongoing)
    where
      go :
          (found : Option ℕ)
          → Yields
              (Moves 0 st)
              (elim found [ none ↦ ok st | some i ↦ end_action dec log i unfinished st ])
      go none = yields (Moves-stay 0 st)
      go (some i) =
          end_action-Moves dec log i unfinished st
            (λ rec. (IsFinished-unfinished rec, identity-unfinished rec))

  Taking-after : {a b : Parsing} (o : Option Parsing) → Moves 0 a b → Taking 1 b o → Taking 1 a o
  Taking-after none m not_taken = not_taken
  Taking-after (some c) m (taken n) = taken (Moves-then 0 1 m n)

  Yields-Taking-after :
      {a b : Parsing} (t : Taken) → Moves 0 a b → Yields (Taking 1 b) t → Yields (Taking 1 a) t
  Yields-Taking-after (ok o) m (yields t) = yields (Taking-after o m t)
  Yields-Taking-after (err e) m errs = errs
  Yields-Taking-after (fault x) m faults = faults

  pub scale_action-Taking : (st : Parsing) → Yields (Taking 1 st) (scale_action dec log st)
  unfolding scale_action
  scale_action-Taking st =
      Yields->>= (is_scale_start log st.store st.ongoing) _
        (is_scale_start-plural log st.store st.ongoing)
        λ starts plural.
          Yields-if-true starts _ _
            (λ h. Yields->>= (force_end dec log st) _ (force_end-Moves st) λ st' m.
              Yields-Taking-after _ m
                (begin_action-Moves dec log st' _ (scale_start-IsRunning st' (plural h))))
            (Yields-then (is_scale_end dec log st.ongoing) _
              λ found. end_if_found-Moves dec log (λ rec. rec) st found (λ rec. (λ h. h, refl)))

  with_ongoing-Taking :
      (st : Parsing) (changed : Outcome (List Dict))
      → Yields (Changes st.ongoing) changed
      → Yields (Taking 1 st) (with_ongoing dec st changed)
  with_ongoing-Taking st changed h = Yields->>= changed _ h λ all (keeps, same, as_many).
      yields (taken (Moves-then 0 1 (Moves-change st all keeps same as_many) (Moves-stay 1 _)))

  set_attach_time-Changes :
      (st : Parsing) → Yields (Changes st.ongoing) (set_attach_time dec log st.ongoing)
  unfolding set_attach_time
  set_attach_time-Changes st = change_at-Changes st.ongoing _ _ λ rec. Yields-then _ _ λ t. yields (
    λ h.
        IsRunning-put "pvName" _ _ (refl, refl, refl, refl)
          (IsRunning-put "attachTime" (time t) rec (refl, refl, refl, refl) h),
    identity-put "pvName" _ (put "attachTime" (time t) rec) (refl, refl, refl, refl, refl)
        ∙ identity-put "attachTime" (time t) rec (refl, refl, refl, refl, refl),
  )

  set_container_time-Changes :
      (st : Parsing) → Yields (Changes st.ongoing) (set_container_time dec log st.ongoing)
  unfolding set_container_time
  set_container_time-Changes st = change_at-Changes st.ongoing _ _ λ rec. Yields-then _ _ λ t.
      yields (
        IsRunning-put "containerTime" (time t) rec (refl, refl, refl, refl),
        identity-put "containerTime" (time t) rec (refl, refl, refl, refl, refl),
      )

  pub pod_action-Taking : (st : Parsing) → Yields (Taking 1 st) (pod_action dec log st)
  unfolding pod_action
  pod_action-Taking st =
      Yields-if (is_attach_volume_event log) _ _
        (with_ongoing-Taking st _ (set_attach_time-Changes st))
        (Yields-then (is_container_creating_status dec log) _ λ creating.
          Yields-if creating _ _ (with_ongoing-Taking st _ (set_container_time-Changes st))
            (yields not_taken))

  pub save_action-Moves : (st : Parsing) → Yields (Moves 1 st) (save_action dec log st)
  unfolding save_action
  save_action-Moves st =
      Yields-if _ _ _
        (Yields-then _ _ λ store. yields (record {
          sound = λ h. h;
          kept = (Moves-stay 1 st).kept;
          none_lost = λ p. omega arith;
          begun = omega arith;
        }))
        (yields (Moves-stay 1 st))

  pub or_else-Moves :
      (st : Parsing) (t : Taken) (next : Outcome Parsing)
      → Yields (Taking 1 st) t
      → Yields (Moves 1 st) next
      → Yields (Moves 1 st) (or_else t next)
  or_else-Moves st (ok none) next h more = more
  or_else-Moves st (ok (some st')) next (yields (taken m)) more = yields m
  or_else-Moves st (err e) next h more = errs
  or_else-Moves st (fault x) next h more = faults

  pub when_flag-Taking :
      (st : Parsing) (b : Bool) (t : Taken)
      → Yields (Taking 1 st) t
      → Yields (Taking 1 st) (when_flag dec b t)
  when_flag-Taking st b t h = Yields-if b _ _ h (yields not_taken)

  pub parse_log-Moves :
      (flags : ℕ) (st : Parsing) → Yields (Moves 1 st) (parse_log dec flags log st)
  unfolding parse_log
  parse_log-Moves flags st =
      Yields-if (log.stage == "ResponseComplete") _ _
        (or_else-Moves st _ _ (when_flag-Taking st _ _ (create_action-Taking st)) (
          or_else-Moves st _ _ (when_flag-Taking st _ _ (scale_action-Taking st)) (
            or_else-Moves st _ _ (when_flag-Taking st _ _ (pod_action-Taking st))
              (save_action-Moves st))))
        (yields (Moves-stay 1 st))

Yields-Moves-suc :
    (n : ℕ) {a b : Parsing} (t : Outcome Parsing)
    → Moves 1 a b
    → Yields (Moves n b) t
    → Yields (Moves (suc n) a) t
Yields-Moves-suc n {a} (ok c) f (yields g) =
    yields (subst (λ k. Moves k a c) (omega arith) (Moves-then 1 n f g))
Yields-Moves-suc n (err e) f errs = errs
Yields-Moves-suc n (fault x) f faults = faults

pub parse_lines-Moves :
    (dec : Decoders) (flags : ℕ) (lines : List String) (st : Parsing)
    → Yields (Moves (length lines) st) (parse_lines dec flags lines st)
unfolding parse_lines
parse_lines-Moves dec flags [] st = yields (Moves-stay 0 st)
parse_lines-Moves dec flags (line ∷ lines) st = Yields-then (of_try (dec.audit_log line)) _ λ log.
    Yields->>= (parse_log dec flags log st) _ (parse_log-Moves dec log flags st)
      λ st' m. Yields-Moves-suc (length lines) _ m (parse_lines-Moves dec flags lines st')

-- If the loop over the lines returns, it keeps the invariant that every ongoing record has an
-- action, a start time, the name of a resource that is not the singular pod and no end time,
-- and every result has these and both times. The results only grow at the end. No action is
-- lost: for any test of the action, name, resource, namespace and start time of a record, at
-- least as many of the ongoing records and results pass it as before. At most one action is
-- begun for each line.
pub parse_lines-ok :
    (dec : Decoders) (flags : ℕ) (lines : List String) (st st' : Parsing)
    → parse_lines dec flags lines st ≡ ok st'
    → Moves (length lines) st st'
parse_lines-ok dec flags lines st st' e =
    Yields-ok (parse_lines dec flags lines st) (parse_lines-Moves dec flags lines st) e
