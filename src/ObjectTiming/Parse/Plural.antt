-- ===== src/ObjectTiming/Parse/Plural.antt =====
-- pkg/objecttiming: the resources of the actions that begin are named in the plural.
use cnsbench.Prelude.{
  String, Bool, true, false, Option, List, Bool-cases, ◌&&◌, ◌≡◌, refl, sym, ap, inl, inr, eq_iff,
  ◌==◌, string_eq, arith, pos, int_eq, if◌then◌else◌, ◌||◌,
}
use cnsbench.Exec.{Outcome, ok, err, fault}
use cnsbench.Exec.Results.{Yields, yields, errs, faults, Yields-mono}
use cnsbench.ObjectTiming.Types.{Dict, AuditLog}
use cnsbench.ObjectTiming.Criteria.{is_some, create_end_crit, scale_end_crit}
use cnsbench.ObjectTiming.Store.{ObjInfoStore}
use cnsbench.ObjectTiming.Create.{is_create_start}
use cnsbench.ObjectTiming.Scale.{may_scale, is_scale_start}

-- A resource with criteria that a text does not have is another one.
crit_other :
    {A : Type 0} (crit : String → Option A) (r s : String)
    → is_some (crit s) ≡ false
    → is_some (crit r) ≡ true
    → (r == s) ≡ false
crit_other crit r s without h = elim (Bool-cases (r == s)) [
  | inl same ↦
      let at_s : is_some (crit s) ≡ is_some (crit r) =
        ap (λ t. is_some (crit t)) (sym ((eq_iff r s).0 same)) in
      cc
  | inr other ↦ other
]

last_true : (a b c : Bool) → (a && b && c) ≡ true → c ≡ true
last_true a b c h = ground arith

pub is_create_start-plural :
    (log : AuditLog) → is_create_start log ≡ true → (log.object_ref.resource == "pod") ≡ false
unfolding is_create_start create_end_crit
is_create_start-plural log h =
    crit_other create_end_crit log.object_ref.resource "pod" refl
      (last_true (log.verb == "create") (log.code == pos 201) _ h)

may_scale-plural :
    (log : AuditLog) → may_scale log ≡ true → (log.object_ref.resource == "pod") ≡ false
unfolding scale_end_crit
may_scale-plural log h =
    crit_other scale_end_crit log.object_ref.resource "pod" refl
      (last_true (log.verb == "update" || log.verb == "patch") (log.code == pos 200) _ h)

-- What a test before a call that may fail says of a result that is true.
Yields-guarded :
    (guard : Bool) (call : Outcome Bool)
    → Yields (λ b. b ≡ true → guard ≡ true) (if guard then call else ok false)
Yields-guarded true (ok b) = yields (λ _. refl)
Yields-guarded true (err e) = errs
Yields-guarded true (fault x) = faults
Yields-guarded false call = yields (λ h. h)

pub is_scale_start-plural :
    (log : AuditLog) (store : ObjInfoStore) (all : List Dict)
    → Yields
        (λ starts. starts ≡ true → (log.object_ref.resource == "pod") ≡ false)
        (is_scale_start log store all)
unfolding is_scale_start
is_scale_start-plural log store all =
    Yields-mono _ (Yields-guarded (may_scale log) _) λ starts may h. may_scale-plural log (may h)
