-- ===== src/ObjectTiming/Parse/Sound.antt =====
-- pkg/objecttiming: what the records of running and of finished actions hold.
use cnsbench.Prelude.{
  String, Bool, true, false, Option, none, some, List, get, put, delete, get-put, get-delete, ◌==◌,
  string_eq, ◌≡◌, refl, ap, ◌∙◌, All, if◌then◌else◌,
}
use cnsbench.Api.{Time}
use cnsbench.ObjectTiming.Types.{Value, text, time, flag, read, labels, Dict, AuditLog}
use cnsbench.ObjectTiming.Records.{initialize_record}
use cnsbench.ObjectTiming.Scale.{start_label, end_label}
use cnsbench.ObjectTiming.Parse.{Parsing, with_labels, with_volume, unfinished}

abbrev pub HasTime : String → Dict → Type 0
HasTime key rec = (t : Time) × (get key rec ≡ some (time t))

abbrev pub HasText : String → Dict → Type 0
HasText key rec = (t : String) × (get key rec ≡ some (text t))

-- A named action with a start time and a resource in the plural, as the log names it.
pub record IsAction (rec : Dict) : Type 0 where
  pub start : HasTime "startTime" rec
  pub resource : HasText "resource" rec
  pub plural : (resource.0 == "pod") ≡ false
  pub action : HasText "action" rec

abbrev pub IsRunning : Dict → Type 0
IsRunning rec = IsAction rec × (get "endTime" rec ≡ none)

abbrev pub IsFinished : Dict → Type 0
IsFinished rec = IsAction rec × HasTime "endTime" rec

abbrev pub IsSound : Parsing → Type 0
IsSound st = All IsRunning st.ongoing × All IsFinished st.results

-- A write to a key leaves the others.
pub put-other :
    (key other : String) (v : Value) (rec : Dict)
    → (key == other) ≡ false
    → get other (put key v rec) ≡ get other rec
put-other key other v rec h =
    get-put key other v rec ∙ ap (λ b. if b then some v else get other rec) h

pub delete-other :
    (key other : String) (rec : Dict)
    → (key == other) ≡ false
    → get other (delete key rec) ≡ get other rec
delete-other key other rec h =
    get-delete key other rec ∙ ap (λ b. if b then none else get other rec) h

-- A read of a key with a value.
pub read-of_get : (key : String) (rec : Dict) (v : Value) → get key rec ≡ some v → read key rec ≡ v
unfolding read
read-of_get key rec v e = rw (read, e) refl

-- The keys with which an action is known and timed.
abbrev pub IsFree : String → Type 0
IsFree key =
    ((key == "startTime") ≡ false)
    × ((key == "resource") ≡ false)
    × ((key == "endTime") ≡ false)
    × ((key == "action") ≡ false)

IsAction-put :
    (key : String) (v : Value) (rec : Dict)
    → (key == "startTime") ≡ false
    → (key == "resource") ≡ false
    → (key == "action") ≡ false
    → IsAction rec
    → IsAction (put key v rec)
IsAction-put key v rec start resource action h = record {
  start = (h.start.0, put-other key "startTime" v rec start ∙ h.start.1);
  resource = (h.resource.0, put-other key "resource" v rec resource ∙ h.resource.1);
  plural = h.plural;
  action = (h.action.0, put-other key "action" v rec action ∙ h.action.1);
}

pub IsRunning-put :
    (key : String) (v : Value) (rec : Dict) → IsFree key → IsRunning rec → IsRunning (put key v rec)
IsRunning-put key v rec (start, resource, end, action) h =
    (IsAction-put key v rec start resource action h.0, put-other key "endTime" v rec end ∙ h.1)

pub IsFinished-put :
    (key : String) (v : Value) (rec : Dict)
    → IsFree key
    → IsFinished rec
    → IsFinished (put key v rec)
IsFinished-put key v rec (start, resource, end, action) h = (
  IsAction-put key v rec start resource action h.0,
  (h.1.0, put-other key "endTime" v rec end ∙ h.1.1),
)

pub IsFinished-end :
    (t : Time) (rec : Dict) → IsAction rec → IsFinished (put "endTime" (time t) rec)
IsFinished-end t rec h = (
  IsAction-put "endTime" (time t) rec refl refl refl h,
  (t, get-put "endTime" "endTime" (time t) rec),
)

pub IsFinished-labels :
    (log : AuditLog) (rec : Dict) → IsFinished rec → IsFinished (with_labels log rec)
IsFinished-labels log rec h = go log.response_object.labels
  where
    go :
        (ls : Option (List (String × String)))
        → IsFinished (elim ls [ none ↦ rec | some l ↦ put "labels" (labels l) rec ])
    go none = h
    go (some l) = IsFinished-put "labels" (labels l) rec (refl, refl, refl, refl) h

pub IsFinished-volume :
    (log : AuditLog) (rec : Dict) → IsFinished rec → IsFinished (with_volume log rec)
IsFinished-volume log rec h = go (log.object_ref.resource == "persistentvolumeclaims")
  where
    volume : Value
    volume = text log.response_object.spec.volume_name

    go : (b : Bool) → IsFinished (if b then put "pvName" volume rec else rec)
    go true = IsFinished-put "pvName" volume rec (refl, refl, refl, refl) h
    go false = h

pub IsFinished-unfinished : (rec : Dict) → IsFinished rec → IsFinished (unfinished rec)
IsFinished-unfinished rec = IsFinished-put "unfinished" (flag true) rec (refl, refl, refl, refl)

pub IsRunning-initialize_record :
    (op nm rs ns : String) (t : Time)
    → (rs == "pod") ≡ false
    → IsRunning (initialize_record op nm rs ns t)
unfolding initialize_record get
IsRunning-initialize_record op nm rs ns t plural = (
  record { start = (t, refl); resource = (rs, refl); plural = plural; action = (op, refl) },
  refl,
)

pub start_label-IsFree : (resource : String) → IsFree (start_label resource)
unfolding start_label
start_label-IsFree resource = go (resource == "jobs")
  where
    go : (b : Bool) → IsFree (if b then "startParallelism" else "startReplicas")
    go true = (refl, refl, refl, refl)
    go false = (refl, refl, refl, refl)

pub end_label-IsFree : (resource : String) → IsFree (end_label resource)
unfolding end_label
end_label-IsFree resource = go (resource == "jobs")
  where
    go : (b : Bool) → IsFree (if b then "endParallelism" else "endReplicas")
    go true = (refl, refl, refl, refl)
    go false = (refl, refl, refl, refl)
