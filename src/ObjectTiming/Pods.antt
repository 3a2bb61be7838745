-- ===== src/ObjectTiming/Pods.antt =====
-- pkg/objecttiming/pvcpod.go: when the volume of a pod was attached and bound.
pub mod Quotes
use Prim.Native.Char.{Char, code}
use Prim.Native.String
use cnsbench.Prelude.{
  ℕ, zero, suc, String, Bool, true, false, Option, none, some, List, [], ◌∷◌, get, put, delete, set,
  get_elem?, length, all, ltb, ◌&&◌, ◌==◌, nat_eq, string_eq, if◌then◌else◌,
}
use cnsbench.Exec.{Outcome, ok}
use cnsbench.Exec.Results.{◌>>=◌}
use cnsbench.Api.{Time}
use cnsbench.ObjectTiming.Types.{
  Value, text, time, null, Dict, read, is_text, AuditLog, Decoders, or_panic,
}
use cnsbench.ObjectTiming.Records.{find_log, parse_str_time}

-- The text in front of the next quote, if there is one.
unfoldable pub before_quote : String → Option String
before_quote String.[] = none
before_quote (String.◌∷◌ c s) = elim (code c == b'"') [
  | true ↦ some ""
  | false ↦ elim (before_quote s) [ none ↦ none | some t ↦ some (String.◌∷◌ c t) ]
]

-- The text between the first two quotes of a message, or the empty text.
unfoldable pub quoted : String → String
unfolding before_quote
quoted String.[] = ""
quoted (String.◌∷◌ c s) = elim (code c == b'"') [
  | true ↦ elim (before_quote s) [ none ↦ "" | some t ↦ t ]
  | false ↦ quoted s
]

unfoldable pub is_attach_volume_event : AuditLog → Bool
is_attach_volume_event log =
    log.object_ref.resource == "events"
    && log.request_object.involved_object.kind == "Pod"
    && log.request_object.reason == "SuccessfulAttachVolume"

-- A change of the record with an index that was found.
abbrev pub change_at : List Dict → Option ℕ → (Dict → Outcome Dict) → Outcome (List Dict)
change_at ongoing none f = ok ongoing
change_at ongoing (some i) f =
    or_panic (get_elem? ongoing i) >>= λ rec. f rec >>= λ rec'. ok (set ongoing i rec')

-- The loop over the results for one pod: each claim with the volume loses its volume name, and
-- the end of the last one is the time at which the volume was bound.
abbrev pub is_claim_of : Value → Dict → Bool
is_claim_of (text pv) rec =
    is_text (read "pvName" rec) pv && is_text (read "resource" rec) "persistentvolumeclaims"
is_claim_of _ rec = false

unfoldable pub bound_end : Value → List Dict → Option Value → Option Value
bound_end pv [] found = found
bound_end pv (rec ∷ results) found =
    bound_end pv results (if is_claim_of pv rec then some (read "endTime" rec) else found)

unfoldable pub release_claims : Value → List Dict → List Dict
release_claims pv [] = []
release_claims pv (rec ∷ results) =
    let rest = release_claims pv results in
    if is_claim_of pv rec then delete "pvName" rec ∷ rest else rec ∷ rest

-- One round of the outer loop, for the record with index `i`.
unfoldable pub bind_pod : ℕ → List Dict → List Dict
unfolding bound_end release_claims
bind_pod i results = elim (get_elem? results i) [
  | none ↦ results
  | some pod ↦ elim (get "pvName" pod) [
    | none ↦ results
    | some pv ↦
        if is_text (read "resource" pod) "pods"
        then elim (bound_end pv results none) [
          | none ↦ results
          | some end ↦ set (release_claims pv results) i (delete "pvName" (put "boundTime" end pod))
        ]
        else results
  ]
]

-- `rounds` records are left, from index `i` on.
unfoldable pub bind_pods : ℕ → ℕ → List Dict → List Dict
unfolding bind_pod
bind_pods zero i results = results
bind_pods (suc rounds) i results = bind_pods rounds (suc i) (bind_pod i results)

unfoldable pub bound_times : List Dict → List Dict
unfolding bind_pods
bound_times results = bind_pods (length results) 0 results

module _ (dec : Decoders) where
  unfoldable pub set_attach_time : AuditLog → List Dict → Outcome (List Dict)
  unfolding find_log parse_str_time quoted
  set_attach_time log ongoing =
      let pod = log.request_object.involved_object in
      change_at ongoing (find_log "create" pod.name "pods" pod.namespace ongoing) λ rec.
        parse_str_time dec log.stage_timestamp >>= λ t.
        ok (put "pvName" (text (quoted log.request_object.message)) (put "attachTime" (time t) rec))

  abbrev pub waits_for_containers : List String → Bool
  waits_for_containers reasons =
      ltb 0 (length reasons) && all (λ reason. reason == "ContainerCreating") reasons

  unfoldable pub is_container_creating_status : AuditLog → Outcome Bool
  is_container_creating_status log =
      if log.verb == "patch"
        && log.object_ref.resource == "pods"
        && log.object_ref.subresource == "status"
      then (or_panic (dec.waiting_reasons log.request_object.status) >>= λ reasons.
          ok (waits_for_containers reasons))
      else ok false

  unfoldable pub set_container_time : AuditLog → List Dict → Outcome (List Dict)
  unfolding find_log parse_str_time
  set_container_time log ongoing =
      let ref = log.object_ref in
      change_at ongoing (find_log "create" ref.name "pods" ref.namespace ongoing)
        λ rec. parse_str_time dec log.stage_timestamp >>= λ t. ok (put "containerTime" (time t) rec)
