-- ===== src/ObjectTiming/Create.antt =====
-- pkg/objecttiming/create.go: the log lines at which a creation starts and ends.
use cnsbench.Prelude.{
  ℕ, pos, String, Bool, Option, none, some, List, ◌&&◌, ◌||◌, ◌==◌, string_eq, int_eq, any,
  if◌then◌else◌,
}
use cnsbench.Exec.{Outcome, ok}
use cnsbench.Exec.Results.{◌>>=◌}
use cnsbench.ObjectTiming.Types.{Dict, AuditLog, Decoders, or_panic}
use cnsbench.ObjectTiming.Criteria.{is_some, create_end_crit}
use cnsbench.ObjectTiming.Records.{get_generic_start, get_end_index}

unfoldable pub is_create_start : AuditLog → Bool
is_create_start log =
    log.verb == "create" && log.code == pos 201 && is_some (create_end_crit log.object_ref.resource)

unfoldable pub is_match : String → List String → Bool
is_match str phases = any (λ s. str == s) phases

unfoldable pub get_create_end_index : AuditLog → List Dict → Option ℕ
unfolding get_end_index
get_create_end_index log all = get_end_index "create" log all

-- The requests that may end a creation.
abbrev pub may_end_create : AuditLog → Bool
may_end_create log = (log.verb == "patch" || log.verb == "update") && log.code == pos 200

module _ (dec : Decoders) where
  -- The end if the phase is one of `phases`.
  unfoldable pub end_in_phase : AuditLog → List Dict → List String → String → Outcome (Option ℕ)
  unfolding get_create_end_index is_match
  end_in_phase log all phases status = or_panic (dec.create_phase status) >>= λ phase.
      ok (if is_match phase phases then get_create_end_index log all else none)

  unfoldable pub is_create_end : AuditLog → List Dict → Outcome (Option ℕ)
  unfolding end_in_phase
  is_create_end log all =
      if may_end_create log
      then elim (create_end_crit log.object_ref.resource) [
        | none ↦ ok none
        | some phases ↦ elim log.response_object.status [
          | none ↦ ok none
          | some status ↦ end_in_phase log all phases status
        ]
      ]
      else ok none

  unfoldable pub get_create_start : AuditLog → Outcome Dict
  unfolding get_generic_start
  get_create_start log = get_generic_start dec log "create"
