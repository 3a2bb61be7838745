-- ===== src/ObjectTiming/Store.antt =====
-- pkg/objecttiming/objinfo.go: what get and create requests say of scalable objects.
use cnsbench.Prelude.{
  String, Bool, Option, none, some, [], ◌∷◌, Assoc, get, put, ◌||◌, ◌&&◌, ◌==◌, string_eq, int_eq,
  pos, if◌then◌else◌,
}
use cnsbench.Exec.{Outcome, ok}
use cnsbench.Exec.Results.{◌>>=◌}
use cnsbench.ObjectTiming.Types.{uint, time, Dict, AuditLog, Decoders}
use cnsbench.ObjectTiming.Criteria.{is_some, scale_end_crit}
use cnsbench.ObjectTiming.Records.{get_identification, parse_str_time}

-- objinfostore: by namespace, resource and name.
abbrev pub ObjInfoStore : Type 0
ObjInfoStore = Assoc String (Assoc String (Assoc String Dict))

unfoldable pub is_get_create_request : AuditLog → Bool
is_get_create_request log = log.verb == "get" || log.verb == "create"

-- A map that is nil reads as an empty one.
abbrev pub sub_map {ℓ} : {V : Type ℓ} → String → Assoc String (Assoc String V) → Assoc String V
sub_map key m = elim (get key m) [ none ↦ [] | some sub ↦ sub ]

unfoldable pub add_info : Dict → String → String → String → ObjInfoStore → ObjInfoStore
add_info to_add ns res name store =
    let by_resource = sub_map ns store in
    let by_name = sub_map res by_resource in
    put ns (put res (put name to_add by_name) by_resource) store

-- `store[namespace][resource][name]`
unfoldable pub info_of : String → String → String → ObjInfoStore → Option Dict
info_of ns res name store = get name (sub_map res (sub_map ns store))

unfoldable pub get_obj_info : AuditLog → ObjInfoStore → Option Dict
unfolding get_identification info_of
get_obj_info log store =
    let (name, resource, namespace) = get_identification log in
    info_of namespace resource name store

module _ (dec : Decoders) where
  unfoldable pub save_obj_info : AuditLog → ObjInfoStore → Outcome ObjInfoStore
  unfolding get_identification parse_str_time add_info
  save_obj_info log store =
      let (name, resource, namespace) = get_identification log in
      if (log.code == pos 201 || log.code == pos 200) && is_some (scale_end_crit resource)
      then (parse_str_time dec log.request_received_timestamp >>= λ start. ok (
          add_info
            (("parallelism", uint log.response_object.spec.parallelism)
              ∷ ("replicas", uint log.response_object.spec.replicas)
              ∷ ("startTime", time start)
              ∷ [])
            namespace resource name store))
      else ok store
