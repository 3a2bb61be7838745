-- ===== src/ObjectTiming/Scale/Saved.antt =====
-- pkg/objecttiming/objinfo.go and scale.go: a scaling is seen against the number that was saved.
use cnsbench.Prelude.{
  pos, String, Bool, true, some, List, [], ◌∷◌, get, put, get-put, ◌&&◌, ◌||◌, ◌==◌, nat_eq,
  string_eq, int_eq, ◌≡◌, refl, arith, if◌then◌else◌, Bool-cases, inl, inr, eq_iff,
}
use cnsbench.Exec.{ok}
use cnsbench.Api.{Time}
use cnsbench.ObjectTiming.Types.{uint, time, Dict, read, AuditLog, Decoders}
use cnsbench.ObjectTiming.Criteria.{is_some, scale_end_crit}
use cnsbench.ObjectTiming.Records.{get_name, get_identification, parse_str_time}
use cnsbench.ObjectTiming.Store.{
  ObjInfoStore, sub_map, add_info, info_of, get_obj_info, save_obj_info,
}
use cnsbench.ObjectTiming.Scale.{get_goal_value, spec_label}

sub_map-put :
    {V : Type 0} (k j : String) (m : List (String × V)) (store : List (String × List (String × V)))
    → sub_map j (put k m store) ≡ (if k == j then m else sub_map j store)
sub_map-put k j m store = ground (arith, get-put k j m store)

info_of-add_info :
    (info : Dict) (ns res name ns' res' name' : String) (store : ObjInfoStore)
    → info_of ns' res' name' (add_info info ns res name store) ≡ (
        if ns == ns' && res == res' && name == name'
        then some info
        else info_of ns' res' name' store)
unfolding info_of add_info
info_of-add_info info ns res name ns' res' name' store =
    let by_resource = sub_map ns store in
    let by_name = sub_map res by_resource in
    ground (
      arith,
      sub_map-put ns ns' (put res (put name info by_name) by_resource) store,
      sub_map-put res res' (put name info by_name) by_resource,
      get-put name name' info by_name,
      eq_iff ns ns',
      eq_iff res res',
    )

-- Whether two lines are about one object.
unfoldable pub is_same_object : AuditLog → AuditLog → Bool
is_same_object log other =
    log.object_ref.namespace == other.object_ref.namespace
    && log.object_ref.resource == other.object_ref.resource
    && get_name log == get_name other

-- What a request with status 200 or 201 saves of its object.
unfoldable pub saved : AuditLog → Time → Dict
saved log start =
    ("parallelism", uint log.response_object.spec.parallelism)
    ∷ ("replicas", uint log.response_object.spec.replicas)
    ∷ ("startTime", time start)
    ∷ []

read-saved :
    (log : AuditLog) (start : Time) (resource : String)
    → read (spec_label resource) (saved log start)
      ≡ uint (get_goal_value resource log.response_object.spec)
unfolding read get saved spec_label get_goal_value
read-saved log start resource = elim (Bool-cases (resource == "jobs")) [
  | inl e ↦ rw (e) refl
  | inr e ↦ rw (e) refl
]

-- After a request with code 200 or 201 on a scalable resource, with a time that can be parsed,
-- is saved, getObjInfo gives what was saved for every line about the same object, and what it
-- gave before for every other line.
pub get_obj_info-save_obj_info :
    (dec : Decoders) (log other : AuditLog) (store : ObjInfoStore) (start : Time)
    → (log.code == pos 201 || log.code == pos 200) ≡ true
    → is_some (scale_end_crit log.object_ref.resource) ≡ true
    → dec.parse_time log.request_received_timestamp ≡ some start
    → (store' : ObjInfoStore) × (save_obj_info dec log store ≡ ok store')
      × (get_obj_info other store'
          ≡ (if is_same_object log other then some (saved log start) else get_obj_info other store))
unfolding save_obj_info get_obj_info get_identification parse_str_time is_same_object saved
get_obj_info-save_obj_info dec log other store start done scalable at = (
  add_info (saved log start) log.object_ref.namespace log.object_ref.resource (get_name log) store,
  rw (done, scalable, at) refl,
  info_of-add_info (saved log start) _ _ _ _ _ _ store,
)
