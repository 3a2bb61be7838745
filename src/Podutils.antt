-- ===== src/Podutils.antt =====
-- pkg/podutils/podutils.go: reading and changing the pod template of a workload object.
-- A type assertion on the wrong type panics.
pub mod ScalePods
use cnsbench.Prelude.{
  String, Option, none, some, [], ◌∷◌, ◌++◌, map, Assoc, put, ◌==◌, string_eq, if◌then◌else◌,
}
use cnsbench.Exec.{Outcome, ok, err, fault, panic, nil_kind, nil_object}
use cnsbench.Exec.Results.{◌>>=◌}
use cnsbench.Kube.{
  Object, job, pod, stateful_set, config_map, persistent_volume_claim, volume_snapshot, opaque, nil,
  ObjectMeta, PodSpec, Container, EnvVar,
}

-- meta.Accessor, which fails on the nil interface.
unfoldable pub object_meta : Object → Outcome ObjectMeta
object_meta (job m t p) = ok m
object_meta (pod m p) = ok m
object_meta (stateful_set m t p) = ok m
object_meta (config_map m d) = ok m
object_meta (persistent_volume_claim m c) = ok m
object_meta (volume_snapshot m c) = ok m
object_meta (opaque m c) = ok m
object_meta nil = err nil_object

unfoldable pub with_meta : ObjectMeta → Object → Object
with_meta m (job _ t p) = job m t p
with_meta m (pod _ p) = pod m p
with_meta m (stateful_set _ t p) = stateful_set m t p
with_meta m (config_map _ d) = config_map m d
with_meta m (persistent_volume_claim _ c) = persistent_volume_claim m c
with_meta m (volume_snapshot _ c) = volume_snapshot m c
with_meta m (opaque _ c) = opaque m c
with_meta m nil = nil

-- obj.(*batchv1.Job), obj.(*corev1.Pod), obj.(*appsv1.StatefulSet)
job_spec : Object → Outcome PodSpec
job_spec (job m t p) = ok p
job_spec _ = fault panic

pod_pod_spec : Object → Outcome PodSpec
pod_pod_spec (pod m p) = ok p
pod_pod_spec _ = fault panic

stateful_set_spec : Object → Outcome PodSpec
stateful_set_spec (stateful_set m t p) = ok p
stateful_set_spec _ = fault panic

unfoldable pub pod_spec : Object → Outcome PodSpec
unfolding object_meta job_spec pod_pod_spec stateful_set_spec
pod_spec obj = do
  m ← object_meta obj
  if m.kind == "Job"
      then job_spec obj
      else if m.kind == "Pod"
      then pod_pod_spec obj
      else if m.kind == "StatefulSet"
      then stateful_set_spec obj
      else err nil_kind

update_job_spec : PodSpec → Object → Outcome Object
update_job_spec spec (job m t p) = ok (job m t spec)
update_job_spec spec _ = fault panic

update_pod_pod_spec : PodSpec → Object → Outcome Object
update_pod_pod_spec spec (pod m p) = ok (pod m spec)
update_pod_pod_spec spec _ = fault panic

update_stateful_set_spec : PodSpec → Object → Outcome Object
update_stateful_set_spec spec (stateful_set m t p) = ok (stateful_set m t spec)
update_stateful_set_spec spec _ = fault panic

-- Any other kind gives `nil, nil`.
unfoldable pub update_pod_spec : Object → PodSpec → Outcome Object
unfolding object_meta update_job_spec update_pod_pod_spec update_stateful_set_spec
update_pod_spec obj spec = do
  m ← object_meta obj
  if m.kind == "Job"
      then update_job_spec spec obj
      else if m.kind == "Pod"
      then update_pod_pod_spec spec obj
      else if m.kind == "StatefulSet"
      then update_stateful_set_spec spec obj
      else ok nil

-- `for k, v := range from { labels[k] = v }`
unfoldable pub merge_labels : Assoc String String → Assoc String String → Assoc String String
merge_labels [] labels = labels
merge_labels ((k, v) ∷ from) labels = merge_labels from (put k v labels)

abbrev merge_template : Option (Assoc String String) → Assoc String String → Assoc String String
merge_template none labels = labels
merge_template (some from) labels = merge_labels from labels

add_job_labels : Assoc String String → Object → Outcome (Object × Assoc String String)
unfolding merge_labels
add_job_labels labels (job m t p) =
    let labels' = merge_template t labels in ok (job m (some labels') p, labels')
add_job_labels labels _ = fault panic

add_stateful_set_labels : Assoc String String → Object → Outcome (Object × Assoc String String)
add_stateful_set_labels labels (stateful_set m t p) = ok (stateful_set m (some labels) p, labels)
add_stateful_set_labels labels _ = fault panic

-- The map `labels` is changed in place, so it comes back beside the object.
unfoldable pub add_labels_generic :
    Object → Assoc String String → Outcome (Object × Assoc String String)
unfolding object_meta add_job_labels add_stateful_set_labels
add_labels_generic obj labels = do
  m ← object_meta obj
  if m.kind == "Job"
      then add_job_labels labels obj
      else if m.kind == "StatefulSet"
      then add_stateful_set_labels labels obj
      else ok (obj, labels)

unfoldable pub add_env : EnvVar → Container → Container
add_env v c = record c { env = c.env ++ v ∷ [] }

unfoldable pub add_env_everywhere : EnvVar → PodSpec → PodSpec
unfolding add_env
add_env_everywhere v p = record p {
  init_containers = map (add_env v) p.init_containers;
  containers = map (add_env v) p.containers;
}

set_job_env : EnvVar → Object → Outcome Object
set_job_env v (job m t p) = ok (job m t (add_env_everywhere v p))
set_job_env v _ = fault panic

set_pod_env : EnvVar → Object → Outcome Object
set_pod_env v (pod m p) = ok (pod m (add_env_everywhere v p))
set_pod_env v _ = fault panic

-- The object is changed in place: the result is what the caller's object has become.
unfoldable pub set_env_var : String → String → Object → Outcome Object
unfolding object_meta set_job_env set_pod_env add_env_everywhere
set_env_var name value obj = do
  m ← object_meta obj
  let v : EnvVar = record { name = name; value = value; field_path = "" }
  if m.kind == "Job"
      then set_job_env v obj
      else if m.kind == "Pod"
      then set_pod_env v obj
      else ok obj
