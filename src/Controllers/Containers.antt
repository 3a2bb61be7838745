-- ===== src/Controllers/Containers.antt =====
-- The functions of controllers/workload.go that change the pod template of a workload object.
-- They return an object beside the error, and one caller goes on with that object.
pub mod Mounts
use cnsbench.Prelude.{
  ℕ, ℤ, sub_ℕ, pos_part, neg_part, ◌*◌, String, Bool, true, false, Option, none, some, List, [],
  ◌∷◌, ◌++◌, map, any, length, ◌&&◌, ◌==◌, not, ◌⧺◌, itoa, string_eq, if◌then◌else◌,
}
use cnsbench.Exec.{
  on_try, Error, Outcome, Try, returned, failed, Exec, pure, lift, attempt, ◌>>=◌, ◌>>◌,
}
use cnsbench.Api.{Benchmark, Output}
use cnsbench.Kube.{
  Object, nil, PodSpec, PodVolume, Container, VolumeMount, EnvVar, config_map, empty_dir, secret,
}
use cnsbench.Podutils.{pod_spec, update_pod_spec}
use cnsbench.Env.{Env, Run, Reconciler}
use cnsbench.Controllers.Create.{
  create_tmp_config_map_from_disk, clone_parser, get_parser_container_image,
}

unfoldable pub vol_in_spec : List PodVolume → String → Bool
vol_in_spec vols name = any (λ (v : PodVolume). v.name == name) vols

-- The mode 0777 of a config map's files.
unfoldable pub new_cm_vol : String → String → PodVolume
new_cm_vol name cm_name = record { name = name; source = config_map cm_name 0o777 }

abbrev pub output_mount : VolumeMount
output_mount = record { mount_path = "/output"; name = "output-vol"; sub_path = "" }

abbrev pub token_mount : VolumeMount
token_mount = record {
  mount_path = "/var/run/secrets/kubernetes.io/podwatcher";
  name = "pod-watcher-token";
  sub_path = "";
}

unfoldable pub build_container : String → String → String → Container
build_container container_name image_name cmdline = record {
  name = container_name;
  image = image_name;
  command = "sh" ∷ "-c" ∷ cmdline ∷ [];
  volume_mounts =
      record { mount_path = "/scripts/countdone.sh"; name = "helper"; sub_path = "countdone.sh" }
      ∷ token_mount
      ∷ output_mount
      ∷ [];
  env = record { name = "POD_NAME"; value = ""; field_path = "metadata.name" } ∷ [];
}

abbrev pub has_output_mount : Container → Bool
has_output_mount c = any (λ (v : VolumeMount). v.name == "output-vol") c.volume_mounts

unfoldable pub mount_output : Container → Container
mount_output c =
    if has_output_mount c
    then c
    else record c { volume_mounts = c.volume_mounts ++ output_mount ∷ [] }

-- The volume "output-vol", and its mount in every container that lacks it.
unfoldable pub with_output_vol : PodSpec → PodSpec
unfolding mount_output
with_output_vol spec = record spec {
  volumes = spec.volumes ++ record { name = "output-vol"; source = empty_dir } ∷ [];
  containers = map mount_output spec.containers;
}

unfoldable pub with_token_vol : PodSpec → PodSpec
with_token_vol spec = record spec {
  volumes =
      spec.volumes
      ++ record { name = "pod-watcher-token"; source = secret "pod-watcher-token" } ∷ [];
}

unfoldable pub with_parser_container : String → String → String → PodSpec → PodSpec
unfolding build_container new_cm_vol vol_in_spec
with_parser_container parser_cm_name log_filename image_name spec =
    let cmdline =
      "/scripts/countdone.sh 1 && /scripts/parser/* " ⧺ log_filename ⧺ " > " ⧺ log_filename
      ⧺ ".parsed" in
    let c = build_container "parser-container" image_name cmdline in
    let mount : VolumeMount = record {
      mount_path = "/scripts/parser";
      name = "parser";
      sub_path = "";
    } in
    record spec {
      containers =
          spec.containers ++ record c { volume_mounts = c.volume_mounts ++ mount ∷ [] } ∷ [];
      volumes =
          if vol_in_spec spec.volumes "parser"
          then spec.volumes
          else spec.volumes ++ new_cm_vol "parser" parser_cm_name ∷ [];
    }

unfoldable pub output_container : String → String → String → Container
unfolding build_container
output_container output_args output_script output_filename =
    let cmdline =
      "/scripts/countdone.sh 2 && /scripts/" ⧺ output_script ⧺ " " ⧺ output_filename ⧺ ".parsed "
      ⧺ output_args in
    let c = build_container "output-container" "cnsbench/utility:latest" cmdline in
    let mount : VolumeMount = record {
      mount_path = "/scripts/" ⧺ output_script;
      name = "output";
      sub_path = output_script;
    } in
    record c { volume_mounts = c.volume_mounts ++ mount ∷ [] }

-- n * count
abbrev pub times : ℕ → ℤ → ℤ
times n count = sub_ℕ (n * pos_part count) (n * neg_part count)

unfoldable pub sync_container : ℕ → ℤ → String → String → Container
sync_container num_containers count workload_name sync_group = record {
  name = "sync-container";
  image = "cnsbench/utility:latest";
  command =
      "/scripts/ready.sh"
      ∷ ("workloadname%3D" ⧺ workload_name)
      ∷ itoa (times num_containers count)
      ∷ (if sync_group == "" then [] else ("syncgroup%3D" ⧺ sync_group) ∷ []);
  volume_mounts =
      record { mount_path = "/scripts/"; name = "ready-script"; sub_path = "" } ∷ token_mount ∷ [];
  env = [];
}

-- An object and an error, as those functions return them.
abbrev pub Edited : Type 0
Edited = Object × Option Error

module _ (env : Env) where
  open env use {World}

  -- `if obj, err = f(obj); err != nil { return obj, err }`
  abbrev pub pass_on : (Object → Run World Edited) → Edited → Run World Edited
  pass_on f (obj, none) = f obj
  pass_on f (obj, some e) = pure (obj, some e)

  -- `spec, err := podutils.PodSpec(obj); if err != nil { return nil, err }`
  unfoldable pub on_spec : Object → (PodSpec → Run World Edited) → Run World Edited
  on_spec obj f = do
    t ← attempt (lift (pod_spec obj))
    on_try t (λ e. pure (nil, some e)) (λ spec. f spec)

  -- `return podutils.UpdatePodSpec(obj, *spec)`
  unfoldable pub set_spec : Object → PodSpec → Run World Edited
  set_spec obj spec = do
    t ← attempt (lift (update_pod_spec obj spec))
    on_try t (λ e. pure (nil, some e)) (λ obj'. pure (obj', none))

  unfoldable pub add_output_vol : Object → Run World Edited
  unfolding on_spec set_spec vol_in_spec
  add_output_vol obj = on_spec obj λ spec.
      if vol_in_spec spec.volumes "output-vol"
      then pure (obj, none)
      else set_spec obj (with_output_vol spec)

  unfoldable pub add_pod_watcher_token : Object → Run World Edited
  unfolding on_spec set_spec vol_in_spec
  add_pod_watcher_token obj = on_spec obj λ spec.
      if vol_in_spec spec.volumes "pod-watcher-token"
      then pure (obj, none)
      else set_spec obj (with_token_vol spec)

  -- A config map from a script of the disk, mounted as one more volume of `spec`.
  unfoldable pub script_vol : Benchmark → Object → String → String → PodSpec → Run World Edited
  unfolding set_spec new_cm_vol
  script_vol bm obj vol_name script_name spec = do
    t ← attempt (create_tmp_config_map_from_disk env bm script_name)
    on_try t (λ e. pure (obj, some e))
        (λ cm_name.
          set_spec obj (record spec { volumes = spec.volumes ++ new_cm_vol vol_name cm_name ∷ [] }))

  unfoldable pub add_countdone_script : Benchmark → Object → Run World Edited
  unfolding on_spec vol_in_spec script_vol
  add_countdone_script bm obj = on_spec obj λ spec.
      if vol_in_spec spec.volumes "helper"
      then pure (obj, none)
      else script_vol bm obj "helper" "countdone.sh" spec

  unfoldable pub setup_for_output : Benchmark → Object → Run World Edited
  unfolding add_output_vol add_pod_watcher_token add_countdone_script
  setup_for_output bm obj =
      add_output_vol obj
      >>= pass_on
          (λ obj₁. add_pod_watcher_token obj₁ >>= pass_on (λ obj₂. add_countdone_script bm obj₂))

  unfoldable pub add_parser_container_to_obj : Object → String → String → String → Run World Edited
  unfolding on_spec set_spec with_parser_container
  add_parser_container_to_obj obj parser_cm_name log_filename image_name =
      on_spec obj
        λ spec. set_spec obj (with_parser_container parser_cm_name log_filename image_name spec)

  unfoldable pub add_parser_container : Benchmark → Object → String → String → Run World Edited
  unfolding add_parser_container_to_obj
  add_parser_container bm obj parser outfile = do
    let name = if parser == "" then "null-parser" else parser
    t ← attempt (clone_parser env bm name)
    on_try t (λ e. pure (obj, some e))
        (λ tmp_cm_name. do
          i ← attempt (get_parser_container_image env name)
          on_try i (λ e. pure (obj, some e))
              (λ image_name. add_parser_container_to_obj obj tmp_cm_name outfile image_name))

  unfoldable pub add_output_container_to_obj :
      Benchmark → Object → String → String → String → Run World Edited
  unfolding on_spec output_container script_vol
  add_output_container_to_obj bm obj output_args output_script output_filename = on_spec obj λ spec.
      script_vol bm obj "output" output_script (record spec {
        containers =
            spec.containers ++ output_container output_args output_script output_filename ∷ [];
      })

  -- The arguments of the output script: the address of the last output of that name which has
  -- one, or the collector. The script is http-output.sh in both cases.
  unfoldable pub output_args : List Output → String → String → String
  output_args [] output_name args = args
  output_args (out ∷ outputs) output_name args = output_args outputs output_name (
      if out.name == output_name && not (out.http_post_spec.url == "")
      then out.http_post_spec.url
      else args)

  unfoldable pub add_output_container : Benchmark → Object → String → String → Run World Edited
  unfolding add_output_container_to_obj output_args
  add_output_container bm obj output_name output_file =
      let default =
        "http://cnsbench-output-collector.cnsbench-system.svc.cluster.local:8888/" ⧺ bm.name
        ⧺ "/" in
      add_output_container_to_obj bm obj (output_args bm.spec.outputs output_name default)
        "http-output.sh" output_file

  unfoldable pub add_sync_container : Benchmark → Object → ℤ → String → String → Run World Edited
  unfolding on_spec script_vol sync_container
  add_sync_container bm obj count workload_name sync_group = on_spec obj λ spec.
      script_vol bm obj "ready-script" "ready.sh" (record spec {
        init_containers =
            spec.init_containers
            ++ sync_container (length spec.init_containers) count workload_name sync_group ∷ [];
      })
