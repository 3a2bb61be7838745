-- ===== src/Controllers/Create.antt =====
-- createObj and CreateVolume of controllers/actions.go, metric of controllers/benchmark_controller.go,
-- and the temporary config maps of controllers/workload.go.
use cnsbench.Prelude.{
  ℕ, pos, pos_part, zero, suc, String, Bool, true, Option, none, some, List, [], ◌∷◌, ltb_ℤ, Assoc,
  get, ◌⧺◌, itoa, string_eq, if◌then◌else◌,
}
use cnsbench.Exec.{
  on_try, on_option, pure, raise, lift, of_try, attempt, logged, is_already_exists, ◌>>=◌, ◌>>◌,
}
use cnsbench.Api.{Benchmark, Volume}
use cnsbench.Kube.{Object, ObjectMeta, config_map, persistent_volume_claim}
use cnsbench.Podutils.{object_meta, with_meta}
use cnsbench.Output
use cnsbench.Env.{Env, Run, created, watched, request, read, call}

abbrev pub library_namespace : String
library_namespace = "cnsbench-library"

-- The metadata of an object that is built in Go, in the default namespace.
abbrev pub new_meta : String → Option (Assoc String String) → ObjectMeta
new_meta name labels = record {
  kind = "";
  name = name;
  namespace = "default";
  labels = labels;
  annotations = [];
  owner_references = [];
}

module _ (env : Env) where
  open env use {World}

  unfoldable pub metric : Benchmark → String → List String → Run World (Unit {0})
  metric bm metric_type metrics =
      Output.metric env bm.spec.outputs bm.spec.metrics_output bm.name
        ("type" ∷ metric_type ∷ metrics)

  owned : Benchmark → Object → ObjectMeta → Run World Object
  owned bm obj m = do
    m' ← lift (of_try (env.set_controller_reference bm m))
    m'' ← lift (of_try (env.set_owner_reference bm m'))
    pure (with_meta m'' obj)

  unfoldable pub create_obj : Benchmark → Object → Bool → Run World (Unit {0})
  unfolding owned
  create_obj bm obj make_owner = do
    m ← lift (object_meta obj)
    obj' ← (if make_owner then owned bm obj m else pure obj)
    t ← attempt (call (created obj') (env.create obj'))
    on_try t (λ e. if is_already_exists e then pure tt else raise e) (λ _. pure tt)
    metric bm "createObj" ("name" ∷ m.name ∷ "kind" ∷ m.kind ∷ [])
    call (watched obj') (env.watch obj')

  -- The claim number `c` of a volume.
  unfoldable pub volume_claim : Volume → ℕ → Object
  volume_claim vol c =
      let name = if ltb_ℤ (pos 1) vol.count then vol.name ⧺ "-" ⧺ itoa (pos c) else vol.name in
      persistent_volume_claim (new_meta name (some (("volumename", vol.name) ∷ []))) vol.spec

  unfoldable pub create_claims : Benchmark → Volume → ℕ → ℕ → Run World (Unit {0})
  create_claims bm vol zero c = pure tt
  create_claims bm vol (suc rounds) c = do
    logged (create_obj bm (volume_claim vol c) true)
    create_claims bm vol rounds (suc c)

  unfoldable pub create_volume : Benchmark → Volume → Run World (Unit {0})
  unfolding create_claims
  create_volume bm vol = create_claims bm vol (pos_part vol.count) 0

  -- An error of createObj is logged; the error that is returned is the outer one, which is nil.
  unfoldable pub create_tmp_config_map_from_disk : Benchmark → String → Run World String
  create_tmp_config_map_from_disk bm script_name = do
    script ← request (env.read_file script_name)
    name ← read (env.generate_name "helper-")
    logged (create_obj bm (config_map (new_meta name none) ((script_name, script) ∷ [])) true)
    pure name

  unfoldable pub clone_parser : Benchmark → String → Run World String
  clone_parser bm parser_name = do
    parser_cm ← request (env.get_config_map parser_name library_namespace)
    name ← read (env.generate_name (parser_name ⧺ "-"))
    logged (create_obj bm (config_map (new_meta name none) parser_cm.items) true)
    pure name

  unfoldable pub get_parser_container_image : String → Run World String
  get_parser_container_image parser_name = do
    parser_cm ← request (env.get_config_map parser_name library_namespace)
    on_option (get "container" parser_cm.annotations) (pure "busybox")
        (λ image_name. pure image_name)
