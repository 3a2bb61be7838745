-- ===== src/Controllers/Quiet/Create.antt =====
-- The requests of pkg/output and of the functions that create one object.
use cnsbench.Prelude.{ℕ, zero, suc, String, Bool, List, [], ◌∷◌}
use cnsbench.Api.{Benchmark, Output, Volume}
use cnsbench.Kube.{Object}
use cnsbench.Env.{Env, Run, Call, Admits, Emits, Emits-if, Emits-bind, emits_rules}
use cnsbench.Output
use cnsbench.Controllers.Create.{
  metric, create_obj, create_claims, create_volume, create_tmp_config_map_from_disk, clone_parser,
  get_parser_container_image,
}

module _ (env : Env) {P : Call → Type 0} (q : Admits P) where
  open q use {of_created, of_watched, of_posted}

  do_one-Emits :
      (out : Output) (body name bm : String) (rest skip : Run env.World (Unit {0}))
      → Emits P rest
      → Emits P skip
      → Emits P (Output.do_one env out body name bm rest skip)
  unfolding Output.do_one
  do_one-Emits out body name bm rest skip h k =
      Emits-if _ _ _
        (Emits-bind _ _ (search (emits_rules, of_posted)) (λ t. search (emits_rules, h))) k

  do_output-Emits :
      (outputs : List Output) (body name bm : String)
      → Emits P (Output.do_output env outputs body name bm)
  unfolding Output.do_output
  do_output-Emits [] body name bm = search emits_rules
  do_output-Emits (out ∷ outputs) body name bm =
      do_one-Emits out body name bm _ _ (do_output-Emits outputs "" name bm)
        (do_output-Emits outputs body name bm)

  pub metric-Emits : (bm : Benchmark) (t : String) (l : List String) → Emits P (metric env bm t l)
  unfolding metric Output.metric
  metric-Emits bm t l = do_output-Emits bm.spec.outputs _ bm.spec.metrics_output bm.name

  pub output-Emits :
      (name : String) (bm : Benchmark) (a b c : ℕ) → Emits P (Output.output env name bm a b c)
  unfolding Output.output
  output-Emits name bm a b c = do_output-Emits bm.spec.outputs _ name bm.name

  pub create_obj-Emits : (bm : Benchmark) (o : Object) (b : Bool) → Emits P (create_obj env bm o b)
  unfolding create_obj
  create_obj-Emits bm o b = search (emits_rules, metric-Emits, of_created, of_watched) depth 10

  create_claims-Emits :
      (bm : Benchmark) (vol : Volume) (k c : ℕ) → Emits P (create_claims env bm vol k c)
  unfolding create_claims
  create_claims-Emits bm vol zero c = search emits_rules
  create_claims-Emits bm vol (suc k) c =
      search (emits_rules, create_obj-Emits, create_claims-Emits bm vol k)

  pub create_volume-Emits : (bm : Benchmark) (vol : Volume) → Emits P (create_volume env bm vol)
  unfolding create_volume
  create_volume-Emits bm vol = create_claims-Emits bm vol _ 0

  pub tmp_config_map-Emits :
      (bm : Benchmark) (name : String) → Emits P (create_tmp_config_map_from_disk env bm name)
  unfolding create_tmp_config_map_from_disk
  tmp_config_map-Emits bm name = search (emits_rules, create_obj-Emits) depth 8

  pub clone_parser-Emits : (bm : Benchmark) (name : String) → Emits P (clone_parser env bm name)
  unfolding clone_parser
  clone_parser-Emits bm name = search (emits_rules, create_obj-Emits) depth 8

  pub image-Emits : (name : String) → Emits P (get_parser_container_image env name)
  unfolding get_parser_container_image
  image-Emits name = search emits_rules
