-- ===== src/Controllers/Quiet/Containers.antt =====
-- The requests of the functions that prepare and create an object of a workload.
use cnsbench.Prelude.{ℤ, String, none, some, List, [], ◌∷◌, Assoc}
use cnsbench.Api.{Benchmark, Workload, OutputFile}
use cnsbench.Kube.{Object, PodSpec}
use cnsbench.Env.{Env, Run, Call, Admits, Emits, emits_rules}
use cnsbench.Controllers.Containers.{
  Edited, pass_on, on_spec, set_spec, add_output_vol, add_pod_watcher_token, script_vol,
  add_countdone_script, setup_for_output, add_parser_container_to_obj, add_parser_container,
  add_output_container_to_obj, add_output_container, add_sync_container,
}
use cnsbench.Controllers.Prepare.{
  add_cnsb_labels, give_up, done_or_raise, add_output_file, add_one_file, add_output_files,
  add_containers, set_env, add_sync, prepare_and_run,
}
use cnsbench.Controllers.Quiet.Create.{
  create_obj-Emits, tmp_config_map-Emits, clone_parser-Emits, image-Emits,
}

module _ (env : Env) {P : Call → Type 0} (q : Admits P) where
  pass_on-Emits :
      (f : Object → Run env.World Edited) (x : Edited)
      → ((o : Object) → Emits P (f o))
      → Emits P (pass_on env f x)
  pass_on-Emits f (o, none) h = h o
  pass_on-Emits f (o, some e) h = search emits_rules

  give_up-Emits :
      (f : Object → Run env.World Edited) (x : Edited)
      → ((o : Object) → Emits P (f o))
      → Emits P (give_up env f x)
  give_up-Emits f (o, none) h = h o
  give_up-Emits f (o, some e) h = search emits_rules

  done_or_raise-Emits : (x : Edited) → Emits P (done_or_raise env x)
  done_or_raise-Emits (o, none) = search emits_rules
  done_or_raise-Emits (o, some e) = search emits_rules

  on_spec-Emits :
      (o : Object) (f : PodSpec → Run env.World Edited)
      → ((p : PodSpec) → Emits P (f p))
      → Emits P (on_spec env o f)
  unfolding on_spec
  on_spec-Emits o f h = search (emits_rules, h)

  set_spec-Emits : (o : Object) (p : PodSpec) → Emits P (set_spec env o p)
  unfolding set_spec
  set_spec-Emits o p = search emits_rules

  script_vol-Emits :
      (bm : Benchmark) (o : Object) (v n : String) (p : PodSpec)
      → Emits P (script_vol env bm o v n p)
  unfolding script_vol
  script_vol-Emits bm o v n p = search (emits_rules, tmp_config_map-Emits env q, set_spec-Emits)

  output_vol-Emits : (o : Object) → Emits P (add_output_vol env o)
  unfolding add_output_vol
  output_vol-Emits o = search (emits_rules, on_spec-Emits, set_spec-Emits)

  token-Emits : (o : Object) → Emits P (add_pod_watcher_token env o)
  unfolding add_pod_watcher_token
  token-Emits o = search (emits_rules, on_spec-Emits, set_spec-Emits)

  countdone-Emits : (bm : Benchmark) (o : Object) → Emits P (add_countdone_script env bm o)
  unfolding add_countdone_script
  countdone-Emits bm o = search (emits_rules, on_spec-Emits, script_vol-Emits)

  setup-Emits : (bm : Benchmark) (o : Object) → Emits P (setup_for_output env bm o)
  unfolding setup_for_output
  setup-Emits bm o =
      search (emits_rules, pass_on-Emits, output_vol-Emits, token-Emits, countdone-Emits) depth 8

  parser-Emits :
      (bm : Benchmark) (o : Object) (p f : String) → Emits P (add_parser_container env bm o p f)
  unfolding add_parser_container add_parser_container_to_obj
  parser-Emits bm o p f =
      search
        (emits_rules, on_spec-Emits, set_spec-Emits, clone_parser-Emits env q, image-Emits env q)
        depth 9

  output_container-Emits :
      (bm : Benchmark) (o : Object) (n f : String) → Emits P (add_output_container env bm o n f)
  unfolding add_output_container add_output_container_to_obj
  output_container-Emits bm o n f = search (emits_rules, on_spec-Emits, script_vol-Emits)

  sync-Emits :
      (bm : Benchmark) (o : Object) (c : ℤ) (n g : String)
      → Emits P (add_sync_container env bm o c n g)
  unfolding add_sync_container
  sync-Emits bm o c n g = search (emits_rules, on_spec-Emits, script_vol-Emits)

  output_file-Emits :
      (bm : Benchmark) (p f n : String) (o : Object) → Emits P (add_output_file env bm p f n o)
  unfolding add_output_file
  output_file-Emits bm p f n o =
      search
        (
          emits_rules, give_up-Emits, pass_on-Emits, setup-Emits, parser-Emits,
          output_container-Emits,
        )
        depth 8

  one_file-Emits :
      (bm : Benchmark) (role : String) (f : OutputFile) (next : Object → Run env.World Edited)
      (o : Object)
      → ((o : Object) → Emits P (next o))
      → Emits P (add_one_file env bm role f next o)
  unfolding add_one_file
  one_file-Emits bm role f next o h =
      search
        (
          emits_rules, give_up-Emits, pass_on-Emits, setup-Emits, parser-Emits,
          output_container-Emits, h,
        )
        depth 10

  output_files-Emits :
      (bm : Benchmark) (role : String) (files : List OutputFile) (o : Object)
      → Emits P (add_output_files env bm role files o)
  unfolding add_output_files
  output_files-Emits bm role [] o = search emits_rules
  output_files-Emits bm role (f ∷ files) o =
      one_file-Emits bm role f _ o (λ o'. output_files-Emits bm role files o')

  containers-Emits :
      (bm : Benchmark) (o : Object) (as' : Assoc String String) (w : Workload)
      → Emits P (add_containers env bm o as' w)
  unfolding add_containers
  containers-Emits bm o as' w = search (emits_rules, output_files-Emits, output_file-Emits)

  labels-Emits :
      (w : Workload) (o : Object) (as' : Assoc String String)
      → Emits P (add_cnsb_labels env w o as')
  unfolding add_cnsb_labels
  labels-Emits w o as' = search emits_rules depth 8

  set_env-Emits : (n v : String) (o : Object) → Emits P (set_env env n v o)
  unfolding set_env
  set_env-Emits n v o = search emits_rules

  add_sync-Emits :
      (bm : Benchmark) (o : Object) (as' : Assoc String String) (w : Workload) (n : String)
      → Emits P (add_sync env bm o as' w n)
  unfolding add_sync
  add_sync-Emits bm o as' w n =
      search (emits_rules, sync-Emits, token-Emits, done_or_raise-Emits) depth 8

  pub prepare-Emits :
      (bm : Benchmark) (w : ℤ) (n : String) (a : Workload) (as' : Assoc String String) (t : String)
      → Emits P (prepare_and_run env bm w n a as' t)
  unfolding prepare_and_run
  prepare-Emits bm w n a as' t =
      search
        (
          emits_rules,
          containers-Emits,
          set_env-Emits,
          labels-Emits,
          add_sync-Emits,
          done_or_raise-Emits,
          create_obj-Emits env q,
        )
        depth 16
