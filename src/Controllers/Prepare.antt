-- ===== src/Controllers/Prepare.antt =====
-- replaceVars, getRole, addContainers, addCNSBLabels and prepareAndRun of controllers/workload.go:
-- one object of a workload, from its text to the request that creates it.
use cnsbench.Prelude.{
  ℤ, ltb, String, Bool, false, Option, none, some, List, [], ◌∷◌, Assoc, get, put, ◌&&◌, ◌||◌, ◌==◌,
  string_eq, ◌⧺◌, replace_all, to_upper, itoa, split_n, parse_bool, length, if◌then◌else◌,
}
use cnsbench.Exec.{
  on_try, on_option, Outcome, ok, err, fault, pure, raise, lift, of_try, attempt, is_already_exists,
  ◌>>=◌,
}
use cnsbench.Api.{Benchmark, Workload, OutputFile}
use cnsbench.Kube.{Object, nil, ObjectMeta}
use cnsbench.Podutils.{object_meta, with_meta, add_labels_generic, set_env_var}
use cnsbench.Env.{Env, Run}
use cnsbench.Controllers.Create.{create_obj}
use cnsbench.Controllers.Containers.{
  Edited, pass_on, setup_for_output, add_parser_container, add_output_container, add_sync_container,
  add_pod_watcher_token,
}

abbrev pub braced : String → String
braced name = "{{" ⧺ name ⧺ "}}"

-- Each variable of the workload in turn, in the order in which the map is visited.
unfoldable pub replace_each : Assoc String String → String → String
replace_each [] text = text
replace_each ((k, v) ∷ vars) text = replace_each vars (replace_all text (braced k) v)

-- The variable for which the annotation `cnsbench.default.<variable>` gives a default.
unfoldable pub default_variable : List String → Option String
default_variable (a ∷ b ∷ c ∷ []) = if a == "cnsbench" && b == "default" then some c else none
default_variable _ = none

unfoldable pub replace_defaults : Assoc String String → String → String
unfolding default_variable
replace_defaults [] text = text
replace_defaults ((k, v) ∷ annotations) text =
    replace_defaults annotations (elim (default_variable (split_n k b'.' 3)) [
      | none ↦ text
      | some name ↦ replace_all text (braced name) v
    ])

unfoldable pub replace_vars : String → Workload → ℤ → ℤ → String → Assoc String String → String
unfolding replace_each replace_defaults
replace_vars cm_string spec instance_num num_instances workload_name annotations =
    let text₁ = replace_defaults annotations (replace_each spec.vars cm_string) in
    let text₂ = replace_all text₁ "{{ACTION_NAME}}" workload_name in
    let text₃ = replace_all text₂ "{{ACTION_NAME_CAPS}}" (to_upper workload_name) in
    let text₄ = replace_all text₃ "{{INSTANCE_NUM}}" (itoa instance_num) in
    replace_all text₄ "{{NUM_INSTANCES}}" (itoa num_instances)

abbrev pub or_text : String → Option String → String
or_text d none = d
or_text d (some s) = s

unfoldable pub get_role : Assoc String String → String
get_role annotations = or_text "helper" (get "role" annotations)

unfoldable pub cnsb_labels :
    Workload → Assoc String String → Assoc String String → Assoc String String
unfolding get_role
cnsb_labels spec annotations labels =
    let labels' =
      if spec.sync_group == "" then labels else put "syncgroup" spec.sync_group labels in
    put "role" (get_role annotations) (put "workloadname" spec.name labels')

abbrev pub or_empty : Option (Assoc String String) → Assoc String String
or_empty none = []
or_empty (some labels) = labels

-- The label map of the object is the one that AddLabelsGeneric changes.
unfoldable pub relabel : Workload → Object → Assoc String String → ObjectMeta → Outcome Object
unfolding cnsb_labels
relabel spec obj annotations m =
    let labels = cnsb_labels spec annotations (or_empty m.labels) in
    elim (add_labels_generic (with_meta (record m { labels = some labels }) obj) labels) [
      | ok (obj', labels') ↦ ok (with_meta (record m { labels = some labels' }) obj')
      | err e ↦ err e
      | fault x ↦ fault x
    ]

module _ (env : Env) where
  open env use {World}

  unfoldable pub add_cnsb_labels : Workload → Object → Assoc String String → Run World Edited
  unfolding relabel
  add_cnsb_labels spec obj annotations = do
    t ← attempt (lift (object_meta obj))
    on_try t (λ e. pure (nil, some e))
        (λ m. do
          l ← attempt (lift (relabel spec obj annotations m))
          on_try l (λ e. pure (nil, some e)) (λ obj'. pure (obj', none)))

  -- An error of setupForOutput ends addContainers with no error.
  abbrev pub give_up : (Object → Run World Edited) → Edited → Run World Edited
  give_up f (obj, none) = f obj
  give_up f (obj, some e) = pure (obj, none)

  -- A parser and an output container for one file.
  unfoldable pub add_output_file : Benchmark → String → String → String → Object → Run World Edited
  add_output_file bm parser filename sink obj =
      setup_for_output env bm obj
      >>= give_up (λ obj₁.
        add_parser_container env bm obj₁ parser filename
        >>= pass_on env (λ obj₂. add_output_container env bm obj₂ sink filename))

  abbrev pub is_target : String → OutputFile → Bool
  is_target role output = role == output.target || (role == "workload" && output.target == "")

  -- One round of the loop over `OutputFiles`; `give_up` leaves the loop too.
  unfoldable pub add_one_file :
      Benchmark → String → OutputFile → (Object → Run World Edited) → Object → Run World Edited
  add_one_file bm role o next obj =
      if is_target role o
      then (setup_for_output env bm obj
          >>= give_up (λ obj₁.
            add_parser_container env bm obj₁ o.parser o.filename
            >>= pass_on env
                (λ obj₂. add_output_container env bm obj₂ o.sink o.filename >>= pass_on env next)))
      else next obj

  unfoldable pub add_output_files : Benchmark → String → List OutputFile → Object → Run World Edited
  unfolding add_one_file
  add_output_files bm role [] obj = pure (obj, none)
  add_output_files bm role (o ∷ files) obj =
      add_one_file bm role o (add_output_files bm role files) obj

  unfoldable pub add_containers :
      Benchmark → Object → Assoc String String → Workload → Run World Edited
  unfolding add_output_files add_output_file
  add_containers bm obj annotations spec =
      if ltb 0 (length spec.output_files)
      then add_output_files bm (get_role annotations) spec.output_files obj
      else on_option (get "outputFile" annotations) (pure (obj, none)) (λ file.
        add_output_file bm (or_text "" (get "parser" annotations)) file bm.spec.workloads_output
          obj)

  abbrev pub done_or_raise : Edited → Run World Object
  done_or_raise (obj, none) = pure obj
  done_or_raise (obj, some e) = raise e

  -- The object is changed in place, and the result of SetEnvVar is not looked at.
  unfoldable pub set_env : String → String → Object → Run World Object
  set_env name value obj = do
    t ← attempt (lift (set_env_var name value obj))
    on_try t (λ e. pure obj) (λ obj'. pure obj')

  unfoldable pub add_sync :
      Benchmark → Object → Assoc String String → Workload → String → Run World Object
  add_sync bm obj annotations a workload_name = on_option (get "sync" annotations) (pure obj) (λ _.
      do
        obj₁ ← add_sync_container env bm obj a.count workload_name a.sync_group >>= done_or_raise
        add_pod_watcher_token env obj₁ >>= done_or_raise)

  in_default : Outcome ObjectMeta → Bool
  in_default (ok m) = m.namespace == "default"
  in_default _ = false

  skips_volume : Workload → Assoc String String → Bool
  skips_volume a annotations =
      get_role annotations == "volume" && parse_bool (or_text "" (get "volname" a.vars))

  unfoldable pub prepare_and_run :
      Benchmark → ℤ → String → Workload → Assoc String String → String → Run World (Unit {0})
  unfolding add_sync in_default skips_volume set_env
  prepare_and_run bm w workload_name a cm_annotations text = do
    obj ← lift (of_try (env.decode (replace_vars text a w a.count workload_name cm_annotations)))
    m ← lift (object_meta obj)
    if skips_volume a m.annotations then pure tt else do
      obj₁ ← add_containers bm obj m.annotations a >>= done_or_raise
      obj₂ ← set_env "INSTANCE_NUM" (itoa w) obj₁
      obj₃ ← set_env "NUM_INSTANCES" (itoa a.count) obj₂
      obj₄ ← add_cnsb_labels a obj₃ m.annotations >>= done_or_raise
      obj₅ ← add_sync bm obj₄ m.annotations a workload_name
      t ← attempt (create_obj env bm obj₅ (in_default (object_meta obj₅)))
      on_try t (λ e. if is_already_exists e then pure tt else raise e) (λ _. pure tt)
