-- ===== src/Examples/Controller.antt =====
-- The theorems on the controller, at a concrete cluster.
use cnsbench.Prelude.{
  ◌≡◌, refl, ◌≤◌, arith, string_eq, ◌↔◌, Bool, true, false, some, List, [], ◌∷◌, ◌++◌, All, all,
  get, put,
}
use cnsbench.Exec.{returned, ok, fault, blocked, ◌>>=◌}
use cnsbench.Api.{Benchmark, Output, Delete}
use cnsbench.Kube.{Unstructured}
use cnsbench.Env.{Call, updated, deleted}
use cnsbench.Utils.{contains, remove}
use cnsbench.Utils.Laws.{without, remove-without}
use cnsbench.Env.{posted}
use cnsbench.Output.{do_output}
use cnsbench.Output.Posts.{do_output-posts}
use cnsbench.Podutils.ScalePods.{cleanup_scale_pods, cleanup_scale_pods-calls}
use cnsbench.Controllers.Completion.{count_completions, check_init}
use cnsbench.Controllers.Completion.Counts.{count_completions-eq, IsUp, check_init-eq}
use cnsbench.Controllers.Containers.{vol_in_spec, has_output_mount, with_output_vol}
use cnsbench.Controllers.Containers.Mounts.{with_output_vol-mounts}
use cnsbench.Controllers.Actions.{delete_obj}
use cnsbench.Controllers.Actions.Oldest.{age, In, delete_obj-oldest}
use cnsbench.Controllers.Routines.{is_known, start_rates, stop_routines, cleanup, rate_finalizer}
use cnsbench.Controllers.Routines.Channels.{
  known_rates, start_rates-stop_routines, stop_routines-stop_routines, cleanup-calls,
}
use cnsbench.Controllers.Reconcile.{add_default_outputs, default_endpoints, reconcile}
use cnsbench.Controllers.Reconcile.Transitions.{Follows, reconcile-Follows}
use cnsbench.Controllers.Reconcile.Outputs.{HasOutput, add_default_outputs-settles}
use cnsbench.Examples.{
  fio, bench, two_containers, pods_up, old_items, new_item, cluster, fresh, with_channel, snapshot,
}

reconcile-Follows_example :
    (new : List Call) × ((reconcile cluster "bench" fresh).1.calls ≡ new ++ [])
    × All (Follows (returned bench)) new
reconcile-Follows_example = reconcile-Follows cluster "bench" fresh

count_completions-eq_example :
    count_completions cluster "fio" fresh ≡ (ok (record { complete = 2; notcomplete = 3 }), fresh)
count_completions-eq_example =
    count_completions-eq cluster snapshot "fio" fresh refl (ground arith, tt)
      ((refl, ground arith), tt)

check_init-eq_example :
    (b : Bool) × (check_init cluster (fio ∷ []) fresh ≡ (ok b, fresh))
    × ((b ≡ true) ↔ (All IsUp pods_up × Unit {0}))
check_init-eq_example =
    check_init-eq cluster snapshot (λ name. record { match_labels = []; match_expressions = [] })
      (fio ∷ []) fresh ((refl, refl), tt)

remove-without_example : remove ("a" ∷ "b" ∷ "c" ∷ []) "b" ≡ some ("a" ∷ "c" ∷ [])
unfolding without
remove-without_example = remove-without ("a" ∷ "b" ∷ "c" ∷ []) "b" (ground arith)

abbrev running_bench : Benchmark
running_bench = record bench {
  finalizers = rate_finalizer ∷ [];
  status = record (bench.status) { running_rates = 2 };
}

start_rates-stop_routines_example :
    (start_rates cluster bench >>= λ x. stop_routines cluster x.0) fresh
    ≡ (ok tt, record fresh { control_channels = put "bench" 0 [] })
start_rates-stop_routines_example = start_rates-stop_routines cluster bench fresh

stop_routines-stop_routines_example :
    ((start_rates cluster bench >>= λ x.
    stop_routines cluster x.0 >>= λ _. stop_routines cluster x.0)
      fresh).0
    ≡ fault blocked
unfolding known_rates is_known
stop_routines-stop_routines_example = stop_routines-stop_routines cluster bench fresh (ground arith)

cleanup-calls_example :
    ((cleanup cluster running_bench (with_channel 4)).1.calls
      ≡ updated (record running_bench { finalizers = [] }) ∷ [])
    × ((cleanup cluster running_bench (with_channel 4)).1.control_channels ≡ ("bench", 0) ∷ [])
unfolding put without contains
cleanup-calls_example =
    cleanup-calls cluster running_bench (with_channel 4) (unfold get in refl) (ground arith)

add_default_outputs-settles_example :
    All (HasOutput (add_default_outputs bench).0.spec.outputs) default_endpoints
    × ((new : List Output) × ((add_default_outputs bench).0.spec.outputs ≡ new))
    × (add_default_outputs (add_default_outputs bench).0 ≡ ((add_default_outputs bench).0, false))
add_default_outputs-settles_example = add_default_outputs-settles bench

abbrev fixed : Benchmark
fixed = record bench {
  spec = record (bench.spec) {
    outputs =
        record { name = "defaultWorkloadsOutput"; http_post_spec = record { url = "u" } }
        ∷ record { name = "defaultMetadataOutput"; http_post_spec = record { url = "v" } }
        ∷ record { name = "defaultMetricsOutput"; http_post_spec = record { url = "w" } }
        ∷ [];
  };
}

with_output_vol-mounts_example :
    (vol_in_spec (with_output_vol two_containers).volumes "output-vol" ≡ true)
    × (all has_output_mount (with_output_vol two_containers).containers ≡ true)
    × ((with_output_vol (with_output_vol two_containers)).containers
        ≡ (with_output_vol two_containers).containers)
with_output_vol-mounts_example = with_output_vol-mounts two_containers

abbrev by_age : Delete
by_age = record {
  api_version = "v1";
  kind = "Pod";
  selector = record { match_labels = []; match_expressions = [] };
}

delete_obj-oldest_example :
    (item : Unstructured) × ((delete_obj cluster by_age fresh).1.calls ≡ deleted item.name ∷ [])
    × In item (new_item ∷ old_items)
    × All (λ x. age item ≤ age x) (new_item ∷ old_items)
delete_obj-oldest_example =
    delete_obj-oldest cluster by_age fresh by_age.selector new_item old_items tt refl refl

abbrev two_outputs : List Output
two_outputs =
    record { name = "out"; http_post_spec = record { url = "u" } }
    ∷ record { name = "other"; http_post_spec = record { url = "v" } }
    ∷ record { name = "out"; http_post_spec = record { url = "w" } }
    ∷ []

do_output-posts_example :
    ((do_output cluster two_outputs "body" "out" "bench" fresh).0 ≡ ok tt)
    × ((do_output cluster two_outputs "body" "out" "bench" fresh).1.calls
        ≡ posted "w/bench" "" ∷ posted "u/bench" "body" ∷ [])
do_output-posts_example =
    do_output-posts cluster (λ url body w. refl) two_outputs "body" "out" "bench" fresh

cleanup_scale_pods-calls_example :
    ((cleanup_scale_pods cluster fresh).0 ≡ ok tt)
    × ((cleanup_scale_pods cluster fresh).1.calls ≡ deleted "b" ∷ [])
cleanup_scale_pods-calls_example =
    cleanup_scale_pods-calls cluster fresh
      (record { match_labels = ("app", "scale-pod") ∷ []; match_expressions = [] }) pods_up tt refl
      refl
