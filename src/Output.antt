-- ===== src/Output.antt =====
-- pkg/output/output.go and post.go: sending metrics and metadata to the outputs of a benchmark.
-- `env.post` is `HttpPost`'s request; a failure before or in `client.Do` is its error.
pub mod Posts
use cnsbench.Prelude.{
  ℕ, String, List, [], ◌∷◌, Assoc, put, ◌&&◌, not, ◌==◌, ◌⧺◌, string_eq, if◌then◌else◌,
}
use cnsbench.Exec.{on_try, pure, attempt, ◌>>=◌}
use cnsbench.Api.{Output, Benchmark}
use cnsbench.Env.{Env, Run, posted, call}

-- The pairs of a list of keys and values; a last key without a value is ignored.
unfoldable pub metrics_map : List String → Assoc String String → Assoc String String
metrics_map [] m = m
metrics_map (k ∷ []) m = m
metrics_map (k ∷ v ∷ rest) m = metrics_map rest (put k v m)

module _ (env : Env) where
  open env use {World}

  -- HttpPost
  unfoldable pub http_post : String → String → Run World (Unit {0})
  http_post body url = call (posted url body) (env.post url body)

  -- One output: `rest` if its request succeeds, `skip` if it is not the one that is meant.
  unfoldable pub do_one :
      Output
      → String
      → String
      → String
      → Run World (Unit {0})
      → Run World (Unit {0})
      → Run World (Unit {0})
  unfolding http_post
  do_one out body output_name benchmark_name rest skip =
      if out.name == output_name && not (out.http_post_spec.url == "")
      then (attempt (http_post body (out.http_post_spec.url ⧺ "/" ⧺ benchmark_name)) >>= λ t.
          on_try t (λ _. pure tt) (λ _. rest))
      else skip

  -- The reader is read to its end by the first request, so a later one sends nothing. An error
  -- ends the loop.
  unfoldable pub do_output : List Output → String → String → String → Run World (Unit {0})
  unfolding do_one
  do_output [] body output_name benchmark_name = pure tt
  do_output (out ∷ outputs) body output_name benchmark_name =
      do_one out body output_name benchmark_name (do_output outputs "" output_name benchmark_name)
        (do_output outputs body output_name benchmark_name)

  unfoldable pub metric : List Output → String → String → List String → Run World (Unit {0})
  metric outputs output_name benchmark_name metrics =
      do_output outputs (env.encode_metrics (metrics_map metrics [])) output_name benchmark_name

  unfoldable pub output : String → Benchmark → ℕ → ℕ → ℕ → Run World (Unit {0})
  output output_name bm start_time completion_time init_completion_time =
      do_output bm.spec.outputs
        (env.encode_output bm.name bm.spec start_time completion_time init_completion_time)
        output_name bm.name
