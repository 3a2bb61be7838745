-- ===== src/Output/Posts.antt =====
-- The requests of doOutput of pkg/output/output.go.
use cnsbench.Prelude.{
  String, Bool, List, [], ◌∷◌, ◌≡◌, refl, ◌&&◌, not, ◌==◌, ◌⧺◌, string_eq, Bool-cases, inl, inr,
  if◌then◌else◌,
}
use cnsbench.Exec.{ok, returned, pure, attempt, ◌>>=◌}
use cnsbench.Api.{Output}
use cnsbench.Env.{Env, Reconciler, Call, posted, call}
use cnsbench.Output.{http_post, do_one, do_output}

-- Whether doOutput sends to an output.
abbrev pub is_meant : String → Output → Bool
is_meant name out = out.name == name && not (out.http_post_spec.url == "")

-- The addresses that are meant, in the order of the outputs.
abbrev pub targets : String → String → List Output → List String
targets name bm [] = []
targets name bm (out ∷ outputs) =
    let rest = targets name bm outputs in
    if is_meant name out then (out.http_post_spec.url ⧺ "/" ⧺ bm) ∷ rest else rest

-- The first address gets the body, every later one an empty body; the newest request first.
abbrev pub posts : String → List String → List Call → List Call
posts body [] calls = calls
posts body (url ∷ urls) calls = posts "" urls (posted url body ∷ calls)

module _ (env : Env)
    (delivered : (url body : String) (w : env.World) → (env.post url body w).0 ≡ returned tt) where
  -- If every request is answered without an error, then doOutput posts to the outputs that have the
  -- name and an address, in their order; only the first of them gets the body, the later ones get
  -- an empty one.
  pub do_output-posts :
      (outputs : List Output) (body name bm : String) (s : Reconciler env.World)
      → ((do_output env outputs body name bm s).0 ≡ ok tt)
        × ((do_output env outputs body name bm s).1.calls
            ≡ posts body (targets name bm outputs) s.calls)
  unfolding do_output do_one http_post call attempt pure ◌>>=◌
  do_output-posts [] body name bm s = (refl, refl)
  do_output-posts (out ∷ outputs) body name bm s = elim (Bool-cases (is_meant name out)) [
    | inl meant ↦
        let url = out.http_post_spec.url ⧺ "/" ⧺ bm in
        simp (meant, delivered url body s.world)
          (do_output-posts outputs "" name bm (call (posted url body) (env.post url body) s).1)
    | inr skipped ↦ simp skipped (do_output-posts outputs body name bm s)
  ]
