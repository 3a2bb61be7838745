-- ===== src/Podutils/ScalePods.antt =====
-- CleanupScalePods of pkg/podutils/podutils.go: the deletion of the scale pods that are done.
use cnsbench.Prelude.{
  String, List, [], ◌∷◌, ◌≡◌, refl, ◌==◌, string_eq, Bool-cases, inl, inr, if◌then◌else◌,
}
use cnsbench.Exec.{
  ok, Try, returned, failed, Exec, pure, lift, of_try, attempt, logged, when, for_each, ◌>>=◌,
}
use cnsbench.Api.{LabelSelector}
use cnsbench.Kube.{PodInfo}
use cnsbench.Env.{Env, Run, Reconciler, Call, deleted, request, call}

abbrev pub scale_selector : LabelSelector
scale_selector = record { match_labels = []; match_expressions = [] }

module _ (env : Env) where
  open env use {World}

  -- One round of the loop: an error of the deletion is only printed.
  unfoldable pub delete_if_done : PodInfo → Run World (Unit {0})
  delete_if_done pod =
      when (pod.phase == "Succeeded") (logged (call (deleted pod.name) (env.delete_pod pod)))

  unfoldable pub cleanup_scale_pods : Run World (Unit {0})
  unfolding delete_if_done
  cleanup_scale_pods = do
    selector ← lift (of_try (env.as_selector (env.add_label scale_selector "app" "scale-pod")))
    pods ← request (env.list_pods selector)
    for_each pods delete_if_done

  -- The names of the pods that have succeeded.
  abbrev pub done_names : List PodInfo → List String
  done_names [] = []
  done_names (pod ∷ pods) =
      let rest = done_names pods in if pod.phase == "Succeeded" then pod.name ∷ rest else rest

  -- The requests that delete these names one after the other, the newest first.
  abbrev pub deletions : List String → List Call → List Call
  deletions [] calls = calls
  deletions (name ∷ names) calls = deletions names (deleted name ∷ calls)

  logged-ok :
      {W : Type 0} (m : Exec W (Unit {0})) (s : W) (t : Try (Unit {0}))
      → (m s).0 ≡ of_try t
      → logged m s ≡ (ok tt, (m s).1)
  unfolding logged attempt pure ◌>>=◌
  logged-ok m s (returned tt) h = simp h
  logged-ok m s (failed e) h = simp h

  each-calls :
      (pods : List PodInfo) (s : Reconciler env.World)
      → ((for_each pods delete_if_done s).0 ≡ ok tt)
        × ((for_each pods delete_if_done s).1.calls ≡ deletions (done_names pods) s.calls)
  unfolding for_each delete_if_done pure call ◌>>=◌
  each-calls [] s = (refl, refl)
  each-calls (pod ∷ pods) s = elim (Bool-cases (pod.phase == "Succeeded")) [
    | inl done ↦
        let m = call (deleted pod.name) (env.delete_pod pod) in
        simp (done, logged-ok m s (env.delete_pod pod s.world).0 refl) (each-calls pods (m s).1)
    | inr waits ↦ simp waits (each-calls pods s)
  ]

  -- If the selector is valid and the list request answers, then CleanupScalePods returns without an
  -- error, whatever the deletions answer, and it has requested the deletion of exactly the pods of
  -- the list that have succeeded, in the order of the list.
  pub cleanup_scale_pods-calls :
      (s : Reconciler env.World) (sel : env.Selector) (pods : List PodInfo) (w : env.World)
      → env.as_selector (env.add_label scale_selector "app" "scale-pod") ≡ returned sel
      → env.list_pods sel s.world ≡ (returned pods, w)
      → ((cleanup_scale_pods s).0 ≡ ok tt)
        × ((cleanup_scale_pods s).1.calls ≡ deletions (done_names pods) s.calls)
  unfolding cleanup_scale_pods lift request ◌>>=◌
  cleanup_scale_pods-calls s sel pods w hs hl =
      simp (hs, hl) (each-calls pods (record s { world = w }))
