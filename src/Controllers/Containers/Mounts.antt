-- ===== src/Controllers/Containers/Mounts.antt =====
-- The output volume of a pod.
use cnsbench.Prelude.{true, List, [], ◌∷◌, ◌++◌, map, any, all, ◌≡◌, refl, arith, ◌==◌, string_eq}
use cnsbench.Kube.{PodSpec, PodVolume, Container, VolumeMount, empty_dir}
use cnsbench.Controllers.Containers.{
  vol_in_spec, output_mount, has_output_mount, mount_output, with_output_vol,
}

has_mount-append :
    (xs : List VolumeMount)
    → any (λ (v : VolumeMount). v.name == "output-vol") (xs ++ output_mount ∷ []) ≡ true
has_mount-append [] = refl
has_mount-append (x ∷ xs) = ground (arith, has_mount-append xs)

mount_output-mounts : (c : Container) → has_output_mount (mount_output c) ≡ true
unfolding mount_output
mount_output-mounts c = ground (arith, has_mount-append c.volume_mounts)

mount_output-mounted : (c : Container) → has_output_mount c ≡ true → mount_output c ≡ c
unfolding mount_output
mount_output-mounted c h = rw (h, mount_output) refl

all_mount : (cs : List Container) → all has_output_mount (map mount_output cs) ≡ true
all_mount [] = refl
all_mount (c ∷ cs) = ground (arith, mount_output-mounts c, all_mount cs)

mount_again : (cs : List Container) → map mount_output (map mount_output cs) ≡ map mount_output cs
mount_again [] = refl
mount_again (c ∷ cs) =
    rw (mount_output-mounted (mount_output c) (mount_output-mounts c), mount_again cs) refl

vol-append :
    (vs : List PodVolume)
    → vol_in_spec (vs ++ record { name = "output-vol"; source = empty_dir } ∷ []) "output-vol"
      ≡ true
unfolding vol_in_spec
vol-append [] = refl
vol-append (v ∷ vs) = ground (arith, vol-append vs)

-- After the output volume is added to a pod, the pod has the volume and each of its containers
-- mounts it; mounting it again changes no container.
pub with_output_vol-mounts :
    (spec : PodSpec)
    → (vol_in_spec (with_output_vol spec).volumes "output-vol" ≡ true)
      × (all has_output_mount (with_output_vol spec).containers ≡ true)
      × ((with_output_vol (with_output_vol spec)).containers ≡ (with_output_vol spec).containers)
unfolding with_output_vol
with_output_vol-mounts spec =
    (vol-append spec.volumes, all_mount spec.containers, mount_again spec.containers)
