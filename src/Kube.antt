-- ===== src/Kube.antt =====
-- The Kubernetes objects that the program builds and reads, with the fields that it uses.
-- `kind` is TypeMeta.Kind: the decoder of YAML sets it, an object built in Go leaves it empty.
use cnsbench.Prelude.{ℕ, String, Option, List, Assoc}
use cnsbench.Api.{Time, LabelSelector}

pub record EnvVar : Type 0 where
  pub name : String
  pub value : String
  pub field_path : String

pub record VolumeMount : Type 0 where
  pub mount_path : String
  pub name : String
  pub sub_path : String

pub record Container : Type 0 where
  pub name : String
  pub image : String
  pub command : List String
  pub volume_mounts : List VolumeMount
  pub env : List EnvVar

pub data VolumeSource : Type 0 where
  config_map : String → ℕ → VolumeSource
  empty_dir : VolumeSource
  secret : String → VolumeSource
  other : String → VolumeSource

pub record PodVolume : Type 0 where
  pub name : String
  pub source : VolumeSource

pub record PodSpec : Type 0 where
  pub restart_policy : String
  pub service_account_name : String
  pub containers : List Container
  pub init_containers : List Container
  pub volumes : List PodVolume

-- `labels` is `none` for a nil map.
pub record ObjectMeta : Type 0 where
  pub kind : String
  pub name : String
  pub namespace : String
  pub labels : Option (Assoc String String)
  pub annotations : Assoc String String
  pub owner_references : List String

pub record SnapshotSpec : Type 0 where
  pub volume_snapshot_class_name : String
  pub persistent_volume_claim_name : String

-- The Go types behind `client.Object`. A job and a stateful set also have the labels of their pod
-- template; `opaque` is any other type, and `nil` the nil interface.
pub data Object : Type 0 where
  job : ObjectMeta → Option (Assoc String String) → PodSpec → Object
  pod : ObjectMeta → PodSpec → Object
  stateful_set : ObjectMeta → Option (Assoc String String) → PodSpec → Object
  config_map : ObjectMeta → Assoc String String → Object
  persistent_volume_claim : ObjectMeta → String → Object
  volume_snapshot : ObjectMeta → SnapshotSpec → Object
  opaque : ObjectMeta → String → Object
  nil : Object

-- What the API server tells of objects that exist.
pub record ConfigMap : Type 0 where
  pub annotations : Assoc String String
  pub items : Assoc String String

pub record Terminated : Type 0 where
  pub finished_at : Time

pub record ContainerStatus : Type 0 where
  pub restart_count : ℕ
  pub terminated : Option Terminated

pub record PodInfo : Type 0 where
  pub name : String
  pub phase : String
  pub container_statuses : List ContainerStatus

-- `completions` is a pointer.
pub record JobInfo : Type 0 where
  pub succeeded : ℕ
  pub completions : Option ℕ

pub record StatefulSetInfo : Type 0 where
  pub selector : LabelSelector

pub record ClaimInfo : Type 0 where
  pub name : String
  pub phase : String

pub record Unstructured : Type 0 where
  pub name : String
  pub creation_timestamp : Time
