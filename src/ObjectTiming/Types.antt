-- ===== src/ObjectTiming/Types.antt =====
-- pkg/objecttiming/types.go: a record of a running or finished action, and a line of the log.
-- The decoders of encoding/json and package time are the parameter `Decoders`.
use cnsbench.Prelude.{
  ℕ, ℤ, String, Bool, true, false, Option, none, some, List, Assoc, get, ◌==◌, nat_eq, string_eq,
}
use cnsbench.Exec.{Outcome, ok, fault, panic, Try}
use cnsbench.Api.{Time}

-- What an `interface{}` of a record holds: nil, a text, a time, a uint8, an int64, labels, a bool.
pub data Value : Type 0 where
  null : Value
  text : String → Value
  time : Time → Value
  uint : ℕ → Value
  int : ℤ → Value
  labels : Assoc String String → Value
  flag : Bool → Value

-- jsondict
abbrev pub Dict : Type 0
Dict = Assoc String Value

-- `rec[key]`, which is nil where the key is missing.
unfoldable pub read : String → Dict → Value
read key rec = elim (get key rec) [ none ↦ null | some v ↦ v ]

-- `rec[key] == s`, and `rec[key] == n`
abbrev pub is_text : Value → String → Bool
is_text (text t) s = t == s
is_text _ s = false

abbrev pub is_uint : Value → ℕ → Bool
is_uint (uint m) n = m == n
is_uint _ n = false

abbrev pub is_null : Value → Bool
is_null null = true
is_null _ = false

-- The type assertions, which panic.
abbrev pub as_time : Value → Outcome Time
as_time (time t) = ok t
as_time _ = fault panic

abbrev pub as_uint : Value → Outcome ℕ
as_uint (uint n) = ok n
as_uint _ = fault panic

abbrev pub as_text : Value → Outcome String
as_text (text s) = ok s
as_text _ = fault panic

pub record ObjRef : Type 0 where
  pub resource : String
  pub namespace : String
  pub name : String
  pub subresource : String

pub record InvolvedObject : Type 0 where
  pub kind : String
  pub namespace : String
  pub name : String

-- `status` is the text of a json value, or nil.
pub record ReqObject : Type 0 where
  pub status : Option String
  pub involved_object : InvolvedObject
  pub reason : String
  pub message : String

-- The two numbers are of type uint8.
pub record ObjSpec : Type 0 where
  pub replicas : ℕ
  pub parallelism : ℕ
  pub volume_name : String

pub record RespObject : Type 0 where
  pub name : String
  pub labels : Option (Assoc String String)
  pub spec : ObjSpec
  pub status : Option String

pub record AuditLog : Type 0 where
  pub stage : String
  pub verb : String
  pub stage_timestamp : String
  pub request_received_timestamp : String
  pub object_ref : ObjRef
  pub code : ℤ
  pub request_object : ReqObject
  pub response_object : RespObject

-- scaleStatus, whose numbers are of type uint8.
pub record ScaleStatus : Type 0 where
  pub available_replicas : ℕ
  pub current_replicas : ℕ
  pub fully_labeled_replicas : ℕ
  pub ready_replicas : ℕ
  pub updated_replicas : ℕ
  pub active : ℕ

-- json.Unmarshal into the types of the package, and time.Parse. `none` is an error.
pub record Decoders : Type 0 where
  pub audit_log : String → Try AuditLog
  pub create_phase : String → Option String
  pub scale_status : String → Option ScaleStatus
  -- the reasons for which the containers of a pod wait; the bytes may be missing
  pub waiting_reasons : Option String → Option (List String)
  pub parse_time : String → Option Time

-- `panic(err)`
abbrev pub or_panic {ℓ} : {A : Type ℓ} → Option A → Outcome A
or_panic none = fault panic
or_panic (some a) = ok a
