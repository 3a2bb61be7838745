-- ===== src/TimingCommand/Options.antt =====
-- util/analysis/objecttiming/main.go: what the arguments of the command select.
-- The parser of the flags, package flag, has taken `--rs` and `--ns` from the arguments.
pub mod Selected
use Prim.Native.Nat.{bit_or}
use cnsbench.Prelude.{
  ℕ, String, Bool, true, false, List, [], ◌∷◌, ◌==◌, ◌||◌, ◌&&◌, string_eq, if◌then◌else◌,
}
use cnsbench.ObjectTiming.Parse.{parse_create, parse_scale, parse_pvc_pod}

abbrev default_file : String
default_file = "/var/log/apiserver/audit.log"

-- The name of the log: the first argument, if there is one.
unfoldable pub log_file : List String → String
log_file [] = default_file
log_file (file ∷ _) = file

-- The variables of the loop over the resources.
pub record Selection : Type 0 where
  pub flags : ℕ
  pub pod : Bool
  pub pvc : Bool

-- `flags |= f`
abbrev with_flag : ℕ → Selection → Selection
with_flag f s = record s { flags = bit_or s.flags f }

abbrev pub is_scalable : String → Bool
is_scalable r = r == "deployment" || r == "job" || r == "replicaset" || r == "statefulset"

-- One round.
unfoldable pub select_resource : String → Selection → Selection
select_resource r s =
    if r == "pod"
    then record (with_flag parse_create s) { pod = true }
    else if r == "pvc"
    then record (with_flag parse_create s) { pvc = true }
    else if r == "pv"
    then with_flag parse_create s
    else if is_scalable r
    then with_flag parse_scale s
    else s

unfoldable pub select_resources : List String → Selection → Selection
unfolding select_resource
select_resources [] s = s
select_resources (r ∷ resources) s = select_resources resources (select_resource r s)

-- The flags with which the log is parsed.
unfoldable pub flags_of : List String → ℕ
unfolding select_resources
flags_of resources =
    let s = select_resources resources (record { flags = 0; pod = false; pvc = false }) in
    if s.pod && s.pvc then bit_or s.flags parse_pvc_pod else s.flags
