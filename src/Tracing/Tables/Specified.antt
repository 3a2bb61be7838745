-- ===== src/Tracing/Tables/Specified.antt =====
-- util/analysis/csi-tracing/csi.go: the two tables against the names of the interface.
use cnsbench.Prelude.{
  String, Bool, true, false, Option, none, some, List, [], ◌∷◌, any, ◌⧺◌, ◌==◌, string_eq, eq_iff,
  ◌≡◌, refl, sym, ap, Bool-cases, inl, inr, if◌then◌else◌,
}
use cnsbench.Tracing.Tables.{
  identity_request, controller_request, node_request, csi_request_struct, identity_response,
  controller_response, node_response, csi_response_struct,
}

-- The calls of the Container Storage Interface.
abbrev pub identity_calls : List String
identity_calls = "GetPluginInfo" ∷ "GetPluginCapabilities" ∷ "Probe" ∷ []

abbrev pub controller_calls : List String
controller_calls =
    "CreateVolume" ∷ "DeleteVolume" ∷ "ControllerPublishVolume" ∷ "ControllerUnpublishVolume"
    ∷ "ValidateVolumeCapabilities" ∷ "ListVolumes" ∷ "GetCapacity" ∷ "ControllerGetCapabilities"
    ∷ "CreateSnapshot" ∷ "DeleteSnapshot" ∷ "ListSnapshots" ∷ "ControllerExpandVolume"
    ∷ "ControllerGetVolume" ∷ []

abbrev pub node_calls : List String
node_calls =
    "NodeStageVolume" ∷ "NodeUnstageVolume" ∷ "NodePublishVolume" ∷ "NodeUnpublishVolume"
    ∷ "NodeGetVolumeStats" ∷ "NodeExpandVolume" ∷ "NodeGetCapabilities" ∷ "NodeGetInfo" ∷ []

abbrev pub calls_of : String → List String
calls_of service =
    if service == "Identity"
    then identity_calls
    else if service == "Controller"
    then controller_calls
    else if service == "Node"
    then node_calls
    else []

-- The message of a call has the name of the call and a suffix.
abbrev pub named : String → String → List String → Option String
named suffix rpc calls = if any (λ call. rpc == call) calls then some (rpc ⧺ suffix) else none

-- The switch on the name.
abbrev switched : String → String → List String → Option String
switched suffix rpc [] = none
switched suffix rpc (call ∷ calls) =
    let rest = switched suffix rpc calls in if rpc == call then some (call ⧺ suffix) else rest

switched-named :
    (suffix rpc : String) (calls : List String) → switched suffix rpc calls ≡ named suffix rpc calls
switched-named suffix rpc [] = refl
switched-named suffix rpc (call ∷ calls) = elim (Bool-cases (rpc == call)) [
  | inl e ↦ rw (e) (ap (λ t. some (t ⧺ suffix)) (sym ((eq_iff rpc call).0 e)))
  | inr e ↦ rw (e) (switched-named suffix rpc calls)
]

identity_request-named : (rpc : String) → identity_request rpc ≡ named "Request" rpc identity_calls
unfolding identity_request
identity_request-named rpc = switched-named "Request" rpc identity_calls

controller_request-named :
    (rpc : String) → controller_request rpc ≡ named "Request" rpc controller_calls
unfolding controller_request
controller_request-named rpc = switched-named "Request" rpc controller_calls

node_request-named : (rpc : String) → node_request rpc ≡ named "Request" rpc node_calls
unfolding node_request
node_request-named rpc = switched-named "Request" rpc node_calls

pub csi_request_struct-named :
    (service rpc : String) → csi_request_struct service rpc ≡ named "Request" rpc (calls_of service)
unfolding csi_request_struct
csi_request_struct-named service rpc =
    by_service (service == "Identity") (service == "Controller") (service == "Node")
  where
    by_service :
        (b1 b2 b3 : Bool)
        → (if b1
            then identity_request rpc
            else if b2
            then controller_request rpc
            else if b3
            then node_request rpc
            else none)
          ≡ named "Request" rpc (
              if b1
              then identity_calls
              else if b2
              then controller_calls
              else if b3
              then node_calls
              else [])
    by_service true b2 b3 = identity_request-named rpc
    by_service false true b3 = controller_request-named rpc
    by_service false false true = node_request-named rpc
    by_service false false false = refl

identity_response-named :
    (rpc : String) → identity_response rpc ≡ named "Response" rpc identity_calls
unfolding identity_response
identity_response-named rpc = switched-named "Response" rpc identity_calls

controller_response-named :
    (rpc : String) → controller_response rpc ≡ named "Response" rpc controller_calls
unfolding controller_response
controller_response-named rpc = switched-named "Response" rpc controller_calls

node_response-named : (rpc : String) → node_response rpc ≡ named "Response" rpc node_calls
unfolding node_response
node_response-named rpc = switched-named "Response" rpc node_calls

pub csi_response_struct-named :
    (service rpc : String)
    → csi_response_struct service rpc ≡ named "Response" rpc (calls_of service)
unfolding csi_response_struct
csi_response_struct-named service rpc =
    by_service (service == "Identity") (service == "Controller") (service == "Node")
  where
    by_service :
        (b1 b2 b3 : Bool)
        → (if b1
            then identity_response rpc
            else if b2
            then controller_response rpc
            else if b3
            then node_response rpc
            else none)
          ≡ named "Response" rpc (
              if b1
              then identity_calls
              else if b2
              then controller_calls
              else if b3
              then node_calls
              else [])
    by_service true b2 b3 = identity_response-named rpc
    by_service false true b3 = controller_response-named rpc
    by_service false false true = node_response-named rpc
    by_service false false false = refl

-- For every service and name, the type of the request is the name of the call and Request, and
-- the type of the response is the name and Response, if the interface has this call of this
-- service, and otherwise neither is known.
pub tables_named :
    (service rpc : String)
    → (csi_request_struct service rpc ≡ named "Request" rpc (calls_of service))
      × (csi_response_struct service rpc ≡ named "Response" rpc (calls_of service))
tables_named service rpc =
    (csi_request_struct-named service rpc, csi_response_struct-named service rpc)
