-- ===== src/Tracing/Tables.antt =====
-- util/analysis/csi-tracing/csi.go: the types of the messages of a call, by their names.
pub mod Specified
use cnsbench.Prelude.{String, Option, none, some, ◌==◌, string_eq, if◌then◌else◌}

unfoldable pub identity_request : String → Option String
identity_request rpc =
    if rpc == "GetPluginInfo"
    then some "GetPluginInfoRequest"
    else if rpc == "GetPluginCapabilities"
    then some "GetPluginCapabilitiesRequest"
    else if rpc == "Probe"
    then some "ProbeRequest"
    else none

unfoldable pub controller_request : String → Option String
controller_request rpc =
    if rpc == "CreateVolume"
    then some "CreateVolumeRequest"
    else if rpc == "DeleteVolume"
    then some "DeleteVolumeRequest"
    else if rpc == "ControllerPublishVolume"
    then some "ControllerPublishVolumeRequest"
    else if rpc == "ControllerUnpublishVolume"
    then some "ControllerUnpublishVolumeRequest"
    else if rpc == "ValidateVolumeCapabilities"
    then some "ValidateVolumeCapabilitiesRequest"
    else if rpc == "ListVolumes"
    then some "ListVolumesRequest"
    else if rpc == "GetCapacity"
    then some "GetCapacityRequest"
    else if rpc == "ControllerGetCapabilities"
    then some "ControllerGetCapabilitiesRequest"
    else if rpc == "CreateSnapshot"
    then some "CreateSnapshotRequest"
    else if rpc == "DeleteSnapshot"
    then some "DeleteSnapshotRequest"
    else if rpc == "ListSnapshots"
    then some "ListSnapshotsRequest"
    else if rpc == "ControllerExpandVolume"
    then some "ControllerExpandVolumeRequest"
    else if rpc == "ControllerGetVolume"
    then some "ControllerGetVolumeRequest"
    else none

unfoldable pub node_request : String → Option String
node_request rpc =
    if rpc == "NodeStageVolume"
    then some "NodeStageVolumeRequest"
    else if rpc == "NodeUnstageVolume"
    then some "NodeUnstageVolumeRequest"
    else if rpc == "NodePublishVolume"
    then some "NodePublishVolumeRequest"
    else if rpc == "NodeUnpublishVolume"
    then some "NodeUnpublishVolumeRequest"
    else if rpc == "NodeGetVolumeStats"
    then some "NodeGetVolumeStatsRequest"
    else if rpc == "NodeExpandVolume"
    then some "NodeExpandVolumeRequest"
    else if rpc == "NodeGetCapabilities"
    then some "NodeGetCapabilitiesRequest"
    else if rpc == "NodeGetInfo"
    then some "NodeGetInfoRequest"
    else none

unfoldable pub csi_request_struct : String → String → Option String
unfolding identity_request controller_request node_request
csi_request_struct service rpc =
    if service == "Identity"
    then identity_request rpc
    else if service == "Controller"
    then controller_request rpc
    else if service == "Node"
    then node_request rpc
    else none

unfoldable pub identity_response : String → Option String
identity_response rpc =
    if rpc == "GetPluginInfo"
    then some "GetPluginInfoResponse"
    else if rpc == "GetPluginCapabilities"
    then some "GetPluginCapabilitiesResponse"
    else if rpc == "Probe"
    then some "ProbeResponse"
    else none

unfoldable pub controller_response : String → Option String
controller_response rpc =
    if rpc == "CreateVolume"
    then some "CreateVolumeResponse"
    else if rpc == "DeleteVolume"
    then some "DeleteVolumeResponse"
    else if rpc == "ControllerPublishVolume"
    then some "ControllerPublishVolumeResponse"
    else if rpc == "ControllerUnpublishVolume"
    then some "ControllerUnpublishVolumeResponse"
    else if rpc == "ValidateVolumeCapabilities"
    then some "ValidateVolumeCapabilitiesResponse"
    else if rpc == "ListVolumes"
    then some "ListVolumesResponse"
    else if rpc == "GetCapacity"
    then some "GetCapacityResponse"
    else if rpc == "ControllerGetCapabilities"
    then some "ControllerGetCapabilitiesResponse"
    else if rpc == "CreateSnapshot"
    then some "CreateSnapshotResponse"
    else if rpc == "DeleteSnapshot"
    then some "DeleteSnapshotResponse"
    else if rpc == "ListSnapshots"
    then some "ListSnapshotsResponse"
    else if rpc == "ControllerExpandVolume"
    then some "ControllerExpandVolumeResponse"
    else if rpc == "ControllerGetVolume"
    then some "ControllerGetVolumeResponse"
    else none

unfoldable pub node_response : String → Option String
node_response rpc =
    if rpc == "NodeStageVolume"
    then some "NodeStageVolumeResponse"
    else if rpc == "NodeUnstageVolume"
    then some "NodeUnstageVolumeResponse"
    else if rpc == "NodePublishVolume"
    then some "NodePublishVolumeResponse"
    else if rpc == "NodeUnpublishVolume"
    then some "NodeUnpublishVolumeResponse"
    else if rpc == "NodeGetVolumeStats"
    then some "NodeGetVolumeStatsResponse"
    else if rpc == "NodeExpandVolume"
    then some "NodeExpandVolumeResponse"
    else if rpc == "NodeGetCapabilities"
    then some "NodeGetCapabilitiesResponse"
    else if rpc == "NodeGetInfo"
    then some "NodeGetInfoResponse"
    else none

unfoldable pub csi_response_struct : String → String → Option String
unfolding identity_response controller_response node_response
csi_response_struct service rpc =
    if service == "Identity"
    then identity_response rpc
    else if service == "Controller"
    then controller_response rpc
    else if service == "Node"
    then node_response rpc
    else none
