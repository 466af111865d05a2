-- ===== src/Lib.antt =====
-- FabricOps is a Kubernetes operator for Hyperledger Fabric networks. A FabricNetwork resource says
-- which organizations, orderers, peers, channels and chaincodes there are to be; the controllers of
-- internal/controller check it, create the resources and report a status, and
-- internal/channelconfig plans changes of a channel's Raft consenters for the command fabricopsctl and
-- for the controller. These modules model the parts of it that decide something:
--
-- Api - the types of api/v1alpha1/fabricnetwork_types.go. Spec has the specification, with a pointer as
--   an Option, and Status the state that is reported.
-- Raft - internal/channelconfig/raft.go. Json has the documents and the functions raftJSONValue and
--   replaceRaftJSONValue; Consenters has validateRaftConsenters, and Plan has PlanRaftUpdate,
--   planRaftConfig and RaftConsentersFromConfig; Plan.Review has ValidateRaftPlan. An error is a value of Result.Error, and a panic is one
--   too. What Go takes from pem, x509, sha256, net and the Kubernetes validation package is the record
--   Tls; the decoding of JSON into structs is the record Codec, whose one law is that a marshalled
--   consenter is read back. The order of a Go map is that of insertion; nothing that is proved reads it.
-- Topology - internal/controller/fabricnetwork_topology.go, whole, with the helpers that it calls in the
--   other files of the package. Network is validateFabricNetworkTopology, whose loops are Orgs, Channels,
--   External, Chaincodes and Policies; Refs has the checks of references and addresses, Values what is
--   computed from a specification, and Text what the source uses of fmt, net, strconv and regexp. A
--   problem is the text that the source formats. The FNV hash of a long name and the test for a DNS label
--   are parameters.
-- Certificates - internal/controller/fabricnetwork_certificate_lifecycle.go. Window has the state of a
--   certificate, Renewal the loop that groups the certificates to renew by workload, and Condition the
--   condition that sums the states up, with that of the registrar's rotation in
--   fabricnetwork_ca_registrar_rotation.go. Times are seconds.
-- Cluster - the Secrets and Jobs of one namespace as a world that actions read and change, with what the API
--   server answers to each call as an element of a list: Calls has the calls and RetryOnConflict, Objects the
--   labels, the annotations and the owner checks, Writes updateObjectWithRetry, ensureSecret, ensureJob and
--   upsertSecretData, Frames and Effects the rules for what an action leaves as it was.
-- Rotation - the rotation of a registrar in fabricnetwork_ca_registrar_rotation.go. Secrets builds and checks the
--   Secrets, Steps is reconcileCARegistrarRotation call by call; what is not the program's is the record Outside.
-- Controller - internal/controller/fabricnetwork_controller.go: Tasks has the monad of a task on a world that
--   may fail, Orgs reconcileOrg and reconcileOrgs, Conditions the conditions and the final status, and Reconcile
--   the whole handler. What they call for the parts of a network are the records OrgTasks and NetworkTasks of
--   tasks on any world, so that a theorem holds of every cluster that the calls may meet. The time after which
--   a network is looked at again is in nanoseconds, as the source has it.
-- Channels - reconcileChannels of fabricnetwork_channel.go: Status has the status before the bootstrap and the
--   checks of a channel, Bootstrap the steps in their order, on the record ChannelTasks: a step that
--   the source passes the status gives the entries that it writes, and the rest of the status is out of its reach.
-- Cleanup - fabricnetwork_job_cleanup.go, whole, with deleteOwnedObject of fabricnetwork_org.go, on a world of
--   which only the listing and the deletion of Jobs are known. Times are nanoseconds.
-- Endpoints - fabricnetwork_external_endpoint.go, whole, with serviceDNS of fabricnetwork_org.go and
--   workloadDNSNames of fabricnetwork_identity.go; Status is fabricnetwork_endpoint_status.go. The
--   namespace of an orderer or a peer is an argument beside its name. Advertised relates them to the check of
--   external endpoints in Topology, which comes before them in a run of the controller.
-- Naming - sanitizeName of internal/controller/fabricnetwork_org.go.
-- Text and Prelude - texts, lists, maps and tests that the modules share.
--
-- Numbers that the resource definition bounds from below are natural numbers, and those that may be
-- large (ports, peers of an organization) are compared as the source compares them. Texts are folded to
-- lower case in ASCII only. Every loop is a structural recursion; the one count that runs on fuel is
-- itoa, whose fuel is the number and one, which is more than its digits.
--
-- retry_on_conflict counts the attempts that RetryOnConflict has left, which is not fuel: it ends with a conflict.
--
-- Not modelled: the Jobs and their scripts, what reconciles the parts of an organization, the chaincodes, the
-- command line, and the construction of most Kubernetes objects; they are calls of the API server and texts
-- for other programs. The Jobs that renew certificates are not modelled either.
mod Prelude
pub mod Text
pub mod Api
pub mod Raft
pub mod Certificates
pub mod Naming
pub mod Cluster
pub mod Rotation
pub mod Controller
pub mod Channels
pub mod Cleanup
pub mod Endpoints
pub mod Topology
