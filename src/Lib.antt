-- ===== src/Lib.antt =====
-- The BeeGFS CSI driver: a model of its services, its configuration and its commands.
--
-- The driver is one Go package, pkg/beegfs, that serves the Container Storage Interface. The
-- controller service creates and deletes directories of a BeeGFS file system as volumes, the node
-- service mounts them, and both call the BeeGFS command line tools, which run through the wrapper
-- cmd/chwrap. A Kubernetes operator, in operator, deploys the driver. Files and what they model:
--
--   Prelude            shared names, lists, maps of Go, results and actions with a state
--   Text               Go's strings, strconv, path and regexp, as far as the driver uses them
--   Errors             causes and gRPC errors (beegfs_ctl.go, server.go)
--   Config             operator/api/v1/beegfsdriver_types.go and pkg/beegfs/config.go: merging (Merge),
--                      secrets (Secrets), validation and stripping (Validate), loading (Load)
--   Volume             beegfsVolume, its identifiers, directories (Places) and permissions (beegfs.go,
--                      beegfs_util.go)
--   Params             validateReqParams and its parts (controllerserver.go)
--   Lock               threadSafeStringLock and threadSafeStatusMap (thread_safe.go)
--   Host               the environment: file system, mounter, commands, clock
--   ClientFiles        writeClientFiles (beegfs_util.go)
--   Mount              mount options, mountIfNecessary, unmountAndCleanUpIfNecessary (beegfs_util.go)
--   Ctl                the beegfs and beegfs-ctl commands (beegfs_ctl.go)
--   Capability         isValidVolumeCapabilities (beegfs_util.go)
--   Controller         CreateVolume and ControllerExpandVolume; DeleteVolume with its loop in
--                      DeleteVolume and Delete, ValidateVolumeCapabilities in Validate
--                      (controllerserver.go)
--   Node               NodePublishVolume to NodeUnstageVolume (nodeserver.go); the calls they make in Calls,
--                      Staging, Publishing and Unstaging, and the directories in Tracking
--   Chwrap             cmd/chwrap/main.go
--   Driver             newBeegfsDriver and the checks of the kernel module (beegfs.go, beegfs_util.go)
--   Operator           Reconcile (operator/controllers/beegfsdriver_controller.go): the containers of the
--                      driver (Containers), its pods (Pods), the status (Status), one object (Ensure), and
--                      the whole (Reconcile), over the API server (Api) and its objects (Objects)
--   Grpc               parseEndpoint, serve and the identifiers of requests (server.go)
--   Services           the constructors, NewBeegfsDriver, Run and the identity service (beegfs.go,
--                      controllerserver.go, nodeserver.go, identityserver.go), with the handlers that
--                      answer from constants or with Unimplemented
--   Deploy             GetRBAC (deploy/k8s/deploy.go)
--   Tests              concrete runs in an environment where every call succeeds
--
-- Definitions keep the names of the source in snake case. A handler is an action on the state: it
-- takes the locks, the statuses and the history of the calls made so far, and yields a result or an
-- error with the next state. The environment answers each call from the whole history, so the theorems
-- hold for every behaviour of the node, of other processes and of the tools. An error of the source
-- keeps the class that code branches on; texts of messages are shortened. A run-time panic and a loop
-- that does not end are causes of their own.
--
-- Go's maps are association lists whose order stands for the order of a range loop. Numbers are
-- natural numbers; where the source computes with 64 bits, the wrap-around is written out. The loop of
-- deleteVolumeUntilWait runs on fuel: the timeout in seconds and two rounds more, where a round sleeps
-- for two seconds. The loop over the parents of a directory runs on as many rounds as the path has
-- segments, which is enough for every path that starts with a slash. Splitting a manifest runs on as
-- many rounds as it has characters, each of which takes some away. The reconciler has no loop but
-- those over lists. What it reads of the API server may change between two calls, since each answer is
-- a function of the whole history; the objects of a theorem are fixed where its statement says so.
--
-- Not modelled: logging, the gRPC server's own loop, the flags of the commands, fakes for sanity
-- tests, the text of deployment manifests, and tests. Parameters, as code that is not in the
-- repository: YAML, INI, URLs, IP addresses, SHA-1, Base64, the mounter, SELinux, the file system,
-- and the API server with the libraries of Kubernetes: owner references, finalizers, status
-- conditions, and the comparisons of objects.
pub mod Prelude
pub mod Text
pub mod Errors
pub mod Config
pub mod Volume
pub mod Params
pub mod Lock
pub mod Host
pub mod ClientFiles
pub mod Mount
pub mod Ctl
pub mod Capability
pub mod Controller
pub mod Node
pub mod Chwrap
pub mod Operator
pub mod Grpc
pub mod Services
pub mod Deploy
pub mod Driver
pub mod Tests
