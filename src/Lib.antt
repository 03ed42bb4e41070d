-- ===== src/Lib.antt =====
-- csi-bizflycloud: the CSI drivers of Bizfly Cloud for block storage and for file storage.
--
-- Block (driver/blockstorage) is the block storage driver. Block/Client models client.go, the
-- queries of the cloud API and the waits for an attachment, a detachment and a snapshot.
-- Block/Controller models controller.go: Volumes has CreateVolume and DeleteVolume, Publish has
-- ControllerPublishVolume and ControllerUnpublishVolume, Snapshots has CreateSnapshot,
-- DeleteSnapshot and ListSnapshots, Queries has the other calls, and Service dispatches a request to
-- its handler. Each handler has the name of its Go method in lower case.
--
-- Block/Node models nodeserver.go: a volume is staged, published and grown on a node, through the
-- mount library and the file system, which HostCalls takes as a parameter. Block/Node/Mounts has what
-- it promises of the mounts, as a table of how many there are at each path; its laws of the host allow
-- for a query that does not see a mount, and for calls that fail after they have mounted or unmounted.
--
-- Share (driver/filestorage) is the file storage driver. Share/Util models util.go, Share/Shares
-- models share.go, Share/Controller models controllerserver.go, with the map pendingVolumes in
-- Pending and the handlers in Volumes, and Share/Node models nodeserver.go, with its requests in a
-- row in Service. Share/Plugin stands for driver/filestorage/csiclient,
-- with NewConnection in Connection. Share/Lifecycle follows a context from CreateVolume to the node.
--
-- The state of the block storage controller is the history of its calls of the cloud API, since the
-- controller keeps none of its own, and that of the block storage node service is the history of its
-- calls of the host. The file storage controller adds the keys that are pending, and its node service
-- adds the cache of the staged contexts. A handler is a function from a state to an
-- answer, or a failure, and the state after it.
--
-- What the repository does not hold is a parameter: Cloud and Share/Api are the services of
-- gobizfly, Wait is ExponentialBackoff, Metadata is the metadata service, Share/Plugin the NFS
-- plugin. An answer may be any function of the calls made so far, so the answers also cover what
-- other clients do between two calls. Wait has the documentation of ExponentialBackoff as a relation
-- (Polls), Cloud/Store what a store promises, IsRoundUp what RoundUpSize promises.
--
-- The waits check 15, 13 and 10 times at most, the steps of their backoffs in the code; the
-- relation Polls counts them down, and the delays between the checks are left out. Sizes are int64
-- with the wrap-around of each product written out; int has 64 bits. Texts of errors are kept as
-- format strings without their arguments, and log lines are left out.
--
-- Share/Controller/Interleaving has the handlers that run at once, as steps between LoadOrStore and
-- the deferred Delete of the map pendingVolumes; elsewhere a handler runs from its start to its end.
--
-- Block/Controller/Promises has what the block storage controller promises of its volumes, as steps of
-- a map from names to volumes, which Cloud/Views makes of the volumes that the cloud keeps; the laws of
-- such a cloud are IsVolumeStore in Cloud/Volumes. Block/Controller/SnapshotPromises has the same for
-- the snapshots, as a list without their states, on a cloud of Cloud/Snapshots.
--
-- Share/Driver models driver.go and identityserver.go of the file storage driver: its options, the
-- set-up of its services, and its identity. Block/Driver models driver.go, identity.go and util.go of
-- the block storage driver: its constants, its identity, and ParseEndpoint.
--
-- Server has what the gRPC servers of both drivers share: the calls of os, net and grpc, with the host
-- as a parameter, values of interface types, and the two goroutines with their wait group, which move
-- as a schedule says; the steps of serve up to server.Serve are one move. Block/Server models
-- driver/blockstorage/server.go and the set-up and the run of driver.go, and Share/Server the run and
-- the server of driver/filestorage/driver.go.
--
-- Login, Block/Command and Share/Command model cmd/csi-bizflycloud/main.go and
-- cmd/csi-fs-bizflycloud/main.go: the flags with their defaults, the log-in, and handle with the exit
-- code of its process. A command uses its driver and its server as the code does.
--
-- Not modelled: Stop and ForceStop of the block storage server, which no code calls, the lines of the
-- logs, and the flags of the logging. They are input and output. Two functions of Go's library are arguments:
-- filepath.Dir, whose result no code reads, and the table of characters of unicode.ToUpper.
pub mod Base
pub mod Csi
pub mod Metadata
pub mod Wait
pub mod Cloud
pub mod Block
pub mod Share
mod Tests
pub mod Server
pub mod Login
