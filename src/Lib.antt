-- ===== src/Lib.antt =====
-- Verification library of the Gardener extension for Google Distributed Cloud. It models the infrastructure controller,
-- the task runner that it uses, the controllers of workers, bastions, backup buckets, backup entries and DNS records, the
-- admission with the validation of provider configurations, the webhooks for shoot clusters, and the reading of secrets
-- and access keys; and proves what makes them correct.
--
-- How the program fits together. Admission (pkg/admission, by the rules of pkg/apis/gdc/validation) decides which
-- configurations and which updates of them reach the controllers. The infrastructure controller (pkg/controller/infrastructure/actuator.go) reads the
-- configuration, makes a client for the global API and one for each zone, and runs two tasks at the same time
-- (pkg/taskrunner): the subnets, and the egress. The subnets hang under a root subnet that is shared by name with other
-- shoots; a label says whose it is. At the end the results are recorded in the status.
-- The worker controller reads that status and writes machine classes and the deployments that name them. The bastion
-- controller makes a virtual machine with an address in one zone of the shoot. The backup bucket controller makes the
-- bucket of a seed and the secret by which it is reached; the backup entry controller deletes a shoot's objects in it.
--
-- Which file models which part:
--   Common                    Boolean tests, integers, texts, association lists
--   Failure                   Go errors as values, and what errors.As and apierrors.IsNotFound find in them
--   Action                    code that calls API servers: a thread of atomic calls on a shared world; Action/Laws on
--                             running it alone, Action/Ensures on running it among others, Action/Loops and Action/Ends on
--                             what it returns
--   Kube                      the client of controller-runtime (a parameter) and the GDC objects it handles
--   Apis                      pkg/apis/gdc/types_infrastructure.go, types_cloudprofile.go, types_worker.go
--   Secret                    pkg/gdc/serviceaccount.go; Secret/Errors on the errors of its look-ups
--   TaskRunner                pkg/taskrunner/taskrunner.go
--   Infrastructure            pkg/controller/infrastructure/actuator.go, flowstate.go: Ready (the waits), Root
--                             (reconcileRootSubnet), Zonal (the subnets of the zones), Egress, Deletion, Clients
--                             (createKubeClients), Host (what the controller is given), Actuator
--                             (Reconcile, Delete and the others)
--   Validation                pkg/apis/gdc/validation/*.go: InfrastructureConfig, InfrastructureUpdate, Workers,
--                             CloudProfile
--   DnsRecord                 pkg/controller/dnsrecord: Name and Letters (dns_name.go), Zone (the choice of the zone),
--                             Actuator (actuator.go), Written (what is at the API server after a
--                             write)
--   Worker                    pkg/controller/worker: Labels (machine.go), Disks, Images (machine_images.go), Names (hashes
--                             and names of deployments), Classes, Deployments, Agreement (between the two), Delegate
--                             (what Gardener calls), Objects
--   Admission                 pkg/admission: Shoot and Ranges (validator/shoot.go), BackupBucket, CloudProfile,
--                             NamespacedCloudProfile, Merge (mutator/namespacedcloudprofile.go)
--   Bastion                   pkg/controller/bastion: Choices (machine type, image, zone), Objects (what it
--                             makes), Reconcile, Delete
--   Storage                   pkg/gdc/storage/storage.go: the buckets' status, Keys (the search for access keys)
--   BackupBucket              pkg/controller/backupbucket/actuator.go: Creation, Generated (secret and status), Actuator
--   BackupEntry               pkg/controller/backupentry/actuator.go
--   Webhook                   pkg/webhook/shoot (Nodes) and pkg/webhook/shootservice (Texts, ShootService)
--   Immutability              what an accepted update means for the controller
--   Samples                   API servers in memory, configurations, and runs on them
--
-- Errors are kept as the calls that made them with their texts, so that what can be unwrapped can be read off (%w against
-- %v). A nil pointer that the code dereferences is an error of its own kind, `panic`, where Go would end the process.
-- A range over a Go map takes the order of the list that stands for it.
--
-- Goroutines are run by a schedule, a list of numbers that says which task makes the next call. What a schedule leaves
-- over is run task by task, so every order of the calls is the run of some schedule, every run ends, and the theorems
-- hold for all schedules. Numbers are printed with as much fuel as the number itself, which has no more digits. All other
-- loops are over lists or texts.
--
-- Parameters: the clients of the API servers (controller-runtime) and of the object storage, errors.DetermineError of
-- Gardener with this repository's error codes, Gardener's worker library and its cidr package, net.ParseCIDR and
-- net.ParseIP, the MilliValue of a quantity, the decoders of JSON, base64, certificates and API objects, and the makers of clients.
--
-- Not modelled: logging, contexts and their deadlines, the registration of controllers and webhooks, the values provider
-- of the control plane, the webhooks for control planes and seeds, the HTTP, S3 and crypto calls behind the clients, and
-- generated code.
pub mod Common
pub mod Failure
pub mod Action
pub mod Apis
pub mod Kube
pub mod Secret
pub mod TaskRunner
pub mod Worker
pub mod Admission
pub mod Storage
pub mod BackupBucket
pub mod BackupEntry
pub mod Webhook
pub mod Bastion
pub mod Infrastructure
pub mod Validation
pub mod Immutability
pub mod Samples
pub mod DnsRecord
