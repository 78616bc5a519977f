-- ===== src/Lib.antt =====
-- A model of cf-redis-broker, the Cloud Foundry service broker that runs Redis servers on a shared
-- virtual machine, and theorems about it.
--
-- The program. A service broker (broker/broker.go) answers the requests of the platform. It asks a
-- creator of instances (redis/local_instance_creator.go) to provision and deprovision them, and a
-- repository (redis/local_repository.go) to bind them. The repository keeps an instance as a
-- directory with a redis.conf file (redisconf/redisconf.go), and holds a lock file in it for as
-- long as the instance is being set up or taken down. The process controller
-- (redis/process_controller.go) starts and kills the servers. A second program, the process monitor
-- (cmd/processmonitor/main.go), looks at all instances again and again and starts those servers
-- that do not run, passing over the locked ones.
--
-- The files.
--   Base: names of the libraries, tests, text functions, Go's `int` and its decimal form, error
--     results, the monad `Act` of calls that pass a state and may fail, and loops up to a limit.
--   Os: the tree of files, and the calls of Go's `os` and `ioutil` on it (Os/Paths: paths and
--     `path.Join`; Os/Files: the tree; Os/Laws and Os/Frame: what the calls leave behind; Os/Under:
--     which paths lie below which).
--   Redisconf: redisconf/redisconf.go; `decode`, `encode`, `get`, `set` and the others carry the
--     names of the source. Redisconf/Additions has `Load`, `Save` and `CopyWithInstanceAdditions`;
--     Redisconf/Memory has `setMaxMemory`, with its product of floating-point numbers.
--   Brokerconfig: brokerconfig/config.go.
--   Redis/Instance: redis/instance.go. Redis/Repository: redis/local_repository.go, with the loop
--     over the directory in Redis/Repository/Listing; Redis/Repository/Isolation has what an
--     operation on one instance leaves of another, and Redis/Repository/Refinement the map from IDs
--     to instances that the data directory stands for. Redis/Creator:
--     redis/local_instance_creator.go. Redis/Process: redis/process_controller.go. Redis/Client:
--     redis/client/client.go, with `INFO` and the waits in Redis/Client/Info.
--   Broker: broker/broker.go, with the catalog in Broker/Catalog, and its plans against those that
--     `Provision` takes in Broker/Offered.
--   Cmd: the start of both programs. Cmd/Server and Cmd/Controller: how cmd/broker/main.go puts
--     the broker together, and both programs their process controller.
--     Cmd/Monitor: cmd/processmonitor/main.go. Cmd/Lifecycle and Cmd/Requests: the requests of the
--     broker one after another, down to the files, and Cmd/Limited what they leave of the limit of
--     instances; Cmd/Destroying has a whole destruction. Cmd/Turns: a creation
--     (redis/local_instance_creator.go) and the rounds of the monitor in turns, as a step relation.
--     Cmd/Programs: the `main` functions of cmd/broker/main.go, cmd/processmonitor/main.go and
--     cmd/configmigrator/main.go.
--   Migrator: configmigrator/configmigrator.go, with whole migrations in Migrator/Whole. Resetter:
--     resetter/resetter.go, with a whole reset in Resetter/Reset.
--     Recovery/Pipeline: recovery/task/pipeline.go, rename.go and task.go. Recovery/Upload:
--     recovery/task/s3_upload.go. Recovery/Upload/Uploaded goes through s3/client.go and
--     s3/bucket.go, down to the command line client of AWS.
--   S3/Bucket and S3/Client: s3/bucket.go and s3/client.go. Availability: availability/ports.go.
--     Utils: utils/files.go. Process: process/process.go. System: system/free_tcp_port.go. Log:
--     log/cli_sink.go and log/logger.go. Redisinstance: redisinstance/redisinstance.go.
--   Integration: integration/network.go, and in Integration/Client integration/broker_client.go, the
--     client of the broker that the integration tests use.
--   Tests: runs on concrete inputs, and each theorem at a concrete input.
--
-- How state is modelled. `World` is the tree of files, the calls that the system refuses and the
-- log; an operation maps a state to a result, an error or a value, and a state. The broker, the
-- creator and the process controller stand over interfaces, which are records over any state type,
-- as they are Go interfaces in the program; Cmd/Server fills them. A Go map is the list of its
-- entries in the order in which a run visits them.
--
-- Parameters. Free ports, random passwords, processes, the ping, the wait for a port, Monit, the
-- connection to a server, the renaming of a file, dialling and listening, the server of HTTP, the
-- environment, the store of buckets, the command line client of AWS and the decoders of YAML and
-- JSON belong to other packages or to the system, and are arguments of the definitions that use
-- them; `Outside` in Cmd/Programs has those of the three programs. What a theorem needs of them is a
-- hypothesis (`IsQuiet` in Cmd/Lifecycle, `IsTidy` in Cmd/Limited, `IsAside` in Redis/Process/Aside).
--
-- Bounds. `int` has 64 bits: `atoi` refuses numbers out of its range. The buffer of the scanner
-- that reads a configuration ends a scan at a line of 65536 bytes. The loops that wait for a port
-- or for a loaded server run on fuel, which is the timeout itself: a step is at least one, so that
-- there are no more rounds (`for_below-rounds` in Base/Loop). Every other loop runs over a list or
-- a text. The wait for a save runs over what its `select` receives. The counters of the waits do
-- not wrap, which they would only at a timeout near 2^63; the key count wraps as `int` does. The rounding of a floating-point number doubles its unit 128 times
-- at most, which is enough for numbers below 2^128 (`to_float_fits` in Redisconf/Memory).
-- The endless loop of the monitor is its first rounds, for every number of them.
--
-- Not modelled. File modes; texts other than lists of bytes in ASCII; symbolic links; relative
-- paths, which are taken from the root; a refused call is taken to change nothing; what happens
-- between two calls of a request, but for the turns of a creation and the monitor in Cmd/Turns;
-- the signals' arrival within a round of the monitor; the sinks of the loggers of lager; the panic
-- of the type assertion in `LastRDBSaveTime` (redis/client/client.go:146); the generated fakes and
-- the other helpers of the tests; vendored packages.
pub mod Base
pub mod Os
pub mod Redisconf
pub mod Brokerconfig
pub mod Redis
pub mod Broker
pub mod Cmd
pub mod Recovery
pub mod Migrator
pub mod Resetter
pub mod Availability
pub mod Utils
pub mod Process
pub mod System
pub mod Integration
pub mod Log
pub mod Redisinstance
pub mod S3
pub mod Tests
