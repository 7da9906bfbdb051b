-- ===== src/Lib.antt =====
-- govnilo runs checkers against services: a controller asks a settings provider every second how
-- often each checker is to run and for how many points, and hands the rates to a rate runner. The
-- rate runner watches how long a checker's runs take and has its task runner keep as many
-- goroutines as the rate needs; a rate limiter for each task keeps them from running too often.
-- What comes of each run is counted in metrics.
--
-- The parts, their code and their files:
--   * The messages of the settings: proto/admin.proto, proto/admin.pb.go. Proto.antt.
--   * internal/settingsprovider/settings_provider.go. SettingsProvider.antt has `Validate`, loop by
--     loop, as `validate`; Valid.antt describes what it accepts, Located.antt where it stops.
--   * internal/taskrunner/task.go. TaskRunner.antt: a pointer to an instance is a number, `heap` has
--     what it points to. `RegisterTask` is `register_task`, `UpdateTaskInstances` is
--     `update_task_instances`, `Stop` is `stop`, the goroutine of an instance is `supervise`. Its
--     child modules: Loops (the loops in closed form), Resize (scaling), Ownership (no instance is
--     lost), Shutdown, Supervise.
--   * pkg/ratelimit/ratelimit.go. RateLimit.antt: `SetSpec`, and `Acquire` cut into the stretches
--     that run under the mutex and the test after it, as the steps `Step` of a limiter with any
--     number of calls; `Reach` is any interleaving of them. Invariant.antt and Progress.antt reason
--     about it.
--   * pkg/raterunner. RateRunner.antt is raterunner.go: `SetOptions`, `neededInstances`, the loop of
--     `Run` over the tasks, `RegisterTask`, and a round of the goroutine of `prepareTask`. A task's
--     spec is found by its id. Steps.antt has their interleavings, on which Counted, Counts and
--     Options reason, Adjust and Bounds on one round. Instance.antt is the goroutine of one instance
--     with the closure of `prepareTask` in it. Percentile.antt is p.go, Avg.antt is avg.go.
--   * internal/checkerctrl. CheckerCtrl.antt is `syncState` of controller.go; Registration.antt
--     is `New`, which sets up the checkers and their tasks, Handles.antt what it leaves; Task.antt is
--     the task of a checker with its metrics; Points.antt and Helpers.antt are proto_helpers.go;
--     Rounds.antt has the rounds of `run`, each computed at once, with what the provider returned in
--     it; System.antt cuts a round into the store of the settings and one step for each checker, and
--     interleaves them with the rate runner and the checkers, as `Start` does: Undisturbed.antt
--     compares the two, Applied.antt and InForce.antt reason about the steps. Lifecycle.antt is
--     `Start` and `Stop` by how the two loops end. Described.antt follows the settings of one checker
--     to its task and to its next run. MetricNames.antt is `metricsFor` of metrics.go.
--   * internal/settingsprovider/file_settings_provider.go and admin_settings_provider.go.
--     SettingsSource.antt: `File.GetSettings` is `get_settings_file`, `Adminka.GetSettings` is
--     `get_settings_admin`, `normalizeDurations` is `normalize_durations` on the trees of Text.antt.
--     Durations.antt and Passed.antt have the theorems.
--   * pkg/adminka/adminklient. AdminClient.antt: `New` is `new_client`, a refresh of the asynchronous
--     client is `refresh`, its `GetConfig` is `get_config_async`. History.antt reasons about it.
--   * pkg/common/statestore. StateStore.antt is sync_json_file.go, with `update_state` and
--     `retrieve_state` call by call over the file system of Files.antt; Laws.antt is what its
--     documentation says, Atomic.antt reasons from it. Async.antt is async_json_file.go, whose
--     methods and ticks are events; Cell.antt and Durable.antt have its theorems.
--   * internal/util/state_storage.go. StateStorage.antt: `GetAndUpdate` is `get_and_update`.
--   * internal/configuration. Configuration.antt has `Read` and `Validate`, and the choice of the
--     provider in internal/fxbuild/constructors.go; Usable.antt the theorems.
--   * pkg/common/hzlog. Hzlog.antt is the handler of build.go (`Handle` is `handle`, `WithAttrs` is
--     `with_attrs`) and ctx.go; Config.antt is config.go, Build.antt `Build` of build.go, Filter.antt
--     what the handler lets through.
--   * internal/fxbuild/constructors.go. Startup.antt: `GetConstructors` is `get_constructors`.
--     Startup/Run.antt is internal/cmd/cmd/run/run.go and `Execute` of internal/cmd/cmd/root.go,
--     Startup/Servers.antt the interceptor of internal/grpcutil and the addresses of the servers.
--   * internal/fxbuild/redis.go. RedisClient.antt: the hook that logs what the client of Redis does,
--     with which `hooked` makes one client of another; Hooked.antt and Answers.antt compare them.
--   * internal/hazycheck, internal/registrar, internal/cmd. HazyCheck.antt has `RegisterChecker`,
--     `NewConnector` and `RoundTrip`; Registered.antt reasons about registration; Commands.antt has
--     the commands `list-checkers` and `check`.
--   * internal/redisbase. RedisBase.antt is impl.go, each method a function of the client's state:
--     `Save` is `save`, `GetByID` `get_by_id`, `GetRandom` `get_random`, `cleanupExpired`
--     `cleanup_expired`. Client.antt has the parameters, Laws.antt what Redis documents of its
--     commands, Keys, Store, Removal, Random, Routine and Outage reason about single calls.
--     Calls.antt has sequences of calls and the finite map that they are held against, by Views (the
--     map that a state of Redis stands for), Refinement and Draws (each call), Whole and Saved.
--     Stale and Finding follow the attempts of `GetRandom`.
--     Metrics.antt is metrics.go.
--   * _example/checkers/sleeper. Sleeper.antt: the two checkers of the example and their storage;
--     Counted.antt follows them to the controller's metrics.
--   * Prelude and Floats.antt: shared names, lists, maps, integers, results, floating point numbers.
--   * Examples: the theorems at concrete inputs.
--
-- How Go is read. A `float64` is a value of a parameter (`Floats`), of which nothing is assumed. A
-- `uint64` is a natural number below 2^64, with `% 2 ^ 64` where a sum or a conversion wraps; an
-- `int` and a `time.Duration` are integers. A map is an association list, whose order stands for the
-- order of a `range`. A nil pointer is `none`. `Outcome` has a return, an error and a panic. A mutex
-- makes the code that holds it one operation. Time, and what a wait comes to, are arguments.
--
-- Fuel: `random_loop` has the five attempts of the code. `supervise` takes the number of rounds that
-- it may run; the theorem on it gives a number that is enough. So does `loop_end`, and the
-- theorem on `run_instance`, which takes the number of events. The digits of an id are printed with
-- a fuel of 20, as many as a `uint64` has.
--
-- Libraries are parameters: golang.org/x/time/rate (`RateLibrary`), the quantile of gonum, the sum of
-- a float counter of the metrics library, the Redis client with the encoding of the entities, the
-- file system and the JSON encoding of a state (`FileSystem`, `Json`), the reading of YAML and JSON
-- and the printing of durations (`Files`, `Clock`, `Reader`), the generated stub of the admin service
-- (its replies), the set of metrics and the quoting of their names (`MetricSet`), fx's application
-- (`App`), the handler behind a logger (`Inner`), zap (`Zap`), and what reflection tells about
-- a constructor.
--
-- Not modelled: durations and gauges that only report, most lines that log; serving, dependency
-- injection, signals and the flags of the command line, which only call libraries; `NewLogger`, which
-- nothing calls; the generated marshalling; the options of the client of Redis.
pub mod Prelude
pub mod Proto
pub mod Hzlog
pub mod StateStore
pub mod StateStorage
pub mod Configuration
pub mod SettingsProvider
pub mod TaskRunner
pub mod Floats
pub mod RateRunner
pub mod RateLimit
pub mod AdminClient
pub mod SettingsSource
pub mod Startup
pub mod CheckerCtrl
pub mod HazyCheck
pub mod RedisBase
pub mod RedisClient
pub mod Sleeper
pub mod Examples
