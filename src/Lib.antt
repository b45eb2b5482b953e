-- ===== src/Lib.antt =====
-- EventNative receives events over HTTP, writes them to log files or queues, and loads them into
-- databases. This library models the parts that decide what is stored: how an event becomes a row, how
-- the rows of a file get one header, how the tables of a database follow that header, which statements
-- the adapters send and in which transactions, which files and tables are stored again after an error,
-- who may send events, and in which order a source is synchronized.
--
-- The parts, from the bottom up (paths are from the root of the repository):
--
-- - Base: helpers. Base.Tests has the conditional and the equality tests, Base.Lists lists over the
--   native numbers, Base.Dict Go's maps as association lists with unique keys, Base.Text strings as
--   lists of code points, Base.Int the integers and strconv.FormatInt, Base.Result `(value, error)`.
-- - Value: the dynamic values of an event and its objects (`map[string]interface{}`). A float is its
--   bit pattern, a time its nanoseconds in UTC. Value.Objects has reading, writing and deleting.
-- - Typing (typing/datatype.go) and Typing.Converter (typing/converter.go): DataType, TypeFromValue,
--   ReformatValue, the typecast tree with GetCommonAncestorType, Convert and its rules. The record
--   Typing.GoLibrary holds what these take from strconv, time, unicode and encoding/json.
-- - JsonPath (jsonutils/path.go): NewJsonPath, Get, GetAndRemove, Set. Go changes the object in place;
--   here an operation returns the object that it leaves behind.
-- - Schema.Flattener (schema/flattener.go), Schema.Mappings (schema/mappings.go), Schema.FieldMapper
--   and Schema.MapObject (schema/field_mapper.go: reading the rules, and applying them),
--   Schema.BatchHeader (schema/batch_header.go), Schema.MappingStep (schema/mapping_step.go) and
--   Schema.Processor (schema/processor.go, schema/table_name_extractor.go, maputils/copy.go): from an
--   event to the row of a table, and from a payload to the files of the tables. Where a mapper keeps
--   the unmapped fields, source and destination are one object: `shared` in MapObject.Targets.
-- - Events.Extractor and Events.Enricher (events/extractor.go, events/enricher.go), Events.Bucket and
--   Events.Cache (events/cache.go: CachedBucket and Cache).
-- - Adapters.Table (adapters/table.go) and Storages.TableHelper (storages/table_helper.go):
--   EnsureTable passes a state, the world behind the database and the locks and the tables in memory.
--   Backend is the interface of adapters.TableManager and MonitorKeeper; while a lock is waited for,
--   others may change the tables in memory, so that `lock` returns them.
-- - Schema.Marshaller (schema/marshaller.go, schema/processed_file.go): the csv and the json of a file.
-- - Base.Action has state passing with errors and deferred calls. Adapters.Database
--   (adapters/transaction.go and what the adapters use of the package sql) has transactions,
--   Adapters.Statements the texts of the statements (adapters/postgres.go,
--   adapters/delete_condition.go), and Adapters.Postgres (adapters/postgres.go), Adapters.Redshift
--   (adapters/aws_redshift.go) and Adapters.Snowflake (adapters/snowflake.go) the calls. Adapters.Calls
--   has the writing calls of the three as one type.
-- - Storages.Store (storages/postgres.go: StoreWithParseFunc, storeTable, Fallback) and Storages.Sync
--   (SyncStore, Insert) are over TableHelper and a Writer, the call that writes the rows of one table;
--   Storages.Warehouses has the writers and the backends of Postgres, Redshift and Snowflake
--   (storages/redshift.go, storages/snowflake.go).
-- - Storages.Streaming (storages/streaming.go) is the worker that takes events from Events.Queue
--   (events/persistent_queue.go), processes each and inserts it.
-- - LogFiles (logfiles/status_manager.go, logfiles/archiver.go), LogFiles.Uploader
--   (logfiles/uploader.go: one round) and LogFiles.Fallback (fallback/service.go): files of events are
--   stored until every table is, and archived. FileSystem is the interface of the package os.
-- - Meta (meta/redis.go): the calls of Redis, with `ErrNil` as an answer. Caching
--   (caching/events_cache.go) and Users (users/service.go) are its clients.
-- - Authorization (authorization/parser.go, authorization/service.go) and Middleware
--   (middleware/token_auth.go): the tokens, and the guards in front of the handlers, with the routes
--   of events (routers/router.go).
-- - Destinations (destinations/collections.go), Destinations.Service and Destinations.Creation
--   (destinations/service.go: the state, removals and getters, and `init`): how a reload of the
--   configuration removes, recreates and creates destinations. Proxies, queues and loggers are types
--   of the record Parts; what is closed is recorded. A missing logger is a panic, `none`.
-- - Drivers (drivers/granularity.go, drivers/time_interval.go) and Sources (sources/sync_task.go): a
--   synchronization is the sequence of its effects, over a World that answers for the driver, the meta
--   storage and the destinations. Sources.Service (sources/service.go) starts the tasks of a source,
--   each behind a lock.
-- - Tests: runs on concrete inputs, and every theorem of the list applied to one.
--
-- Numbers. Lengths, pointers, versions and times are natural numbers. Integer values are not bounded:
-- no operation of the modelled code does arithmetic on them. A length minus one is only taken where
-- the code has a length that is not zero, or panics, which is `none`.
--
-- Loops are recursion on the list, the object or the path that they go through; nothing needs fuel.
-- Workers that never end are a number of rounds.
-- The order in which Go iterates over a map is not fixed; here it is the order of the list.
--
-- Not modelled: logs and metrics; the databases, Redis, the file system, the cluster and the parsers of
-- JSON and of templates, which are parameters; the goroutines, and the channels and queues in front of
-- the caches and the recognition of users; connections and constructors; the start of the
-- destinations' service and of the sources'; ClickHouse, BigQuery, S3 and Google Analytics as
-- destinations; the web server's start
-- and its other routes.
pub mod Base
pub mod Value
pub mod Typing
pub mod JsonPath
pub mod Schema
pub mod Events
pub mod Adapters
pub mod Storages
pub mod Authorization
pub mod Middleware
pub mod Drivers
pub mod Sources
pub mod Destinations
pub mod LogFiles
pub mod Meta
pub mod Caching
pub mod Users
pub mod Tests
