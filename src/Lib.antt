-- ===== src/Lib.antt =====
-- Verification of Meshtastic Things: a pipeline that decrypts the packets of Meshtastic gateways, and the
-- key registry that says which gateways and nodes it may decode.
--
-- The program's parts. Owners register meshes and devices at the key registry (meshtastic_things/keyapi/registry).
-- Its views change tables of a database and publish events on Kafka topics (kafka_publisher.py). Two decoders
-- read these topics: the consumer of the lite tier (pipeline/decode_consumer.py) and the stream job of the full
-- tier (flink/decode_job.py). With the keys they got they decode each packet that a gateway sends
-- (common/decode.py, common/codec.py), and send decoded events, sightings of nodes and discoveries of fields to further
-- topics. The registry reads the sightings back (consume_device_sightings.py). Writers put the decoded
-- events into S3 and InfluxDB (writer), from where the query API reads them for the owners that the registry confirms
-- (queryapi). The quality worker derives series from what is stored and checks its completeness (quality_worker), the
-- pattern detection job watches the readings (flink/pattern_detection_job.py); they send alarms, of which the registry
-- mails those that it can route, and discoveries, which it enters into its catalog of measurements.
--
-- The modules.
--   Prelude: lists, texts with Python's formatting of numbers, memberships. Json, Dict, Kafka: decoded JSON,
--     dictionaries that are read and written by key, and a producer whose broker is a parameter.
--   Codec, Decode: common/codec.py, common/portnum_registry.py and common/decode.py. A packet's way is the
--     monad Step: it raises, is dropped with a reason, or passes.
--   Config, Stream: the state of both decoders, their changes, and the loops that read packets.
--   Registry: Models (the rows of models.py, the constraints), Requests (a view as a function of the
--     tables and topics; what is written before an exception stays written), Publisher, Access (permissions.py and the
--     helpers of views.py), Meshes, Devices, Owners, Logins (authentication.py and the login view), Sightings,
--     Service (urls.py), Decoders (what a log of events makes of a decoder), Soundness (the agreement of tables and decoders),
--     Blueprints (the views of blueprints and their serializer), Catalog (the tables of measurement types and what hangs on
--     them, with Views, the rows that go with a device (Cascades) and the consumer of discoveries,
--     consume_sensor_discovery.py), Alarms (consume_quality_alarms.py).
--   Table, Cache: the rows of a table under its constraints, and Django's cache with the laws that are relied on.
--   Regex, Query: Python's `match` by lists of rests, and common/influx_query.py; Flux has the texts of the queries of
--     queryapi/telemetry/influx_client.py, Introspection the credentials of the query API (authentication.py beside it) with
--     the revocations that the registry publishes, and with a log of the calls and revocations that the code does not keep.
--   Patterns: flink/pattern_detection_job.py, with its keyed and its broadcast state; History compares it with detectors over
--     all readings.
--   Influx: writer/point_builders.py, and Influx.Writer the loop of writer/influx_writer.py; Variants compares the points
--     with the channel names of common/channels.py.
--   Quality: executor.py, common/detectors.py, and Tasks, the check of completeness of quality_worker/tasks.py.
--   Channels: common/channels.py and common/units.py.
--   Archive: writer/s3_writer.py, with its bucket as the log of a producer whose sends are the puts.
--   Tests: concrete packets, worlds and series.
--
-- The correspondence. A view's function has the view's name (mesh_put for MeshDetailView.put); its guards stand
-- in the order of the code, and the record World holds the tables and the topics' log. A UUID is its text, a
-- device id a natural number, a time a number of seconds, a stored float its decimal text. Of an event the fields are
-- kept that a consumer reads. JSON null in an event of the registry is as an absent key. Generated ids and
-- tokens and the time are arguments. The loops are structural recursion on the lists that they read; the only
-- fuel is that of the digits of a number (Prelude.Text), n + 1 for n, which is enough for every base from 2.
--
-- Third-party code is a parameter: protobuf, AES-CTR and the table of port numbers (Codec.Library), the
-- broker's acknowledgements (Kafka.Delivery), hashing and password validation (Registry.Owners.Hashing), Django's
-- cache (Registry.Logins.FailureCache, with its laws in Registry.Logins.Counting.IsCache, and Cache.CacheOf with
-- Cache.IsCacheOf), Python's reading of UUIDs, dates and digits (Query.Platform), its conversions of values (Influx.Python,
-- Patterns.Arithmetic), the hash of a token, the check of a step against its
-- algorithm, the algorithms that are not in the repository (Quality.Steps.Algorithm), the order in which the
-- database sorts texts, S3, and the equality of keys that are JSON (Archive). The validation of single fields by
-- Django REST framework is done before a request of the model starts.
--
-- Not modelled: the seed of the catalog from the protobuf descriptors, the stream job for calibration,
-- the run of a blueprint as a task and the scan that enqueues the tasks, the shaping of query results, and the
-- bridge from MQTT; the set-up of connections, logging, health reports, templates and administration pages, which keep no
-- state of their own. A consumer keeps its partitions: a rebalance of a group is no step.
pub mod Prelude
pub mod Json
pub mod Dict
pub mod Table
pub mod Cache
pub mod Kafka
pub mod Codec
pub mod Decode
pub mod Config
pub mod Stream
pub mod Registry
pub mod Quality
pub mod Regex
pub mod Query
pub mod Patterns
pub mod Influx
pub mod Channels
pub mod Archive
pub mod Tests
