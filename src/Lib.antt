-- ===== src/Lib.antt =====
-- CAN-Sentinel: the Python side of a vehicle network's intrusion detection. Frames come from
-- the virtual bus or, through the IPC server, from a C sniffer; the stream detector parses
-- each, takes its features, and lets an Isolation Forest model score it; the alert engine turns
-- what the model calls anomalous into classified alerts.
--
-- The files, with the code that they model:
--   Frame.antt: `CANFrame` of src/sim/bus_emulator.py, as the record `CanFrame` with its
--     constructor `new_frame` and its printed form `repr`.
--   Bus.antt, Bus/*: `VirtualCANBus` of src/sim/bus_emulator.py. The subscribers' queues are
--     shared objects, so they stand on a heap under their identities; `send` is the loop over
--     the subscribers with `put_nowait` and its dropped `queue.Full`. The lock makes each
--     method one step of the relation in Bus/Reach.antt.
--   Ipc.antt, Ipc/*: `CANIPCServer` of src/ipc/ipc_server.py: `unpack_binary_frame`,
--     `_dispatch_frame` and `_handle_client`, whose events are what the socket's `recv`
--     returned so far. Ipc/Clients.antt has the threads of several clients, in any order of
--     their steps, which are parts of a dispatch too, since no lock holds it together; a
--     callback runs to its end within a step. Ipc/Packet.antt has the packet of
--     src/c/can_sentinel_common.h as the sender lays it out.
--   Server.antt, Server/*: `start`, `stop` and `_server_loop` of src/ipc/ipc_server.py, as
--     actions of a schedule; what `bind` and `accept` do is part of the schedule.
--   Callbacks.antt: the loop over callbacks whose exceptions are caught, which several classes
--     share. What the callbacks act on is a parameter, the world `W`.
--   Ids.antt, Signals.antt, Signals/*, Parser.antt, Parser/*: src/parser/telemetry_parser.py. A
--     raise in `parse_frame` comes after the state is written, so the new state stands beside
--     the result.
--   Features.antt, Features/*: `FeatureExtractor` and `StreamingFeatureExtractor` of
--     src/ml/features.py; Features/Offline.antt has the offline account of a stream that the
--     extractor is compared with.
--   Model.antt, Model/*: fitting, prediction and evaluation of `CANIsolationForestModel` in
--     src/ml/train_isolation_forest.py.
--   Detector.antt, Detector/*: `StreamAnomalyDetector` of src/detection/stream_detector.py,
--     with `process_frame` as the chain of `process_frame`, `score` and `conclude`.
--   Alerts.antt, Alerts/*: `AlertEngine` of src/detection/alert_engine.py.
--   Logger.antt, Logger/*: `CSVTelemetryLogger` of src/logger/csv_logger.py and the loop of
--     `generate_baseline_dataset` over its frames; the file is the list of its lines.
--   Sim.antt, Sim/*: `generate_batch` of src/sim/ecu_generator.py, with `pack` raising where a
--     number does not fit, and `generate_baseline_dataset` of src/logger/csv_logger.py on its
--     frames.
--   Ecu.antt, Ecu/*: `_broadcast` and the rounds of the four sending loops of
--     src/sim/ecu_generator.py, with the clock and the number of the round as arguments.
--   Simulator.antt, Simulator/*: the five threads of `VehicleECUSimulator` in
--     src/sim/ecu_generator.py, with `start` and `stop`, as actions of a schedule;
--     Ecu/Decoding.antt has the parser read what they send.
--   Csv.antt, Csv/*: `extract_features_from_csv` of src/ml/features.py on the lines of a file;
--     a cell that a line lacks is None, so a label may be None too (Prelude/Label.antt), and a
--     file that is missing is `none`.
--   Evaluate.antt, Evaluate/*: `ModelEvaluator.evaluate_dataset` and `print_evaluation_report`
--     of src/ml/evaluate.py; the set of labels is a list without repetitions, which the sort
--     then orders, unless a None is among texts.
--   Storage.antt, Storage/*: `save`, `load` and `train_pipeline` of
--     src/ml/train_isolation_forest.py on the model's file and the metadata's, the two at paths
--     that differ. What the disk does to each write is an argument (`Disk`): it may take it,
--     refuse it, or raise with a part written.
--   Manager.antt, Manager/*: `ModelManager` of src/ml/model_manager.py.
--   Attacks.antt, Attacks/*: `CANAttackSuite` of src/attacks/attack_suite.py. A `Scene` has the
--     bus, the random generator and what the callback acts on; the three injections are one
--     loop, `inject`, over the frame that each crafts.
--   Timeline.antt, Timeline/*: `generate_labeled_attack_dataset` of
--     src/attacks/attack_suite.py, where `list.sort` is what a stable insertion sort gives.
--   Pipeline.antt, Pipeline/*: the IPC server, the stream detector and the alert engine put
--     together: the server's callback is `process_frame`, the detector's is
--     `evaluate_detection`, as in tests/stress_test.py.
--   Struct.antt, Struct/*: Python's `struct` for the codes that the program uses, with its
--     laws. Prelude.antt, Prelude/*: lists, texts, integers, dictionaries in insertion order,
--     `Counter`, `deque(maxlen)` and results. The Tests files run the definitions and apply the
--     theorems.
--
-- Floats: the program computes with Python floats. Floats.antt takes them as an interface,
-- `FloatOps`, with no laws; a theorem that needs a fact on floats has it as a hypothesis.
-- Floats/Fixed.antt is a fixed-point instance for the tests. NumPy's mean, variance and
-- percentile and scikit-learn's scaler and forest are parameters too (`NumpyStats`, `Sklearn`),
-- and so are joblib and json (`Library`). Where a theorem says so, scikit-learn scores a matrix
-- row by row (`IsRowwise`), or with one score for each row, and joblib and json read back what
-- they wrote (`IsFaithful`).
--
-- Fuel: the loop of `_handle_client` over its buffer runs on fuel one above the buffer's
-- length, and each round takes a packet of 24 bytes off, so the fuel does not run out. The
-- program's other loops are by structural recursion. The digits of a number are computed on
-- fuel above the number (`digits_of`).
--
-- Texts: a CSV file is the list of its lines, a line the list of its cells, since the `csv`
-- module quotes what needs it. A number is read from its decimal digits alone (`read_nat`);
-- Python's `int` also takes a sign, blanks and underscores. How a float is printed and read is
-- `FloatOps`, and a theorem that needs a printed float to be read back has that as a
-- hypothesis.
--
-- Exceptions are values of `Error`; the clock's readings, the measured inference time, whether
-- a log file can be written and what a socket receives are arguments.
--
-- Not modelled: the sockets themselves; python-can, whose bus `create_can_bus` in
-- Bus/Factory.antt may return; what the program prints on its progress, and the command lines;
-- the C programs, the scripts and the tests.

pub mod Prelude
pub mod Floats
pub mod Struct
pub mod Frame
pub mod Callbacks
pub mod Bus
pub mod Ipc
pub mod Ids
pub mod Signals
pub mod Parser
pub mod Features
pub mod Model
pub mod Detector
pub mod Alerts
pub mod Logger
pub mod Sim
pub mod Csv
pub mod Attacks
pub mod Timeline
pub mod Evaluate
pub mod Storage
pub mod Manager
pub mod Server
pub mod Ecu
pub mod Simulator
pub mod Pipeline
