-- ===== src/Lib.antt =====
-- Verification of the Automotive Testing Framework: the simulated control units and protocol nodes of
-- its sub-projects, which the test suites of the framework exercise.
--
-- The sub-projects are independent programs. Each one that is modelled is a module of its own:
--
--   Nm              subProj 7 OSEK AUTOSAR NM/autosar_nm_node.py: class AutosarNMNode. The record has
--                   the fields of the class, `step` is one call of request_network, release_network,
--                   on_nm_message_received or tick, and `run` is a sequence of calls.
--   FaultInjection  subProj 8 ISO26262 Fault Injection: SafetyEcu is safety_ecu.py, FaultProxy is
--                   fault_proxy.py with the bench of tests/test_iso26262_faults.py, which frames a
--                   reading, sends it through the proxy, and hands what comes out to the ECU.
--   SecOc           subProj 12 SecOC Mock: Crypto is secoc_crypto.py, Nodes is secoc_nodes.py. A method
--                   that may raise returns a Result beside the state, which stays as the code leaves it.
--   Uds             subProj 3 UDS Diagnostic Tester/uds_ecu.py: process_request, one definition for each
--                   service. `serve` answers a list of payloads; Loop is _run over an ISO-TP stack, and
--                   Threads its thread beside the program that starts and stops it.
--   Xcp             subProj 9 XCP Calibration: Slave is xcp_ecu.py, Master is xcp_master.py, Frames is
--                   the message and the padding that both use; Calibration joins the two.
--   SomeIp          subProj 11 SOMEIP Tester: Server is someip_server.py, Client is someip_client.py, Header
--                   the header that both pack. `listen` is one round of _listen for a datagram, `publish`
--                   one of _publish_notifications; a call of the client takes the network as a function.
--                   Threads has the three threads of the server and its start and stop, one access to
--                   shared state at a time.
--   CanEcu          subProj 1 Virtual CAN Bus Framework/mock_ecu.py: `broadcast` is one round of _run, and
--                   `nm_listener` is _nm_listener over the messages that arrive. Threads has the two
--                   threads with start and stop, one access to shared state at a time; Beat has the times
--                   of the rounds, and Ramp the signals that `__main__` sets.
--   Traceability    subProj 5 ASPICE Traceability/traceability_generator.py: from the elements of the report
--                   that the parser reads to the matrix, its text (Markdown) and the exit code of main.
--   Vehicle         subProj 6 HIL Mock Dashboard/vehicle_sim.py: class VehicleSimulator over an interface of
--                   numbers, which stands for the floats.
--   Dashboard       subProj 6 HIL Mock Dashboard/dashboard.py: the widgets that MockDashboard writes and its
--                   handlers; `handle` is one event of Qt, and the vehicle is the one of Vehicle.
--   Aeb             subProj 2 Automated ADAS AEB SiL Tester/aeb_logic.cpp: calculate_braking_force with its
--                   static counter as an argument; `evaluate_all` is the calls of aeb_wrapper.py.
--   Capl            subProj 4 CAPL Converter/capl_parser.py: Patterns has its regular expressions, Blocks is
--                   extract_blocks, Translate is translate_syntax, Generate is generate_python.
--                   Names is about the message variables in the lines of the blocks.
--   Regex           what the converter uses of Python's `re`: a backtracking matcher with search, finditer
--                   and sub. Language is what its patterns mean.
--   VectorCast      subProj 10 VectorCAST Parser/parser.py: Parser is parse_file and parse_directory, Report
--                   is compute_deltas and generate_json_report, Html is generate_html_report. An Attempt is
--                   code that changes the metrics and may raise, where the changes before stay.
--   Prelude         shared: Boolean tests, lists over the native numbers, Python's integers (Int), its
--                   bit operations on them (Bits), byte strings and struct (Bytes), dictionaries (Dict),
--                   and strings by their code points (Texts).
--
-- Python's integers are unbounded and signed: where a value can be negative it is an integer ℤ, and a
-- byte, a length or an address read from a frame is a natural number. A dictionary key that may be
-- missing is an Option, and each exception that can reach a caller is an error of a Result: an index
-- out of range, a number that struct or bytearray refuses, None where a number is wanted.
--
-- The padding loop of the calibration frames runs on fuel 8, which is enough since every round adds a
-- byte and the loop ends at eight. finditer and sub run on the length of the text, which is enough for
-- patterns that consume something, as all of the converter's do; the digits of a number n are printed on
-- fuel n + 1. The loop of the UDS ECU is counted in its turns and the ramp of the CAN ECU in seconds; all
-- other loops are over lists.
--
-- The digest of hmac and hashlib is a parameter of SecOc: a function of the key and the message. That
-- its digests have 32 bytes is a hypothesis where it is needed. The ISO-TP stack is an interface, which
-- keeps the order of what it receives and sends. Sockets and the CAN bus are what they give: what arrives
-- is a list of messages, and a send or a read of one turn of a thread works or raises. The time between two
-- calls is the argument of tick. python-can's Message is a record of its three arguments.
--
-- A program with threads is a list of turns in any order. A turn is a step of one thread or of the
-- program that starts it, and makes one access to what they share; a set and a list of it are copied and
-- changed in one step, as under the lock of CPython. The program calls start once and then stop, or stop
-- alone, and a thread that is started stands at its first line. The beat of the CAN ECU is counted in
-- microseconds, so that 20 ms are exact, where the code adds and subtracts floats of time.time(); the
-- clock is taken not to be set back, and a sleep lasts at least as long as it is asked to.
--
-- A set of subscribers is the list of its members, whose order stands for the one in which Python happens
-- to go through the set; an IPv4 address is its 32-bit number. The latitude of the SOME/IP server and the
-- signals of the vehicle are floats: the one is a type with its packing, the others an interface of
-- numbers with the laws of the comparisons as hypotheses. A string is the list of its code points, and
-- an XML element of the traceability generator is a record of what the parser reads of it.
--
-- The regular expressions read `\d`, `\w` and `\s` as their ASCII characters, and so do strip and int.
-- The time of a timer is printed for up to fifteen digits, where n/1000 is exact. An XML file is the tree
-- that ET.parse gives, or its exception; the files of a directory are those that glob gives, in its order;
-- a baseline is the entries that the comparison reads, and each stands there with a number or is missing.
-- Quotients of integers that are too large for a float are not considered. The counter of the emergency
-- brake is an int of 32 bits: one more than 2^31 - 1, which C++ leaves undefined, is an outcome of its own. A window's event loop goes on
-- after a handler that raised, as it does under pytest-qt.
--
-- Not modelled: the test suites, the writing and the command lines of the tools, and what the parts above
-- leave out: the names of the threads and what they log, the options of the sockets, the layout of the
-- window.
pub mod Prelude
pub mod Nm
pub mod FaultInjection
pub mod SecOc
pub mod Uds
pub mod Xcp
pub mod SomeIp
pub mod CanEcu
pub mod Traceability
pub mod Vehicle
pub mod Aeb
pub mod Regex
pub mod Capl
pub mod Dashboard
pub mod VectorCast
