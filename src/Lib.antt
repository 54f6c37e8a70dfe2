-- ===== src/Lib.antt =====
-- A verification of the Go programs of this repository: the central system for electric vehicle
-- chargers in ocpp/, the collector for a solar inverter in solar/, the collector for MQTT flow
-- sensors in common/, and three programs of analysis/: the aggregation of an electricity meter's
-- pulses, the comparison of electricity providers, and the heat loss of a room.
--
-- The parts and the files that model them:
-- * Prelude, GoMap, GoTime, GoFormat, GoPath, GoConv, GoStrings, Float64: what the programs use of
--   Go. `int` is the integers with 64-bit wrap-around written out (add_int); strings are lists of
--   bytes; a map is an association list with one entry for a key, whose order no code relies on; a
--   time is the nanoseconds since the zero Time, with no monotonic reading; a float64 is its 64 bits,
--   and float arithmetic is a parameter. A call that may panic gives an Outcome. GoFormat prints and
--   reads dates and times, up to the year 9999, over its own calendar (Calendar, with the proofs;
--   RoundTrip); it reads no fractions of seconds.
-- * Ocpp.Types, Ocpp.Handler (ocpp/handler.go): CentralSystemHandler with the counter
--   nextTransactionId, and one function for each callback: OnBootNotification is
--   on_boot_notification, and so on. The callback takes the state and gives reply and new state.
--   Pointers into the maps are written back; nothing else points at them. Proofs: Consistent (one
--   charge point), Writes, Invariant, Callbacks, Runs, Frame, Errors, Transactions, Sessions.
-- * Ocpp.Events (ocpp/main.go): what main registers with the central system, and a run of callbacks.
--   Callbacks are taken one after the other, as whole steps: the program has no lock, and what an
--   interleaving inside a callback would do is not modelled. Proofs against an abstract view: Ledger
--   holds the charging sessions and what each message does to them; LedgerWrites, LedgerSteps,
--   LedgerRuns; Exclusive.
-- * Ocpp.Store (ocpp/store.go): Init, Save, Restore and Run over an abstract database and an abstract
--   encoding, whose documented behaviour the theorems name. Proofs: Fresh, Restart. Ocpp.Start
--   (ocpp/main.go, NewStore): from the environment and the database to the handler that is served.
--   Proofs: StartAgain.
-- * Ocpp.Http (ocpp/http.go): Reset, StartTransaction and StopTransaction as a check that responds or
--   sends a command, and what is written once the charge point has answered. Ocpp.Index: the entries
--   of the index page. Ocpp.PageText: its text, with the formats of floats and times as parameters;
--   Ocpp.Markup reads the forms of such a text, and Ocpp.PageSpec lists those that a state asks for.
--   Ocpp.Routes: the table of paths (init), and a browser that sends a form, as a parameter. Proofs:
--   HttpGuards, HttpLinks, HttpReplies, Shown, ShownWrites, ShownRuns; PageForms, PageRead, PageShows
--   and PageActions (the forms of the text); Visit has the page, the table, the handlers and the
--   callbacks together.
-- * Solar.Registers, Solar.Collector (solar/solar.go): the fetchers over an abstract Modbus client
--   with a state, the table of metrics, Scrape, Describe and Collect. Proofs: Decoding, Scrapes.
-- * Nodes.Types, Nodes.Sensors, Nodes.Hellos (common/smarthouse.go): the nodes by name, the sensors
--   in a heap that nodes and MQTT callbacks point into by address, Prometheus' registry and the MQTT
--   client as parameters with a state. The callbacks are GotHello (with RegisterNode, UpdateNode and
--   SetupSensors), the one of Subscribe, and mqttConnected; a run is a sequence of whole callbacks,
--   each of which reads the clock once. Proofs: Valid (the invariant), Steps (the sensors' methods),
--   Setup, Runs, Specs, Reports, Registering, Clashes. Nodes.Page: reportNodes, Describe and the
--   values that a scrape reads, with the formats of floats and of ages as parameters;
--   Nodes.PageSpec: what its sections are to say. Proofs: Sorting, PageShown.
-- * Nodes.Start (common/smarthouse.go): main and mqttConnect, with url.Parse, the host's name and the
--   broker's answer as parameters. The fuel is the number of waits of three seconds. Proofs: StartUp.
-- * Nodes.Adders (common/smarthouse.go): the loop of flowSensor.add, one load or compare-and-swap of
--   the counter at a time, by goroutines in any order. Proofs: Order, Ranks, Amounts, End. Elsewhere
--   a callback adds in one step.
-- * Analysis.Periods, Analysis.Pulses (analysis/powerdb.go): the half-hours over an abstract time
--   zone, the name of a period's log file, the scan of one (InsertPeriodToDB) and the loop of main,
--   over abstract files and an abstract database. Analysis.Update: GetLastUpdate and the whole of
--   main. Proofs: Loops (zones that keep their offset), Folds, Stuck and Skipped (the end of
--   summer time), Hours (what is counted), Resume (from one run to the next).
-- * Analysis.Bills (analysis/provider-comparison.go): GetProviders, QueryPerProvider, ParseBillDates
--   and main. Of the SQL query the range of half-hours is modelled; the joins and the sums are a
--   parameter, as is what is done with the amounts. A missing argument of the command is not
--   modelled. Proofs: Ranges, BillDates, Columns.
-- * Analysis.Rates, Analysis.Windows, Analysis.Scans, Analysis.Rooms (analysis/heatloss-analysis.go):
--   the statistics of a night's rates, EndWindow, the loop of ScanFile over lines, and ScanFile with
--   main, from the files to the values of the lines that are printed, VERBOSE or not, over abstract
--   float32 arithmetic and an abstract local hour. analyse is main over one list of lines. Proofs:
--   Nights, Lines, RateBounds, Starts, Pace, Covered, Verbose, WholeRuns.
--
-- Loops are recursion on lists; fetch has its two attempts as a number. The fuel of itoa is the
-- number plus one, which is more than it has digits; that of the loop over half-hours is an argument,
-- and the half-hours since year 1 are enough where each step moves on by one. Types of ocpp-go appear
-- by the fields that the code reads. The tests and the theorems at concrete inputs stand in the
-- modules named Examples.
--
-- Not modelled: logging and progress messages, serving HTTP and websockets, the serial line, the
-- sending of requestConfiguration's request (its answer is an event), what the web server does to a
-- path before it looks it up (its cleaning and redirects), the formats of the heat loss program's
-- output, and everything that is not Go.
mod Prelude
pub mod GoMap
pub mod GoTime
pub mod GoPath
pub mod GoConv
pub mod GoStrings
pub mod GoFormat
pub mod Float64
pub mod Nodes
pub mod Analysis
pub mod Ocpp
pub mod Solar
