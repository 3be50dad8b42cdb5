-- ===== src/Lib.antt =====
-- SprinklerD, the sprinkler daemon: its zone control, rain delay, cache file, cron file, web requests, MQTT
-- connection, configuration, and the rounds of its main loop.
--
-- The daemon keeps one state, `_sdconfig_` (config.h), which requests from the web and MQTT change and
-- which its main loop checks every round. The zone control (zone_ctrl.c) turns the pins of the zones and
-- of the master valve (zone 0) on and off, for one zone at a time, for all zones in turn or for cron. The
-- rain delay (sd_cron.c) holds cron's requests back for a time and is set by hand or by the rain sensors. The
-- cache file (config.c) keeps the options over a restart. What changes is published by MQTT, to topics of the
-- daemon's own, to Domoticz and to Home Assistant (net_services.c, json_messages.c, hassio.c).
--
-- Prelude    the libraries' names that the other files use, integers and lists over the native numbers.
-- State      `struct sprinklerdcfg` (config.h) as a record, with the pins, the clock and the two files the
--            daemon writes; a function is a command from the state to a result and a state, a fault
--            (an access outside the array of zones) or the end of its fuel. State/Outcome has the rules that
--            the proofs use: what a command returns and which parts of the state it may change.
-- Platform   the GPIO driver (digitalRead, digitalWrite) and C's float, which are parameters; `Driver` is what a
--            driver documents of pins that are set up as outputs; it takes the pin numbers of validGPIO (GPIO_Pi.h)
--            without wiringPi, 2 to 27.
-- Zones      zone_ctrl.c. Pins, Cycle and Requests hold the functions by their names in the source
--            (`zc_rain_delay_enabeled` is `zc_rain_delay_enabled`); a long function is split at its loops and
--            branches. Panel and Switches describe the pins as at most one zone that is on; Safety has the
--            invariant `Safe`: the configuration is sound (each zone a pin of its own, on at 0 or 1), the current zone is
--            the only one on, and the master valve, where one is fitted, is on with it. Halting, Termination and Ending
--            need no such invariant: they have the end of every request, whatever the driver does.
-- Cache      write_cache and read_cache (config.c) over lines of numbers; RoundTrip and Overrun have what one makes of
--            the other's file.
-- Rain       the rain delay, the calendar switch and the rain sensors (sd_cron.c).
-- Sound      the state as every handler keeps it: `Safe`, and `Tables`: a calendar of seven days with a run time for
--            each zone, zones that carry their own numbers, and a Domoticz cache with room for every value; with
--            lemmas for the operations that the handlers call. Zoned has the same for commands in parts that
--            rely on the number of zones, and the lemmas that take a handler apart.
-- Text       the C library's functions on text that the requests use, and str2int (utils.c). Format has what
--            sprintf writes for whole numbers.
-- Web        serve_web_request (net_services.c), a function for each type of request. mongoose's
--            mg_get_http_var is a parameter, the query's variables. Json has the texts of json_messages.c, and Serve a
--            request as a whole: its change, the text of its answer and action_web_request. Texts and Held have
--            what its proofs use of the texts and of a run that may end at a status that does not fit.
-- Cron       write_cron, check_cron and read_cron (sd_cron.c); the cron file is a list of lines, and how a line matches
--            the regular expression is a parameter. Plan has the lines of a day in minutes of the day.
-- Domoticz   update_dz_cache, check_dz_cache and action_domoticz_mqtt_message (net_services.c), and in Parse
--            parseJSONmqttrequest (json_messages.c), which reads bytes and ends at an access outside a buffer; RoundTrip
--            has what it makes of the daemon's own message.
-- Mqtt       the rest of net_services.c. Defs has the connection's state and what is published of a zone, Lifecycle how
--            MQTT is started, Broadcast the three broadcasts, Topics action_mqtt_message, Events ev_handler with a
--            function for each event, Hassio the messages of hassio.c. A function that also reads or changes the
--            daemon's state is a command that ends with the connection's new state. Published, Safety and Handler
--            prove that these keep the state sound; Laws has the message ids and the states of the connection, and Mild,
--            Reading and Cleared the events that the broadcasts clear.
-- Startup    Options: main's arguments (sprinkler.c); Settings and Inputs: readCfg (config.c), with minIni's functions
--            as parameters; Pins: the pins at the start and at the end (sprinkler.c); Inputs: event_trigger, whose
--            commands are results; Main: main up to its loop, where an exit is a result. Planned and SetUp
--            follow the configuration to pins that are set up, Begun to the states the daemon reaches.
-- Utils      the log of utils.c: logMessage as a list of texts and the places they go to; Replace: replace and
--            count_characters. replace's fuel is one round more than the text has bytes, for a pattern that
--            is not empty.
-- Daemon     a round of main_loop (sprinkler.c), and the daemon as a sequence of events of mongoose, rounds, clock
--            settings and connections that come and go.
-- Tests      a garden of three zones and a master valve, runs of the code on it, and the theorems applied.
--
-- Bounds. `int`, `long` and `time_t` are unbounded integers: clocks, minutes and indices stay far below their
-- widths. `zones` is a natural number, as the configuration reader counts it. The clock stands still while
-- a function runs. The loop of `start_next_zone` and its call for itself take fuel: `zones + 1` rounds of the
-- loop pass every zone, and one call is enough where every pin answers.
--
-- Buffers that hold a text are unbounded, but for four, where the model ends at a fault: the topic of the last will,
-- the text value of a message from Domoticz, the status in a JSON text, and the answer to a web request, whose
-- buffer is checked at the end of the text. The messages of all
-- connections are one list.
--
-- Not modelled: the calls of the log; the remounting of the root directory; the sending of the answers to web requests;
-- the running of external commands; the start of a daemon process; mongoose, minIni
-- and the GPIO library, which are other projects' code.
pub mod Prelude
pub mod Platform
pub mod Text
pub mod Format
pub mod State
pub mod Zones
pub mod Cache
pub mod Rain
pub mod Sound
pub mod Zoned
pub mod Cron
pub mod Daemon
pub mod Web
pub mod Domoticz
pub mod Mqtt
pub mod Startup
pub mod Utils
pub mod Tests
