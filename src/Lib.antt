-- ===== src/Lib.antt =====
-- Transparent Tor Proxy (ttp): a program that sends a host's traffic through Tor by nftables rules and
-- an overlay of resolv.conf, watches that they stay in place, and cuts the network when they do not.
--
-- How the parts work together. The start command applies the table that `_build_ruleset` writes and
-- starts the watchdog. The watchdog decodes inotify events and calls `check_system_integrity`; a
-- failure leads by `trigger_emergency_killswitch`, and a watchdog that dies by
-- `supervision_terminated`, to `request_emergency`, which latches the emergency on disk, applies the
-- emergency table, inspects what the kernel then holds, and reports diagnostics whose most urgent code
-- is the exit code. The stop command calls `mark_stopping` first, and inserts the rules of
-- ttp/firewall/emergency.py while services are stopped.
--
-- Which file models which part. Functions keep their source names, without a leading underscore.
-- - Evidence (ttp/evidence.py): exit codes, diagnostics, results, the age of observations.
--   Select, Dicts and Age prove what is shown of `exit_code`, of `as_dict` and `from_dict`, and of
--   `is_current`.
-- - Firewall.Rule and Firewall.Builder (ttp/firewall/builder.py): the rules as data with their text, and
--   `_build_ruleset` as the chains of its template. The comments of the template and blank lines of
--   absent rules are left out.
-- - Firewall.Nft: what is relied on of nftables, which is not part of the repository, as a record with
--   laws. Firewall.Samples is a small kernel that meets the laws.
-- - Firewall.Accepts, FilterOut, NatOutput and Torified prove what the session's chains let through.
-- - Firewall.Emergency (ttp/firewall/emergency.py): the emergency table and the rules of a teardown.
-- - Firewall.Contract and Firewall.Inspect (ttp/firewall/verification.py): `matches_emergency_contract`
--   over a JSON value, and `inspect_emergency_rules` over what nft answered.
-- - Firewall.Runner (ttp/firewall/runner.py): `apply_rules` and `destroy_rules` over the table in the
--   kernel, with how each run of nft ends as an answer. The removal of an old ruleset file is left out.
-- - State (ttp/state.py): the test of a lock's process over bytes, `is_orphan` and `attempt_recovery`.
-- - Paths (ttp/paths.py): the resolution of binaries over a file system.
-- - Probe (ttp/probe.py, with the endpoints of ttp/netprobe.py): the five attempts of `verify_session`,
--   over what the worker, the clock and the identity check answer.
-- - Dnssec (ttp/dns_policy.py): `check_dnssec_policy` over what files and systemd-resolved answer.
-- - Session.World, Session.Request and Session.Terminate (ttp/session_safety.py,
--   ttp/watchdog/alerts.py and the reads of ttp/state.py that they make): the files are a record, what
--   the outside answers in one call is another, and each operation returns its result, the files
--   after it and the actions it attempted. Names of exception classes in messages are left out.
-- - Watchdog.Inotify (ttp/watchdog/inotify.py): `inotify_watch_lost` over a list of bytes. The loop
--   runs on fuel, the number of bytes: each round but the last takes 16 bytes or more away.
-- - Watchdog.Integrity (ttp/watchdog/integrity.py): the counter baseline, `check_system_integrity` over
--   a record of what the system answers, and `attempt_auto_healing`.
-- - Session.Request has a child for each thing that is looked at: Verified, Quiet, Urgent, Deadline and
--   Latch.
-- - Watchdog.Supervisor (ttp/watchdog/supervisor.py): a round of `run_supervisor` as a computation on
--   the supervisor's state that may leave the loop or raise, with what the outside answers, by the
--   number of events so far, as an argument. Run has the beginning, the end after an exception, and the
--   step relation in which others stop the session or request containment between rounds. Invariant has
--   the rules that Checked and Latched use.
-- - Watchdog.Unit (ttp/watchdog/service.py): the lines of the systemd unit, without its comments.
-- - Settings (ttp/settings.py): settings as Python values, of which some have the wrong type, with
--   `validate` and `select`; Snapshot has the JSON object in the lock and Load the file; Timing and
--   Loaded are about the times. A time is a number of ticks, and `second` says how many ticks a second has.
-- - Lifecycle (ttp/commands/lifecycle.py) and Lifecycle.Commands (ttp/commands/stop_restart.py): `do_stop`,
--   `signal_handler`, `stop_command`, and `restart_command` between its preflight and the start, over the
--   session's files, the table in the kernel and the calls made, with how each call ends as an answer.
--   Rules has the rules for the ways in which a part ends, and Passes whether the parts of a stop go on;
--   Stopped, Restored, Returns, Final and Retained are about the ends of each command.
-- - Start (ttp/commands/start.py, and `record_verification` of ttp/session_report.py): `start_command`
--   from the lock that it has written to its exit; Start.Setup has the part from the firewall to that
--   lock, with what is undone when a step fails.
-- - Session.Machine is an abstract machine for one session, of which the operations of
--   ttp/session_safety.py and `delete_lock` are steps; Session.Request.Files is what a request changes.
-- - Start.Report (ttp/session_report.py): the diagnostics of `observe_session`, over what is read and observed.
-- - Start.External (ttp/commands/_tor_setup.py): the user of an external Tor, and the users and groups that
--   bypass Tor, over the user database. Start.Ports (ttp/commands/_ports.py, and `validate_ports` of
--   _preflight.py) is about ports and the owner of a listening socket, and Start.Owner about both.
-- - Start.Torrc (ttp/tor_config.py and ttp/commands/_validation.py): the torrc as lists of code points, and
--   the test of a bridge line.
-- - Watchdog.Service (ttp/watchdog/service.py): `watchdog_observation`, `watchdog_liveness` and
--   `start_watchdog`, over what systemctl, the record store and the clock answer.
-- - Records (ttp/runtime_records.py): `write` and `read` over the private directory, and in
--   Records.Transition the wait for the transition lock, whose file and clock answer by the sleeps made
--   so far.
-- - Notifications (ttp/notifications/protocol.py and delivery.py): `deliver`, over the runs of busctl and
--   the clock; Attempts is about its loop, Range about the replies. Of ttp/notifications/service.py,
--   Channel has `rpc`, Emit has `emit` and `finish_notifications`, Recipient has `recipient`, and Quote has `_quote` with a reader of quoted
--   words.
-- - Watchdog.Network (ttp/watchdog/integrity.py): `is_interface_online` and `has_default_route`.
-- - Base: shared names, Python's tests, dictionaries, integers, decimal numerals and JSON values.
-- - The modules named Tests try the definitions, and the theorems, on concrete inputs.
--
-- Bounds. Numbers are natural numbers or integers of any size, as Python's are; the 32-bit fields of an
-- inotify event are read from their bytes. Times are exact instants, where Python has floats;
-- a float in a JSON object counts as true. The wait
-- for the transition lock runs on fuel: one round more than pauses of 0.05 seconds fit into the timeout, as
-- a pause that is cut short is the last. The attempts of a delivery are recursion on their number, and the
-- digits of a decimal number are recursion on the number plus one.
--
-- What is not modelled: the cache of ttp/paths.py, so that a path found before is not examined again;
-- exceptions that a subprocess raises inside a check or a healing of the watchdog; the
-- watchdog's own state machine, which is built with a third-party package, so that `run_supervisor` takes
-- its subscriptions as answers; of the record store, what the requests see is one record; the steps of a
-- start before the firewall, but for the ports, the torrc and the users; DNS mounts, Tor's control and installation,
-- the loop of the notification agent, SELinux, reports and the command line. They are I/O for the most
-- part, or are left for later. Logging and messages have no counterpart.
mod Base
pub mod Evidence
pub mod Firewall
pub mod Session
pub mod Watchdog
pub mod State
pub mod Paths
pub mod Probe
pub mod Dnssec
pub mod Settings
pub mod Lifecycle
pub mod Start
pub mod Records
pub mod Notifications
