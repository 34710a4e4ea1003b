-- ===== src/Lib.antt =====
-- The host-side automation of ZygVeil (tools/automation), as far as it decides something: it talks to
-- an Android device through adb, reads private files, keeps what it is about to do over a reboot, and
-- judges what the device answers.
--
-- Base holds what all parts share: Python's text and dict operations, and Result for a function that
-- may raise CheckError, whose message an error carries.
--
-- SafeRead is the checked read of a private file through one descriptor, which five files of
-- tools/automation repeat: location_live_control.py (read_private_file), location_device.py
-- (read_private_config), probe.py (read_private_oracle_input), reboot_intent.py (load_intent) and
-- location_final_inputs.py (load_private_receipt). What the system answers is a parameter: stat
-- results and a list of blocks, in any portions. SafeRead.Exact holds its theorems.
--
-- Json is Python's json.dumps with sort_keys and compact separators, and json.loads, on text. The
-- parser recurses on the length of the text, so it needs no bound of its own.
--
-- RebootIntent is tools/automation/reboot_intent.py. Document is the intent object and its validation,
-- Disk the directory of the intents, Store the writing, loading, beginning and clearing of an intent,
-- and Lock the transition lock that lets one process at a time do so. A write is a list of calls, so
-- that it can be cut off anywhere; processes take steps in any order. The bytes of a file are the
-- characters of a text; a text with a byte outside ASCII counts as unreadable at once. Not modelled:
-- errors of the device behind the file system, and the lines that go into the report.
--
-- LiveControl is tools/automation/location_live_control.py: Properties parses key=value lines, Status
-- and Generations are parse_status, its checks one by one in the order of the source, and
-- require_expected_control; Update is the verdict of live_set over what it has read from the device;
-- Input is validate_decimal and validate_live_input, Session require_identity, live_status and
-- live_set, which reads SafeRead's private file and asks Adb for the process. The device is a function
-- from the number of a command and its words to an answer, so it may answer otherwise each time.
-- str.isdigit is the one on ASCII. Not modelled: the selection of a rooted adbd and the report.
--
-- OracleInput is the part of tools/automation/probe.py that reads the position a probe is judged by
-- (read_private_oracle_input), with its own copy of the parser, which OracleInput.Agree compares with
-- LiveControl's.
--
-- BootConfig is the configuration and the state of the module in tools/automation/location_device.py:
-- its parser of key=value lines, Config what it does with the configuration, Runtime
-- validate_runtime_status, Control inspect_live_control, State the state that inspect_module finds, and
-- Installed set_location, without the lines of the report. The parse of module.prop, which comes before
-- the state in inspect_module and may raise, is left out. What the device's files hold and its
-- commands answer is a parameter (Control, Evidence, SetAnswers). Floating-point numbers are the
-- parameter Floats. A set of keys is gone through in the order of its list; the code leaves the order
-- open, so the message may name another key. In a message a key is shown without escapes. int is the
-- one on ASCII digits.
--
-- BootTransition is the reboot in the same file: the waits for a boot, the check that system_server is
-- stable, in Reboot reboot_device and in Recover recover, which keep their intents by
-- RebootIntent.Store. What the device answers is the parameter Answers (RecoveryAnswers), hashlib's
-- SHA-256 a function of the text, and a wait the list of its rounds. An outcome keeps the disk also
-- where the code raises. RebootIntent.Store.Source says whose intent a reboot is validated against. Not
-- modelled: the operations that install, enable, disable and uninstall the
-- module.
--
-- FinalInputs is load_private_receipt of tools/automation/location_final_inputs.py, which reads by
-- SafeRead and parses by Json.
--
-- ServerVpn is tools/automation/server_vpn_oracle.py: Records reads the records of a run, Projection
-- is what of an observation is compared from run to run, Phase what the detectors of a run have to
-- show, and Differential the comparison of the four runs of a differential. Json.Same is Python's ==
-- on decoded values. Floating-point literals (Reals) and timestamps in seconds (Seconds) are
-- parameters of the definitions; a float sorts by its spelling. A test id that is no text counts as a
-- missing one, and a status that is a list or an object as none of the known ones, where the code raises
-- TypeError. Identity and Clock hold what the differential and the residual say of who ran, and when: that
-- times compare as finite floating-point numbers do is the hypothesis IsClock. Not modelled: self_test.
--
-- Adb is tools/automation/adb.py: Devices chooses the device from the output of adb, Ui is
-- ensure_device_ui_ready with the lines that it puts into the report, and Process is
-- system_server_process_identity. What the device answers is a parameter. A wait is the list of the
-- readings that begin before its deadline, which is finite since each round sleeps.
--
-- Reporting is tools/automation/reporting.py: Deferred is DeferredPrivateText over the files of
-- a directory, Report the report with its temporary and its published text, local paths redacted. The
-- regular expressions of assert_redacted are Boolean tests on the text. Not modelled there:
-- contains_private_decimal_values, which needs floating-point numbers.
--
-- Tests applies the theorems at concrete inputs.
pub mod Base
pub mod SafeRead
pub mod Json
pub mod RebootIntent
pub mod LiveControl
pub mod OracleInput
pub mod BootConfig
pub mod BootTransition
pub mod FinalInputs
pub mod ServerVpn
pub mod Adb
pub mod Reporting
pub mod Tests
