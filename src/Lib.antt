-- ===== src/Lib.antt =====
-- An RFID door controller: the firmware of an ESP32 that reads Paxton cards, decides from a list
-- of its own whether a card opens the door, and drives the strike relay. This library models the
-- parts of that firmware on which access depends.
-- Parts, and the files that model them:
-- Reader (lib/PaxtonReader): interrupts push bits into a buffer, poll() takes a finished frame and
-- decodes it. The frame is a list of Booleans; push_bit, poll and the decoders have the names of
-- the source. Reader/Chars and Reader/Frames say what a well-formed frame is, independently of the
-- decoder; Reader/Steps, Reads and Sound relate the two; Reader/Capture goes from the interrupts
-- to the credential; Reader/Repair has the repair of one bit and the end of a frame;
-- Reader/Wiegand, Accepted and Cards have the numbers of Wiegand frames.
-- Roster (lib/Roster): the allow-list, an array sorted by salted hashes. Roster has the
-- operations; add has no result where it would write through a null pointer, for an array that was
-- never allocated. Roster/File has the file's bytes, load, save and begin. Roster/Search, Order,
-- Add, Remove, Replace and Duplicates are about the decisions, Roster/RoundTrip and Crash about
-- the file. Bytes has the words in bytes and the CRC-32.
-- Door (lib/DoorContact): the state machine of the door contact; update is one call. Door/Rules is
-- about one call, Door/Trace, Balance, Excuse and Alarm about runs.
-- Controller (src/main.cpp): the access task, which handles one queued event at a time, and
-- loop(), which polls the exit button, the unlock window, the relay, the door contact and the
-- result timer. The globals are one record, with the event that the access task has taken. The
-- task's work on an event has two parts, `signal` before it waits for the buzzer and `handle`
-- behind it; a step of the system takes an event, finishes it, is a pass of loop(), or posts an
-- event. The loop calls Door.update; the verdict of a tap and the state of the unlock window come
-- from outside as arguments. Controller/Hold, Safety, Strike, Release and Contact are about runs
-- of both tasks. Controller/Race has their writes to the relay and its deadline as single steps,
-- which interleave.
-- Spool (lib/EventLog): the file of access events that wait for upload. EventLog is the class, on
-- the bytes of its file; Spool/Records is about the file's records, Spool/View about the queue
-- that it implements, a file of whole and intact records, Spool/Order about which of them a
-- confirmation retires, Spool/Rising about their order in the file, Spool/Tail about a write that
-- stopped within a record, Spool/Cut about a power cut within a confirmation.
-- Access (lib/AccessControl): the decision about a tap and its records, over the roster and the
-- spool; Access/Decision is about a tap, Access/Edits about the list that comes from the cloud,
-- Access/Migration about the list of the old firmware and a boot after a power cut, and
-- Access/Handlers has the requests of lib/WebHandlers. Ring is the ring buffer of the taps and of
-- the log lines of lib/WebService; Ring/History relates it to what was written.
-- Schedule (lib/UnlockSchedule): the daily window in which the door is held unlocked;
-- Schedule/Week is about the minutes of a week. Identity (lib/DeviceIdentity): the names of a unit
-- and the labels they are made of.
-- Cloud (lib/CloudSync): the state of the synchronisation; Cloud/Feed the remote releases and
-- Cloud/Once how often they act; Cloud/Answer and Cloud/Sync one sync, Cloud/Gates and Offer the
-- firmware offers, Cloud/Kept and Failed the events that a failed sync keeps; Cloud/Firmware and
-- Image the download; Cloud/Task the rounds of the task, Cloud/Restart and Backoff its restarts
-- and waits; Cloud/Hosts the change of the backend, and Cloud/Pair the exchange of a code for a
-- key (pair). Cloud/Request has the members of a sync's request, Cloud/Batch the events in it, and
-- Cloud/Delivery follows an event from the spool to its confirmation. A sync changes the roster
-- and the spool through Access. The configuration that it brings is part of its result. Of what
-- the handler in Config does with it, the calls of eventLog.append, which the sync takes as an
-- argument, are part of the sync, at their place between the confirmation and the firmware offer.
-- Wifi (lib/WiFiManager): the saved network, the retry from the portal, and the move to another
-- network, with Wifi/Change and Ends about the passes of its loop, and Wifi/Portal what the
-- portal's pages change.
-- Config (src/main.cpp): the handler of the configuration that a sync brings, which sets the
-- schedule and the holds that Controller uses, and the repeat filter of readerTask. Its
-- append_calls are the calls of eventLog.append, whatever append makes of them. Config/SetupAp is
-- the setup access point, over the configuration and the Wi-Fi manager.
-- Setup (src/main.cpp): the handler that saves what is posted to /setup, block by block:
-- save_reader, save_relay, save_result and save_contact change the configuration, ask_wifi the
-- Wi-Fi manager, save_host and save_pairing the synchronisation, and save is the whole handler.
-- Setup/Blocks, Managed, Paired and Hosts are about posts, Setup/Unedited about the page as it
-- shows the settings.
-- Boot (src/main.cpp, setup()): what a restart reads back of the settings, and doorContactLoad;
-- Boot/Survives is about runs of syncs, posts and restarts.
-- Web (lib/WebService): Web/Escape has escapeText and escapeAttr, and htmlEncode of
-- lib/WiFiManager, Web/Entities what a browser makes of them; Web/Json has the footer links and
-- handleFooterJson, Web/Footer what the JSON reader of Web/Reading makes of it; Web/Console has
-- log() and the telnet client, over Ring, and Web/Seen what the client sees; Web/Device has the
-- common settings of /setup and the restart of /reboot.
-- Samples holds data that the tests of several parts share. Base has what the parts share, and the
-- lemmas on lists, texts and numbers.
-- Numbers: times are 32-bit and wrap, written with sub32 and add32; a `long` has 32 bits, so a
-- deadline is reached when the wrapped difference is below 2^31. Hashes are numbers that hash_of
-- bounds by its eight bytes. The binary search runs on fuel one more than the number of entries,
-- since each round shortens the range by at least one. The loop over the spool's records runs on
-- fuel the length of the file, of which each record takes 40. The decimal text of a number runs on
-- fuel 20, the digits of a 64-bit value.
-- Parameters: SHA-256 is an argument of the roster's functions, and nothing is assumed of it. What
-- LittleFS answers (opened, written, renamed) is an argument of save, and of the spool's
-- operations, whether the scratch memory was allocated is one of replace_all, and the readings of
-- the pins are arguments of the loop. A power cut is a prefix of save's file operations, the last
-- write cut short; a rename is taken as atomic, as the file system documents it.
-- The enrolment of a code at a backend (`enroll`), String::toInt (`to_int`, a sign and a size) and
-- the text of a time of day (`clock`) are functions that the operations take; of to_int, only
-- Setup/Unedited assumes that it reads decimal digits back. What time(), localtime_r(), HTTP, TLS,
-- JSON, the radio, the heap and the flash answer are arguments of the operations that ask; the
-- settings in NVS read back what was written. The passes of the wait for the next sync are a list,
-- and enough of them are shown to end it; the stream of a download is the list of what its loop
-- finds.
-- Not modelled: screens, beeps, the texts of log, status and pages, HTTP routing, the portal's web
-- server and scan, mDNS, NTP, and OTA by browser, which are calls of the Arduino core; and the
-- exit button that is held at power-on. Of the request of a sync its members are modelled, not
-- their text as JSON. One pass of loop() and the part of an event behind the buzzer read the clock
-- once, where the source reads it several times. Tasks interleave between passes and between the
-- parts of an event, not within them, but for the relay and its deadline in Controller/Race; there
-- the writes of a task are seen by the other in their order, and the test of a deadline reads it
-- once.
pub mod Base
pub mod Door
pub mod Config
pub mod Controller
pub mod Bytes
pub mod Roster
pub mod Identity
pub mod Access
pub mod Cloud
pub mod Ring
pub mod Schedule
pub mod Spool
pub mod Wifi
pub mod Reader
pub mod Web
pub mod Setup
pub mod Boot
pub mod Samples
