-- ===== src/Lib.antt =====
-- bustaferl, an e-paper departure board on an ESP32: the firmware under src/.
--
-- In each cycle the device fetches realtime departures (logic/api_fetcher.cpp,
-- logic/snapshot_fetcher.cpp) and a timetable, merges both into three slots for each of four streams
-- (logic/slot_merger.cpp), renders a frame, plans and applies a refresh of the panel
-- (logic/refresh_planner.cpp, logic/display_apply.cpp), keeps the frame as run-length code
-- (render/rle.cpp), and plans its sleep (logic/sleep_planner.cpp). Small policies decide when data is
-- stale, a filter dead, or a fetch is to be repeated; a button opens diagnostic pages, and two rings
-- remember cycles and errors. All paths are below src/ unless they start with src/.
--
-- Data models data/Departure.h, data/StreamSnapshot.h and data/ScheduleHint.h.
-- Slots models logic/slot_merger.cpp: Slots.Insert the insertion, Slots.Sorted, Slots.Content,
--   Slots.Merge and Slots.Board what it keeps and what the merged board shows.
-- Button models logic/button_classifier.cpp, with its verdicts in Button.Verdict.
-- Policy.Health, Policy.Rescue, Policy.Sleep and Policy.Pager model logic/stale_policy.cpp and
--   logic/filter_health.cpp, logic/rescue_policy.cpp, logic/sleep_planner.cpp with
--   shouldPromoteToNightlyClean of logic/cycle_runner.cpp, and logic/diag_mode.cpp.
-- Rle models render/rle.cpp. Trace models data/CycleTrace.h and logic/cycle_trace.cpp.
-- Refresh models logic/refresh_planner.cpp, Refresh.Apply logic/display_apply.cpp.
-- Fetch models logic/api_fetcher.cpp, Fetch.Snapshot logic/snapshot_fetcher.cpp.
-- Parse models data/string_util.h and how the parsers read a document: Parse.Monitor, Parse.Hafas and
--   Parse.Efa model data/wienerlinien_parse.cpp, data/oebb_hafas_parse.cpp and data/efa_parse.cpp, and
--   Parse.Iso the timestamps and the calendar of the first.
-- Ssid models logic/ssid_match.cpp. Screen models logic/render_input.cpp and
--   logic/boot_sequencer.cpp. Schedule models logic/schedule_refresh.cpp and
--   logic/schedule_fetcher.cpp.
-- Cycle models logic/cycle_runner.cpp and hal/Esp32PersistentStore.cpp: Cycle.Store the frame slot,
--   Cycle.Push the way of a frame to the panel and the sleep, Cycle.Gather the fetch and the rescue,
--   Cycle.Trail the trace of a cycle, Cycle.Warm and Cycle.Cold the two cycles, Cycle.Press what
--   a press starts, with the diagnostic mode and the overlay after a brownout; Cycle.Power models
--   main.cpp. Cycle.Session is about the end of a press, Cycle.Overlay about the pages that are drawn
--   past the saved frame, Cycle.Glass the panel after a push, and Cycle.Awake, Cycle.Asleep and Cycle.Settled about the sleep at
--   the end of a cycle. The world of a cycle is a log of
--   the calls that act on the hardware, with the slots in RTC memory; whatever the hardware answers is
--   a function of the log, so a theorem over all such functions covers every course of events.
-- Render models the screens under render: Render.Frame frame_buffer.h, Render.Gauge deviation_gauge.cpp,
--   plan_marker.cpp and the deviation of data/Departure.h, Render.Glyph the bitmaps, Render.Network
--   network_plan.cpp, Render.Board and Render.Layout layout.cpp and badge.cpp, Render.Screens
--   display_state.cpp, and Render.Digits the texts of snprintf. A drawing is the list of the calls of
--   render/canvas.h; Render.Gauge.Ink says which pixels such a list leaves, and Render.Panel,
--   Render.Columns and Render.Lines are about what is drawn.
-- Chunked models the stream that decodes a response in chunks, of hal/Esp32Network.cpp.
-- Examples holds the theorems at concrete inputs.
-- A function keeps its name, in snake case; where the source writes through a reference, the model
-- returns the new value.
--
-- Numbers. A time_t is a native number, the seconds since the epoch, and an int of a configuration is
-- not negative; where the source subtracts signed times the model compares sums, or subtracts where
-- the guard before it has fixed the order. An unsigned of w bits wraps by % 2 ^ w.
-- The calendar and the timestamps of Parse.Iso are over signed integers, a long of 64 bits. Buffers, strings
-- and arrays are lists; an array has the length that the source declares where a theorem says so.
-- Fuel. The loops of the button classifier run as long as the line is held; they take fuel and return
-- none without it, and the fuel of Button.Verdict is the number of polls that the thresholds allow.
-- The encoder's fuel is the length of its input. All other loops are structural.
-- Parameters. What the network and the clock answer, the documents of ArduinoJson and how their values
-- are read, the local time of localtime_r and mktime, the width of a text in a font, the generated bitmaps, and the line of the button are arguments of the
-- definitions; the fetchers take the parsers as arguments too.
--
-- The loops of the diagnostic mode run until a long press or the deadline, on fuel that counts their rounds.
--
-- Not modelled: the HAL of the ESP32 but for its slots and its stream of chunks, the canvas back ends and the fonts, the texts and
-- the assembly of the diagnostic pages, and the serial log; the device build parses the HAFAS and EFA responses while they are
-- received, and it guards its heap; the models of the fetches are the host build's, without either.
pub mod Button
pub mod Chunked
pub mod Cycle
pub mod Data
pub mod Examples
pub mod Fetch
pub mod Parse
pub mod Policy
pub mod Prelude
pub mod Refresh
pub mod Render
pub mod Rle
pub mod Schedule
pub mod Screen
pub mod Slots
pub mod Ssid
pub mod Trace
