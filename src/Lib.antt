-- ===== src/Lib.antt =====
-- ttlive-cpp: a client for the LIVE streams of TikTok in C++, whose requests are signed by the
-- site's own scripts, run in QuickJS over a fake browser written in JavaScript.
--
-- The parts and how they interact. `TikTokLiveClient` (src/client.cpp, include/ttlive/client.hpp)
-- resolves a room id from a page, fetches a first batch of messages, and then reads messages from a
-- WebSocket (src/ws_client.cpp), from an HTTP long poll, or from both at once. Every message goes
-- through `dispatch_message`, which drops what was delivered before, parses the rest
-- (src/event_parser.cpp) and calls the registered callbacks. Query strings are built in
-- src/web_defaults.cpp. The signer (src/qjs_signer.cpp) loads js/hybrid-fake-dom.js, the fake
-- browser, and then the site's scripts, and signs a URL by sending it with the fake
-- `XMLHttpRequest`. Of those scripts js/browser.sg.js is the page monitor: plug-ins observe the page
-- through wrappers and subjects and report events to its client, whose hooks sample them, and whose
-- sender posts them in batches.
--
-- The files.
--   Prelude: shared names; native numbers, bits, signed numbers, lists, Boolean tests.
--   Js: texts of JavaScript (lists of UTF-16 units) and plain objects, with the order of their keys
--     and the names inherited from `Object.prototype`.
--   Live: the C++ client. Event: the types of include/ttlive/events.hpp. Parser: `parse_event`.
--     Seen: `remember_id` with its set and deque, and Seen/Window what they hold. Dispatch: `on`,
--     `on_any`, `emit`, `dispatch_message`, `process_fetch_result`; Dispatch/Once and Dispatch/Dual
--     which messages are delivered, Dispatch/Ended who is called and when the LIVE ends. Socket:
--     `WsClient`. Session: `run_websocket_with_reconnect`, `interruptible_sleep`, `poll_loop`.
--     Run: the order of the steps of `run`. Http: `parse_url`, `header_cb`, `cookie_header`,
--     `cookie` (src/http_client.cpp). Query: `append_encoded`, `encode_query`, the parameter lists.
--     Json: `json_unescape`, `json_string_field`. Scan: `scan_room_id`, `json_object_field`.
--     Info: `fetch_room_info`.
--   Shim: js/hybrid-fake-dom.js, a module for each of its classes: Base64, Utf8 (`TextEncoder`,
--     `TextDecoder`), Cookies, Events, Storage, Params, Headers, Xhr, Timers, SafeProxy, Window,
--     Elements, Random (`crypto`), Host (tables, timing, blobs), Canvas (2D and
--     WebGL contexts), Document (its searches).
--   Slardar: the page monitor js/browser.sg.js. Util: `S`, `R`, `I`. Client: `z`, with Client/Growth and
--     Client/Queue on what no history of calls can break, and Client/Early and Client/Replay on the
--     reports before the start. Batch: `Wt`, with Batch/Order on its calls in general and Batch/Again on
--     pages that go away more than once. Patch: `h` and `s`. Subject: `N`, `q`. Agent: `H`.
--     Sample: `Lt`, `qt`, `Dt`, `Mt`. Route: `jt`. Apdex: `ht`, `vt`, `pt`. Session: `It`. Settings:
--     the request for the settings in `we`. Merge: `Ee`, and `s` in `we`. Loader: `oe`, `ie`, `ce` and
--     what they use. Commands: `W`, `p`, `hn`,
--     with Commands/Replay and Commands/Stuck on the commands that wait. Context: `G`. Visitor: `On`, `Rn`,
--     `ye`. Precollect: `ke`, `De`, `Le`, with Precollect/Steps on what one step does and Precollect/Init on a
--     whole run with its `init`.
--   A child named Tests holds runs at concrete inputs.
--
-- How the code is modelled. Functions of the code are functions on an explicit state, a record with
-- the fields that they read or write. An exception is `none` or a constructor of the result. What
-- is not in the repository is an argument: the protobuf classes are `Classes`, libcurl's answers are
-- arguments of the operations of `Socket`, `toLowerCase` is `Lowering`, the engine's globals and
-- prototypes are `Engine`, callbacks and the debug sink are `Program`, the monitor's hooks are its `Program`, and
-- JavaScript's floating-point numbers are `Numbers`; times, durations and weights of the monitor are
-- whole numbers. JSON of stored records is `Browser` (its base64 is that of Shim), and what a plug-in does is known by whether it
-- registers its end. Numbers of the protocol are signed numbers of
-- any size, copied and compared; bytes and units are natural numbers, and bit operations are those of
-- the source. Loops over a text are recursion on it, or on its length as fuel, with a lemma that
-- more fuel changes nothing. The loops of the transports run over scripts, which say what each round
-- finds of the other threads, the server and the clock; a loop at the end of its script is still
-- running. The drain of the timers has the source's own limit of 5000 rounds.
--
-- Not modelled: the site's other scripts in js (minified or generated copies), of the monitor its
-- request plug-ins, its shared subjects and what it adds to events, the schema in proto and its
-- generator in tools, the build files, the demo, and of src the transfers themselves, the session
-- loop with its heartbeat, gzip, the texts of the requests and the signer's script.
pub mod Prelude
pub mod Js
pub mod Shim
pub mod Slardar
pub mod Live
