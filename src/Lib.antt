-- ===== src/Lib.antt =====
-- LoofiFace-ID: a model of the Rust engine of the local face profile and comparison utility, and the
-- theorems about it.
--
-- The engine's crates and how they meet:
-- - engine/protocol carries requests and responses in length-prefixed frames over local sockets; the
--   daemon and the workers read and write their frames with it.
-- - engine/templates holds the root-owned policy of the experimental PAM targets (auth_policy.rs) and
--   the encrypted face profile (lib.rs), its codec and its files.
-- - engine/daemon answers login, status and freshness requests over its socket. It asks the policy
--   whether a login by face is enabled, lets a worker process compare the face, and answers a success
--   only under the policy file that it started with.
--
-- Files:
-- - Prelude and its children: tests on numbers, lists, bytes, and `Outcome`, the result of a Rust
--   function that may return an error or panic; `stuck` stands for a loop that runs out of fuel, and
--   every loop is proved never to give it.
-- - BTreeMap: the standard library's ordered map as the list of its entries in order. Utf8: whether
--   `str::from_utf8` accepts some bytes.
-- - Protocol.Types, Protocol.Codec: the values of engine/protocol/src/lib.rs, their encoders and
--   decoders under the source's names. A payload is the list of its bytes; an index out of range is a
--   panic.
-- - Protocol.Stream: readers and writers as `std::io` promises them: a reader delivers pieces of any
--   size, may be interrupted at any call, and may fail; a writer has room for so many bytes.
-- - Protocol.Frame: `read_frame_or_eof`, `read_frame`, `require_eof`, `write_frame`. Loops over reads
--   take the reader's weight and one more as fuel: each round uses up an arrival or a byte.
-- - AuthPolicy.Table: the policy table of engine/templates/src/auth_policy.rs with `mode_for` and
--   `set_mode`; AuthPolicy.Json prints it; AuthPolicy.Parser is `PolicyParser` with the text from its
--   position on as its state. Its loops take the length of the text and one more as fuel: each round
--   takes a character at least.
-- - AuthPolicy.Files, AuthPolicy.Writing: the loaders of the policy file, and `write_atomic`. What a
--   system call answers is a value that the function takes: metadata, the entry of a name, bytes; for
--   a write, which calls succeed. AuthPolicy.Storing is about both.
-- - Daemon.Request: `decode_daemon_request` and `encode_daemon_response` of engine/daemon/src/lib.rs;
--   Daemon.Wire and Daemon.Acceptance compare them with the layout of a request.
-- - Daemon.RateLimiter: `AuthRateLimiter`; instants are numbers of nanoseconds. Daemon.Limits is its
--   specification, a log of the granted attempts.
-- - Daemon.Ingress: `IngressState` and its permits; Daemon.Permits has the map that counts permits, and
--   Daemon.Slots the states that the daemon comes to by taking and dropping them.
-- - Daemon.Supervise: `supervise_auth_worker`. Its loop goes over a list of rounds, each holding what
--   the clock, the client, the socket and the worker answer; `none` is the result when the rounds end
--   before the loop. Daemon.Reports, Daemon.Undisturbed and Daemon.Children are
--   about it.
-- - Daemon.Progress: `write_client_progress`, over a list of passes of its loop; Daemon.Sending is about
--   it.
-- - Daemon.Capture: `load_test_frame` and `capture_camera_frame`, and the image that is made of their
--   frame; what the file or the camera answers is an argument. Daemon.Frames is about it.
-- - Daemon.Worker: `serve_auth_worker`, `handle_pam_request` and `verify_frame_against_vault`, over the
--   answers of the clock, the policy, the vault and the camera; Daemon.Serving is about it.
-- - Daemon.Dispatch: `dispatch_request_until_with_client`; Daemon.Access and Daemon.Denial are about
--   whom it lets in, Daemon.Answering about a login from here to the worker and back.
-- - Daemon.Connection: `handle_client_stream_with_peer`, from the request's frame to the response's, over
--   the models of frames, of the decoder and of the dispatch; Daemon.Outsiders is about it.
-- - Vault.Cursor, Vault.Codec, Vault.Envelope: `Cursor`, `encode_profile`, `decode_profile`,
--   `encode_vault` and `decode_vault` of engine/templates/src/lib.rs. Vault.Opening states what is relied
--   on of the cipher.
-- - Vault.Files, Vault.Lock, Vault.Replacement, Vault.Store, Vault.Access: the operations of `Vault` in
--   the same file. The state is the directory: its own metadata, the vault's file, the temporary file
--   and whether the lock file is there. What a system call answers is a value that the operation takes;
--   the lock's loop has 201 rounds as fuel, the 2000 ms of its deadline at 10 ms each, and one more.
--   Vault.Keeping, Vault.Claims, Vault.Ending, Vault.Totality, Vault.Changes, Vault.Reopening and
--   Vault.Migration are about them.
-- - Vault.Freshness: engine/templates/src/freshness.rs, over the answers of the system calls;
--   Vault.Installed and Vault.Staging are about it.
-- - Session.Loop: the loops over framed requests that the vision and the identity worker share, for a
--   worker that is a record of its bounds and its responses; the fuel of a session is the reader's
--   weight and one more, as each round takes a frame. Session.Replies states what the loops ask of a
--   worker, Session.Ending and Session.Dialogue what follows for them.
-- - Vision.Image: the checked image view of engine/vision/src/lib.rs. Vision.Request, Vision.Response,
--   Vision.Session: engine/vision/src/worker.rs, from the bytes of a request to those of its response,
--   and the runs over frames. The provider is a function that is given the number of the request as its
--   moment. Vision.Parsing, Vision.Layout, Vision.Answers, Vision.Conversation and Vision.Ending are
--   about them.
-- - Identity.Request, Identity.Response, Identity.Worker, Identity.Session: engine/identity/src/lib.rs,
--   from the bytes of a request over the vault's operations to those of its response, and the runs over
--   frames. What lasts from request to request is the vault's directory and whether the provider is in
--   the cache. Identity.Embeddings, Identity.Parsing, Identity.Answers, Identity.Conversation and
--   Identity.Dialogue are about them.
-- - Vision.Quality: `pixel_luma` and `calculate_quality` of engine/vision/src/lib.rs, with a clock that is
--   read at each row. Vision.Measures says what they measure; Vision.Accumulation, Vision.Scanning and
--   Vision.Grading are about them.
-- - Vision.Sha256: engine/vision/src/sha256.rs; Vision.Padding compares it with the padding of the whole
--   message.
-- - The modules Tests, AuthPolicy.Stored, Daemon.Logins, Daemon.Visits, Vault.Stored,
--   Vault.Unsynced and Vault.Staged hold runs at concrete inputs.
--
-- Not modelled: the accept loop and its threads, the model manifest, the administrative helpers, and
-- of the vision and identity crates what computes with floating-point numbers, with the detector
-- around it; the bindings of OpenSSL, OpenCV and libc, which the model takes as parameters. Wiping of
-- memory is not observable here. Locks are never poisoned in the model, since nothing panics while
-- one is held; the result of `kill` is ignored by the source too.
pub mod Prelude
pub mod BTreeMap
pub mod AuthPolicy
pub mod Daemon
pub mod Identity
pub mod Protocol
pub mod Session
pub mod Utf8
pub mod Vault
pub mod Vision
