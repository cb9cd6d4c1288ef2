-- ===== src/Lib.antt =====
-- A-SKY: anonymous and confidential file sharing over untrusted clouds. A model of the C++
-- servers, of the C client and of what opens an envelope in the Kotlin client, with the theorems
-- that make them correct.
--
-- The access monitor (anonymBE/src/enclave) keeps users, their keys and groups; for a group it
-- makes an envelope, in which each member finds the bucket key sealed under its own key. The
-- writer proxy (the same folder) takes uploads from writers, pings the access monitor, stores the
-- files in MinIO and gets MinIO's credentials from an identity server. TLS connections bring the
-- requests of both. A reader (client, anonymbe-client) searches an envelope for its key.
--
-- `Database` is MemDatabase (memory_database.cpp): a method is an action `Exec MemDatabase`,
-- which returns or throws beside the two maps as it leaves them. `Database.Locks` has the order
-- in which its methods take the two mutexes, and the interleavings of threads as steps. `Service`
-- and `Service.Server` are the class AnonymBE (anonymbe_service.hpp), from `process_get` and the
-- other handlers to `process_input` and its handlers of exceptions; `Service.Commands` says which
-- call of the database a request asks for. `Tls` is IncomeSSLConnection and `ecall_tls_recv`
-- (tls_config.cpp), with the effects on OpenSSL and on descriptors as a log, and `Tls.Context`
-- the SSL context with its key and certificate. `Enclave` and `Enclave.Monitor` are
-- `process_input` and the ecalls of ecalls_anonymbe.cpp, which join the service, the connections
-- and their decoders; `Enclave.Writer` is `process_input` of ecalls_writeproxy.cpp and
-- `Enclave.Writer.Calls` its ecalls. `EventLoop` is SocketEventLoop (event_loop.cpp) with the
-- queue of ready descriptors, and `EventLoop.Threads` is `main` and the threads that serve the
-- queue, and the handler of SIGINT (sgxserver_bootstrap.cpp); `EventLoop.Consume` reads a
-- descriptor in the build without TLS_REQUESTS. They use an enclave through the interface
-- `Ecalls`, which `EventLoop.Access` fills with the access monitor's and `EventLoop.Uploads` with
-- the writer proxy's. `Proxy` is the class WriterProxy (writerproxy_service.cpp): its `init`, the
-- forwarding of uploads (`Proxy.Forward`), the tokens (`Proxy.Token`) and `treat_request`
-- (`Proxy.Server`). `Options` and `Options.Monitor` are the command lines (writeproxy.cpp,
-- anonymbe.cpp), and `Options.Documented` their tables of options. `Client` is the search of an
-- envelope in client/client.cpp with the calls of AES in client/crypto.cpp, and `Client.Workers`
-- the search in four threads, as steps over the shared flag. `Opening` is Envelope.open and
-- IndexedEnvelope.open (anonymbe-client, Envelope.kt), which read what `generate_envelope` makes.
-- `Ocalls` has the calls out of the enclave (anonymbe_ocalls.cpp). `Profile` is the driver of
-- profile.cpp, which sends requests through a decoder to the access monitor.
--
-- `std::map` and `std::set` are sorted association lists (`Std.Map`), and `std::string` is a text
-- or a list of bytes. What the code uses and does not implement is a parameter (`Platform`,
-- `Proxy.Libs`): the JSON library, the cryptographic library with its randomness, the HTTP types
-- and decoders, MinIO's client, OpenSSL and what the network does. The hypotheses on them are the
-- records DecoderLaws, DumpLaw, HttpLaws, EvpLaws, SealLaws, WireLaws and TextLaws, and the
-- premises of the theorems.
--
-- Loops that no structure bounds run on fuel. `Enclave.request_loop` is given one step more than
-- the requests that the decoder can hold (DecoderLaws), and that is shown to be enough; so is
-- what the loops of `Opening` are given, a round for each byte or for each entry and one more.
-- The repeated attempts of `forward` and the reads of `request_reply` are bounded by nothing in
-- the code: there `none` is a run that goes on, and the theorems say for which answers of the
-- network the run ends. A value that is no std::exception leaves `ecall_tls_recv` in the writer
-- proxy; the process ends then, and takes no further step.
--
-- Not modelled: the build with MongoDB and, but for `consume_fd`, the one without TLS_REQUESTS;
-- the handler of SIGPIPE and the prints; nor the rest of the Kotlin client, nor the copy of
-- nlohmann/json. The calls into an enclave are taken one after the other, also where threads make
-- them. The servers have one service thread, which calls `ecall_tls_recv` for one descriptor
-- after the other (`EventLoop.Exclusive`); with more, two could serve one descriptor
-- (`EventLoop.Sharing`). What a process says to its clients is an `Enclave.Dialogue`, and what
-- its steps bring to it are the histories of `EventLoop.Heard` and `EventLoop.Ready`. A signal is
-- taken between two calls. What another server answers depends on the request alone.
pub mod Base
pub mod Std
pub mod Platform
pub mod Database
pub mod Tls
pub mod Service
pub mod Proxy
pub mod Client
pub mod Enclave
pub mod EventLoop
pub mod Opening
pub mod Ocalls
pub mod Options
pub mod Profile
mod Tests
