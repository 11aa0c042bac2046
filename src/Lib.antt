-- ===== src/Lib.antt =====
-- The policies of the power monitor's sensor firmware: the parts of it that decide, as functions on
-- values, apart from the tasks, drivers and files that carry out what they decide.
--
-- Reset models src/reset/DataResetPolicy.h and .cpp. A data reset runs through states and checkpoints
-- (Reset/State) and keeps one durable record (Reset/Record). Reset/Format and Reset/Validity are
-- `validRecord` and all it calls, Reset/Update is `validRecordUpdate`, the test before every write of
-- the record, and Reset/Request classifies the server's prepare and commit requests against it. The
-- records that src/reset/DataResetCoordinator.cpp writes after an accepted commit request stand in
-- Reset/Approval. Reset/Capacity is src/reset/DataResetCapacityPolicy.h, the entries of flash that a
-- reset needs. Reset/Admission has the two atomic words that reading-sync tasks and the reset
-- share; each function there is one atomic access, and the interleavings are a step relation, with
-- sequentially consistent accesses as in the code and with compare_exchange_weak failing at will.
-- Reset/Samples holds the records that the examples use.
--
-- Ota models src/ota/OtaUpdatePolicy.h and .cpp: the tracker of a download (Ota/Stream), the decision
-- after a boot (Ota/PostBoot), the check of the selected boot partition (Ota/Partition) and the
-- milestones reported to the server (Ota/Milestones), with the states of src/ota/OtaManifestV2.h. Of
-- src/ota/OtaManifestV2.cpp it models the versions and their order (Ota/Version, with three-way
-- comparisons in Common/Orders), the timestamps (Ota/Calendar), and the manifest: the tests of its
-- fields (Ota/Manifest/Fields), its canonical text, which is what the HMAC covers, and the policy
-- (Ota/Manifest). A three-way result stands for its sign. Ota/Ledger is src/ota/OtaStageLedger.cpp, the
-- record of the last stage in memory that a reset keeps; the bytes of the record and its size, which
-- the compiler lays out, are parameters, and what the platform tells is an argument.
--
-- Storage models src/storage/StoragePolicy.h and .cpp and src/storage/SyncCoverage.h: the retention
-- policy and the pressure on a card (Storage/Pressure), which closed segments may go and how an
-- interrupted cleanup goes on (Storage/Segments), the plan of a cleanup (Storage/Cleanup) and the
-- range of sequences that a page of readings accounts for (Storage/Coverage).
--
-- Memory models include/core/MemoryPressurePolicy.h, the state machine that classifies samples of the
-- internal heap, with its states and thresholds in Memory/Context. Memory/Recovery runs it over
-- sequences of samples, and Memory/Entry is about the samples that lead into an episode.
--
-- Security models src/security/AuthService.h and .cpp and what they use. Security/ReplayWindow is
-- include/security/AuthReplayWindow.h, the table of the digests of recent signed requests; the pointer
-- that its loop keeps to the first free entry is replaced by a search behind the loop, which touches no
-- entry a second time. Security/Canonical and Security/Compare are the inline functions of
-- src/security/Crypto.h: the canonical form of a request, which is what is signed, and the comparison
-- in constant time. Security/Authenticator is `RequestAuthenticator::verify` with its nonce cache and
-- include/security/AuthPolicy.h; SHA-256 and HMAC-SHA-256, which mbedtls computes, are parameters of
-- it, of which nothing is assumed. Security/Sessions is `SessionManager`: its state, its calls
-- (Security/Sessions/Calls), and sequences of calls (Security/Sessions/History). A token or csrf
-- token that `randomHex` draws is an argument of the call, and that two of them do not collide is a
-- hypothesis where it is needed.
--
-- Persistence models src/config/AtomicConfigStore.h and .cpp, the two slots and the marker of the
-- configuration: their bytes (Persistence/Records, with Common/Bytes) and loading, committing and
-- rolling back (Persistence/Store). The virtual `BlobStore` is a record of the three values and of the
-- outcomes of the writes and erasures to come: each takes effect, is refused, is refused with the old
-- value lost, or is reported to have worked and changes nothing. A value written in part is not among
-- them: its length refuses it when it is read, as a lost one is refused. A loss of power is a list of
-- outcomes that refuses all the rest. Provisioning models src/config/ProvisioningTransaction.cpp, the
-- journal of the credentials before a provisioning.
--
-- Meter models src/meter/PzemProtocol.cpp, the Modbus frames of the power meter (Meter/Protocol), and
-- the polls of src/meter/PzemMeter.cpp with their retries and counters (Meter/Poll). What the UART
-- does in a transaction is an argument. The registers are kept as read, without the factors in
-- floating point that scale them.
--
-- Network models src/network/ServerSyncPolicy.h and .cpp and src/network/NetworkPolicy.h: the cached
-- address of the server (Network/Endpoint), the acknowledgement and the sequence floor
-- (Network/Floor), the limits of responses and their statuses (Network/Limits), and the delays
-- between reconnections (Network/Backoff). Network/Clock is src/network/ClockPolicy.h and
-- src/network/ClockService.cpp, which decide when a time from SNTP is trusted; the clocks that an update
-- reads and the outcome of its writes are its argument.
--
-- Leases models include/api/StatusResponsePool.h, the slots that hold responses while they are sent.
-- Each call is one step: a lease is released once, so no release of a slot runs between the atomic
-- accesses of an acquisition of it.
--
-- How the code is written here: unsigned integers are natural numbers with each wrap written out
-- (u32, u64 of Common/Tests), except where a comment says why a sum stays within its word; a struct is
-- a record and an enum a data type with the source's words; a pointer that may be null and an index
-- that may be -1 are an Option; a std::string is the list of its bytes (Common/Texts). A class is a
-- record of its fields, and a member function takes and returns it. std::sort is an insertion sort.
-- A loop over a container is structural recursion. The loop of `deriveSyncCoverage` takes as its fuel
-- the number of sequences up to the desired end, which is what the code's own test allows, and
-- `replay` of Ota/Milestones/Replay takes ten rounds, two more than the longest list of reports has.
-- The loop over the bytes of a difference of lengths (Security/Compare) takes the difference itself,
-- and the attempts of a poll (Meter/Poll) two more than there are retries. The digits of a number
-- (Ota/Manifest) take the number itself, which is never less than its count of digits less one.
--
-- Not modelled: the tasks, HTTP handlers, drivers, SD card, JSON and JWS codecs, cryptography, floating
-- point, and the web interface. The policies above take their facts as arguments. Of the classes and
-- functions in the files named above these are left out: `PostBaselineFreshnessLatch` and two tests
-- on generations and baselines of the reset policy, the names of two result enums of the update
-- policy, the JSON of a manifest and the recovery record of an update, the text of the present time,
-- `StorageGrowthEstimator` of the storage policy, `metrics` of the memory policy (it copies
-- counters out), `SingleFlightGate` and a few one-line tests of the server sync policy, and the
-- credential recovery of the network policy.
pub mod Common
pub mod Reset
pub mod Ota
pub mod Storage
pub mod Memory
pub mod Security
pub mod Network
pub mod Persistence
pub mod Provisioning
pub mod Meter
pub mod Leases
