-- ===== src/Lib.antt =====
-- cdnalizerd watches directories and copies their changes to Rackspace Cloud Files. A configuration
-- (src/config) names the accounts and directories; for a changed file the program builds the
-- address of its remote copy (src/url.hpp, src/url.cpp, src/url_parser.hpp) and gives a job to one
-- of the workers that the address's account has (src/WorkerManager.hpp), which runs its queue over
-- one connection (src/Worker.cpp).
--
-- Base: shared names and lemmas; Base/Text: std::string as a list of bytes; Base/Holds: a predicate
-- of the result of a computation that can throw.
-- Utils: src/utils.cpp and src/utils.hpp. joinPaths is join_paths (the function) and join_two (the
-- template's fold), unJoinPaths is un_join_paths; isDir asks a stat that is a parameter.
-- Url: src/url.hpp and src/url.cpp. Url/Join is joinSlashes, Url/Encode is urlencode, and
-- destination is the expression url / container / remote_dir / path of
-- src/processes/mainProcess.cpp and src/processes/syncAllDirectories.cpp.
-- Url/Parser: URL::parse of src/url_parser.hpp with its tables (Url/Parser/Tables). The driver's
-- two binary searches take fuel: a search has at most as many rounds as it has keys. Bytes are
-- compared as numbers; a signed char above 127 fits no key either way. Url/Parser/Grammar is
-- src/url.rl.
-- Config: ConfigEntry of src/config/config.hpp and src/config/config.cpp; Config/Entries is Config,
-- with std::lower_bound as the first entry that is not less; Config/Reader is
-- src/config/config_reader.cpp, where an exception is none. The member move, which the reader
-- leaves uninitialised, has an arbitrary value.
-- Job, Worker: src/Job.hpp and src/Worker.hpp. Worker/Loop is doWork of src/Worker.cpp: each wait
-- (connect, a job, reconnect, the idle second, the shutdown in the destructor of the connection) asks an environment whether it threw and which jobs
-- others queued meanwhile. The inner loop takes fuel max_retries + 1, as each round that goes on
-- counts a retry; the outer loop takes fuel, and how much is enough is a theorem.
-- Worker/Loop/Arrivals follows the line of jobs while others queue more; Worker/Loop/Invariant
-- carries what each wait keeps through the loops. Worker/Connected is the environment in which the
-- connection is an object of the class HTTPS, made for the host of the worker's URL. A worker keeps
-- its URL as the text that it is given: the callers take that text from a parsed URL.
-- Worker/Manager: src/WorkerManager.hpp, with positions for iterators.
-- Jobs: src/jobs/upload.cpp and src/jobs/delete.cpp. The file system, the digest and the server are
-- the record Outside; an exchange writes a request and reads its response at once, and a connection
-- lists the requests that were sent. Exceptions are told apart as far as the handlers do.
-- Inotify: the maps of Instance in src/inotify.hpp and the tests of an event; the kernel's answers
-- are arguments. Inotify/Buffer is waitForEvent: the filled part of the array and the stale bytes
-- behind it, over the list of what the reads give, Inotify/Buffer/Bytes the events in it;
-- Inotify/Print is the printer of src/inotify.cpp.
-- Account: src/Rackspace.hpp. Account/Cache and Account/LoginAll are src/AccountCache.cpp and
-- src/processes/login.cpp: a turn of a coroutine is one login, and the schedule is a list of turns.
-- The connection that fillAccountCache makes before its first login counts as a part of that login's
-- exchange: the two fail alike. With no entry it is left out.
-- Watcher: createINotifyWatches and the loop of watchForFileChanges in
-- src/processes/mainProcess.cpp, one function per branch. Each event comes with what the workers did
-- while waitForEvent waited for it: any number of them went on, into any state, or were done and left
-- their list. Watcher/Jobs follows a closed file to its job, Watcher/Keeps says what a chain of
-- reactions keeps, Watcher/Known which entry each watch has.
-- Watcher/Start is watchForFileChanges as a whole, from the first watch on: its synchronisations
-- run one after the other, as when no two of them wait for a server at a time; Watcher/Start/Bounded
-- counts the workers of each URL through all of it.
-- Sync: syncOneConfigEntry of src/processes/syncAllDirectories.cpp. The inner loop over one page is
-- recursion on the remote files, with a recursion on the local ones inside it, so that no fuel is
-- needed; whether the connection is made, the pages that the server lists, and whether an exception
-- ends them are an argument. Sync/Merge compares the merge with a
-- test of each file by itself, Sync/Keeps carries the bound on workers through it. Sync/Wait is
-- syncAllDirectories, with the schedule as lists of turns.
-- Listing: src/processes/list.cpp. A run of the generators is the list of its requests and pages;
-- the loop takes fuel, and how much is enough is a theorem.
-- Config/Writer: src/config/config_writer.cpp, over the trees of the reader.
-- Cfsync: src/cfsync. Daemon: src/main.cpp; a list over several entries takes the state of the
-- server before each of them as an argument.
-- Https: the class HTTPS of src/https.hpp; the network and the numbers of error codes are
-- parameters.
-- Utf8: experiments/utf8.cpp. The loop of utf82json takes as much fuel as there are bytes, since
-- each round takes a byte at least (Utf8/Rounds); the loop over the mask ends after six rounds,
-- when the mask is 0. A wchar_t has 32 bits.
-- ExcludeFilter: src/testExcludeFilter.cpp.
-- Delivery: an event, the job it makes, the worker's loop and the requests, put together;
-- Delivery/Uploads and Delivery/Deletions are workers whose jobs upload or delete. Jobs/Quiet: which
-- exceptions the handlers of the uploads let through.
-- Tests: runs, and the theorems at concrete data.
--
-- Undefined behaviour and exceptions are values of the model. Parameters: regular expressions,
-- property trees, the JSON library, the file system, the kernel, the connection. Not modelled:
-- logging, the inside of TLS, the parsing of the command lines, and the drafts under experiments/
-- other than utf8.cpp, which only call the operating system.
pub mod Base
pub mod Utils
pub mod Url
pub mod Utf8
pub mod Config
pub mod ExcludeFilter
pub mod Https
pub mod Job
pub mod Jobs
pub mod Inotify
pub mod Account
pub mod Watcher
pub mod Sync
pub mod Listing
pub mod Delivery
pub mod Cfsync
pub mod Daemon
pub mod Worker
pub mod Tests
