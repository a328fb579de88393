-- ===== src/Lib.antt =====
-- A verification library for the tools that make, merge and search a database of leaked
-- passwords. A database file is a sequence of records of 20 bytes, a hash of two 64-bit words
-- and a count of 32 bits, in the order of the hashes. The converter makes such files of lists of
-- user names and passwords, the merger joins them into one, and the inspector looks hashes up in
-- it. Numbers are natural numbers with the wrap of the machine types written out; text is a list
-- of bytes.
--
-- Base: the names all modules share; Base/Lists and Base/Tests: lists by native numbers and
-- Boolean tests; Base/Bytes: words in the byte order of a little-endian host.
--
-- Util: decodeHex, hexToCharSeq and popcnt64 of pwned-lib/util.cpp; in Util/Format
-- string_format, readableSize and readableTime, where what a format expands to and the print of
-- a fraction are parameters, a time is a count of nanoseconds with exact quotients, and the fuel
-- of two rounds is enough for a text, as Util/Format/Loop shows. Hash: the class Hash of
-- pwned-lib/hash.hpp and hash.cpp; MD5 is OpenSSL's and a parameter. Its order is in Hash/Order,
-- its text form in Hash/Text, Hash/RoundTrip and Hash/Validity.
--
-- Stream: std::istream on a file that does not change, with its three state bits, read, seekg,
-- getline and clear. Phc: PasswordHashAndCount of pwned-lib/passwordhashandcount.hpp.
--
-- Inspector: PasswordInspector of pwned-lib/passwordinspector.cpp with open, size, lookup and
-- binsearch, the latter with and without an index file. The bisection has the fuel 65, which is
-- enough as a file has less than 2^62 bytes; the loops over the index take theirs as an
-- argument, for they need not end on any index. Inspector/Order, Rounds, Search, Lookup and
-- Broken are about the search without an index, and Finds in Inspector/Lookup is what a client
-- of the inspector relies on. Inspector/Smart: smart_binsearch, with the estimate that it
-- computes in floats as a parameter; its loops run on fuel, one more than records.
--
-- Index: pwned-index/index.cpp, which scans a database and writes for each bucket, the hashes
-- with the same leading bits, the offset of its first record. Index/Rounds, Keyed, Scan and
-- Built are about the keys it makes, Buckets and Opened about an index that is right, Keys and
-- Limits about the loops of the inspector over the keys and the bounds they give, and
-- Index/Between and Lookup about the search by such an index, which is also a Finds. The fuel of
-- the scan is two rounds more than there are records, that of the search one round over the
-- index.
--
-- UserPasswordReader: pwned-lib/userpasswordreader.cpp. Its two regular expressions are written
-- out in UserPasswordReader/Patterns. UserPasswordReader/Lines and Reading describe the text by
-- its lines. The stream is one of a file that could be opened.
--
-- Converter: ConvertOperation::execute of pwned-converter-cli/convertoperation.cpp, with the map
-- of counts, the splits by memory use, and the files written. The flags isCancelled and
-- isPaused, which other threads set, are functions of how often they were tested. The loops run
-- on fuel; one more than the lines of the source is enough. The sizes in memory are those of a
-- 64-bit system.
--
-- Merge: MergerInput of pwned-merger-cli/mergerinput.hpp, and the queue, next() and execute() of
-- mergeoperation.cpp. The priority queue is a list with its top in front; where the standard
-- leaves the order of equal hashes open, the input pushed earlier comes first. Merge/Cursor is
-- an abstract queue of cursors over the records of the files, that next() implements
-- (Merge/Next); Merge/Round, Loop, Counts, Order and Sorted are about this queue, Whole,
-- Results, Sources and Single about complete runs. The fuel is the number of records and files.
--
-- Markov: Node and Chain of pwned-lib/markovnode.hpp and markovchain.hpp, with training, the
-- update of the probabilities, and in Markov/Binary saveBinary and loadBinary with its error
-- codes. Unordered maps are lists in the order of their walk. Doubles are 64-bit words with
-- their arithmetic and order as parameters. Markov/Chances: the random choices and
-- totalProbability. MarkovGenerator: pwned-markov-generator.cpp below extras, which trains a
-- chain on the passwords of a file; Utf-8 is decoded by Boost and a parameter.
--
-- Uri: the class URI of pwned-server/uri.hpp and parseTarget of uri.cpp. Uri/Parse: parse of
-- uri.cpp. What its regular expression matches is an argument, the list of the texts of the
-- groups; Uri/Groups is about the URI made of them. boost::split is a parameter, of which the
-- documented behaviour is relied on.
--
-- OperationQueue: the queue of pwned-lib/operationqueue.hpp with the semaphore of semaphore.hpp,
-- as a relation of steps that the locks make atomic: add, the rounds of the executing thread,
-- and what the thread of an operation does at its end. OperationQueue/Control: pause and resume,
-- and the states of an operation of operation.cpp, as calls that follow one another. cancel,
-- reset and waitForFinished are not modelled: what their waits meet depends on the order of the
-- threads.
--
-- HttpWorker: the class HttpWorker of pwned-server/httpworker.cpp. What Boost's completion
-- handlers get is in the events of a step relation, in HttpWorker/Cycle, where a read that
-- throws or whose search does not end leaves no worker; the JSON writer, boost::replace_all and
-- the print of a double are parameters. HttpWorker/Answers and Lookups join it with Uri, Hash
-- and any inspector that is a Finds: what is answered to a lookup.
--
-- HttpClientWorker: the client of the load test, httpclientworker.cpp in pwned-server/loadtest,
-- with the completion handlers of Boost.Asio as steps. HttpClientWorker/Cycle and Late are about
-- its cycle, Asking and Meets about its request and the answer that HttpWorker gives to it.
--
-- MergerCli: the loop of pwned-merger-cli/pwned-merger-cli.cpp over slices of the input files,
-- for any operation that makes one file of several and crashes on no files and on a slice
-- shorter than a record, and the bar of progressbar.hpp. The fuel is the number of files and
-- one.
--
-- Term: TermIO and setStdinEcho of pwned-lib/util.cpp. The local flags of the terminal are a
-- function from the numbers of their bits, and the bits of the named flags are parameters.
--
-- Uuid: the UUID of pwned-lib/uuid.hpp and its print in uuid.cpp; the random words are the
-- fields.
--
-- Be2le, TestSet and PasswordExtractor: deprecated/be2le/be2le.cpp, and the tools
-- test-set-extractor.cpp and pwned-password-extractor.cpp below extras, which read database
-- files and lists of passwords with the parts above. Their fuel is stated with each theorem, in
-- records, names or bytes of the files.
--
-- Tests: runs of the model, and the theorems at concrete inputs.
--
-- Not modelled: the start of the server and its threads, the parsing of options, the driver of
-- the load test, the benchmark, writeJson, the regular expression of URI::parse, the state of
-- memory, and console output.
pub mod Base
pub mod Util
pub mod Hash
pub mod Stream
pub mod Phc
pub mod Inspector
pub mod Merge
pub mod UserPasswordReader
pub mod Converter
pub mod Markov
pub mod Uri
pub mod HttpWorker
pub mod HttpClientWorker
pub mod OperationQueue
pub mod Index
pub mod MergerCli
pub mod Be2le
pub mod Term
pub mod MarkovGenerator
pub mod Uuid
pub mod TestSet
pub mod PasswordExtractor
mod Tests
