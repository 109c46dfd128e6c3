-- ===== src/Lib.antt =====
-- arkive: readers and writers of tar and zip archives that can be interrupted, resumed, and found
-- behind other data.
--
-- The program has two archive packages, and a deflate writer that compresses blocks in parallel. `tar` reads a stream of header blocks and entries, possibly
-- sparse, and can save where it is in an entry and resume there on another stream; it writes such
-- streams too. `zip` finds the central directory from the end of a file, with other data in front
-- of the archive if need be, and writes archives.
--
-- The files and what they model:
--   Common            names passed on, lists over the native numbers, bytes
--   Common/Words      the two's-complement arithmetic of int64 and uint64
--   Common/Go         errors and results; a run-time panic is a result
--   Common/Digits     strconv.FormatInt, ParseInt and ParseUint, written by clauses from their
--                     documentation, in the bases 2 to 10
--   Common/Text       Go strings as code lists, and maps as association lists
--   Tar/Strconv       tar/strconv.go: strings, octal and base-256 numbers of header fields
--   Tar/Pax           tar/strconv.go: parsePAXRecord and formatPAXRecord
--   Tar/PaxHeaders    tar/reader.go: parsePAX
--   Tar/Block         tar/format.go: where the header fields lie
--   Tar/Format        tar/format.go: ComputeChecksum, GetFormat and SetFormat
--   Tar/Source        the io.Reader that the tar reader reads, with the contract of that interface
--   Tar/FileReader    tar/reader.go: regFileReader, sparseFileReader and newSparseFileReader
--   Tar/Reader        tar/reader.go: the state of Reader, Read and handleRegularFile
--   Tar/Checkpoint    tar/reader.go: countingReader, Save and Resume
--   Tar/SparseMap     tar/reader.go: readGNUSparseMap0x1
--   Tar/SparseMap1    tar/reader.go: readGNUSparseMap1x0
--   Tar/OldSparseMap  tar/reader.go: readOldGNUSparseMap
--   Tar/Header        tar/common.go: Header; tar/reader.go: readHeader
--   Tar/Writer        tar/writer.go: Flush, Write, Close and splitUSTARPath
--   Zip/Buf           readBuf and writeBuf of zip/reader.go and zip/writer.go
--   Zip/EndRecord     zip/reader.go: readDirectoryEnd and what it calls; zip/writer.go: the end
--                     records that Writer.Close writes
--   Zip/Checksum      zip/reader.go: checksumReader, readDataDescriptor and findBodyOffset;
--                     zip/writer.go: the descriptor of fileWriter.close
--   Zip/FileWriter    zip/writer.go: fileWriter, with the counts of its two countWriters
--   Zip/Extras        zip/reader.go: the extra fields of a directory header
--   Zip/Directory     zip/reader.go: readDirectoryHeader and its loop; zip/writer.go: the headers
--                     that Writer.Close writes
--   Zip/Archive       zip/reader.go: Reader.init
--   Zip/Encoding      zip/writer.go: detectUTF8
--   Zip/Create        zip/writer.go: CreateHeader's changes to a header, writeHeader and SetComment;
--                     zip/struct.go: MS-DOS times
--   Zip/Mode          zip/struct.go: Mode, SetMode and the modes of Unix and MS-DOS
--   Zip/Settings      zip/register.go: Validate; zip/writer.go: SetCompressionSettings
--   Pflate            pflate/pflate.go: the writer's state and the caller's part of Write, Flush, Close
--   Pflate/Steps      pflate/pflate.go: the goroutines, and the interleavings as a step relation
-- The child modules of each hold its proofs, and Tests its runs at concrete values.
--
-- How state is modelled: a struct is a record, an operation takes the record and returns the next
-- one. A reader or writer that the program is given is a record of its operation and of laws that
-- the interface documents (Source, Sink, Hash, Compressor); Tests have concrete ones. A file that
-- zip opens is its bytes. A byte is a number below 256, and a field that is checked for overflow
-- or for its sign is the 64-bit pattern of an int64; counts that were checked are plain numbers.
--
-- Fuel: parsePAX's loop has the length of its input, and each record takes a byte at least; Flush's
-- loop has the number of bytes to write, and each write without an error takes one at least; the
-- digit loops have one more than the number; a loop that takes a byte, a block, an extra field or a
-- header in each round has one more than the bytes that there are.
--
-- Goroutines: a step of Pflate is what one goroutine does up to its next operation on a channel or
-- test of the shared error, and a run is any sequence of steps. A channel is the list of the slots
-- that were sent, a closed `notifyWritten` is a count, since the listener closes them in order.
--
-- Not modelled: operating-system file information, the modes of tar, the detection of name encodings by
-- third-party packages, the compressors and their pools, the time zone that zip guesses from two
-- times, PAX times, Reset of a parallel writer in use, the chain of headers in Next of the tar
-- reader, and WriteHeader of the tar writer. io.Seeker sources, on which skipUnread seeks,
-- are left out with it.
pub mod Common
pub mod Zip
pub mod Tar
pub mod Pflate
