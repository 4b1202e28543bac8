-- ===== src/Lib.antt =====
-- ARINC 615A data loading: the operations of targets and data loaders, the protocol files that they
-- exchange, the FIND packets, and the values that these carry.
--
-- The library `lib/arinc_615a` of this repository speaks ARINC 615A: a data loader and a target
-- exchange protocol files over TFTP, and find each other by FIND packets over UDP. Modelled are the
-- parts that turn values into bytes and bytes into values, what reacts to a FIND datagram, and what
-- a target and a data loader do from the start of an operation to its end:
--
-- - Codes: status codes, acceptance codes, final status and protocol versions of
--   lib/arinc_615a/Arinc615a.hpp, and the conversions and texts of lib/arinc_615a/StatusCode.cpp.
-- - Status: the status values of lib/arinc_615a/information (Status, UploadStatus and so on).
-- - Files.Text, Files.Ratio, Files.ProtocolFile: the fields and the header that all protocol files
--   share (lib/arinc_615a/files/String.cpp, Ratio.cpp, ProtocolFile.cpp).
-- - Files.InitializationFile, Files.Download, Files.Upload, Files.Information: one module for each
--   protocol file class of lib/arinc_615a/files, with its `encode` and its `decode`; the child
--   RoundTrip holds the laws.
-- - Find.Packet: lib/arinc_615a/find/packets/Packet.cpp. Find.Handler: PacketHandler.cpp with its
--   statistic, and the packet functions of the two classes that derive from it. Find.Server and
--   Find.Query: the life of the FIND server (find/servers/implementation/ServerImpl.cpp) and of the
--   FIND query (find/clients/implementation/QueryImpl.cpp); Find.Exchange: both together.
-- - TargetId: lib/arinc_615a/TargetId.cpp. Files.ProtocolFilename:
--   lib/arinc_615a/files/ProtocolFilename.cpp. Both split a text by means of Separator.
-- - ErrorMessage: lib/arinc_615a/tftp/ErrorMessage.cpp, the WAIT and ABORT messages in TFTP error
--   packets.
-- - Tftp.Client: lib/arinc_615a/tftp/clients/implementation/OperationImpl.cpp, with retries, waits and
--   aborts. Tftp.Server: `waitOperation` and `abortOperation` of
--   tftp/servers/implementation/ServerImpl.cpp. Tftp.Options: lib/arinc_615a/tftp/Arinc615aOptions.cpp,
--   and the options in the requests and answers of both classes.
-- - Target: lib/arinc_615a/target/implementation. Target.Operation, Target.Transmission and
--   Target.Requests hold what OperationImpl.cpp does for all operations, and what the operations do in
--   the same words (statusFile, statusFileCompleted, tftpRequest); Target.Upload, Target.Download with
--   Media and Operator, and Target.Information are the classes of that name. The modules Runs take any
--   series of calls of one of them. Target.Protocol is ProtocolImpl.cpp and ErrorOperationImpl.cpp.
-- - Host: lib/arinc_615a/host/implementation, in the same way: Host.Operation and Host.Status for all
--   operations, Host.Upload, Host.Download with Media and Operator, and Host.Information.
--   Host.DownloadInformation: lib/arinc_615a/host/DownloadInformation.cpp.
-- - Loader: the application above them, lib/arinc_615a_dla_qt/operations (UploadOperation.cpp,
--   OperatorDefinedDownloadOperation.cpp, MediaDefinedDownloadOperation.cpp), and `operationStatus` of
--   lib/arinc_615a_dla_qt/upload/UploadOperationWizard.cpp.
-- - Exchange: a target and a data loader together, with the bytes of one as those of the other, with
--   the options of their requests, and with the wizard of the upload above the data loader.
-- - Base, Buffer: lists over the native numbers, exceptions as values, the code along a buffer, and
--   decimal numbers. BigEndian and Tests: concrete data.
--
-- A byte or a character is a number; a string, a span and a vector are lists. A function that can
-- throw returns a `Result`: the error names the class of the exception, without its text. Code that
-- takes a span apart or lets a vector grow is a `Coder`, which passes the rest of the bytes, or the
-- bytes so far, from step to step. A decoder of a file class that appends to what the object holds
-- takes that object; what an object holds after an exception is not modelled. A `uint16_t`, and the
-- bit pattern of an `int16_t`, is a number below 65536.
--
-- A member function of an operation takes the state of the object and gives the next state and the
-- actions that it leads to: the transfers that it requests, its timer, and the calls of its handler.
-- What it throws stands behind them. An asynchronous answer (the end of a transfer, of a wait or of
-- the timer) is a call of its own, an event. A series of events in any order stands for the event
-- loop, which goes on behind an exception. An address that a target does not know yet is `none`; that
-- a TFTP operation exists is a Boolean; the receptions of a data loader are numbers. Addresses, the
-- codes of TFTP errors and check values are types of other repositories, so they are parameters.
--
-- The integer and string functions over raw data (`Helper::RawData_getInt` and its relatives,
-- `Helper::safeCast`) come from another repository. They are the record RawData, an instance argument:
-- operations, with what the code relies on as laws. BigEndian fills it in. Check values
-- (`Arinc649::CheckValue`) and the reader of numbers of the TFTP library are arguments, and what the
-- code relies on is stated where a theorem needs it. Whether a call of a socket throws, whether a
-- directory is made, and the time are arguments too. The request handler of a FIND
-- server is a function that ends or throws. A FIND datagram is cut to 1024 bytes, the size of the buffer
-- that it is received into.
--
-- Loops over a list are recursion on the list; a loop over a counted number of entries is recursion
-- on that number. The loop over the parameters of a FIND packet runs on fuel: the length of the
-- text, of which every round takes a character at least, so it never runs out before the text does.
-- Decimal numbers are written on fuel, one for each digit after the first: nine for a ratio, which
-- has three digits at most, and four for a waiting time, which has five at most.
--
-- Not modelled: the sockets themselves, logging and statistics of protocol files, the building of TFTP
-- operations, the factory of the data loader's operations
-- (lib/arinc_615a/host/implementation/ProtocolImpl.cpp), configurations as property trees, the record
-- of a download that is written to a file, and the widgets and models of the graphical libraries
-- (lib/arinc_615a_qt, the rest of lib/arinc_615a_dla_qt, app).
pub mod Base
pub mod RawData
pub mod Buffer
pub mod Codes
pub mod Files
pub mod Find
pub mod Status
pub mod BigEndian
pub mod Tests
pub mod TargetId
pub mod ErrorMessage
pub mod Separator
pub mod Tftp
pub mod Target
pub mod Host
pub mod Loader
pub mod Exchange
