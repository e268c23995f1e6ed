-- ===== src/Lib.antt =====
-- Verification library of btor, a BitTorrent client: what it reads from a torrent file, its
-- request to the tracker, and what it says to a peer.
--
-- The program reads a torrent file into a buffer, parses it (btor/bencode.cpp) into a tree of objects
-- (btor/bobject.cpp) that a memory manager owns, and collects on the way the text of the info
-- dictionary, which is hashed, and the sum of the file lengths. From these it builds the announce URL
-- (btor/bhttp.cpp, btor/butils.cpp), asks the tracker, and keeps a bitfield of the pieces it has.
--
-- Files:
--   Base, Base/      lists, byte strings, integers, decimal numbers and tests on native numbers;
--                    Base/Outcome is what a C++ function ends in: a value, an exception, exit(), a
--                    failed assert, undefined behaviour, or a model's fuel used up.
--   Object, Object/  BObject of btor/bencode.h and btor/bobject.cpp: checkIfHasKey is
--                    check_if_has_key, getByKey is get_by_key, and so on. Object/Dict is the
--                    std::map as the sequence of its entries in the order of the keys.
--   Memory, Memory/  BMemoryManager: a heap of cells and the list of objects to delete. A pointer is
--                    an index into the heap. Memory/Denotes says which value the objects at a
--                    pointer make up, Memory/Sound what holds of all objects, and Memory/Lookup what
--                    getByKey finds below a pointer. Memory/Typed is about all that the
--                    accessors lead to. Memory/Destroyed and Memory/Erased are about
--                    the destructor.
--   Cursor, Cursor/  the state of BParser with the memory that it allocates in, commands on that
--                    state, consumeChar and peekChar.
--   Parser, Parser/  the functions of BParser, one each: parseArbitrary is parse_arbitrary, its
--                    switch is dispatch, and each loop is a function named after what it reads.
--                    Parser/Spells is a grammar of the texts that stand for a value, wider than
--                    Bencode, and Parser/Took is about what a call has taken from the text.
--                    Parser/Spelt is about reading the texts of the grammar, and Parser/Accepts
--                    compares what the parser takes with the grammar.
--   Bencode          the format as the comments of btor/bencode.cpp describe it: values, their
--                    print, and which of them the parser can read. No code is modelled here.
--   Bitfield, Bitfield/  setBitInBitfield and isBitInBitfieldSet of btor/butils.cpp, whose bit number
--                    is an int: as_int is the conversion of the argument.
--   Announce         btor/bhttp.cpp, and urlEncode and generateId of btor/butils.cpp.
--   Metainfo         the structs of btor/btor.h, and getBitfieldSize of btor/butils.cpp.
--   Peer, Peer/      BPeer of btor/bpeer.h and btor/bpeer.cpp: tryReceive is try_receive, and so on.
--                    Peer/Calls counts how often a socket is closed, Peer/Flags has the four flags and
--                    the enum of messages.
--   Files, Files/    fileio of btor/bfileio.cpp over a map from names to contents; load_bitfield is the
--                    part of main in btor/btor.cpp that loads or creates the bitfield file.
--   Sock, Sock/      BSock of btor/bsock.cpp: OpenSocket is open_socket, whose last steps are socket_on,
--                    bind_on and listen_on. Sock/Frees is about what it releases.
--   Print, Print/    operator<< of btor/bobject.cpp. Print/Shows describes the text of a value apart
--                    from pointers, and Print/Reorders changes the order of fields.
--   Hash, Hash/      getSHA1 of btor/butils.cpp.
--   Torrent, Torrent/  the part of main that reads the torrent file into its metainfo.
--   Tracker, Tracker/  the part of main that asks the tracker and takes its peers. Tracker/Counts is
--                    about how many it takes.
--   Main, Main/      the rest of main of btor/btor.cpp in stages: initialise, load_state, announce and
--                    finish. System holds what the libraries and the system give, Session what the
--                    program holds at its exit(EXIT_SUCCESS). Main/Runs follows one whole run, Main/Again
--                    the next, and Main/Fresh one that finds no bitfield file. Main/Ends and
--                    Main/Succeeds are about every run that gets to its end.
--   Status, Status/  show_status of btor/butils.cpp.
--   Unittests        the tests of btor_unittests/btor_unittests.cpp. Unittests/Objects is the class of
--                    btor_unittests/BObject.cpp, whose objects own their elements.
--   Tests, Tests/    runs on small inputs, and the theorems applied at them.
--
-- Characters are numbers below 256, and a std::string or a vector of bytes is a list of them. The
-- cursor is an unsigned int and wraps at 2^32; a string's length is an int and an integer's value an
-- int64_t, whose overflow is undefined. The parser runs on fuel: every call and every round of a loop
-- costs one unit, and parse_bencoded_string hands out three times the length of the text and four,
-- which is enough for every text of fewer than 2^32 characters. print_object runs on the depth to
-- which it may go, for which the number of the objects is enough. What the HTTP client, the socket
-- library, SHA-1, a conversion to double, the console handler and rand() give are arguments, and so
-- are the bytes of the vector object that getSHA1 copies in place of the digest. These bytes hold
-- pointers of the process: what is said of two runs takes a System for each, with two such
-- functions.
--
-- Not modelled: console output but for the status bar, the Windows calls on the console, code that
-- stands in comments, the socket address inside a peer, and the third-party headers btor/sha1.hpp,
-- btor/httplib.h and btor/HTTPRequest.hpp, whose code the program only calls.
pub mod Base
pub mod Object
pub mod Memory
pub mod Cursor
pub mod Parser
pub mod Bencode
pub mod Bitfield
pub mod Announce
pub mod Metainfo
pub mod Peer
pub mod Files
pub mod Sock
pub mod Print
pub mod Hash
pub mod Torrent
pub mod Tracker
pub mod Main
pub mod Unittests
pub mod Status
mod Tests
