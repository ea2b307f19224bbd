-- ===== src/Lib.antt =====
-- SharedObject: the C++ core of an R package whose vectors live in memory that several R processes
-- share.
--
-- The program's parts, and the files that model them:
--
--   src/sharedObjectClass.h, src/sharedObjectClass.cpp: one shared memory object of the operating
--     system. SharedObjectClass has the fields of the class as a record and its small methods,
--     SharedObjectClass/Methods the ones that allocate, open, map and free, each as a function on a
--     Frame: the object and the world outside. SharedObjectClass/Validity and /Effects have the
--     theorems.
--   src/sharedMemory.h, src/sharedMemory.cpp: the objects that one process has open and how often each
--     is mapped. SharedMemory has the static variables as the record Process and the functions that
--     end in `Internal`; SharedMemory/Keys has getKey and the names, SharedMemory/NextId getNextId,
--     SharedMemory/Public the public functions, SharedMemory/Package initialPkgData, releasePkgData,
--     getLastIndex and the class auto_semophore; SharedMemory/Package/Lock has several processes at
--     that lock as a step relation. SharedMemory/RefCount is the theory of the counters,
--     with sequences of calls as lists; SharedMemory/Ghosts is about a failed
--     allocation, SharedMemory/Listing about getSharedObjectList, SharedMemory/Freeing about
--     freeSharedMemoryInternal. SharedMemory/Processes has several processes that make calls one after
--     the other, /Names and /Ids what becomes of the names and ids.
--   src/altrep.cpp, src/stringAltrepOperations.cpp: shared character vectors. Altrep/StringVector has
--     createSharedStringFromSource and unshareString, Altrep/StringVector/Operations what R calls on
--     such a vector (sharedString_length, _dataptr, _dataptr_or_null, _elt, _set_elt, _duplicate,
--     _serialized_state, _unserialize), both on the bytes of the index that they find.
--     Altrep/StringVector/InMemory has the same functions with the index in a shared vector of a
--     process; /Created, /Elsewhere and /Written are about what such vectors show. Altrep/Bytes has
--     the memory and the casts of its pointer.
--   src/altrep.cpp, src/numericAltrepOperations.cpp: shared vectors of numbers. Altrep/SharedVector has
--     createEmptySharedObject, readSharedObject, ptrFinalizer, sharedVector_length and _dataptr (which
--     is _dataptr_or_null, too), Altrep/SharedVector/Operations createSharedObjectFromSource, unshare,
--     sharedVector_duplicate, _serialized_state, _unserialize and _subset, with the loop of the
--     last in Altrep/Subset, of which /Faults has the indices at which it is a fault.
--     Altrep/SharedVector/Contents to /SharedSubsets are about the bytes that such vectors show;
--     what happens to them in one process is a list of events in Altrep/SharedVector/Collection,
--     and /Modes is about vectors that are asked for by the name of a type.
--   src/altrepRegistration.cpp: the registered classes are a table in Altrep/Registration.
--   src/utils.cpp: copyData is in Altrep/CopyData, getTypeSize and getObjectSize with getAltClass and
--     C_getDataTypeId (src/C_interface.cpp) are in Altrep/Types, getSharedMemoryPath is in
--     SharedObjectClass and OS_ADDRESS_SIZE in SharedMemory/Keys. PROTECT_GUARD is in
--     Altrep/ProtectGuard.
--   src/C_interface.cpp: C_isShared, the ownership functions and C_getLastIndex are in Interface, the
--     functions that pass on to the other files in Interface/Exports; Interface/RawMemory is about
--     memory that R maps by itself.
--
-- A vector asks SharedMemory/Public for memory by an id, that asks SharedMemory for the object of the
-- id's key, and that runs the methods of SharedObjectClass. Exceptions and long jumps are values of
-- Result (Prelude/Results): `threw` is a C++ exception, which a handler catches, `aborted` is what no
-- handler sees: Rf_error, a null pointer, an access outside of a vector. A computation keeps its state
-- also where it throws.
--
-- What is outside of the repository is the record Os of Os.antt: boost's shared memory objects,
-- regions and semaphores, statvfs, access, and the 64-bit cells of mapped memory, over a type of
-- worlds. `Posix` states what is assumed of names and sizes, `Counting` what is assumed of the
-- counter's cell, `Sharing` what is assumed of mapped memory, and `Semaphores` what is assumed of
-- named semaphores. Tests/Platform has a small operating system that meets all four. R's protection
-- stack is the record Protection of Altrep/ProtectGuard. std::map is Dict.antt. A vector's memory
-- is shared between processes as the world is: what one process leaves there, another one begins
-- with.
--
-- Bounds and fuel: getNextId has fuel for 2^64 rounds, one for each value of its counter, and the
-- theorem about it shows that this is enough. Identifiers and byte counts wrap at 2^64 where the
-- source computes in uint64_t or size_t. The widths of the index cells are searched up to 256^8.
--
-- Left out: Windows; debug prints; the passage of sizes through double, exact to 2^53; the wrap of
-- an int counter after 2^31 mappings; the order of a std::map; rounding in std::log2. Integers in
-- memory have their low byte first. A method of a character vector that writes a cell of the index
-- writes the index as a whole, and vectors on one data1 have each their own cached strings. The
-- address of a string that another process reads is a parameter. The Inspect functions, which print,
-- the functions of C_interface.cpp that only read or set fields of an R object, the generated
-- RcppExports.cpp and the R code are not modelled.
-- A duplicate or a subset reads its elements before the new memory for them is made, not after.
-- A wait for the semaphore that times out does so at once, where its count is 0.
pub mod Prelude
pub mod Dict
pub mod Os
pub mod SharedObjectClass
pub mod SharedMemory
pub mod Altrep
pub mod Interface
pub mod Tests
