-- ===== src/Lib.antt =====
-- A model of the datapath contract of NOSaic's switch daemon, of the in-memory switch that is its
-- reference implementation, and of components beside it: versions, dependencies, cooling,
-- upgrade and health.
--
-- The daemon (cmd/nosd) drives every datapath, hardware or simulated, through one Go interface,
-- switchapi.Switch. internal/switchapi holds the interface, its types and the checks that every
-- datapath shares; internal/nosd/mem implements the whole of it in memory and says what each call means.
-- Both are modelled in full. The package tools order packages by internal/depsolve, which compares
-- versions by internal/vercmp; internal/thermal drives a switch's fans from its sensors.
-- internal/health asks a datapath through the contract whether a new image works,
-- which internal/upgrade has installed in the slot that is not running.
--
-- Files, and the code that they model:
--   SwitchApi/Types, Names, Errors   internal/switchapi/switchapi.go: types, SVI and LAG names, errors
--   SwitchApi/Limits                 internal/switchapi/stp.go: the checks, Limits/Standard the standards'
--   SwitchApi/Acl                    internal/switchapi/acl.go: the rule and Validate
--   SwitchApi/AclText                internal/switchapi/acl.go: ParseACLRule and String. Words and Reads
--                                    read one word, Segments one match, Roundtrip the rule;
--                                    Families and Accepted what is accepted
--   SwitchApi/Address                the values of Go's net/netip that these use, and their tests
--   Mem/State                        internal/nosd/mem/mem.go: Config, Switch, port, lag, New, lookup
--   Mem/Ports, Vlans, Svis, Routes,  internal/nosd/mem: one function per method, of the method's name
--   Acls, Lags, Stp, Mlag            (SetPortVLAN is set_port_vlan, LAGs is lags)
--   Mem/Calls                        the writing methods of the interface as one step, histories as run
--   Mem/Effect, Writes, Steps        a call's guard, what it needs, its one write;
--   Mem/Outcome                      what that write leaves of VLANs, LAGs, SVIs and spanning tree
--   Mem/Views, Mem/Aggregation       what ports and LAGs say of one another
--   Mem/Invariants                   the other invariants of histories, one child for each
--   Mem/Atomicity, Mem/Readers       refused calls, and reads that follow pointers
--   Vercmp                           internal/vercmp/vercmp.go: Compare, Vercmp/Order its two directions
--   Depsolve/Require                 internal/depsolve/depsolve.go: requirements, Require/Roundtrip their text
--   Depsolve/Resolve                 internal/depsolve/depsolve.go: Resolve; Index its lookups, Fuel and Ends
--                                    its end, Order, Visits and Closure its result
--   Thermal                          internal/thermal/thermal.go: Thermal/Slope and Target the curve, Duty Run
--   Health                           internal/health/health.go: Check
--   Upgrade                          internal/upgrade: Install and Commit, a child for what each promises
--   Base                             lists, maps, integers, decimal text, sorting, the method monad
--   Examples in each part            the theorems and some calls at concrete inputs
--
-- How the code is rendered:
--   * A method with a pointer receiver is a function from the state to a result and a state
--     (Base/Exec). What was written before an error stays written. Each method holds the mutex for its
--     whole body, so a history is a list of calls, and run is what they leave.
--   * A *port is named by its key: a port or a LAG by its name in by_name, an SVI by its VLAN in svis.
--     Names do not change after creation, so a write through a pointer is a write at the key. A nil
--     pointer that is followed is the error nil_pointer.
--   * A Go map is an association list; iteration order does not matter where the result is sorted. Where
--     the code names one of several culprits, which one it names is the list's first.
--   * int is the integers. Where values that nothing bounds are multiplied or subtracted, in the curve of
--     thermal, each operator is wrapped to 64 bits (wrap64); elsewhere only comparisons, sums of small
--     values and the byte offsets of partitions are formed. LAG names are scanned with the bounds of a 64-bit int.
--   * A string is the list of its bytes; an error is a constructor with the values that its text shows.
--   * The functions of Go's library that the code calls on text are arguments: the net packages' are the
--     fields of Net, an argument of step, and of NetText, which has Fields too; TrimSpace is an argument
--     of compare, of parse_requirement and of resolve. What theorems need of them is in TrimLaws,
--     IsReadable, FieldsLaw and FamilyLaws.
--   * Run of the cooling loop reads a Round for each interval: what the board answers. That the rounds
--     are a list says that the context is cancelled at some time. Install reads Answers in the same way,
--     and gives the list of its writes up to where it ends; a file of the boot pointer is written whole.
--   * Recursion is on lists, and on a number for decimal digits (Base/Decimal), where the number itself
--     is the fuel: it has no more digits than that. The loop of naturalCompare has the bytes of both
--     strings as fuel, since each turn takes one byte of each at least; without fuel it is none. The visits of Resolve have the
--     number of packages and one as fuel, since the stack holds different names of packages.
--
-- Not modelled: the conformance suite; the daemon, its client and protocol; the virtual datapath; boot,
-- identity and config; of upgrade how a slot's file and the overlay are written, debugfs, Local and
-- StateDir; image and package building; platform support; the C code. These are I/O and tooling, or
-- wait for their own modules. In depsolve the lists of words that errors join are kept as lists.
pub mod Base
pub mod SwitchApi
pub mod Mem
pub mod Vercmp
pub mod Depsolve
pub mod Thermal
pub mod Health
pub mod Upgrade
