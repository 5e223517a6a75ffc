-- ===== src/Lib.antt =====
-- pydeno runs untrusted JavaScript in an embedded engine for a Python host. This library models the
-- parts of python/pydeno that decide what crosses between host and guest, and states what makes them
-- correct. Each file opens with the code that it is about; a definition has the name that it has in
-- the code, without the leading underscore.
--
-- Parts.
--   Prelude: Boolean tests and list operations on the native numbers, results, byte strings.
--   Wire: python/pydeno/_wire.py, the frames between a runtime and its worker process. Codec has the
--     four-byte header, Writer `FrameWriter`, Reader `FrameReader`, and Transport joins the two by
--     the bytes on the pipe. What the operating system does is an input: a list of attempts says how
--     each `os.write` ends and at what time, a list of wakes how each poll and `os.read` of the
--     reader ends. Behind a list's end the pipe takes all that is left, and the reader meets the end
--     of the file. `none` as a descriptor is the code's -1.
--   Tools: python/pydeno/_tools.py, `ToolBridge`. Names has `_check_name`, Bridge `__init__` and the
--     budget, Runtime what the code uses of a runtime's registry (an interface with laws, since the
--     registry is in the native extension), Attach `attach` and `detach`.
--   SnapshotAuth: python/pydeno/_snapshot_auth.py. The digest and the identity of the build are
--     parameters; of the digest only its length is assumed, so nothing here says that a tag is hard
--     to forge.
--   Gate: python/pydeno/_gate.py. Verdict has `_accept` and `_decide`, Check `_prepare`,
--     `_Hook.check` and `gate_check`, Combine `all_of` and `any_of`, Threads `_GatePool` as a step
--     relation whose steps are the code's critical sections.
--   Pool: python/pydeno/_pool.py, `SessionPool`. Numbers and Ids have the counters, the ids and the
--     store's keys, Store what the pool uses of a `JournalStore` (an interface with laws) and
--     `InMemoryJournalStore`, Session what `_restore`, `_persist_held`, `_write`, `_drop_state`,
--     `drop`, `_prepare` and `_release` do to one session and to its values in the store, Room the
--     caps and the eviction. A sandbox is an interface: of its signature only that it binds the text
--     it was made for is assumed. One call is one step, and what another task does to the entry
--     during it, a drop, is an argument: what the call finds in `dropped` behind each of its awaits.
--   Fetch: python/pydeno/tools/http_fetch.py. Headers has `_check_headers` and `_transport_headers`,
--     Target `_Target` and the allow-list's entries, Path `_check_path`, Parse `_parse` and `_entry`,
--     Loop `__call__` with `_target` and `_redirect`, for any parser, Vet `_vet` for any address policy,
--     Address the policy, `_ip_refused`. The standard library's parsers and flags of addresses, the
--     replies of the network and the resolver are parameters.
--   Seccomp: the system call filter of python/pydeno/_sandbox.py, `_seccomp_program`. Seccomp has the
--     assembler, which resolves the targets of jumps, Tables the names and numbers of the calls, Program
--     the lines of the program, Kernel a machine that runs them, taken by the documentation of its
--     instructions. Nearest, Assembles, Blocks, Policy and Refines lead from the machine to a policy that
--     says of a call by its architecture, number and arguments what becomes of it, and Tiers says what
--     that means for single groups of calls. The packing of an instruction into eight bytes is left out.
--   Output: python/pydeno/_result.py. Utf8 has `_cut_utf8`, Console the text of console arguments,
--     Capture `OutputCapture`, Jsonable `to_jsonable`, Failure `error_type`, `error_message`,
--     `failed_result` and `capture_result`. What `json.dumps`, `repr`, `isoformat` and base64 give is
--     part of the input.
--   Workers: python/pydeno/_sandbox_pool.py. Workers has `_WorkerCapacity`, Start the critical sections
--     of `_Core.new` and `_Core.fill`, with the start and the exit of processes between them, as a step
--     relation, Core what the pool keeps ready. Tokens and processes are numbers.
--   Agent: python/pydeno/_agent.py, the journal of a session. Agent has `_start`, `_resume`, `_answer`,
--     `_observe` and `_journal`, Plan `_replay_plan` with `AgentSandbox._replay`, which answers it. The
--     core with its guest is any function of a state, and the form of a value in the journal is a
--     parameter, of which only is assumed that what is decoded from the record of an answer is
--     decoded again from what it is encoded as.
--   Limits: python/pydeno/_limits.py, with integers and floats of its own.
--   Tests: runs at concrete inputs, and each theorem applied to such an input.
--
-- Bounds and fuel. Numbers are natural numbers. A frame's length is the four bytes of its header, and
-- the header of a longer payload is an error, as in the code. The loops of the reader and the writer
-- recur on the lists of wakes and attempts and need no fuel; `drain` reads at most a given number of
-- frames, and one more than there are is enough. The loop of the pool's `get` has one round for each
-- session and one more, which is proved to be enough, as are the divisions of `digits`. The filter's
-- program jumps only forward, and the machine is an interface with a law for each instruction; the
-- loops of the console, of the journal and of the worker pool recur on their lists, and `to_jsonable`
-- on its value.
--
-- Not modelled: the JSON layer of the frames, locks (each call of a locked operation is one step), the
-- asynchronous variants of the gates and the pools, the tasks that wait for a session, a store that
-- raises, the connections of the HTTP tool, the installation of the filter and the rest of the sandbox,
-- which are calls of the operating system, how long a checkout waits for a worker, the copy of a pool in
-- a forked child, the sealing of an agent's journal, the closing of an
-- agent's session, the threads that run its tools, the texts of
-- messages, and every other module of the package: most of them drive processes, asyncio or the native
-- extension.
pub mod Prelude
pub mod Wire
pub mod Tools
pub mod SnapshotAuth
pub mod Gate
pub mod Pool
pub mod Fetch
pub mod Limits
pub mod Seccomp
pub mod Output
pub mod Workers
pub mod Agent
mod Tests
