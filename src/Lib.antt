-- ===== src/Lib.antt =====
-- oodar, the runtime below the OODA language: capabilities, memory, strings, lists, actors,
-- channels, the sandbox of the process, events, counters, device buffers and limb arithmetic, as
-- they stand in sec/cap, sec/landlock, fs/os/rlimit.c, core/mem, core/str, core/list, app/actor,
-- core/event, hw/gpu/gpu/gpu_pool.c and core/math.
--
-- Every operation of the runtime that touches the system takes a capability token. The token
-- store (sec/cap/caps.c and the three sub-stores) draws 26 tokens from entropy, a grant hands
-- one out, and a gate (sec/cap/cap_require.c) lets a call on or ends the process, after a second
-- look at a table of rights (sec/cap/cap_ocap_bridge.c). Rights and paths are narrowed under a
-- keyed hash (sec/cap/cap_attenuate_hmac.c, cap_attenuate_path.c). Behind the gates stand 32
-- arenas (core/mem/arena.c) with a stack of checkpoints and the frames of string and list
-- payloads (core/mem/arena_checkpoint.c), a heap under a quota (core/mem/alloc.c), 16 actors
-- with their mailboxes (app/actor/actor.c), and 16 channels (app/actor/actor_channel.c), whose
-- messages are strings with a reference count (core/str/str.c). Strings have their text
-- operations (core/str/str_ops.c, str_tok.c), lists are handles to payloads with a reference
-- count that are copied when they are shared (core/list), and weak references (core/mem/weak.c)
-- outlive what they refer to.
--
-- Behind the gate of the sys capability a process confines itself (sec/landlock/sandbox): the
-- lists of directories become the rules of one Landlock ruleset (sec/landlock/landlock), the
-- mask of capabilities a seccomp filter (sec/cap/cap.c), the quotas limits of the kernel
-- (fs/os/rlimit.c), and a status says what was done. The parts tell each other of attenuations,
-- seals and signatures over an event bus (core/event/event.c), whose first listeners are the
-- counters (core/event/metrics.c).
--
-- Where it is modelled:
--   Base         lists as C arrays, words, signed numbers, bits, and `Run`, what a call does: it
--                returns, or it ends the process with a code
--   Cap          Tokens: caps.c, cap_alloc.c, cap_time.c, cap_ffi.c; Bridge: cap_ocap_bridge.c and
--                cap_bridge_emitted.c; Gates: cap_grant.c, cap_require.c; Rights:
--                cap_attenuate_hmac.c; Path: cap_attenuate_path.c. Sample is a store of tokens
--                for the tests of every part
--   Mem          Arena: arena.c, with Payload and Checkpoint for arena_checkpoint.c; Alloc: alloc.c;
--                Layout: arena_soa.c, arena_dod.c and the sizes of align.c; Weak: weak.c, with
--                Gated for the gates before its calls
--   Str          Ref: the reference count of str.c; Text: the operations of str_ops.c, str_tok.c,
--                str_from_int.c and the concatenation of str.c, on bytes
--   Lists        Payload: list_alloc.c, list_atomic.c; Ops: list.c, list_set.c; Slice:
--                list_slice.c; Kinds: the families, with flist.c and llist.c
--   Actor        Channel: actor_channel.c, with Queue, what a channel promises; Mailbox: actor.c;
--                Ring: the ring of messages that both have; Rpc: actor_rpc.c
--   Metrics      the counters of core/event/metrics.c
--   Events       the bus of core/event/event.c with the listeners of metrics.c: Table and Others for
--                subscriptions, Dispatch for an emit
--   Seccomp      the filter programs of cap.c and sandbox_config.c; Machine: what the kernel does with
--                an instruction; Policy: the table of calls; Install: the state of cap.c and its
--                calls; Sample is a target and a kernel for the tests
--   Sandbox      Paths: the walks over a list of directories; Access and Landlock:
--                landlock_restrict.c and landlock.c; Limits: rlimit.c; Apply and Matrix: sandbox.c,
--                sandbox_config.c and sandbox_c.c as compiled on Linux; Legacy: oo_sandbox_apply
--   Gpu          gpu_pool.c of hw/gpu/gpu, with the sizes of gpu.c; Race: a free in its two steps
--   Limb         the limb primitives of core/math/math.c
-- The definitions keep the names of the C functions; a helper that one function's body was split into
-- stands directly before it. Laws and the modules below a component hold its proofs, Tests the runs
-- and the instances of the theorems.
--
-- A C table is a list with its length as a hypothesis, a `long long` whose sign is looked at is
-- an integer, and an unsigned word is a natural number with its wrap-around written out. A call
-- that holds a mutex from its first look at a table to its last write is one step, so threads
-- interleave by whole calls. Loops with a constant bound recurse on it: 26 tokens, 16 hex
-- digits. Popping dead frames off an arena takes fuel: the number of frames of the slot is
-- enough, since each round takes one off. The loop that doubles the capacity of a list takes the
-- new length as its fuel, since a capacity is at least 1, and the digits of a number take one
-- more than the number.
--
-- One definition stands for an operation of all families of lists: oo_list_push is oo_ilist_push,
-- oo_slist_push, oo_flist_push and the pushes of nested lists. A payload is a function from indices
-- to elements, whatever was not written being what the allocator gave.
--
-- A gate that returns leaves the token store as it was, so the calls of the sandbox read the
-- store and do not hand it on. What the kernel answers to them is an argument, the same through
-- one call; the filters and rulesets that it has taken over are part of the state. A filter is
-- judged on every machine that gives the four kinds of instruction their documented meaning; an
-- interpreter is one. Numbers of system calls are a parameter, where `none` stands for a macro
-- that the target lacks.
--
-- Parameters: what getentropy wrote, what mmap, posix_memalign, malloc and calloc returned, whether
-- pthread_create made a thread, and the keyed HMAC of sec/crypto, about which the laws on
-- attenuation assume the 64 characters of its hex text where they need it, as does the round
-- trip of sealed calls.
--
-- Not modelled: the bytes of arenas, the reports that a refused gate writes, the HMAC key, the
-- interning table and the literals of strings, the event that an attenuation emits as a step of
-- the attenuation, and the parts of the runtime that no module above names: the text of the
-- exported counters, the purge of the device pool, the threads that run closures, the sandboxes
-- of other systems and the raw Landlock calls, ciphers and signatures, the rest of the GPU host,
-- the audio host, files, sockets, and the terminal host.
pub mod Base
pub mod Actor
pub mod Cap
pub mod Events
pub mod Gpu
pub mod Limb
pub mod Lists
pub mod Mem
pub mod Metrics
pub mod Sandbox
pub mod Seccomp
pub mod Str
