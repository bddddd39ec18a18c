-- ===== src/Lib.antt =====
-- AiVM, a virtual machine in C for programs in its own byte code, with a scheduler of worker threads
-- and a channel to a remote server. Modelled are
--   - the core of the virtual machine (src/aivm_vm.c, src/aivm_vm_stack.c, src/aivm_vm_value.c,
--     src/aivm_vm_history.c, src/aivm_vm_error.c, src/aivm_types.c): `Vm`;
--   - the worker scheduler (src/aivm_worker_scheduler.c, src/aivm_worker_capacity.c): `Scheduler`;
--   - the remote channel, the server's session and the web socket frames
--     (src/remote/aivm_remote_channel.c, src/remote/aivm_remote_session.c,
--     src/remote/aivm_remote_ws_frame.c): `Remote`;
--   - the hash tables of a machine (src/aivm_vm_map.c): `HashMap`, its blobs (src/aivm_vm_blob.c):
--     `Blob`, and its text functions (src/aivm_vm_text.c): `Text`;
--   - the loader of programs (src/aivm_program.c with src/aivm_program_instructions.c and
--     src/aivm_program_constants.c): `Loader`.
-- These parts do not call one another: the loader's caller hands the program to the machine, the machine
-- hands tasks to the scheduler, the opcodes and syscalls call the tables and the text functions, and the
-- bridges hand frames to the session, all through code that is not modelled.
--
-- Vm/Value has the values and their comparison, Vm/State the program and the machine's record with its
-- error, histories and the checks `validate_call_local_state` and `validate_frame_record`. Vm/Stack has
-- `aivm_stack_push`, `aivm_stack_pop`, `aivm_frame_push`, `aivm_frame_pop`, `aivm_local_set` and
-- `aivm_local_get`, Vm/Call the cases CALL and RETURN of `aivm_step` with the tail call and
-- `validate_call_target_layout`, Vm/Step the other cases, `aivm_step` (`step`) and `aivm_run` (`run`).
-- A function that changes the machine takes the state and gives the next; a function that reports
-- success gives a Boolean or an option with it. The arrays are functions from the index, and the limits
-- and counts are beside them as in the source. Numbers are native; an `int64_t` is its 64-bit pattern,
-- and sums, differences, products and negations wrap around, as the source's do on the machines it is
-- built for; the remainder of -2 ^ 63 by -1, which C leaves undefined, is 0.
-- Doubles are a parameter (`Doubles`), and the garbage collection at a return is one too (`SafePoint`),
-- of which a theorem assumes only that it changes no count, limit or frame.
--
-- Vm/Safety has the invariant of the machine, Vm/Ends programs that come to an end, and the state that
-- their runs leave.
--
-- Scheduler has one function for what each C function does while it holds the mutex, Scheduler/Creation
-- the loop that starts the workers, Scheduler/Workers
-- the transitions of the owner and of the worker threads in any order. Scheduler/Refine specifies the
-- scheduler as a ledger of submission ids. What the host grants at the creation is the parameter `Host`,
-- with the number of threads that it starts before it refuses one.
--
-- Remote/Bytes and Remote/Codec have the encoders and decoders, an error code or a result;
-- Remote/Session has `aivm_remote_server_process_frame`, Remote/WsFrame the web socket frames. A text
-- is the bytes of its array. Remote/Handshake has the session behind each frame, Remote/WsMask the masking
-- that RFC 6455 describes.
--
-- HashMap has the probe, the growth and the puts and lookups of one table, and the operations on
-- the machine's records by their handles; HashMap/Table says where entries stand and what a put
-- does, HashMap/Contents and HashMap/Puts read a table as a relation of keys and values,
-- HashMap/Handles and HashMap/Histories have the handles and sequences of calls. Blob has the
-- table of blobs, Blob/Contents its slots, Blob/Invariant the map from handles to bytes,
-- Blob/Creation and Blob/Release the calls, and Blob/Histories sequences of them. The sequences
-- contain the resets with which `aivm_reset_state` empties the maps and the blobs, behind which handles are
-- given out from 1 again; `aivm_dispose`, which ends the use of a machine, is not one of the calls.
-- Text has base64, the check of UTF-8 and the hexadecimal digits, Text/Base64, Text/Scalars and Text/Utf8
-- their laws. What the host answers to a request for memory is an argument of the call. Loader
-- has `aivm_program_load_aibc1`, where a read outside of the bytes is a result of its own, and
-- as an argument what loads the section of the worker catalog; Loader/Constants and Loader/Sound
-- say what it accepts, Loader/RoundTrip lays programs out in the format.
--
-- The loop that raises a limit runs on fuel, the needed count, which is enough since every round
-- raises the limit by one at least. The loop of `aivm_run` runs on fuel that the caller chooses,
-- and `none` is a run that needs more; byte code need not end. The probe of a hash table runs on
-- fuel, the capacity, which is enough as long as a slot is empty, and the load at which a table
-- grows keeps one empty. The check of UTF-8 runs on fuel, the length, since every round takes a
-- byte. Every other loop is structural.
--
-- Not modelled: the opcodes for strings, bytes, nodes, maps, tasks, parallel blocks, blobs and syscalls
-- with the arenas, the nodes and their collector; the texts of error details; the release of a program;
-- the worker catalog, and the worker runtime over the scheduler; the transports; the debugger, the host
-- interface and the command line tools. They are large parts of their own or glue to the host.
pub mod Common
pub mod Vm
pub mod Scheduler
pub mod Remote
pub mod Text
pub mod Blob
pub mod HashMap
pub mod Loader
