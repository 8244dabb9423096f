-- ===== src/Lib.antt =====
-- libco: stackful coroutines of one thread, with an event loop over epoll and a timing wheel,
-- shared stacks, condition variables, a mutex, and hooked system calls that wait by yielding.
--
-- How the parts interact. A coroutine that has to wait puts an item into the timing wheel
-- (AddTimeout), registers its descriptors with epoll, and yields (co_yield_env). The event loop
-- (co_eventloop) collects what epoll and the wheel give in one active list and resumes the
-- coroutine of each item (co_resume). Condition variables move the timer of a waiter to that
-- active list. The mutex is a counter over one condition variable. The hooked calls of the system
-- wait in poll, and poll in co_poll_inner.
--
-- Link models the intrusive doubly linked lists (co_routine.cc, RemoveFromLink, AddTail, PopHead,
-- Join). A Store holds the nodes and the two ends of every list by address; a read or write
-- through NULL or a freed address is `fault`, and so is a failed assertion. Link.Chain and
-- Link.View say when a store represents lists of addresses without repetitions: `Represents s L`.
-- `Updates s r L` says that a run `r` from `s` ends in a store that represents `L` and allocates
-- the same items.
--
-- Timeout models the wheel (AddTimeout, TakeAllTimeout). The words of 64 and 32 bits keep their
-- wrap-around; `IsWheel` says that the wheel is in use and its counters are below 2 ^ 62, which
-- milliseconds since 1970 do not reach. `InTime` says that no timer stands in a slot that is
-- taken after its deadline, `OnTime` that each stands in the slot of its deadline.
--
-- Cond models co_cond_alloc, co_cond_signal, co_cond_broadcast and co_cond_timedwait, the last in
-- two halves, before and after the yield. Mutex models clsCoMutex (co_comm.cc, co_comm.h);
-- Mutex.Protocol is the step relation of coroutines that lock, unlock while they hold the lock,
-- and run on after they have been woken; `Trace` keeps in which order they ask for the lock and
-- get it.
--
-- Loop models co_eventloop and OnPollPreparePfn. The results of epoll and the clock are
-- arguments, and pfnProcess, which resumes a coroutine (pArg), is a function on the state.
-- `IsLoop` is the state between two rounds: the lists are well formed, the list for the timers
-- that are taken is empty, and every timer stands in the slot of its deadline; `Waits` adds one
-- timer on the wheel. Loop.Serving is about rounds with any events in which the coroutines change
-- the timers: `IsServing` is their invariant, `Resumes` is the contract of a coroutine that is
-- resumed, `Rejoins` says that it waits again, and `Rounds` is the step relation of rounds.
-- Wait.Repeats gives the code that meets both contracts: the end of a poll, some work, and the
-- next poll. `Wakes` of Loop.Serving.Waking is the contract of a coroutine that makes others
-- active, among given ones that may still be made active; Cond.Serving has the coroutines that
-- run on after co_cond_timedwait and call co_cond_signal, which meet it, and Cond.Rounds says
-- whom they wake. Wait models co_poll_inner, in two halves around the yield. Poll models the
-- hooked poll of co_hook_sys_call.cc and the translation of event masks (PollEvent2Epoll,
-- EpollEvent2Poll).
--
-- Routine models coroutines and their stacks (co_create_env, co_free, co_reset, co_resume,
-- co_yield_env, co_swap, save_stack_buffer, co_alloc_sharestack, co_get_stackmem). The stacks are
-- bytes of one memory; co_swap is cut in two where coctx_swap changes the registers; the second
-- half reads the local `env` from the stack, as the source does, and any other pointer there is a
-- fault. `Holds` is the abstract view: which bytes a coroutine has on its stack, wherever they
-- are.
--
-- Fd models the table of hooked sockets of co_hook_sys_call.cc with socket, co_accept, close,
-- setsockopt and fcntl; Io models connect, read, write, sendto, recvfrom, send and recv. The
-- functions of the system are fields of a record that the definitions take as an argument, and
-- what a theorem asks of them is one of its hypotheses. The numbers of flags and errors are those
-- of Linux.
--
-- Vars models setenv, unsetenv and getenv of co_hook_sys_call.cc over the copy that each
-- coroutine has of the listed variables, and co_set_env_list, which sets the list; Vars.Listed
-- compares its loop with a pass that builds a new list.
--
-- Context models the registers: coctx_init and coctx_make (coctx.cc) and the instructions of
-- coctx_swap (coctx_swap.S) for x86-64, as steps on registers and on the words of memory.
-- `CanSwap` says that the two contexts and the stack words that the switch touches do not
-- overlap.
--
-- Specific models co_getspecific, co_setspecific and operator-> of CO_ROUTINE_SPECIFIC
-- (co_routine_specific.h), and __res_state, which uses it. Routine.Current models GetCurrThreadCo
-- and the switch of the hooks, Routine.Start the environment of a thread
-- (co_init_curr_thread_env, co_create, co_get_epoll_ct), Epoll the objects of AllocEpoll,
-- FreeEpoll, AllocTimeout and FreeTimeout with the array of results (co_epoll.cc). AllocTimeout
-- has no return statement, so what AllocEpoll gets is an argument of the model (`returned`).
--
-- Dns models gethostbyname and co_gethostbyname, with the buffer that grows until an answer fits,
-- and co_gethostbyname_r under its lock, a clsCoMutex.
--
-- Clock models GetTickMS, on the seconds and microseconds of gettimeofday, and GetPid
-- (co_routine.cc).
--
-- Base holds what these share: lists with native lengths, bits of words, Boolean tests, and
-- `Run`, the outcome of code that may fault or run out of fuel. Tests holds concrete states and
-- runs.
--
-- Fuel and bounds. The loops of Join, co_cond_broadcast, write, send, co_gethostbyname and the
-- event loop run on fuel; the theorems name the fuel that is enough: more than the items of a
-- list, or that a round can find, or than the bytes. The call stack has 128 places, the table of
-- sockets 102400.
--
-- Not modelled: the time stamp counter and dlsym; the functions of co_epoll.cc that only call the
-- system; the branches for i386, macOS and FreeBSD; and the examples under tests.

pub mod Base
pub mod Link
pub mod Timeout
pub mod Cond
pub mod Mutex
pub mod Fd
pub mod Clock
pub mod Io
pub mod Poll
pub mod Loop
pub mod Wait
pub mod Routine
pub mod Vars
pub mod Context
pub mod Specific
pub mod Dns
pub mod Epoll
pub mod Tests
