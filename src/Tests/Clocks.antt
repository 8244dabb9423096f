-- ===== src/Tests/Clocks.antt =====
-- GetTickMS and GetPid at concrete values (co_routine.cc, lines 85 to 120).
use jkyi_libco.Base.{◌≡◌, refl}
use jkyi_libco.Clock.{get_tick_ms, get_pid}

tick_test : get_tick_ms (record { sec = 1700000000; usec = 999999 }) ≡ 1700000000999
unfolding get_tick_ms
tick_test = refl

-- A child that has copied its parent's numbers asks for its own.
forked_test : get_pid 8 9 (record { pid = 7; tid = 7 }) ≡ (9, record { pid = 8; tid = 9 })
unfolding get_pid
forked_test = refl
