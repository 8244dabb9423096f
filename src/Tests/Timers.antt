-- ===== src/Tests/Timers.antt =====
-- The timing wheel at the wheel of the tests.
use jkyi_libco.Base.{◌≡◌, ◌++◌, arith}
use jkyi_libco.Base.Run.{ok}
use jkyi_libco.Link.{Store}
use jkyi_libco.Link.View.{Lists, Represents}
use jkyi_libco.Timeout.{take_all_timeout}
use jkyi_libco.Timeout.Slots.{IsSlot}
use jkyi_libco.Timeout.Add.{InTime}
use jkyi_libco.Timeout.Take.{gather}
use jkyi_libco.Timeout.Expiry.{turned, take_all_timeout-takes}
use jkyi_libco.Tests.States.{
  store, lists, store-Represents, wheel, expire, wheel-IsWheel, wheel-InTime, wheel_short,
}

apart : ¬ (IsSlot wheel 500)
apart h = omega arith

takes_example :
    (t : Store) × (L : Lists) × (take_all_timeout 5 wheel 12 500 store ≡ ok (turned wheel 12, t))
    × Represents t L
    × (L 500 ≡ lists 500 ++ gather wheel lists 0 3)
    × InTime (turned wheel 12) L expire
takes_example =
    take_all_timeout-takes wheel 500 12 lists wheel-IsWheel apart (omega arith) (omega arith)
      (omega arith) 5 store store-Represents wheel_short expire wheel-InTime
