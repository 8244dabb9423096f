-- ===== src/Tests/Lists.antt =====
-- The list operations at the store of the tests.
use jkyi_libco.Base.{◌≡◌, refl, [], ◌∷◌, arith}
use jkyi_libco.Base.Run.{fault}
use jkyi_libco.Link.{write, remove_from_link, join}
use jkyi_libco.Link.View.{Updates}
use jkyi_libco.Link.Remove.{without, remove_from_link-Updates}
use jkyi_libco.Link.Join.{join-Updates}
use jkyi_libco.Tests.States.{store, lists, store-Represents, node}

remove_example : Updates store (remove_from_link 1 store) (without 1 lists)
remove_example = remove_from_link-Updates store lists 1 (node 0 2 100) store-Represents refl

join_example :
    Updates store (join 2 100 200 store) (write (write lists 100 (1 ∷ 2 ∷ 3 ∷ [])) 200 [])
join_example =
    join-Updates 2 store lists 100 200 store-Represents (omega arith) (omega arith) (omega arith)

-- An address that holds no item, `NULL` among them, is a fault.
remove_dangling : remove_from_link 9 store ≡ fault
unfolding remove_from_link
remove_dangling = refl
