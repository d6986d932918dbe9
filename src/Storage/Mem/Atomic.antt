-- ===== src/Storage/Mem/Atomic.antt =====
-- Transactions of services/storage are atomic, and they give the lock back.
use Prim.Native.String.{String}
use kapacitor.Prelude.{Option, none, some, false, ◌≡◌, arith}
use kapacitor.Prelude.Dict.{Dict}
use kapacitor.Storage.Kinds.{Err}
use kapacitor.Storage.Mem.{MemStore, MemTx, un_committed, do_update, do_view}

-- The map that an update leaves, by the error of its function.
abbrev pub settled : Dict String → Dict String → Option Err → Dict String
settled before after none = after
settled before after (some e) = before

-- An update whose function neither commits nor rolls back by itself takes effect whole if the
-- function returns no error and not at all if it returns one, passes the error on, and gives the
-- lock back in both cases.
pub do_update_atomic :
    (s : MemStore) (f : MemTx → MemTx × Option Err)
    → s.locked ≡ false
    → (f (record { state = un_committed; store = s.store })).0.state ≡ un_committed
    → let (t, e) = f (record { state = un_committed; store = s.store }) in
      do_update s f ≡ some (record { store = settled s.store t.store e; locked = false }, e)
unfolding do_update
do_update_atomic s f free open_still = ground arith

-- A view changes nothing, whatever its function does to its copy, and gives the lock back.
pub do_view_lem {ℓ} :
    {A : Type ℓ} (s : MemStore) (f : MemTx → A)
    → s.locked ≡ false
    → do_view s f ≡ some (s, f (record { state = un_committed; store = s.store }))
unfolding do_view
do_view_lem s f free = ground arith
