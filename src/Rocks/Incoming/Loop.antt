-- ===== src/Rocks/Incoming/Loop.antt =====
-- What the listener of `RocksIncoming` spawns.
use rocks.Base.{ℕ, zero, suc, ◌<◌, ◌≡◌, refl, List, [], ◌∷◌, map, length, none, some, arith}
use rocks.Error.{Result}
use rocks.Rocks.Incoming.{
  RocksIncoming, Sockets, start_server, client, accept_all, start_on, start_impl,
}

module _ {C N E L S : Type 0} (sockets : Sockets C N E L S) where
  -- What a listener gives, accepts and errors, until it ends.
  pub data Gives : L → List (Result E S) → Type 0 where
    ends : {l : L} → (sockets.next l).0 ≡ none → Gives l []
    gives :
        {l : L} {s : Result E S} {ss : List (Result E S)}
        → (sockets.next l).0 ≡ some s
        → Gives (sockets.next l).1 ss
        → Gives l (s ∷ ss)

  accept_all-Gives :
      (n : ℕ) {l : L} {ss : List (Result E S)}
      → Gives l ss
      → length ss < n
      → accept_all sockets n l ≡ some (map client ss)
  unfolding accept_all
  accept_all-Gives zero g enough = absurd (omega arith)
  accept_all-Gives (suc n) (ends h) enough = rw (h, accept_all) refl
  accept_all-Gives (suc n) (gives h g) enough =
      rw (h, accept_all, accept_all-Gives n g (omega arith)) refl

  -- Where the listener is bound, the hyper server is started on the fallback address, and then each
  -- stream and each error of an accept gets a task of its own, in order: an accept that fails does not
  -- end the loop, which returns when the listener ends.
  pub start_impl_spawns :
      {K X : Type 0} (this : RocksIncoming C K X) {l : L} {ss : List (Result E S)} (n : ℕ)
      → sockets.bind this.listen_addr ≡ Result.ok l
      → Gives l ss
      → length ss < n
      → start_impl sockets n this
        ≡ some (Result.ok tt, start_server this.fallback_addr ∷ map client ss)
  unfolding start_impl start_on
  start_impl_spawns this n bound g enough = rw (bound, accept_all-Gives n g enough) refl
