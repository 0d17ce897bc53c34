-- ===== src/Holepunch/Execute/Outcome.antt =====
-- What a caller of ExecutePunch can rely on: the open sockets, the address that answered, the packets.
use f2p.Prelude.{ℕ, ◌≡◌, [], ◌∷◌, Option, All}
use f2p.Holepunch.{NatType, NatInfo, is_symmetric, PunchMethod}
use f2p.Holepunch.Sockets.{Addr, Net, is_open}
use f2p.Holepunch.Sockets.Held.{IsFresh}
use f2p.Holepunch.Sockets.Hearing.{Arrives}
use f2p.Holepunch.Punch.{punched, Outside}
use f2p.Holepunch.Execute.{execute_punch}
use f2p.Holepunch.Execute.Faithful.{IsAimed, stays_open}
use f2p.Holepunch.Execute.Kept.{IsOpenIn, IsOwner, IsTarget, execute_punch-Faithful}
use f2p.Holepunch.Execute.Ends.{execute_punch-Finishes}

module _ (o : Outside) (mine : NatType) (peer : NatInfo) (method : PunchMethod) (tid : ℕ)
    (sock : Option ℕ) (net : Net) (fresh : IsFresh net) (given : IsOpenIn net sock) where
  -- Whatever arrives and however long it takes, a punch with an open socket or none leaves open the
  -- sockets that were open before it, and beyond them exactly the one that it returns: none of the 84
  -- or 25 others, and none at all after a timeout or when a socket could not be created. (A new
  -- socket has a number that is not in use.)
  pub execute_punch_open :
      (x : ℕ)
      → is_open x (execute_punch o mine peer method tid sock net).0
        ≡ stays_open (execute_punch o mine peer method tid sock net).1 net x
  execute_punch_open =
      (execute_punch-Faithful o mine peer tid net method sock fresh given).owned
        (execute_punch-Finishes o tid net mine peer method sock)

  -- The address that a successful punch returns is one from which a punch packet of this transaction
  -- has arrived, during the punch, at the socket that it returns. (The socket that is passed is open,
  -- and a new one has a number that is not in use.)
  pub execute_punch-Arrives :
      (s : ℕ) (a : Addr)
      → (execute_punch o mine peer method tid sock net).1
        ≡ punched (record { conn = s; remote_addr = a })
      → Arrives tid (s ∷ []) s a o.waits
  execute_punch-Arrives =
      (execute_punch-Faithful o mine peer tid net method sock fresh given).replied

  -- Every datagram that a punch sends is a punch packet of its transaction, and goes to the peer's
  -- address, or from the cone's side of a symmetric NAT to a port from 1 to 65535 of the peer's IP or to
  -- an address from which a packet of the transaction came, or to the peer's address with the predicted
  -- port.
  pub execute_punch-IsAimed :
      All (IsAimed tid (IsTarget mine peer method tid o.waits)) net.sent
      → All
          (IsAimed tid (IsTarget mine peer method tid o.waits))
          (execute_punch o mine peer method tid sock net).0.sent
  execute_punch-IsAimed = (execute_punch-Faithful o mine peer tid net method sock fresh given).aimed

  -- The socket of a successful punch is the one that was passed, from a cone's side, and otherwise one
  -- that was not open before.
  pub execute_punch-IsOwner :
      (s : ℕ) (a : Addr)
      → (execute_punch o mine peer method tid sock net).1
        ≡ punched (record { conn = s; remote_addr = a })
      → IsOwner net (is_symmetric mine) method sock s
  execute_punch-IsOwner = (execute_punch-Faithful o mine peer tid net method sock fresh given).own
