-- ===== src/Pipes/LocalSocket/Accepts.antt =====
-- Accepting a request to connect.
use xp_os.Prelude.{ℕ, ◌≡◌, ◌≢◌, refl, ap, sym, ◌∙◌, true, List, ◌∷◌, some, ne→==, eq→==}
use xp_os.Prelude.Chain.{◌>>=◌}
use xp_os.Tasks.State.{Manager}
use xp_os.Tasks.Manager.{unblock}
use xp_os.Tasks.WaitQueue.Wake.{IsAwake}
use xp_os.Tasks.WaitQueue.Total.{IsKnown, unblock_total}
use xp_os.Pipes.LocalSocket.{LocalSocket, Sockets, set_socket, accept_from, accept_end}

module _ (s new remote : ℕ) (w : Sockets) (socket new_socket peer : LocalSocket) (requests : List ℕ)
    (found : w.socket s ≡ some socket) (fresh : w.socket new ≡ some new_socket)
    (asks : w.socket remote ≡ some peer) (s_new : new ≢ s) (s_remote : remote ≢ s)
    (new_remote : remote ≢ new) where
  abbrev w1 : Sockets
  w1 = set_socket s (record socket { connection_queue = requests }) w

  abbrev w2 : Sockets
  w2 = set_socket new (record new_socket { endpoint = some remote }) w1

  abbrev w3 : Sockets
  w3 = set_socket remote (record peer { endpoint = some new }) w2

  abbrev w4 : Sockets
  w4 = set_socket new (record new_socket { endpoint = some remote; connected = true }) w3

  accept_from-links :
      (m : Manager)
      → unblock peer.tid w.manager ≡ some m
      → accept_from s new socket (remote ∷ requests) w ≡ some (true, record w4 { manager = m })
  unfolding accept_from
  accept_from-links m woken =
      rw
        (
          ne→== new s s_new,
          ne→== remote s s_remote,
          ne→== remote new new_remote,
          ne→== new remote (λ e. new_remote (sym e)),
          eq→== new new refl,
          eq→== remote remote refl,
        )
        (rw (fresh, asks) (rw woken refl))

  -- A socket that listens has a request. Then accepting it takes it off the list, makes the new
  -- socket and the one that asked the ends of a connection, marks the new one as connected, and wakes
  -- the task that asked, if the task manager knows it.
  pub accept_end-links :
      socket.connection_queue ≡ remote ∷ requests
      → IsKnown w.manager peer.tid
      → (after : Sockets) × (accept_end s new w ≡ some (true, after))
        × (after.socket s ≡ some (record socket { connection_queue = requests }))
        × (after.socket new ≡ some (record new_socket { endpoint = some remote; connected = true }))
        × (after.socket remote ≡ some (record peer { endpoint = some new }))
        × IsAwake after.manager peer.tid
  unfolding accept_end
  accept_end-links first known =
      let (m, woken, awake) = unblock_total peer.tid w.manager known in
      (
        record w4 { manager = m },
        ap (λ o. o >>= (λ (x : LocalSocket). accept_from s new x x.connection_queue w)) found
            ∙ ap (λ q. accept_from s new socket q w) first
            ∙ accept_from-links m woken,
        rw
            (
              ne→== s new (λ e. s_new (sym e)),
              ne→== s remote (λ e. s_remote (sym e)),
              eq→== s s refl,
            )
            refl,
        rw (eq→== new new refl) refl,
        rw (ne→== remote new new_remote, eq→== remote remote refl) refl,
        awake,
      )
