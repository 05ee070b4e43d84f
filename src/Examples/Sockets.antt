-- ===== src/Examples/Sockets.antt =====
-- A socket at port 6000 with one free buffer, and a datagram for it.
use hellfireos.Base.{ℕ, ◌<◌, ◌≤◌, ◌⊎◌, ◌≡◌, refl, some, List, [], ◌∷◌, arith}
use hellfireos.Libc.Memory.{Memory}
use hellfireos.Queue.Valid.{straight, straight-IsQueue}
use hellfireos.Net.Udp.{write_word}
use hellfireos.Uudp.{Socket, Datagram, udp_callback, hf_uudp_recv}
use hellfireos.Uudp.Exchange.{Holds, Given, hf_uudp_recv-udp_callback}

abbrev zeros : Memory
zeros i = 0

-- Four bytes of data.
abbrev incoming : Memory
incoming = write_word (write_word (write_word zeros 2 32) 22 6000) 24 12

abbrev listening : ℕ → List ℕ → Socket
listening port buffers = record {
  listen_port = port;
  free_buffers = straight buffers (0 ∷ 0 ∷ []);
  pkt_queue = straight [] (0 ∷ 0 ∷ 0 ∷ []);
}

abbrev ours : Socket
ours = listening 6000 (5000 ∷ [])

ours-Holds : Holds ours 3 (5000 ∷ []) []
ours-Holds = record {
  free_eq = straight-IsQueue (5000 ∷ []) (0 ∷ 0 ∷ []) (omega arith) (omega arith);
  pkts_eq = straight-IsQueue [] (0 ∷ 0 ∷ 0 ∷ []) (omega arith) (omega arith);
  free_size = refl;
  pkts_size = refl;
}

abbrev other : Socket
other = listening 53 (4000 ∷ [])

hf_uudp_recv-udp_callback_example :
    (s' : Socket) × (m' : Memory) × (udp_callback incoming zeros (other ∷ ours ∷ [])
      ≡ some (other ∷ s' ∷ [], m'))
    × ((j : ℕ) → (j < 5000) ⊎ (6518 ≤ j) → m' j ≡ zeros j)
    × (d : Datagram) × (s'' : Socket) × (hf_uudp_recv zeros m' s' ≡ some (4, some d, s''))
    × Given incoming d
    × Holds s'' 3 (5000 ∷ []) []
hf_uudp_recv-udp_callback_example =
    hf_uudp_recv-udp_callback incoming zeros zeros (other ∷ []) ours [] 5000 [] ours-Holds
      (omega arith) refl (omega arith, tt) (omega arith) (omega arith) (omega arith) (omega arith)
