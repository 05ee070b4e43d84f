-- ===== src/Uudp.antt =====
-- net/uudp/uudp.c: `udp_callback` and `hf_uudp_recv`. The list of sockets is given by its elements, and
-- the buffers lie in one memory. `none` is an access that C does not define.
pub mod Exchange
use hellfireos.Base.{
  ℕ, ◌+◌, ◌-◌, Option, some, none, List, [], ◌∷◌, ◌==◌, ltb, if◌then◌else◌, ◌>>=◌,
}
use hellfireos.Libc.Memory.{Memory}
use hellfireos.Queue.{Queue, count, addtail, remhead}
use hellfireos.Task.{err_error}
use hellfireos.Net.Udp.{word}
use hellfireos.Net.Arp.{copy, from}

pub record Socket : Type 0 where
  pub listen_port : ℕ
  pub free_buffers : Queue ℕ
  pub pkt_queue : Queue ℕ

-- `PACKET_SIZE`, the bytes of a buffer.
abbrev pub packet_size : ℕ
packet_size = 1518

-- What follows `hf_queue_remhead(comm_node->free_buffers)`, which leaves the queue `q`. More
-- bytes than a buffer has would be copied behind it.
unfoldable pub fill_buffer :
    Memory → Memory → Socket → Option ℕ → Queue ℕ → Option (Socket × Memory)
fill_buffer packet m s none q = some (record s { free_buffers = q }, m)
fill_buffer packet m s (some buff) q =
    if buff == 0
    then some (record s { free_buffers = q }, m)
    else if ltb packet_size (word packet 2)
    then none
    else (do
      r ← addtail s.pkt_queue buff
      some (record s { free_buffers = q; pkt_queue = r.1 }, copy (word packet 2) m buff packet))

-- The sockets and the memory afterwards.
unfoldable pub udp_callback : Memory → Memory → List Socket → Option (List Socket × Memory)
udp_callback packet m [] = some ([], m)
udp_callback packet m (s ∷ ss) =
    let rest = udp_callback packet m ss in
    if s.listen_port == word packet 22
    then (do r ← remhead s.free_buffers; t ← fill_buffer packet m s r.0 r.1; some (t.0 ∷ ss, t.1))
    else (do r ← rest; some (s ∷ r.0, r.1))

-- What `hf_uudp_recv` writes for its caller.
pub record Datagram : Type 0 where
  pub src_ip : Memory
  pub src_port : ℕ
  pub buf : Memory

-- `PACKET_SIZE - ETH_HEADER_SIZE - UDP_HEADER_SIZE`.
abbrev pub max_size : ℕ
max_size = packet_size - 14 - 8

-- What follows `hf_queue_remhead(comm->pkt_queue)`, which leaves the queue `q`.
unfoldable pub read_buffer :
    Memory → Memory → Socket → Option ℕ → Queue ℕ → Option (ℕ × Option Datagram × Socket)
read_buffer buf m s none q = none
read_buffer buf m s (some ptr) q =
    let packet = from m ptr in
    let len = word packet 24 in
    if ltb max_size len
    then some (err_error, none, record s { pkt_queue = q })
    else if ltb len 8
    then none
    else (do
      r ← addtail s.free_buffers ptr
      some (
        len - 8,
        some (record {
          src_ip = from packet 12;
          src_port = word packet 20;
          buf = copy (len - 8) buf 0 (from packet 28);
        }),
        record s { free_buffers = r.1; pkt_queue = q },
      ))

-- The result, what is written, and the socket.
unfoldable pub hf_uudp_recv : Memory → Memory → Socket → Option (ℕ × Option Datagram × Socket)
hf_uudp_recv buf m s =
    if count s.pkt_queue == 0
    then some (0, none, s)
    else (do r ← remhead s.pkt_queue; read_buffer buf m s r.0 r.1)
