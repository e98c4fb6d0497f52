-- ===== src/Session/Promotion.antt =====
-- server_socket.go: what waited in the buffer goes out on the transport that an upgrade promotes.
use go_engine_io.Base.{
  ◌≡◌, refl, ap, sym, ◌∙◌, arith, true, some, List, [], ◌∷◌, ◌++◌, append-nil, append_assoc,
  Option-cases, inl, inr,
}
use go_engine_io.Codec.Packet.{Packet}
use go_engine_io.Session.Socket.{ServerSocket, Transport, is_open}
use go_engine_io.Session.Sections.{
  flush_take, flush_drop, flush_next, done, begin_complete_upgrade, end_upgrade,
}
use go_engine_io.Session.Buffer.{flush_drop-buffer}
use go_engine_io.Session.Operations.{
  World, Effect, emit, put, Transports, sent, flush, complete_upgrade, closes_transport,
  stops_noops, promotes, sends_packets,
}
use go_engine_io.Session.Round.{flush-sent}
use go_engine_io.Session.Bounded.{noops_stopped}

pub flush_take-open :
    (s : ServerSocket) (active : Transport) (packet : Packet) (rest : List Packet)
    → is_open s.state ≡ true
    → s.transport ≡ some active
    → s.write_buffer ≡ packet ∷ rest
    → flush_take s ≡ some (packet ∷ rest, active)
unfolding flush_take
flush_take-open s active packet rest o t b = ground arith

flush_drop-all :
    (s : ServerSocket) (packets : List Packet)
    → s.write_buffer ≡ packets
    → flush_drop packets s ≡ record s { write_buffer = [] }
unfolding flush_drop
flush_drop-all s packets b =
    ground (arith, flush_drop-buffer packets [] s (b ∙ sym (append-nil packets)))

flush_next-done :
    (s : ServerSocket) → is_open s.state ≡ true → flush_next (record s { write_buffer = [] }) ≡ done
unfolding flush_next
flush_next-done s o = ground arith

-- A round of flush in an open session whose transport writes what it is given.
pub flush-open :
    (transports : Transports) (w : World) (active : Transport) (packet : Packet)
    (rest : List Packet)
    → is_open w.socket.state ≡ true
    → w.socket.transport ≡ some active
    → w.socket.write_buffer ≡ packet ∷ rest
    → transports w.effects active (packet ∷ rest) ≡ sent
    → flush transports 1 w ≡ record {
      socket = record w.socket { write_buffer = [] };
      effects = w.effects ++ sends_packets active (packet ∷ rest) ∷ [];
    }
flush-open transports w active packet rest o t b e =
    let drops = flush_drop-all w.socket (packet ∷ rest) b in
    flush-sent transports w (packet ∷ rest) active
      (flush_take-open w.socket active packet rest o t b) e
      (ap flush_next drops ∙ flush_next-done w.socket o)
    ∙ ap (λ s. emit (sends_packets active (packet ∷ rest)) (put s w)) drops

begin_complete_upgrade-matches :
    (probe old : Transport) (s : ServerSocket)
    → s.upgrading ≡ true
    → s.upgrade_transport ≡ some probe
    → s.transport ≡ some old
    → begin_complete_upgrade probe s
      ≡ some (some old, s.probe_noop_stop, record (end_upgrade s) { transport = some probe })
unfolding begin_complete_upgrade
begin_complete_upgrade-matches probe old s u h t = ground arith

-- The flush at the end of completeUpgrade, which has just closed the old transport.
flush-promoted :
    (transports : Transports) (s : ServerSocket) (log : List Effect) (probe old : Transport)
    (packet : Packet) (rest : List Packet)
    → is_open s.state ≡ true
    → s.transport ≡ some probe
    → s.write_buffer ≡ packet ∷ rest
    → ((before : List Effect) → transports before probe (packet ∷ rest) ≡ sent)
    → flush transports 1 (record { socket = s; effects = log ++ closes_transport old ∷ [] })
      ≡ record {
        socket = record s { write_buffer = [] };
        effects = log ++ closes_transport old ∷ sends_packets probe (packet ∷ rest) ∷ [];
      }
flush-promoted transports s log probe old packet rest o t b writes =
    let before = log ++ closes_transport old ∷ [] in
    flush-open transports (record { socket = s; effects = before }) probe packet rest o t b
      (writes before)
    ∙ ap (λ effects. record { socket = record s { write_buffer = [] }; effects = effects })
        (append_assoc log (closes_transport old ∷ []) (sends_packets probe (packet ∷ rest) ∷ []))

-- A probe that is the upgrade in flight of an open session takes over: when it writes what it is
-- given, everything that waited goes out on it at once and in order, after the probe is promoted,
-- its noops are stopped and the old transport is closed.
pub complete_upgrade_delivers :
    (transports : Transports) (w : World) (probe old : Transport) (packet : Packet)
    (rest : List Packet)
    → is_open w.socket.state ≡ true
    → w.socket.upgrading ≡ true
    → w.socket.upgrade_transport ≡ some probe
    → w.socket.transport ≡ some old
    → w.socket.write_buffer ≡ packet ∷ rest
    → ((log : List Effect) → transports log probe (packet ∷ rest) ≡ sent)
    → complete_upgrade transports probe w ≡ record {
      socket = record (end_upgrade w.socket) { transport = some probe; write_buffer = [] };
      effects =
          w.effects
          ++ promotes probe ∷ noops_stopped w.socket.probe_noop_stop
          ++ closes_transport old ∷ sends_packets probe (packet ∷ rest) ∷ [];
    }
unfolding complete_upgrade
complete_upgrade_delivers transports w probe old packet rest o u h t b writes =
    let promoted = record (end_upgrade w.socket) { transport = some probe } in
    elim (Option-cases w.socket.probe_noop_stop) [
      | inl n ↦
          rw (begin_complete_upgrade-matches probe old w.socket u h t, complete_upgrade, n)
            (flush-promoted transports promoted (w.effects ++ promotes probe ∷ []) probe old packet
              rest o refl b writes)
      | inr (stop, n) ↦
          rw (begin_complete_upgrade-matches probe old w.socket u h t, complete_upgrade, n)
            (flush-promoted transports promoted
                (w.effects ++ promotes probe ∷ [] ++ stops_noops stop ∷ []) probe old packet rest o
                refl b writes
              ∙ ap
                  (λ log. record {
                    socket = record promoted { write_buffer = [] };
                    effects =
                        log ++ closes_transport old ∷ sends_packets probe (packet ∷ rest) ∷ [];
                  })
                  (append_assoc w.effects (promotes probe ∷ []) (stops_noops stop ∷ [])))
    ]
