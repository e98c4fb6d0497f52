-- ===== src/Codec/Payload/Rounds.antt =====
-- One round of the loops over v2 and v3 frames, with respect to their fuel.
use go_engine_io.Base.{ℕ, ◌≤◌, ◌≢◌, inl, inr, List, length}
use go_engine_io.Codec.Packet.{Packet}
use go_engine_io.Codec.Result.{Result, Result-cases, ok, err, out_of_fuel, ◌>>=◌}
use go_engine_io.Codec.Payload.Slice.{Ends}

-- After the frame is read its body is decoded, and `next` goes on with what is left.
pub round-Ends :
    (decode : List ℕ → Result Packet)
    → ((s : List ℕ) → decode s ≢ err out_of_fuel)
    → (r : Result (List ℕ × ℕ × List ℕ)) (n : ℕ) (next : ℕ → List ℕ → Packet → Result (List Packet))
    → Ends n r
    → ((end : ℕ) (after : List ℕ) (p : Packet)
        → length after ≤ n
        → next end after p ≢ err out_of_fuel)
    → (r >>= λ (body, end, after). decode body >>= λ packet. next end after packet)
      ≢ err out_of_fuel
round-Ends decode d (ok (body, end, after)) n next h k = elim (Result-cases (decode body)) [
  | inl (p, e) ↦ rw e (k end after p h)
  | inr (x, e) ↦ rw e (λ q. d body (cc))
]
round-Ends decode d (err e) n next h k = λ q. h (cc)
