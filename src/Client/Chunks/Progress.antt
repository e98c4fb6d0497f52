-- ===== src/Client/Chunks/Progress.antt =====
-- socket.go: the number that sendChunks returns is that of the packets that it has sent.
use go_engine_io.Base.{
  ℕ, ◌+◌, ◌≡◌, refl, sym, ◌∙◌, ap, arith, Option, none, List, [], ◌∷◌, ◌++◌, length, take, drop,
  append-nil, append_assoc, length-append, take-length-append, drop-length-append, Option-cases,
  inl, inr,
}
use mathlib.Core.Path.{subst}
use go_engine_io.Base.Int.{ℤ}
use go_engine_io.Codec.Packet.{Packet}
use go_engine_io.Client.Chunks.{chunk_packets, Answers, Cause, send_from, send_chunks}
use go_engine_io.Client.Chunks.Sizes.{concat, concat-chunk_packets}

concat-append : (xs ys : List (List Packet)) → concat (xs ++ ys) ≡ concat xs ++ concat ys
concat-append [] ys = refl
concat-append (x ∷ xs) ys =
    ap (◌++◌ x) (concat-append xs ys) ∙ sym (append_assoc x (concat xs) (concat ys))

concat-snoc : (xs : List (List Packet)) (x : List Packet) → concat (xs ++ x ∷ []) ≡ concat xs ++ x
concat-snoc xs x = concat-append xs (x ∷ []) ∙ ap (λ y. concat xs ++ y) (append-nil x)

-- The chunks sent are the first of all, the number is that of their packets, and with no error they
-- are all of them.
pub record Progress (packets : List Packet) (out : List (List Packet) × ℕ × Option Cause)
    : Type 0 where
  pub rest : List Packet
  pub order : packets ≡ concat out.0 ++ rest
  pub number : out.1 ≡ length (concat out.0)
  pub complete : out.2 ≡ none → concat out.0 ≡ packets

send_from-Progress :
    (answers : Answers) (done chunks : List (List Packet)) (sent : ℕ)
    → sent ≡ length (concat done)
    → Progress (concat done ++ concat chunks) (send_from answers done sent chunks)
unfolding send_from
send_from-Progress answers done [] sent e = record {
  rest = [];
  order = refl;
  number = e;
  complete = λ h. sym (append-nil (concat done));
}
send_from-Progress answers done (chunk ∷ chunks) sent e = elim (Option-cases (answers done chunk)) [
  | inl ok ↦
      rw (ok, send_from)
        (rw
          (sym (
            ap (λ packets. packets ++ concat chunks) (concat-snoc done chunk)
            ∙ append_assoc (concat done) chunk (concat chunks)))
          (send_from-Progress answers (done ++ chunk ∷ []) chunks (sent + length chunk) (
            omega
              (arith, e, ap length (concat-snoc done chunk), length-append (concat done) chunk))))
  | inr (cause, bad) ↦
      rw (bad, send_from)
        (record { rest = chunk ++ concat chunks; order = refl; number = e; complete = λ h. cc })
]

module _ (packets : List Packet) (out : List (List Packet) × ℕ × Option Cause)
    (p : Progress packets out) where
  Progress-take : take out.1 packets ≡ concat out.0
  Progress-take =
      ap (take out.1) p.order
      ∙ ap (λ n. take n (concat out.0 ++ p.rest)) p.number
      ∙ take-length-append (concat out.0) p.rest

  Progress-drop : concat out.0 ++ drop out.1 packets ≡ packets
  Progress-drop =
      ap (λ xs. concat out.0 ++ drop out.1 xs) p.order
      ∙ ap (λ n. concat out.0 ++ drop n (concat out.0 ++ p.rest)) p.number
      ∙ ap (◌++◌ (concat out.0)) (drop-length-append (concat out.0) p.rest)
      ∙ sym p.order

-- However the transport answers, the packets of the chunks that sendChunks has sent are the first
-- of its packets, as many as it returns, so that dropping that many leaves exactly those that were
-- not sent; and without an error they are all of the packets.
pub send_chunks-Progress :
    (answers : Answers) (packets : List Packet) (max_payload : ℤ)
    → (take (send_chunks answers packets max_payload).1 packets
        ≡ concat (send_chunks answers packets max_payload).0)
      × (concat (send_chunks answers packets max_payload).0
            ++ drop (send_chunks answers packets max_payload).1 packets
          ≡ packets)
      × ((send_chunks answers packets max_payload).2 ≡ none
          → concat (send_chunks answers packets max_payload).0 ≡ packets)
unfolding send_chunks
send_chunks-Progress answers packets max_payload =
    let out = send_from answers [] 0 (chunk_packets packets max_payload) in
    let p =
      subst (λ xs. Progress xs out) (concat-chunk_packets packets max_payload)
        (send_from-Progress answers [] (chunk_packets packets max_payload) 0 refl) in
    (Progress-take packets out p, Progress-drop packets out p, p.complete)
