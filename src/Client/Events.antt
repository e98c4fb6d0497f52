-- ===== src/Client/Events.antt =====
-- transport.go: what the events of a transport deliver, and how often it reports its close.
use go_engine_io.Base.{
  ℕ, suc, ◌+◌, ◌≡◌, refl, ap, ◌∙◌, arith, Option, none, some, List, [], ◌∷◌, ◌++◌, append-nil,
}
use go_engine_io.Codec.Packet.{Packet}
use go_engine_io.Session.Socket.{Handler}
use go_engine_io.Client.Transport.{
  TransportEvent, calls_on_open, calls_on_close, calls_on_packet, calls_on_error, closes_connection,
  notify, delivered,
}

pub delivered-append :
    (xs ys : List TransportEvent) → delivered (xs ++ ys) ≡ delivered xs ++ delivered ys
delivered-append [] ys = refl
delivered-append (calls_on_open h ∷ xs) ys = delivered-append xs ys
delivered-append (calls_on_close h ∷ xs) ys = delivered-append xs ys
delivered-append (calls_on_packet h p ∷ xs) ys = ap (◌∷◌ p) (delivered-append xs ys)
delivered-append (calls_on_error h e ∷ xs) ys = delivered-append xs ys
delivered-append (closes_connection c ∷ xs) ys = delivered-append xs ys

-- A handler other than the packet handler delivers nothing.
pub notify-quiet :
    (o : Option Handler) (event : Handler → TransportEvent) (events : List TransportEvent)
    → ((h : Handler) → delivered (event h ∷ []) ≡ [])
    → delivered (notify o event events) ≡ delivered events
notify-quiet none event events k = refl
notify-quiet (some h) event events k =
    delivered-append events (event h ∷ [])
    ∙ ap (λ xs. delivered events ++ xs) (k h)
    ∙ append-nil (delivered events)

pub notify-packet :
    (o : Option Handler) (h : Handler) (p : Packet) (events : List TransportEvent)
    → o ≡ some h
    → delivered (notify o (λ k. calls_on_packet k p) events) ≡ delivered events ++ p ∷ []
notify-packet none h p events e = cc
notify-packet (some k) h p events e = delivered-append events (calls_on_packet k p ∷ [])

-- How often the close handler was called.
abbrev pub close_calls : List TransportEvent → ℕ
close_calls [] = 0
close_calls (calls_on_open h ∷ events) = close_calls events
close_calls (calls_on_close h ∷ events) = suc (close_calls events)
close_calls (calls_on_packet h p ∷ events) = close_calls events
close_calls (calls_on_error h e ∷ events) = close_calls events
close_calls (closes_connection c ∷ events) = close_calls events

pub close_calls-append :
    (xs ys : List TransportEvent) → close_calls (xs ++ ys) ≡ close_calls xs + close_calls ys
close_calls-append [] ys = omega arith
close_calls-append (calls_on_open h ∷ xs) ys = close_calls-append xs ys
close_calls-append (calls_on_close h ∷ xs) ys = omega (arith, close_calls-append xs ys)
close_calls-append (calls_on_packet h p ∷ xs) ys = close_calls-append xs ys
close_calls-append (calls_on_error h e ∷ xs) ys = close_calls-append xs ys
close_calls-append (closes_connection c ∷ xs) ys = close_calls-append xs ys

-- A handler other than the close handler reports no close.
pub notify-no_close :
    (o : Option Handler) (event : Handler → TransportEvent) (events : List TransportEvent)
    → ((h : Handler) → close_calls (event h ∷ []) ≡ 0)
    → close_calls (notify o event events) ≡ close_calls events
notify-no_close none event events k = refl
notify-no_close (some h) event events k =
    omega (arith, close_calls-append events (event h ∷ []), k h)

pub notify-close :
    (o : Option Handler) (h : Handler) (events : List TransportEvent)
    → o ≡ some h
    → close_calls (notify o calls_on_close events) ≡ suc (close_calls events)
notify-close none h events e = cc
notify-close (some k) h events e = omega (arith, close_calls-append events (calls_on_close k ∷ []))
