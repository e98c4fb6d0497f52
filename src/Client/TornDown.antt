-- ===== src/Client/TornDown.antt =====
-- socket_transport_websocket.go: what a close of the transport does.
use go_engine_io.Base.{
  suc, ◌≡◌, refl, ap, ◌∙◌, arith, false, Option, none, some, [], ◌∷◌, ◌++◌, append-nil,
  Option-cases, inl, inr,
}
use go_engine_io.Session.Socket.{Channel, Handler}
use go_engine_io.Client.Transport.{
  transport_closed, is_transport_closed, TransportError, close_error, calls_on_close,
  calls_on_error, closes_connection, delivered,
}
use go_engine_io.Client.Events.{
  delivered-append, notify-quiet, close_calls, close_calls-append, notify-no_close, notify-close,
}
use go_engine_io.Client.Connected.{
  ConnectedClient, connected_on_close, connected_on_error, Closings, close_held,
}

-- A step that neither delivers a packet nor reports a close.
pub record IsSilent (t next : ConnectedClient) : Type 0 where
  pub same_handlers : next.handlers ≡ t.handlers
  pub same_delivered : delivered next.events ≡ delivered t.events
  pub same_closes : close_calls next.events ≡ close_calls t.events

pub connected_on_error-IsSilent :
    (e : TransportError) (t : ConnectedClient) → IsSilent t (connected_on_error e t)
unfolding connected_on_error
connected_on_error-IsSilent e t = record {
  same_handlers = refl;
  same_delivered =
      notify-quiet t.handlers.on_error_handler (λ h. calls_on_error h e) t.events (λ h. refl);
  same_closes =
      notify-no_close t.handlers.on_error_handler (λ h. calls_on_error h e) t.events (λ h. refl);
}

IsSilent-trans : (a b c : ConnectedClient) → IsSilent a b → IsSilent b c → IsSilent a c
IsSilent-trans a b c s u = record {
  same_handlers = u.same_handlers ∙ s.same_handlers;
  same_delivered = u.same_delivered ∙ s.same_delivered;
  same_closes = u.same_closes ∙ s.same_closes;
}

closes-IsSilent :
    (held : Channel) (t : ConnectedClient)
    → IsSilent t (record t { events = t.events ++ closes_connection held ∷ [] })
closes-IsSilent held t = record {
  same_handlers = refl;
  same_delivered =
      delivered-append t.events (closes_connection held ∷ []) ∙ append-nil (delivered t.events);
  same_closes = omega (arith, close_calls-append t.events (closes_connection held ∷ []));
}

close_held-IsSilent :
    (closings : Closings) (o : Option Channel) (t : ConnectedClient)
    → IsSilent t (close_held closings o t)
close_held-IsSilent closings none t = record {
  same_handlers = refl;
  same_delivered = refl;
  same_closes = refl;
}
close_held-IsSilent closings (some held) t =
    let closed = record t { events = t.events ++ closes_connection held ∷ [] } in
    elim (Option-cases (closings held)) [
      | inl e ↦ rw (e, close_held) (closes-IsSilent held t)
      | inr (cause, e) ↦
          rw (e, close_held)
            (IsSilent-trans t closed (connected_on_error (close_error cause) closed)
              (closes-IsSilent held t) (connected_on_error-IsSilent (close_error cause) closed))
    ]

pub close_held-state :
    (closings : Closings) (o : Option Channel) (t : ConnectedClient)
    → ((close_held closings o t).state ≡ t.state)
      × ((close_held closings o t).connection ≡ t.connection)
unfolding connected_on_error
close_held-state closings none t = (refl, refl)
close_held-state closings (some held) t = elim (Option-cases (closings held)) [
  | inl e ↦ rw (e, close_held) (refl, refl)
  | inr (cause, e) ↦ rw (e, close_held) (refl, refl)
]

-- What onClose does to a transport that is not closed.
pub record IsTornDown (t next : ConnectedClient) : Type 0 where
  pub closed : next.state ≡ transport_closed
  pub released : next.connection ≡ none
  pub same_delivered : delivered next.events ≡ delivered t.events
  pub one_close : close_calls next.events ≡ suc (close_calls t.events)

pub connected_on_close-IsTornDown :
    (closings : Closings) (k : Handler) (t : ConnectedClient)
    → t.handlers.on_close_handler ≡ some k
    → is_transport_closed t.state ≡ false
    → IsTornDown t (connected_on_close closings t)
unfolding connected_on_close
connected_on_close-IsTornDown closings k t e c =
    let gone = record t { state = transport_closed; connection = none } in
    let torn = close_held closings t.connection gone in
    let silent = close_held-IsSilent closings t.connection gone in
    let (same_state, same_connection) = close_held-state closings t.connection gone in
    rw c (record {
      closed = same_state;
      released = same_connection;
      same_delivered =
          notify-quiet t.handlers.on_close_handler calls_on_close torn.events (λ h. refl)
          ∙ silent.same_delivered;
      one_close =
          notify-close t.handlers.on_close_handler k torn.events e ∙ ap suc silent.same_closes;
    })
