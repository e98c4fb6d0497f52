-- ===== src/Server/Store/Laws.antt =====
-- server_session_store.go: the store is a map, with one session under an id.
use go_engine_io.Base.{
  ℕ, ◌+◌, ◌≡◌, refl, ap, sym, ◌∙◌, arith, Option, none, some, List, [], ◌∷◌, if◌then◌else◌, if-both,
  Bool-cases, inl, inr,
}
use go_engine_io.Codec.Packet.{Bytes}
use go_engine_io.Server.Request.{same_bytes, same_bytes_sound, same_bytes_refl}
use go_engine_io.Server.Store.{get, delete, put_session, count}

module _ {ℓ} {Session : Type ℓ} where
  pub get-delete :
      (id k : Bytes) (sessions : List (Bytes × Session))
      → get (delete id sessions) k ≡ (if same_bytes id k then none else get sessions k)
  unfolding get delete
  get-delete id k [] = ground arith
  get-delete id k ((key, socket) ∷ sessions) = elim (Bool-cases (same_bytes key id)) [
    | inl e ↦
        ground
          (arith, e, ap (λ x. same_bytes x k) (same_bytes_sound key id e), get-delete id k sessions)
    | inr e ↦ elim (Bool-cases (same_bytes id k)) [
      | inl s ↦
          ground
            (arith, e, s, ap (same_bytes key) (same_bytes_sound id k s), get-delete id k sessions)
      | inr s ↦ ground (arith, e, s, get-delete id k sessions)
    ]
  ]

  pub get-put_session :
      (id k : Bytes) (socket : Session) (sessions : List (Bytes × Session))
      → get (put_session id socket sessions) k
        ≡ (if same_bytes id k then some socket else get sessions k)
  unfolding get put_session
  get-put_session id k socket sessions = ground (arith, get-delete id k sessions)

  -- Every id that is stored is stored once.
  abbrev pub IsMap : List (Bytes × Session) → Type ℓ
  IsMap [] = Unit {ℓ}
  IsMap ((key, socket) ∷ sessions) = (get sessions key ≡ none) × IsMap sessions

  IsMap-delete :
      (id : Bytes) (sessions : List (Bytes × Session)) → IsMap sessions → IsMap (delete id sessions)
  unfolding delete
  IsMap-delete id [] h = h
  IsMap-delete id ((key, socket) ∷ sessions) (fresh, h) =
      if-both IsMap (same_bytes key id) _ _ (IsMap-delete id sessions h)
        (ground (arith, get-delete id key sessions, fresh), IsMap-delete id sessions h)

  IsMap-put_session :
      (id : Bytes) (socket : Session) (sessions : List (Bytes × Session))
      → IsMap sessions
      → IsMap (put_session id socket sessions)
  unfolding put_session
  IsMap-put_session id socket sessions h =
      (ground (arith, get-delete id id sessions, same_bytes_refl id), IsMap-delete id sessions h)

  abbrev pub one_if_some : Option Session → ℕ
  one_if_some none = 0
  one_if_some (some socket) = 1

  delete-absent :
      (id : Bytes) (sessions : List (Bytes × Session))
      → get sessions id ≡ none
      → delete id sessions ≡ sessions
  unfolding get delete
  delete-absent id [] e = refl
  delete-absent id ((key, socket) ∷ sessions) e = elim (Bool-cases (same_bytes key id)) [
    | inl s ↦ ground (arith, e, s)
    | inr s ↦
        let absent : get sessions id ≡ none = ground (arith, e, s) in
        ground (arith, s, delete-absent id sessions absent)
  ]

  count-delete :
      (id : Bytes) (sessions : List (Bytes × Session))
      → IsMap sessions
      → count (delete id sessions) + one_if_some (get sessions id) ≡ count sessions
  unfolding get delete count
  count-delete id [] h = omega arith
  count-delete id ((key, socket) ∷ sessions) (fresh, h) = elim (Bool-cases (same_bytes key id)) [
    | inl e ↦
        let absent : get sessions id ≡ none =
          sym (ap (get sessions) (same_bytes_sound key id e)) ∙ fresh in
        ground (arith, e, delete-absent id sessions absent)
    | inr e ↦ ground (arith, e, count-delete id sessions h)
  ]

  -- On a store that holds each id once, put and delete change the lookup of their own id alone,
  -- hold each id once again, and delete takes away one session exactly when its id is stored.
  pub stored_once :
      (id k : Bytes) (socket : Session) (sessions : List (Bytes × Session))
      → IsMap sessions
      → (get (put_session id socket sessions) k
          ≡ (if same_bytes id k then some socket else get sessions k))
        × (get (delete id sessions) k ≡ (if same_bytes id k then none else get sessions k))
        × IsMap (put_session id socket sessions)
        × IsMap (delete id sessions)
        × (count (delete id sessions) + one_if_some (get sessions id) ≡ count sessions)
  stored_once id k socket sessions h = (
    get-put_session id k socket sessions,
    get-delete id k sessions,
    IsMap-put_session id socket sessions h,
    IsMap-delete id sessions h,
    count-delete id sessions h,
  )
