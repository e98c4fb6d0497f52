-- ===== src/Codec/Result.antt =====
-- The errors of the codec, and Go's pair of a value and an error.
use go_engine_io.Base.{◌≡◌, refl, ◌⊎◌, inl, inr}

-- The sentinel errors, without the text that wraps them. `eof` and `unexpected_eof` are the two
-- errors of io.ReadFull. Three are no error values of Go: `slice_panic` is the panic of a slice
-- expression out of range, `makeslice_panic` that of make([]byte, n) at a length that does not fit
-- an int, and `out_of_fuel` says that a loop of the model ran out of rounds.
pub data Error : Type 0 where
  empty_packet invalid_packet_type corrupt_base64 malformed_payload : Error
  unsupported_protocol_version frame_too_large eof unexpected_eof : Error
  slice_panic makeslice_panic out_of_fuel : Error

pub data Result {ℓ} (Value : Type ℓ) : Type ℓ where
  err : Error → Result Value
  ok : Value → Result Value

module _ {ℓ} {Value : Type ℓ} where
  -- Every outcome is a value or an error.
  pub Result-cases :
      (r : Result Value) → ((v : Value) × (r ≡ ok v)) ⊎ ((cause : Error) × (r ≡ err cause))
  Result-cases (err cause) = inr (cause, refl)
  Result-cases (ok v) = inl (v, refl)

  module _ {κ} {Next : Type κ} where
    infixl 5 ◌>>=◌
    -- `if err != nil { return err }` before the rest of a function.
    abbrev pub ◌>>=◌ : Result Value → (Value → Result Next) → Result Next
    err cause >>= next = err cause
    ok v >>= next = next v

    -- What a function that returned a value has got past.
    pub >>=-eq-ok :
        (r : Result Value) (next : Value → Result Next) {out : Next}
        → (r >>= next) ≡ ok out
        → (v : Value) × (r ≡ ok v) × (next v ≡ ok out)
    >>=-eq-ok (err cause) next e = cc
    >>=-eq-ok (ok v) next e = (v, refl, e)
