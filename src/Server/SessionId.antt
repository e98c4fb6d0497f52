-- ===== src/Server/SessionId.antt =====
-- server_options.go: the default session id, and what it uses of Go's encoding/base64:
-- RawURLEncoding's EncodeToString.
use go_engine_io.Base.{
  ℕ, ◌+◌, ◌-◌, ◌/◌, ◌%◌, ◌<◌, ◌≡◌, ◌≢◌, refl, arith, Option, none, some, [], ◌∷◌, All, ltb, ◌==◌,
  if◌then◌else◌,
}
use go_engine_io.Codec.Packet.{Bytes, IsByte}
use go_engine_io.Codec.Base64.{word}

-- The URL alphabet at a 6-bit value.
unfoldable pub url_char : ℕ → ℕ
url_char n =
    if ltb n 26
    then n + b'A'
    else if ltb n 52
    then n - 26 + b'a'
    else if ltb n 62
    then n - 52 + b'0'
    else if n == 62
    then b'-'
    else b'_'

-- RawURLEncoding.EncodeToString, which writes no padding.
unfoldable pub raw_url_encode : Bytes → Bytes
raw_url_encode [] = []
raw_url_encode (a ∷ []) = url_char (word a 0 0 / 262144) ∷ url_char (word a 0 0 / 4096 % 64) ∷ []
raw_url_encode (a ∷ b ∷ []) =
    url_char (word a b 0 / 262144)
    ∷ url_char (word a b 0 / 4096 % 64)
    ∷ url_char (word a b 0 / 64 % 64)
    ∷ []
raw_url_encode (a ∷ b ∷ c ∷ rest) =
    url_char (word a b c / 262144)
    ∷ url_char (word a b c / 4096 % 64)
    ∷ url_char (word a b c / 64 % 64)
    ∷ url_char (word a b c % 64)
    ∷ raw_url_encode rest

-- generateSessionID, for what rand.Read fills its buffer with; `none` in both is the failure that it
-- panics on.
unfoldable pub generate_session_id : Option Bytes → Option Bytes
generate_session_id none = none
generate_session_id (some buffer) = some (raw_url_encode buffer)

url_char-injective : (m n : ℕ) → m < 64 → n < 64 → url_char m ≡ url_char n → m ≡ n
unfolding url_char
url_char-injective m n hm hn e = ground arith

-- The digits of a word determine its bytes.
word_bytes :
    (a b c x y z : ℕ)
    → a < 256
    → b < 256
    → c < 256
    → x < 256
    → y < 256
    → z < 256
    → word a b c / 262144 ≡ word x y z / 262144
    → word a b c / 4096 % 64 ≡ word x y z / 4096 % 64
    → word a b c / 64 % 64 ≡ word x y z / 64 % 64
    → word a b c % 64 ≡ word x y z % 64
    → (a ≡ x) × (b ≡ y) × (c ≡ z)
word_bytes a b c x y z ha hb hc hx hy hz p q r s = omega arith

head_eq : {x y : ℕ} {xs ys : Bytes} → (x ∷ xs) ≡ (y ∷ ys) → (x ≡ y) × (xs ≡ ys)
head_eq e = (cc, cc)

-- Two digits of a last group determine its byte, and three its two bytes.
one_byte :
    (a x : ℕ)
    → a < 256
    → x < 256
    → word a 0 0 / 262144 ≡ word x 0 0 / 262144
    → word a 0 0 / 4096 % 64 ≡ word x 0 0 / 4096 % 64
    → a ≡ x
one_byte a x ha hx p q = omega arith

two_bytes :
    (a b x y : ℕ)
    → a < 256
    → b < 256
    → x < 256
    → y < 256
    → word a b 0 / 262144 ≡ word x y 0 / 262144
    → word a b 0 / 4096 % 64 ≡ word x y 0 / 4096 % 64
    → word a b 0 / 64 % 64 ≡ word x y 0 / 64 % 64
    → (a ≡ x) × (b ≡ y)
two_bytes a b x y ha hb hx hy p q r = omega arith

raw_url_encode-injective :
    (s t : Bytes) → All IsByte s → All IsByte t → raw_url_encode s ≡ raw_url_encode t → s ≡ t
unfolding raw_url_encode
raw_url_encode-injective [] [] h k e = refl
raw_url_encode-injective [] (x ∷ []) h k e = cc
raw_url_encode-injective [] (x ∷ y ∷ []) h k e = cc
raw_url_encode-injective [] (x ∷ y ∷ z ∷ t) h k e = cc
raw_url_encode-injective (a ∷ []) [] h k e = cc
raw_url_encode-injective (a ∷ []) (x ∷ []) h k e =
    let (p, e1) = head_eq e in
    let (q, e2) = head_eq e1 in
    let r : a ≡ x =
      one_byte a x h.0 k.0 (url_char-injective _ _ (omega arith) (omega arith) p)
        (url_char-injective _ _ (omega arith) (omega arith) q) in
    cc
raw_url_encode-injective (a ∷ []) (x ∷ y ∷ []) h k e = cc
raw_url_encode-injective (a ∷ []) (x ∷ y ∷ z ∷ t) h k e = cc
raw_url_encode-injective (a ∷ b ∷ []) [] h k e = cc
raw_url_encode-injective (a ∷ b ∷ []) (x ∷ []) h k e = cc
raw_url_encode-injective (a ∷ b ∷ []) (x ∷ y ∷ []) h k e =
    let (p, e1) = head_eq e in
    let (q, e2) = head_eq e1 in
    let (r, e3) = head_eq e2 in
    let (u, v) =
      two_bytes a b x y h.0 h.1.0 k.0 k.1.0 (url_char-injective _ _ (omega arith) (omega arith) p)
        (url_char-injective _ _ (omega arith) (omega arith) q)
        (url_char-injective _ _ (omega arith) (omega arith) r) in
    cc
raw_url_encode-injective (a ∷ b ∷ []) (x ∷ y ∷ z ∷ t) h k e = cc
raw_url_encode-injective (a ∷ b ∷ c ∷ s) [] h k e = cc
raw_url_encode-injective (a ∷ b ∷ c ∷ s) (x ∷ []) h k e = cc
raw_url_encode-injective (a ∷ b ∷ c ∷ s) (x ∷ y ∷ []) h k e = cc
raw_url_encode-injective (a ∷ b ∷ c ∷ s) (x ∷ y ∷ z ∷ t) h k e =
    let (p, e1) = head_eq e in
    let (q, e2) = head_eq e1 in
    let (r, e3) = head_eq e2 in
    let (w, e4) = head_eq e3 in
    let (i, j, l) =
      word_bytes a b c x y z h.0 h.1.0 h.1.1.0 k.0 k.1.0 k.1.1.0
        (url_char-injective _ _ (omega arith) (omega arith) p)
        (url_char-injective _ _ (omega arith) (omega arith) q)
        (url_char-injective _ _ (omega arith) (omega arith) r)
        (url_char-injective _ _ (omega arith) (omega arith) w) in
    let m : s ≡ t = raw_url_encode-injective s t h.1.1.1 k.1.1.1 e4 in cc

-- Two buffers of random bytes that give the same session id are the same buffer.
pub generate_session_id-IsDistinct :
    (s t : Bytes)
    → All IsByte s
    → All IsByte t
    → s ≢ t
    → generate_session_id (some s) ≢ generate_session_id (some t)
unfolding generate_session_id
generate_session_id-IsDistinct s t h k d e =
    d (raw_url_encode-injective s t h k (let x : raw_url_encode s ≡ raw_url_encode t = cc in x))
