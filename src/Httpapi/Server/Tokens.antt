-- ===== src/Httpapi/Server/Tokens.antt =====
-- internal/httpapi/server.go: the texts that `validToken` accepts.
use gigaquizz.Common.{
  ℕ, ◌≡◌, ◌↔◌, refl, ap, ◌∙◌, Bool, true, ◌||◌, [], ◌∷◌, map, get_or, ◌==◌, ==_sound, length, tests,
  Bool-cases, &&_split, inl, inr,
}
use gigaquizz.Common.Bytes.{Bytes, bytes_eq, bytes_eq_sound, bytes_eq_refl, every, is_ascii}
use gigaquizz.Httpapi.Server.{in_range, is_hex, lower_byte, to_lower, valid_token}

abbrev pub is_lower_hex : ℕ → Bool
is_lower_hex b = in_range 48 57 b || in_range 97 102 b

every_all :
    (test other : ℕ → Bool)
    → ((b : ℕ) → test b ≡ true → other b ≡ true)
    → (s : Bytes) → every test s ≡ true
    → every other s ≡ true
every_all test other h [] e = refl
every_all test other h (b ∷ bs) e =
    let (now, rest) = &&_split (test b) (every test bs) e in
    rw (h b now) (every_all test other h bs rest)

hex_ascii : (b : ℕ) → is_hex b ≡ true → is_ascii b ≡ true
hex_ascii b h = grind tests

lower_hex : (b : ℕ) → is_lower_hex b ≡ true → is_hex b ≡ true
lower_hex b h = grind tests

lower_same : (b : ℕ) → is_lower_hex b ≡ true → lower_byte b ≡ b
lower_same b h = grind tests

same_lower : (b : ℕ) → is_hex b ≡ true → b ≡ lower_byte b → is_lower_hex b ≡ true
same_lower b h e = grind tests

map-lower : (s : Bytes) → every is_lower_hex s ≡ true → map lower_byte s ≡ s
map-lower [] h = refl
map-lower (b ∷ bs) h =
    let (now, rest) = &&_split (is_lower_hex b) (every is_lower_hex bs) h in
    cc (lower_same b now, map-lower bs rest)

head_same : (a b : ℕ) (xs ys : Bytes) → a ∷ xs ≡ b ∷ ys → (a ≡ b) × (xs ≡ ys)
head_same a b xs ys h = (ap (λ s. get_or s 0 a) h, ap tail h)
  where
    tail : Bytes → Bytes
    tail [] = []
    tail (b ∷ bs) = bs

map-lower_same :
    (s : Bytes) → every is_hex s ≡ true → s ≡ map lower_byte s → every is_lower_hex s ≡ true
map-lower_same [] h e = refl
map-lower_same (b ∷ bs) h e =
    let (now, rest) = &&_split (is_hex b) (every is_hex bs) h in
    let (same, others) = head_same b (lower_byte b) bs (map lower_byte bs) e in
    rw (same_lower b now same) (map-lower_same bs rest others)

-- A token that passes, and the text that passes.
pub valid_token-lower :
    (unicode : Bytes → Bytes) (s : Bytes)
    → valid_token unicode s ≡ true
    → (length s ≡ 32) × (every is_lower_hex s ≡ true)
unfolding valid_token to_lower
valid_token-lower unicode s h = elim (Bool-cases (length s == 32)) [
  | inr e ↦ cc (rw e at h)
  | inl e ↦ elim (Bool-cases (bytes_eq s (to_lower unicode s))) [
    | inr f ↦ cc (rw (e, f) at h)
    | inl f ↦
        let digits = (&&_split _ _ (rw (e, f) at h)).1 in
        let ascii = every_all is_hex is_ascii hex_ascii s digits in
        (==_sound (length s) 32 e, map-lower_same s digits (bytes_eq_sound _ _ f ∙ rw ascii refl))
  ]
]

-- validToken accepts exactly the strings of 32 bytes in which every byte is a digit or one of the
-- letters a to f, whatever ToLower makes of a string that is not ASCII.
pub valid_token_iff :
    (unicode : Bytes → Bytes) (s : Bytes)
    → (valid_token unicode s ≡ true) ↔ ((length s ≡ 32) × (every is_lower_hex s ≡ true))
unfolding valid_token to_lower
valid_token_iff unicode s = (valid_token-lower unicode s, passes)
  where
    passes : (length s ≡ 32) × (every is_lower_hex s ≡ true) → valid_token unicode s ≡ true
    passes (size, digits) =
        let hex_digits = every_all is_lower_hex is_hex lower_hex s digits in
        let ascii = every_all is_hex is_ascii hex_ascii s hex_digits in
        rw (size, ascii, map-lower s digits, bytes_eq_refl s, hex_digits) refl
