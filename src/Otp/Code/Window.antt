-- ===== src/Otp/Code/Window.antt =====
-- The window in which `verify` of totp.rs takes a code.
use qdrust.Base.{
  ℕ, zero, suc, ◌+◌, ◌-◌, ◌*◌, ◌/◌, ◌%◌, ◌^◌, ◌≤◌, ◌<◌, ◌==◌, Text, codes, text_eq, text_eq_refl,
  text_eq→eq, is_empty, keep_if, to_ascii_lowercase, true, false, not, ◌&&◌, some, List, [], ◌∷◌,
  length, get_elem?, All, all, Result, ok, ensure, >>=-elim, ◌≡◌, ◌↔◌, refl, sym, ap, ◌∙◌, arith,
  ◌⊎◌, inl, inr, Bool-cases,
}
use qdrust.Base.Decimal.{to_string}
use qdrust.Otp.Base32.{OtpError, decode_base32, is_kept}
use qdrust.Otp.Code.{
  Hash, sha1, hash_of, be_bytes, pad_zeros, ten_to, byte_at, truncate, code, is_digit, skewed_times,
  try_times, verify,
}
use qdrust.Otp.Code.Shape.{IsDigit, code-digits}

-- What RFC 2104 says of the digests of the three hashes: 20, 32 and 64 bytes.
abbrev pub IsLong : (Hash → List ℕ → List ℕ → List ℕ) → Type 0
IsLong hmac = (hash : Hash) (key message : List ℕ) → 20 ≤ length (hmac hash key message)

get_elem?-lt : (xs : List ℕ) (i : ℕ) → i < length xs → (b : ℕ) × (get_elem? xs i ≡ some b)
get_elem?-lt [] i h = elim h [ ]
get_elem?-lt (x ∷ xs) zero h = (x, refl)
get_elem?-lt (x ∷ xs) (suc i) h = get_elem?-lt xs i (omega (arith, h))

byte_at-lt : (xs : List ℕ) (i : ℕ) → i < length xs → (b : ℕ) × (byte_at xs i ≡ ok b)
unfolding byte_at
byte_at-lt xs i h = let (b, e) = get_elem?-lt xs i h in (b, rw e refl)

-- The window of four bytes lies in the digest.
truncate-lt : (digest : List ℕ) → 20 ≤ length digest → (n : ℕ) × (truncate digest ≡ ok n)
unfolding truncate
truncate-lt digest h =
    let (last, e) = byte_at-lt digest (length digest - 1) (omega (arith, h)) in
    let (a, ea) = byte_at-lt digest (last % 16) (omega (arith, h)) in
    let (b, eb) = byte_at-lt digest (last % 16 + 1) (omega (arith, h)) in
    let (c, ec) = byte_at-lt digest (last % 16 + 2) (omega (arith, h)) in
    let (d, ed) = byte_at-lt digest (last % 16 + 3) (omega (arith, h)) in
    (a % 128 * 2 ^ 24 + b * 2 ^ 16 + c * 2 ^ 8 + d, rw (e, ea, eb, ec, ed) refl)

unfoldable pub Near : ℕ → ℕ → Type 0
Near t now = (t / 30 ≤ now / 30 + 1) × (now / 30 ≤ t / 30 + 1)

module _ (hmac : Hash → List ℕ → List ℕ → List ℕ) where
  abbrev pub login_code : Text → ℕ → Result OtpError Text
  login_code secret t = code hmac secret 6 30 (codes "sha1") t

  -- A code depends on its time by the step of 30 seconds alone.
  same_step :
      (secret : Text) (t u : ℕ) → t / 30 ≡ u / 30 → login_code secret t ≡ login_code secret u
  unfolding code
  same_step secret t u e = rw e refl

  -- Where a secret has a code at one time, it has one at each.
  other_time :
      (secret : Text) (t u : ℕ) {c : Text}
      → IsLong hmac
      → login_code secret t ≡ ok c
      → (d : Text) × (login_code secret u ≡ ok d)
  unfolding code hash_of to_ascii_lowercase
  other_time secret t u {c} long h = >>=-elim (decode_base32 secret) _ h λ key e _.
      let (n, f) = truncate-lt (hmac sha1 key (be_bytes 8 (u / 30))) (long sha1 key _) in
      (pad_zeros 6 (to_string (n % ten_to 6)), rw (e, f) refl)

  try_here :
      (secret submitted : Text) (t : ℕ) (ts : List ℕ)
      → login_code secret t ≡ ok submitted
      → try_times hmac secret submitted (t ∷ ts) ≡ ok true
  unfolding try_times
  try_here secret submitted t ts e = rw (e, text_eq_refl submitted) refl

  try_later :
      (secret submitted : Text) (t : ℕ) (ts : List ℕ) {d : Text}
      → login_code secret t ≡ ok d
      → try_times hmac secret submitted ts ≡ ok true
      → try_times hmac secret submitted (t ∷ ts) ≡ ok true
  unfolding try_times
  try_later secret submitted t ts {d} e h = elim (Bool-cases (text_eq d submitted)) [
    | inl f ↦ rw (e, f) refl
    | inr f ↦ rw (e, f) h
  ]

  -- The codes of the three steps, the first that has the text deciding.
  tried :
      (secret submitted : Text) (a b c : ℕ)
      → try_times hmac secret submitted (a ∷ b ∷ c ∷ []) ≡ ok true
      → (login_code secret a ≡ ok submitted)
        ⊎ (login_code secret b ≡ ok submitted)
        ⊎ (login_code secret c ≡ ok submitted)
  unfolding try_times
  tried secret submitted a b c h = >>=-elim (login_code secret a) _ h λ x e h.
      elim (Bool-cases (text_eq x submitted)) [
        | inl m ↦ inl (e ∙ ap ok (text_eq→eq x submitted m))
        | inr m ↦ >>=-elim (login_code secret b) _ (rw m at h) λ y f h.
            elim (Bool-cases (text_eq y submitted)) [
              | inl n ↦ inr (inl (f ∙ ap ok (text_eq→eq y submitted n)))
              | inr n ↦ >>=-elim (login_code secret c) _ (rw n at h) λ z g h.
                  elim (Bool-cases (text_eq z submitted)) [
                    | inl l ↦ inr (inr (g ∙ ap ok (text_eq→eq z submitted l)))
                    | inr l ↦ cc (rw l at h)
                  ]
            ]
      ]

  all-is_digit : (c : Text) → All IsDigit c → all is_digit c ≡ true
  unfolding is_digit
  all-is_digit [] h = refl
  all-is_digit (x ∷ c) ((p, q), h) = ground (arith, all-is_digit c h)

  tried-Near :
      (secret submitted : Text) (t now : ℕ)
      → IsLong hmac
      → Near t now
      → login_code secret t ≡ ok submitted
      → try_times hmac secret submitted (skewed_times now) ≡ ok true
  unfolding Near
  tried-Near secret submitted t now long (p, q) h =
      let (x, ex) = other_time secret t (now - 30) long h in
      let (y, ey) = other_time secret t now long h in
      elim (steps t now p q) [
        | inl e ↦ try_here secret submitted (now - 30) _ (same_step secret (now - 30) t (sym e) ∙ h)
        | inr (inl e) ↦
            try_later secret submitted (now - 30) _ ex
              (try_here secret submitted now _ (same_step secret now t (sym e) ∙ h))
        | inr (inr e) ↦ try_later secret submitted (now - 30) _ ex (
            try_later secret submitted now _ ey
              (try_here secret submitted (now + 30) _ (same_step secret (now + 30) t (sym e) ∙ h)))
      ]
    where
      steps :
          (t now : ℕ)
          → t / 30 ≤ now / 30 + 1
          → now / 30 ≤ t / 30 + 1
          → (t / 30 ≡ (now - 30) / 30) ⊎ (t / 30 ≡ now / 30) ⊎ (t / 30 ≡ (now + 30) / 30)
      steps t now p q = ground arith

  accepted :
      (secret typed : Text) (now : ℕ)
      → verify hmac secret typed now ≡ ok true
      → (t : ℕ) × Near t now × (login_code secret t ≡ ok (keep_if is_kept typed))
  unfolding verify Near
  accepted secret typed now h =
      >>=-elim (ensure (not (is_empty (keep_if is_kept typed))) _) _ h λ _ _ h.
        >>=-elim
          (ensure (length (keep_if is_kept typed) == 6 && all is_digit (keep_if is_kept typed)) _) _
          h
          λ _ _ h. elim (tried secret (keep_if is_kept typed) (now - 30) now (now + 30) h) [
            | inl e ↦ (now - 30, (omega arith, omega arith), e)
            | inr (inl e) ↦ (now, (omega arith, omega arith), e)
            | inr (inr e) ↦ (now + 30, (omega arith, omega arith), e)
          ]

  full : (c : Text) → length c ≡ 6 → is_empty c ≡ false
  full [] h = absurd (omega (arith, h))
  full (x ∷ c) h = refl

  accepts :
      (secret typed : Text) (now : ℕ)
      → IsLong hmac
      → (t : ℕ) → Near t now
      → login_code secret t ≡ ok (keep_if is_kept typed)
      → verify hmac secret typed now ≡ ok true
  unfolding verify
  accepts secret typed now long t near h =
      let (size, digits) = code-digits hmac secret 6 30 (codes "sha1") t h in
      rw (full (keep_if is_kept typed) size, size, all-is_digit (keep_if is_kept typed) digits)
        (tried-Near secret (keep_if is_kept typed) t now long near h)

  -- With digests of the length that the hashes have, the server takes what was typed exactly when,
  -- without its spaces and dashes, it is the code of the secret at a time whose step of 30
  -- seconds is that of the clock, the one before it or the one after it.
  pub verify-iff-code :
      (secret typed : Text) (now : ℕ)
      → IsLong hmac
      → (verify hmac secret typed now ≡ ok true)
        ↔ ((t : ℕ) × Near t now × (login_code secret t ≡ ok (keep_if is_kept typed)))
  verify-iff-code secret typed now long =
      (accepted secret typed now, λ found. accepts secret typed now long found.0 found.1 found.2)
