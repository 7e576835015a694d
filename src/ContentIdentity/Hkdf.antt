-- ===== src/ContentIdentity/Hkdf.antt =====
-- `hkdf_sha256`, RFC 5869 with SHA-256: extract, then the expand loop. HMAC is the hmac module's.
use traigent_schema.Prelude.{
  ℕ, zero, suc, ◌+◌, ◌*◌, ◌≤◌, ◌<◌, ◌≡◌, refl, true, false, ◌&&◌, Option, none, some, [], ◌∷◌, ◌++◌,
  arith, ltb, leb, if◌then◌else◌, length, take, length-take, All, All-take, length-append,
  Bool-cases, inl, inr,
}
use traigent_schema.Python.Result.{Result, ok, err}
use traigent_schema.Merkle.{Bytes}
use traigent_schema.ContentIdentity.Identifier.{IsByte}
use traigent_schema.ContentIdentity.Verify.{IsDigest}

pub data HkdfError : Type 0 where
  -- the ContentIdentityError of the length check
  length_out_of_range : HkdfError
  -- the ValueError of `bytes([counter])`
  counter_out_of_range : HkdfError

module _ (hmac : Bytes → Bytes → Bytes) where
  -- `while len(okm) < length`; `none`: the fuel ran out
  unfoldable pub expand :
      ℕ
      → (prk info : Bytes) (n : ℕ) (okm block : Bytes) (counter : ℕ)
      → Option (Result HkdfError Bytes)
  expand zero prk info n okm block counter = none
  expand (suc fuel) prk info n okm block counter =
      let next = hmac prk (block ++ info ++ counter ∷ []) in
      let rest = expand fuel prk info n (okm ++ next) next (counter + 1) in
      if ltb (length okm) n
      then (if ltb counter 256 then rest else some (err counter_out_of_range))
      else some (ok (take n okm))

  unfoldable pub hkdf_sha256 : (ikm salt info : Bytes) (n : ℕ) → Option (Result HkdfError Bytes)
  unfolding expand
  hkdf_sha256 ikm salt info n =
      if ltb 0 n && leb n (255 * 32)
      then expand (suc n) (hmac salt ikm) info n [] [] 1
      else some (err length_out_of_range)

  module _ (mac_size : (key message : Bytes) → IsDigest (hmac key message)) where
    -- `n` bytes are returned
    abbrev Returns : ℕ → Option (Result HkdfError Bytes) → Type 0
    Returns n r = (out : Bytes) × (r ≡ some (ok out)) × (length out ≡ n) × All IsByte out

    All-append : (s t : Bytes) → All IsByte s → All IsByte t → All IsByte (s ++ t)
    All-append [] t v w = w
    All-append (c ∷ s) t v w = (v.0, All-append s t v.1 w)

    expand-Returns :
        (fuel k : ℕ) (prk info : Bytes) (n : ℕ) (okm block : Bytes)
        → length okm ≡ 32 * k
        → All IsByte okm
        → 0 < fuel
        → n < fuel + length okm
        → n ≤ 255 * 32
        → Returns n (expand fuel prk info n okm block (k + 1))
    unfolding expand
    expand-Returns zero k prk info n okm block size w some_fuel enough h = absurd (omega arith)
    expand-Returns (suc fuel) k prk info n okm block size w some_fuel enough h =
        let next : Bytes = hmac prk (block ++ info ++ (k + 1) ∷ []) in
        let longer : length (okm ++ next) ≡ length okm + 32 =
          omega (arith, length-append okm next, (mac_size prk (block ++ info ++ (k + 1) ∷ [])).0) in
        elim (Bool-cases (ltb (length okm) n)) [
          | inl short ↦
              let in_range : ltb (k + 1) 256 ≡ true = ground (arith, short, size, h) in
              let (out, e, l, b) =
                expand-Returns fuel (k + 1) prk info n (okm ++ next) next
                  (omega (arith, longer, size))
                  (All-append okm next w (mac_size prk (block ++ info ++ (k + 1) ∷ [])).1)
                  (ground (arith, short, enough)) (omega (arith, longer, enough)) h in
              (out, rw (short, in_range) e, l, b)
          | inr long ↦ (
            take n okm,
            rw long refl,
            omega (arith, length-take n okm, at_least (length okm) n long),
            All-take IsByte n okm w,
          )
        ]
      where
        at_least : (a n : ℕ) → ltb a n ≡ false → n ≤ a
        at_least a n h = ground arith

    -- With 32-byte MACs, `hkdf_sha256` returns as many bytes as were asked for, for every length
    -- from 1 to 255 * 32, within that many rounds, and no round's counter leaves the byte range.
    pub length-hkdf_sha256 :
        (ikm salt info : Bytes) (n : ℕ)
        → 0 < n
        → n ≤ 255 * 32
        → (out : Bytes) × (hkdf_sha256 ikm salt info n ≡ some (ok out))
          × (length out ≡ n)
          × All IsByte out
    unfolding hkdf_sha256
    length-hkdf_sha256 ikm salt info n h k =
        let (out, e, l, b) =
          expand-Returns (suc n) 0 (hmac salt ikm) info n [] [] (omega arith) tt (omega arith)
            (omega arith) k in
        let in_range : (ltb 0 n && leb n (255 * 32)) ≡ true = ground (arith, h, k) in
        (out, rw in_range e, l, b)
