-- ===== src/Signature/Laws.antt =====
-- src/auth/signature/signature.guard.ts: what the guard has checked when it lets a request through.
use luoluo_auth.Common.{
  ℕ, ◌+◌, ◌≤◌, ◌≡◌, ◌↔◌, inl, inr, refl, String, Bool, true, Option, some, List, truthy, get_or,
  arith, Option-cases,
}
use luoluo_auth.Common.Text.{ℤ, pos, negsuc, parse_int}
use luoluo_auth.Signature.{SignatureConfig, is_timestamp_valid, verify_signature}
use luoluo_auth.Signature.Guard.{
  NonceStoreApi, SignedRequest, pass, extract_header, header_name, timestamp_header, nonce_header,
  tolerance, payload_of, check_nonce, check_signature, with_timestamp, can_activate,
}

-- The header is there, and not empty.
abbrev pub given : SignedRequest → String → Bool
given q name = truthy (extract_header q name)

abbrev pub value : SignedRequest → String → String
value q name = get_or (extract_header q name) ""

-- A timestamp lies no further from the time than the tolerance, on either side.
abbrev pub IsTimely : ℕ → ℤ → ℕ → Type 0
IsTimely now (pos t) tolerance = (now ≤ t + tolerance) × (t ≤ now + tolerance)
IsTimely now (negsuc n) tolerance = now + n + 1 ≤ tolerance

pub is_timestamp_valid_iff :
    (now : ℕ) (timestamp : ℤ) (tolerance : ℕ)
    → (is_timestamp_valid now timestamp tolerance ≡ true) ↔ IsTimely now timestamp tolerance
unfolding is_timestamp_valid
is_timestamp_valid_iff now (pos t) tolerance =
    (λ h. (ground (arith, h), ground (arith, h)), λ (a, b). ground (arith, a, b))
is_timestamp_valid_iff now (negsuc n) tolerance = (λ h. ground (arith, h), λ h. ground (arith, h))

module _ (hmac : String → String → String) (bytes : String → List ℕ) (c : SignatureConfig)
    {N : Type 0} (api : Option (NonceStoreApi N)) where
  -- What a request needs at a time, for the number in its timestamp header.
  pub record IsSigned (s : N) (now : ℕ) (q : SignedRequest) (timestamp : ℤ) : Type 0 where
    pub has_signature : given q (header_name c) ≡ true
    pub has_timestamp : given q (timestamp_header c) ≡ true
    pub has_nonce : given q (nonce_header c) ≡ true
    pub parsed : parse_int (value q (timestamp_header c)) ≡ some timestamp
    pub timely : IsTimely now timestamp (tolerance c)
    pub fresh : (check_nonce hmac bytes c api s now (value q (nonce_header c))).1 ≡ true
    pub verified :
        verify_signature hmac bytes
          (payload_of q timestamp (value q (nonce_header c)))
          (value q (header_name c))
          c.secret
        ≡ true

  with_timestamp-pass :
      (s : N) (now : ℕ) (q : SignedRequest) (timestamp : ℤ) (nonce signature : String)
      → (with_timestamp hmac bytes c api s now q timestamp nonce signature).1 ≡ pass
      → (is_timestamp_valid now timestamp (tolerance c) ≡ true)
        × ((check_nonce hmac bytes c api s now nonce).1 ≡ true)
        × (verify_signature hmac bytes (payload_of q timestamp nonce) signature c.secret ≡ true)
  unfolding with_timestamp check_signature
  with_timestamp-pass s now q timestamp nonce signature h = ground arith

  signed-with_timestamp :
      (s : N) (now : ℕ) (q : SignedRequest) (timestamp : ℤ) (nonce signature : String)
      → is_timestamp_valid now timestamp (tolerance c) ≡ true
      → (check_nonce hmac bytes c api s now nonce).1 ≡ true
      → verify_signature hmac bytes (payload_of q timestamp nonce) signature c.secret ≡ true
      → (with_timestamp hmac bytes c api s now q timestamp nonce signature).1 ≡ pass
  unfolding with_timestamp check_signature
  signed-with_timestamp s now q timestamp nonce signature a b e = ground arith

  can_activate-parsed :
      (s : N) (now : ℕ) (q : SignedRequest) (timestamp : ℤ)
      → given q (header_name c) ≡ true
      → given q (timestamp_header c) ≡ true
      → given q (nonce_header c) ≡ true
      → parse_int (value q (timestamp_header c)) ≡ some timestamp
      → can_activate hmac bytes c api s now q
        ≡ with_timestamp hmac bytes c api s now q timestamp
            (value q (nonce_header c))
            (value q (header_name c))
  unfolding can_activate
  can_activate-parsed s now q timestamp a b e p = rw (a, b, e, p) refl

  can_activate-given :
      (s : N) (now : ℕ) (q : SignedRequest)
      → (can_activate hmac bytes c api s now q).1 ≡ pass
      → (given q (header_name c) ≡ true)
        × (given q (timestamp_header c) ≡ true)
        × (given q (nonce_header c) ≡ true)
        × ((timestamp : ℤ) × (parse_int (value q (timestamp_header c)) ≡ some timestamp))
  unfolding can_activate
  can_activate-given s now q h = elim (Option-cases (parse_int (value q (timestamp_header c)))) [
    | inl e ↦ absurd (ground arith)
    | inr (timestamp, e) ↦ (ground arith, ground arith, ground arith, (timestamp, e))
  ]

  -- The guard lets a request through exactly if its three headers are there, its timestamp is a
  -- number within the tolerance of the time, the nonce store accepts its nonce, and its
  -- signature verifies for its method, path, timestamp, nonce and body.
  pub can_activate_iff :
      (s : N) (now : ℕ) (q : SignedRequest)
      → ((can_activate hmac bytes c api s now q).1 ≡ pass)
        ↔ ((timestamp : ℤ) × IsSigned s now q timestamp)
  can_activate_iff s now q = (
    λ h.
        let (a, b, e, (timestamp, p)) = can_activate-given s now q h in
        let (timely, fresh, verified) =
          with_timestamp-pass s now q timestamp (value q (nonce_header c)) (value q (header_name c))
            (rw (can_activate-parsed s now q timestamp a b e p) at h) in
        (
          timestamp,
          record {
            has_signature = a;
            has_timestamp = b;
            has_nonce = e;
            parsed = p;
            timely = (is_timestamp_valid_iff now timestamp (tolerance c)).0 timely;
            fresh = fresh;
            verified = verified;
          },
        ),
    λ (timestamp, x).
        rw
          (can_activate-parsed s now q timestamp x.has_signature x.has_timestamp x.has_nonce
            x.parsed)
          (signed-with_timestamp s now q timestamp (value q (nonce_header c))
            (value q (header_name c))
            ((is_timestamp_valid_iff now timestamp (tolerance c)).1 x.timely) x.fresh x.verified),
  )
