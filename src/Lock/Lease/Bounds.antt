-- ===== src/Lock/Lease/Bounds.antt =====
-- The terms that `normalizeTTL` accepts, and the deadlines and tokens that leases carry.
use lockd.Prelude.{
  ℕ, zero, suc, ◌<◌, ◌≡◌, Option, some, List, ◌∷◌, Text, text, arith, pos, negsuc, ◌≤ℤ◌, ◌⊎◌,
}
use lockd.Lock.Errors.{ErrorCode, ok, err, core}
use lockd.Lock.Types.{Time, Duration}
use lockd.Lock.Lease.{min_ttl, max_ttl, default_ttl, normalize_ttl, lease_expiry, new_token}

abbrev pub InRange : Duration → Type 0
InRange ttl = (min_ttl ≤ℤ ttl) × (ttl ≤ℤ max_ttl)

pub normalize_ttl-InRange :
    (requested fallback : Duration) {ttl : Duration}
    → normalize_ttl requested fallback ≡ ok ttl
    → InRange ttl
unfolding normalize_ttl
normalize_ttl-InRange requested fallback h = ground arith

-- The term of a request: its own, or the record's for 0, or 30 seconds if that is not positive.
abbrev pub Asks : Duration → Duration → Duration → Type 0
Asks (pos zero) (pos zero) ttl = ttl ≡ default_ttl
Asks (pos zero) (pos (suc n)) ttl = ttl ≡ pos (suc n)
Asks (pos zero) (negsuc n) ttl = ttl ≡ default_ttl
Asks (pos (suc n)) fallback ttl = ttl ≡ pos (suc n)
Asks (negsuc n) fallback ttl = ttl ≡ negsuc n

-- normalizeTTL gives the term that was asked for (the record's for 0, and 30 seconds if that is
-- not positive) if it is between one second and ten minutes, and refuses every other request as
-- invalid.
pub normalize_ttl_exact :
    (requested fallback ttl : Duration)
    → Asks requested fallback ttl
    → (InRange ttl × (normalize_ttl requested fallback ≡ ok ttl))
      ⊎ ((¬ InRange ttl)
          × (normalize_ttl requested fallback
              ≡ err (core ErrorCode.invalid (text "ttl must be between 1s and 10m"))))
unfolding normalize_ttl
normalize_ttl_exact (pos zero) (pos zero) ttl asks = ground arith
normalize_ttl_exact (pos zero) (pos (suc n)) ttl asks = ground arith
normalize_ttl_exact (pos zero) (negsuc n) ttl asks = ground arith
normalize_ttl_exact (pos (suc n)) fallback ttl asks = ground arith
normalize_ttl_exact (negsuc n) fallback ttl asks = ground arith

-- A lease of an accepted term ends after it begins.
pub lease_expiry-lt : (now : Time) (ttl : Duration) → InRange ttl → now < lease_expiry now ttl
unfolding lease_expiry
lease_expiry-lt now ttl h = ground arith

-- A token is never empty.
pub new_token_nonempty :
    (buffer : Option (List ℕ)) {token : Text}
    → new_token buffer ≡ some token
    → (rest : Text) × (token ≡ 116 ∷ rest)
unfolding new_token text
new_token_nonempty buffer h = ground arith
