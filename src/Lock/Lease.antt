-- ===== src/Lock/Lease.antt =====
-- internal/lock/lease.go: the terms of a lease, tokens, and how a lease is written and cleared.
-- `crypto/rand` is a parameter: the n-th call of `rand.Read` fills the buffer or fails.
pub mod Bounds
pub mod Tokens
use lockd.Prelude.{
  ℕ, ◌+◌, ◌-◌, ◌/◌, ◌%◌, Bool, false, ◌&&◌, ◌||◌, not, Option, some, none, List, [], ◌∷◌, ◌++◌,
  Text, text, text_eq, is_empty, nat_eq, ltb, leb, ◌==◌, if◌then◌else◌, pos, negsuc, ltb_ℤ, leb_ℤ,
  length, contains,
}
use lockd.Lock.Errors.{ErrorCode, Result, ok, err, core}
use lockd.Lock.Types.{Time, Duration, add_time, next64, Lock, AcquireResult}

abbrev pub min_ttl : Duration
min_ttl = pos 1_000_000_000

abbrev pub max_ttl : Duration
max_ttl = pos 600_000_000_000

abbrev pub default_ttl : Duration
default_ttl = pos 30_000_000_000

abbrev is_zero : Duration → Bool
is_zero (pos n) = n == 0
is_zero (negsuc n) = false

unfoldable pub normalize_ttl : Duration → Duration → Result Duration
normalize_ttl requested fallback =
    let fallback' = if leb_ℤ fallback (pos 0) then default_ttl else fallback in
    let requested' = if is_zero requested then fallback' else requested in
    if ltb_ℤ requested' min_ttl || ltb_ℤ max_ttl requested'
    then err (core ErrorCode.invalid (text "ttl must be between 1s and 10m"))
    else ok requested'

unfoldable pub lease_expiry : Time → Duration → Time
lease_expiry now ttl = add_time now ttl

-- `leaseExpired`: the zero time never expires.
unfoldable pub lease_expired : Time → Time → Bool
lease_expired expires_at now = not (expires_at == 0) && not (ltb now expires_at)

-- `hex.EncodeToString`.
abbrev pub hex_digit : ℕ → ℕ
hex_digit d = if ltb d 10 then 48 + d else 87 + d

unfoldable pub hex_encode : List ℕ → Text
hex_encode [] = []
hex_encode (b ∷ bs) = hex_digit (b / 16) ∷ hex_digit (b % 16) ∷ hex_encode bs

-- `newToken`, from what the call of `rand.Read` gave.
unfoldable pub new_token : Option (List ℕ) → Option Text
new_token none = none
new_token (some buffer) = some (text "tk_" ++ hex_encode buffer)

-- `ttl / 3` rounds towards zero.
abbrev third : Duration → Duration
third (pos n) = pos (n / 3)
third (negsuc n) = if ltb n 2 then pos 0 else negsuc ((n + 1) / 3 - 1)

unfoldable pub renewal_interval : Duration → Duration
renewal_interval ttl =
    let interval = third ttl in
    if ltb_ℤ interval (pos 100_000_000) then pos 100_000_000 else interval

unfoldable pub assign_lease : Lock → Text → Text → Duration → Time → Lock × AcquireResult
unfolding lease_expiry
assign_lease r holder token ttl now = (
  record r {
    holder = holder;
    token = token;
    depth = 1;
    expires_at = lease_expiry now ttl;
    version = next64 r.version;
  },
  record {
    token = token;
    holder = holder;
    depth = 1;
    expires_at = lease_expiry now ttl;
    reentered = false;
  },
)

-- `r.releasedToken[t] = struct{}{}` on the set, which is emptied first when it is full.
unfoldable pub remember : Text → List Text → List Text
remember t tokens =
    let kept = if leb 128 (length tokens) then [] else tokens in
    if contains t kept then kept else t ∷ kept

unfoldable pub clear_lease : Lock → Time → Bool → Lock
clear_lease r now remember_release = record r {
  released_token =
      if not (is_empty r.token) && remember_release
      then remember r.token r.released_token
      else r.released_token;
  holder = [];
  token = [];
  depth = 0;
  expires_at = 0;
  last_idle_at = now;
  version = next64 r.version;
}
