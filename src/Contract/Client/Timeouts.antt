-- ===== src/Contract/Client/Timeouts.antt =====
-- The timeout of NewClient in internal/contract/client.go.
use consent_owner_resolver.Prelude.{ℕ, ◌+◌, ◌*◌, ◌<◌, ◌^◌, ◌≡◌, arith, true, Bytes}
use consent_owner_resolver.Prelude.Int.{
  pos, negsuc, is_positive, milliseconds-period, milliseconds-pos,
}
use consent_owner_resolver.Contract.Client.{new_client}

is_positive-pos : (n : ℕ) → 0 < n → is_positive (pos n) ≡ true
is_positive-pos n h = ground arith

-- A positive timeout of n + k * 2 ^ 58 milliseconds, with n * 10 ^ 6 below 2 ^ 63, is one of
-- n * 10 ^ 6 nanoseconds: as it is written for k = 0, and 0, which is no timeout, for n = 0. A
-- timeout that is not positive is one of 3 seconds.
pub new_client-timeout :
    (base_url : Bytes) (n k : ℕ)
    → n * 1000000 < 2 ^ 63
    → 0 < n + k * 2 ^ 58
    → ((new_client base_url (pos (n + k * 2 ^ 58))).timeout ≡ pos (n * 1000000))
      × ((new_client base_url (pos 0)).timeout ≡ pos 3000000000)
      × ((m : ℕ) → (new_client base_url (negsuc m)).timeout ≡ pos 3000000000)
unfolding new_client
new_client-timeout base_url n k fits positive = (
  rw (is_positive-pos (n + k * 2 ^ 58) positive) (milliseconds-period n k fits),
  milliseconds-pos 3000 (omega arith),
  λ m. milliseconds-pos 3000 (omega arith),
)
