-- ===== src/Residency/Errors.antt =====
-- residency/negative.go: Go errors, as far as the cache looks into them, and the immutable mark.
use gobeyond.Common.{ℕ, String, Bool, true, false}

-- A chain of wrapped errors. `failure b` implements `ImmutableFailure() bool` with the answer `b`.
pub data Err : Type 0 where
  err_closed err_load_panicked : Err
  plain : ℕ → Err
  failure : Bool → Err
  immutable_error : Err → Err
  wrapped : String → Err → Err

-- `errors.As` stops at the first error of the chain that has the method. The errors are chains: a
-- tree that `errors.Join` makes is left out.
unfoldable pub is_immutable : Err → Bool
is_immutable (failure b) = b
is_immutable (immutable_error e) = true
is_immutable (wrapped context e) = is_immutable e
is_immutable _ = false
