-- ===== src/Middleware.antt =====
-- src/middleware.rs: the request counter that every request passes.
use ethereum_prototype.Base.{ℕ, ◌+◌, ◌%◌}

-- `Meta`, what a request carries along.
pub record Meta : Type 0 where
  pub id : ℕ

-- `Meta::default()`
abbrev pub default_meta : Meta
default_meta = record { id = 0 }

pub record MyMiddleware : Type 0 where
  pub count : ℕ

-- 2^64, for a `usize` of 64 bits.
abbrev pub usize_mod : ℕ
usize_mod = 18446744073709551616

-- `on_request`: the counter is taken and increased (`fetch_add` wraps), and the request goes on to
-- `next`, whose response is returned as it is.
unfoldable pub on_request {ℓ κ} :
    {A : Type ℓ} {B : Type κ} → MyMiddleware → A → Meta → (A → Meta → B) → MyMiddleware × B
on_request m request meta next = (record { count = (m.count + 1) % usize_mod }, next request meta)
