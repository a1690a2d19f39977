-- ===== src/Platform.antt =====
-- What the program takes from the `iroh` and `tokio` crates and only passes on: connections,
-- endpoints, shutdown signals; the values that users keep in extensions; and how a key is printed.
use zel.Prelude.{ℕ, String}

pub record Platform : Type 1 where
  pub Connection : Type 0
  pub Endpoint : Type 0
  pub Notify : Type 0
  pub Value : Type 0
  pub remote_id : Connection → ℕ
  pub show_key : ℕ → String
