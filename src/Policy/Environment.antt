-- ===== src/Policy/Environment.antt =====
-- What the policies read of the JavaScript environment: `window`, and the `navigator` object.
use c_stateless_relay_tran.Base.{String, Bool, Option, ℕ, ◌*◌}
use c_stateless_relay_tran.Base.Number.{Number}

-- `device_memory` is none where the property is missing or no number.
pub record Navigator : Type 0 where
  pub ua_data_mobile : Option Bool
  pub user_agent : String
  pub device_memory : Option Number

pub record Environment : Type 0 where
  pub has_window : Bool
  pub navigator : Option Navigator

abbrev pub mib : ℕ → ℕ
mib n = n * 1048576
