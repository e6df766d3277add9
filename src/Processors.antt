-- ===== src/Processors.antt =====
-- varnish-sys/src/vcl/processor.rs: the processors of a vmod behind the callbacks of varnishd, and
-- what they see of the next processor. The registries of filters are in Filters.
pub mod Delivery
pub mod Fetch
pub mod Lifecycle
pub mod Chains
mod Tests
use varnish_rs.Prelude.{
  ℕ, suc, ◌^◌, ◌-◌, Bool, Option, none, some, List, ltb, leb, ℤ, pos, negsuc, if◌then◌else◌,
}
use varnish_rs.Outcome.{Bytes, VclError, Outcome, ok, panic, Exec, assert, pure, gets, ◌>>=◌, ◌>>◌}

pub data PushResult : Type 0 where
  push_err push_ok push_end : PushResult

-- With the number of bytes written.
pub data PullResult : Type 0 where
  pull_err : PullResult
  pull_ok : ℕ → PullResult
  pull_end : ℕ → PullResult

pub data InitResult (T : Type 0) : Type 0 where
  init_err : VclError → InitResult T
  init_ok : T → InitResult T
  init_pass : InitResult T

-- `VdpAction` of varnishd; its C type has other values.
pub data VdpAction : Type 0 where
  act_null act_flush act_end : VdpAction
  act_other : ℕ → VdpAction

pub data VfpStatus : Type 0 where
  vfp_error vfp_ok vfp_end vfp_null : VfpStatus
  vfp_unknown : ℕ → VfpStatus

-- A cast of `usize` to `isize`.
abbrev pub as_isize : ℕ → ℤ
as_isize n = if ltb n (2 ^ 63) then pos n else negsuc (2 ^ 64 - 1 - n)
