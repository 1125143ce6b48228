-- ===== src/Base.antt =====
-- The names that every module shares: the libraries', passed on, Boolean tests, lists over the
-- native numbers, and the results of the C functions.
pub mod Lists
pub mod Results
mod Tests
pub use Tests.*
pub use Lists.{length, take, drop, All, get_or, set, replicate}
pub use Results.{Code, partial, malformed, fault, stuck, Res, ok, err, ◌>>=◌, ◌>>◌}
pub use Prim.Native.Nat.{ℕ, zero, suc, ◌+◌, ◌-◌, ◌*◌, ◌/◌, ◌%◌, ◌^◌, ◌≤◌, ◌<◌}
pub use mathlib.Core.Path.{◌≡◌, refl, sym, ap, ◌∙◌}
pub use mathlib.Core.Logic.{◌≢◌, ◌↔◌, ◌⊎◌, inl, inr}
pub use mathlib.Core.Bool.{Bool, true, false, not, ◌&&◌, ◌||◌}
pub use mathlib.Core.Option.{Option, none, some}
pub use mathlib.Core.List.{List, [], ◌∷◌, ◌++◌}
pub use native.Mathlib.Omega.{arith}
