-- ===== src/Prelude.antt =====
-- Names shared by all modules: the libraries', passed on, and those of the children.
mod Tests
mod Lists
mod Texts
mod Words
pub mod Int
pub mod Masks
pub mod Joins
pub use Tests.*
pub use Lists.*
pub use Words.*
pub use Texts.{
  Bytes, Text, codes, to_lower, lower, lower_idem, eq_bytes_iff, join_dots-split_dots,
  split_dots-cons, dots, rstrip_dots-append, rstrip_dots-stripped,
}
unfoldable pub use Texts.{eq_bytes, mem_bytes, rstrip_dots, split_dots, join_dots}
pub use Prim.Native.Nat.{
  ℕ, zero, suc, ◌+◌, ◌-◌, ◌*◌, ◌/◌, ◌%◌, ◌^◌, ◌≤◌, ◌<◌, min, max, bit_and, bit_or,
}
pub use mathlib.Core.Path.{◌≡◌, refl, sym, ap, ◌∙◌, ◌≡⟨◌⟩◌, ◌∎}
pub use mathlib.Core.Logic.{◌≢◌, ◌↔◌, ◌⊎◌, inl, inr}
pub use mathlib.Core.Bool.{Bool, true, false, not, ◌&&◌, ◌||◌}
pub use mathlib.Core.Option.{Option, none, some}
pub use mathlib.Core.List.{List, [], ◌∷◌, ◌++◌, map, append-nil, append_assoc}
unfoldable pub use mathlib.Core.List.{flatten}
pub use native.Mathlib.Omega.{arith}
