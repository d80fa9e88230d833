-- ===== src/Prelude.antt =====
-- The names that the other modules share: the libraries', passed on, and those of the children.
pub mod Tests
pub mod Lists
pub mod Dict
pub mod Int
pub mod Monad
pub mod Invariants
pub use Tests.*
pub use Lists.*
pub use Int.*
pub use Monad.*
pub use Invariants.*
pub use Dict.{Eq, nat_eq, text_eq, IsFresh, HasUniqueKeys}
pub use Dict.{
  lookup-insert, lookup-insert_self, lookup-delete, lookup_of_IsFresh, IsFresh-of_lookup,
}
pub use Dict.{insert-IsFresh, insert-HasUniqueKeys, delete-IsFresh, delete-HasUniqueKeys}
pub use Dict.{length-insert_fresh, length-delete-some, length_of_lookup}
unfoldable pub use Dict.{lookup, insert, delete}
unfoldable pub use Tests.{str_eq}
unfoldable pub use Monad.{update}
pub use Prim.Native.Nat.{ℕ, zero, suc, ◌+◌, ◌-◌, ◌*◌, ◌/◌, ◌%◌, ◌^◌, ◌≤◌, ◌<◌}
pub use mathlib.Core.Path.{◌≡◌, refl, sym, ap, ap₂, subst, fun_ext, ◌∙◌}
pub use mathlib.Core.Logic.{◌≢◌, ◌↔◌, ◌⊎◌, inl, inr}
pub use mathlib.Core.Bool.{Bool, true, false, not, ◌&&◌, ◌||◌}
pub use mathlib.Core.Option.{Option, none, some}
pub use mathlib.Core.List.{List, [], ◌∷◌, ◌++◌, map}
pub use native.Mathlib.Omega.{arith}
