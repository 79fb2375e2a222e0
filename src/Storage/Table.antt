-- ===== src/Storage/Table.antt =====
-- The tables of the embedded database, as an interface: `redb`, which the source calls and does not
-- implement. A write transaction is a sequence of these calls; an error drops all of them.
mod Rows
mod Api
mod Totals
pub use Api.*
pub use Rows.{
  lookup, IsDistinct, weight_of, without, without-IsDistinct, lookup-without, put, put-IsDistinct,
  lookup-put,
}
unfoldable pub use Rows.{total_rows}
unfoldable pub use Totals.{total}
pub use Totals.{total-fresh, total-insert, total-remove, total_positive, weight-le-total}
