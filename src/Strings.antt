-- ===== src/Strings.antt =====
-- Go's `strings` and `strconv`, as far as the program uses them, on bytes.
mod Search
pub mod Space
pub mod Decimal
mod Ascii
unfoldable pub use Search.{has_prefix, contains, index_byte, last_index_byte, contains_any}
pub use Search.{has_prefix-append, contains-append, index_byte-none, last_index_byte-split}
unfoldable pub use Ascii.{to_lower, trim_byte}
unfoldable pub use Space.{trim_space}
pub use Space.{is_blank}
pub use Space.Laws.{is_visible, trim_space_idem, trim_space-visible}
pub use Space.Return.{trim_space-return}
unfoldable pub use Decimal.{format_nat, format_int, atoi}
