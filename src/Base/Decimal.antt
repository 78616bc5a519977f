-- ===== src/Base/Decimal.antt =====
-- `strconv.Itoa`, `strconv.Atoi` and `strconv.ParseInt` to the base ten.
mod Defs
mod RoundTrip
unfoldable pub use Defs.{itoa, parse_int, atoi}
pub use Defs.{max_int}
pub use RoundTrip.{
  atoi-itoa, parse_int-itoa, itoa_bytes, itoa-ne-nil, size-itoa, digits_lack, IsDigit,
}
