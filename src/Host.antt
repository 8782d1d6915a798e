-- ===== src/Host.antt =====
-- What the code takes from its platform: string functions of ECMAScript, `Date.parse`, the ISO check
-- of zod and SHA-256 of node:crypto. None of it is in the repository, so it is a parameter.
use arc_db.Base.{ℕ, String, Bool, Option}
use arc_db.Base.Sort.{IsTotalOrder}

pub record Host : Type 0 where
  -- `s.trim()` and `s.length`, in UTF-16 code units
  pub trim : String → String
  pub utf16_length : String → ℕ
  -- `z.string().datetime({ offset: true })`
  pub iso_date_time : String → Bool
  -- `Date.parse(s)` in milliseconds, from the earliest instant that a Date can hold; none is NaN
  pub date_parse : String → Option ℕ
  -- `a <= b`, the order of `sort()` with no argument
  pub string_leb : String → String → Bool
  -- `a.localeCompare(b) <= 0`
  pub locale_leb : String → String → Bool
  -- `JSON.stringify(s)` of a string
  pub json_string : String → String
  -- `${n}` of an array index
  pub index_text : ℕ → String
  -- `createHash("sha256").update(s, "utf8").digest("hex")`
  pub sha256_hex : String → String

-- The documented behaviour of the order that a theorem names as a hypothesis.
pub record IsLawful (host : Host) : Type 0 where
  pub string_order : IsTotalOrder host.string_leb
